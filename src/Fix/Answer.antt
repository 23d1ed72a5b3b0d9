-- ===== src/Fix/Answer.antt =====
-- rca_agent/fix_agent.py: the prompt's evidence (`_candidate_projects`, `_caveats`,
-- `_evidence_block`), the loop over the model's messages, and `_parse_json`.
use rca_claude_agent.Verdict.Schema.{is_ours, is_low, shows_code, EvidenceLink, Verdict}
use Prim.Native.Char.{Char, code}
use rca_claude_agent.Prelude.{
  any, not, ◌++◌, starts_with, is_some, ◌=ℕ◌, [], true, ◌&&◌, contains, ◌==◌, none, false, ◌∷◌,
  if◌then◌else◌, some, strip, Bool, List, Option, String,
}
use rca_claude_agent.Fix.Edits.{Proposed, drop_chars}

abbrev first : Option (String × String × String) → Option String
first none = none
first (some (project, ref, path)) = some project

-- `e.get("url")`, `_parse_blob_url(url)`: the project of a link, if it names one; the regular
-- expression's answer is a parameter
abbrev pub project_of : (String → Option (String × String × String)) → EvidenceLink → Option String
project_of parse_blob_url e = if e.url == "" then none else first (parse_blob_url e.url)

abbrev with_new : List String → Option String → List String
with_new projs none = projs
with_new projs (some p) = if contains projs p then projs else projs ++ p ∷ []

abbrev cites_code : EvidenceLink → Bool
cites_code e = shows_code e && not (e.url == "")

-- `_candidate_projects`
unfoldable pub candidate_projects :
    (String → Option (String × String × String)) → List String → List EvidenceLink → List String
candidate_projects parse_blob_url projs [] = projs
candidate_projects parse_blob_url projs (e ∷ es) =
    candidate_projects parse_blob_url
      (if cites_code e then with_new projs (project_of parse_blob_url e) else projs) es

abbrev pub is_cons {ℓ} : {A : Type ℓ} → List A → Bool
is_cons [] = false
is_cons (x ∷ xs) = true

-- `_caveats`; the list of causes that a message quotes is left out
unfoldable pub caveats : Verdict → Bool → List String
caveats v explored =
    "AI-suggested fix — review before applying. Nothing has been pushed."
      ∷ (if explored
          then "This fix was assembled by exploring the repo and may span code the RCA did not originally pin — treat it as a starting point, not a trusted patch."
            ∷ []
          else [])
    ++ (if is_low v.confidence
        then "The RCA diagnosis is LOW confidence, so this fix is exploratory." ∷ []
        else [])
    ++ (if is_cons v.cause_categories && not (any is_ours v.cause_categories)
        then "RCA cause is (not our code) — any change here is likely a robustness/UX improvement, not the actual bug fix."
          ∷ []
        else [])

-- `s.find("{")`: the text from there on
unfoldable pub from_brace : String → Option String
from_brace String.[] = none
from_brace (String.◌∷◌ c s) = if code c =ℕ 123 then some (String.◌∷◌ c s) else from_brace s

abbrev push_char : Char → Option String → Option String
push_char c none = none
push_char c (some s) = some (String.◌∷◌ c s)

-- `s[:s.rfind("}") + 1]`, if there is one
unfoldable pub to_brace : String → Option String
to_brace String.[] = none
to_brace (String.◌∷◌ c s) =
    let rest = to_brace s in
    if is_some rest
    then push_char c rest
    else if code c =ℕ 125
    then some (String.◌∷◌ c String.[])
    else none

-- the text before the first t
unfoldable pub before_mark : String → String → String
before_mark t String.[] = String.[]
before_mark t (String.◌∷◌ c s) =
    let rest = String.◌∷◌ c (before_mark t s) in
    if starts_with (String.◌∷◌ c s) t then String.[] else rest

-- `s.rstrip("`")`
unfoldable pub strip_ticks : String → String
strip_ticks String.[] = String.[]
strip_ticks (String.◌∷◌ c s) =
    let rest = strip_ticks s in
    if (code c =ℕ 96) && (rest == String.[]) then String.[] else String.◌∷◌ c rest

-- what a fence holds: `raw.split("```", 2)[1]`, with its language dropped
unfoldable pub unfence : String → String
unfolding before_mark strip strip_ticks
unfence raw =
    let inner = before_mark "```" (drop_chars 3 raw) in
    strip (strip_ticks (strip (if starts_with inner "json" then drop_chars 4 inner else inner)))

-- the model's answer, as `json.loads` gives it
pub record FixAnswer : Type 0 where
  pub fixable : Bool
  pub reason : Option String
  pub rationale : String
  pub edits : List Proposed

abbrev pub in_braces : Option String → Option String
in_braces none = none
in_braces (some s) = to_brace s

abbrev load : (String → Option FixAnswer) → Option String → Option FixAnswer
load loads none = none
load loads (some s) = loads s

-- `_parse_json`. The parameter is `json.loads`, `none` where it raises and where it gives something
-- else than a dict with keys.
unfoldable pub parse_json : (String → Option FixAnswer) → String → Option FixAnswer
unfolding unfence from_brace to_brace strip
parse_json loads text =
    let raw = strip text in
    load loads (in_braces (from_brace (if starts_with raw "```" then unfence raw else raw)))
