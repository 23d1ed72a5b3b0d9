-- ===== src/Fix/Suggest.antt =====
-- rca_agent/fix_agent.py: the loop of `_explore_and_generate` over the model's messages, and
-- `suggest_fix`.
use rca_claude_agent.Verdict.Schema.{Verdict}
use rca_claude_agent.Review.World.{Outcome, returned, raised}
use rca_claude_agent.Prelude.{
  ◌++◌, take, any, ◌<>◌, map, ◌&&◌, ◌||◌, none, [], not, ◌==◌, true, false, if◌then◌else◌, some,
  ◌∷◌, Bool, cut, Option, List, ℕ, String,
}
use rca_claude_agent.Fix.Build.{
  same_key, place_of, FileFix, Fetched, FixSuggestion, Python, build_files, Place,
}
use rca_claude_agent.Fix.Answer.{is_cons, caveats, candidate_projects, parse_json, FixAnswer}
use rca_claude_agent.Fix.Edits.{Proposed}
use rca_claude_agent.Fix.Prompt.{fix_prompt}

-- a message of the SDK, as the loop reads it: the texts of an answer; or a result with its subtype,
-- its text and `is_error`
pub data FixMessage : Type 0 where
  assistant_texts : List String → FixMessage
  run_result : Option String → String → Bool → FixMessage
  unread : FixMessage

-- `final = block.text` for each text block
abbrev last_text : String → List String → String
last_text final [] = final
last_text final (t ∷ ts) = last_text t ts

abbrev is_max_turns : Option String → Bool
is_max_turns none = false
is_max_turns (some s) = s == "error_max_turns"

abbrev pub is_success : Option String → Bool
is_success none = true
is_success (some s) = s == "success"

abbrev pub quoted_subtype : Option String → String
quoted_subtype none = "None"
quoted_subtype (some s) = s

-- the loop, with the text so far
unfoldable pub explore : String → List FixMessage → Outcome String
unfolding cut
explore final [] = returned final
explore final (assistant_texts ts ∷ ms) = explore (last_text final ts) ms
explore final (run_result subtype text is_error ∷ ms) =
    let rest = explore (if text == "" then final else text) ms in
    if is_max_turns subtype
    then returned final
    else if not (is_success subtype) || is_error
    then raised "RuntimeError"
        ("fix agent run failed (" <> quoted_subtype subtype <> "): " <> cut 160 text)
    else rest
explore final (unread ∷ ms) = explore final ms

-- What `suggest_fix` asks of the world: the model's messages for a prompt, `json.loads`, the regular
-- expression of `_parse_blob_url`, the GitLab client, and the standard library.
pub record FixWorld : Type 0 where
  pub messages : String → List FixMessage
  pub loads : String → Option FixAnswer
  pub parse_blob_url : String → Option (String × String × String)
  pub default_ref : String → Outcome String
  pub get_file : String → String → String → Outcome String
  pub python : Python

abbrev pub no_fix : String → List String → FixSuggestion
no_fix reason cs = record {
  fixable = false;
  rationale = "";
  files = [];
  reason = reason;
  caveats = cs;
}

-- `if not e.get("project") and candidates: e["project"] = candidates[0]`
unfoldable pub with_project : List String → Proposed → Proposed
with_project [] e = e
with_project (p ∷ ps) e = if e.project == "" then record e { project = p } else e

-- the loop that collects the distinct places of the edits
unfoldable pub places : List Place → List Proposed → List Place
places ks [] = ks
places ks (e ∷ es) =
    let k = place_of e in
    places (if not (k.1 == "") && not (any (λ j. same_key j k) ks) then ks ++ k ∷ [] else ks) es

-- `_MAX_EDIT_FILES`
abbrev pub max_edit_files : ℕ
max_edit_files = 8

-- what `client.get_file` gives is kept, and its exception dropped
abbrev pub keep_text : Place → String → Outcome String → Fetched → Fetched
keep_text k ref (raised type text) rest = rest
keep_text k ref (returned raw) rest = (k, (ref, raw)) ∷ rest

abbrev pub read_at : FixWorld → Place → Outcome String → Fetched → Fetched
read_at W k (raised type text) rest = rest
read_at W k (returned ref) rest = keep_text k ref (W.get_file k.0 ref k.1) rest

-- the loop that fetches the files: one that cannot be read is left out
unfoldable pub fetch_files : FixWorld → List Place → Fetched
fetch_files W [] = []
fetch_files W (k ∷ ks) =
    let rest = fetch_files W ks in if k.0 == "" then rest else read_at W k (W.default_ref k.0) rest

abbrev pub or_no_edits : FixAnswer → List String → List FileFix → FixSuggestion
or_no_edits answer cs [] = no_fix "the fix agent marked it fixable but proposed no edits" cs
or_no_edits answer cs (f ∷ fs) = record {
  fixable = true;
  rationale = answer.rationale;
  files = f ∷ fs;
  reason = "";
  caveats = cs;
}

abbrev or_default : Option String → String
or_default none = "no fix proposed"
or_default (some r) = r

-- what `suggest_fix` makes of the parsed answer
unfoldable pub from_answer : FixWorld → List String → List String → Option FixAnswer → FixSuggestion
unfolding with_project places fetch_files build_files
from_answer W candidates cs none =
    no_fix "the fix agent did not return a valid fix (it may have run out of exploration steps)" cs
from_answer W candidates cs (some answer) =
    if not answer.fixable
    then no_fix (or_default answer.reason) cs
    else let edits = map (with_project candidates) answer.edits in
      or_no_edits answer cs
        (build_files W.python edits (fetch_files W (take max_edit_files (places [] edits))))

abbrev pub explored_answer :
    FixWorld → List String → List String → Outcome String → Outcome FixSuggestion
unfolding from_answer parse_json
explored_answer W candidates cs (raised type text) = raised type text
explored_answer W candidates cs (returned text) =
    returned (from_answer W candidates cs (parse_json W.loads text))

-- `suggest_fix`
unfoldable pub suggest : FixWorld → Verdict → Outcome FixSuggestion
unfolding candidate_projects caveats explore fix_prompt
suggest W v =
    let candidates = candidate_projects W.parse_blob_url [] v.evidence_chain in
    if is_cons candidates
    then explored_answer W candidates (caveats v true)
        (explore "" (W.messages (fix_prompt W.parse_blob_url v candidates)))
    else returned (
        no_fix
          "The RCA did not pin any code location (file:line), so there is no repo/starting point for a fix."
          (caveats v false))
