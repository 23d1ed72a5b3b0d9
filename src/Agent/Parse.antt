-- ===== src/Agent/Parse.antt =====
-- rca_agent/agent.py: `parse_verdict`; rca_agent/schema.py: `Verdict.to_dict` and the enums' values.
use rca_claude_agent.Verdict.Schema.{
  EvidenceLink, Confidence, high, medium, low, Triage, real_bug, config, environment,
  likely_duplicate, insufficient_evidence, CauseCategory, data_cause, infrastructure, third_party,
  user_side, ux, unknown,
}
use rca_claude_agent.Verdict.Schema.{code as code_cause}
use rca_claude_agent.Prelude.{
  none, ◌++◌, any, ◌==◌, [], ◌∷◌, some, Bool, if◌then◌else◌, List, Option, String,
}
use rca_claude_agent.Gitlab.Server.{or_else}

-- the values of the enums
unfoldable pub confidence_value : Confidence → String
confidence_value high = "high"
confidence_value medium = "medium"
confidence_value low = "low"

unfoldable pub triage_value : Triage → String
triage_value real_bug = "real_bug"
triage_value config = "config"
triage_value environment = "environment"
triage_value likely_duplicate = "likely_duplicate"
triage_value insufficient_evidence = "insufficient_evidence"

unfoldable pub cause_value : CauseCategory → String
cause_value code_cause = "code"
cause_value data_cause = "data"
cause_value infrastructure = "infrastructure"
cause_value third_party = "third_party"
cause_value user_side = "user_side"
cause_value ux = "ux"
cause_value unknown = "unknown"

-- `Confidence(s)` if it is a value of the enum, and so for the others
unfoldable pub confidence_of : String → Option Confidence
confidence_of s =
    if s == "high"
    then some high
    else if s == "medium"
    then some medium
    else if s == "low"
    then some low
    else none

unfoldable pub triage_of : String → Option Triage
triage_of s =
    if s == "real_bug"
    then some real_bug
    else if s == "config"
    then some config
    else if s == "environment"
    then some environment
    else if s == "likely_duplicate"
    then some likely_duplicate
    else if s == "insufficient_evidence"
    then some insufficient_evidence
    else none

unfoldable pub cause_of : String → Option CauseCategory
cause_of s =
    if s == "code"
    then some code_cause
    else if s == "data"
    then some data_cause
    else if s == "infrastructure"
    then some infrastructure
    else if s == "third_party"
    then some third_party
    else if s == "user_side"
    then some user_side
    else if s == "ux"
    then some ux
    else if s == "unknown"
    then some unknown
    else none

-- an item of `evidence_chain`, by its keys
pub record EvidenceDict : Type 0 where
  pub kind : Option String
  pub ref : Option String
  pub detail : Option String
  pub url : Option String

-- A verdict as a dict, by the keys that it has: `cause_categories` is `none` where it is missing or no
-- list; an item of the evidence that is no dict has no keys here.
pub record VerdictDict : Type 0 where
  pub ticket : Option String
  pub probable_root_cause : Option String
  pub tldr : Option String
  pub headline : Option String
  pub plain_summary : Option String
  pub cause_categories : Option (List String)
  pub cause_category : Option String
  pub evidence_chain : Option (List EvidenceDict)
  pub is_regression : Option Bool
  pub introducing_mr : Option String
  pub triage : Option String
  pub confidence : Option String
  pub suggested_next_action : Option String
  pub candidates : Option (List String)
  pub blast_radius : Option (List String)
  pub notes : Option String
  pub verdict_label : Option String

-- `CauseCategory(v) not in out`, by the value
unfoldable pub has_cause : CauseCategory → List CauseCategory → Bool
unfolding cause_value
has_cause c out = any (λ d. cause_value d == cause_value c) out

-- one round of the loop of `_parse_cause_categories`
unfoldable pub add_cause : List CauseCategory → Option CauseCategory → List CauseCategory
unfolding has_cause
add_cause out none = out
add_cause out (some c) = if has_cause c out then out else out ++ c ∷ []

unfoldable pub add_causes : List CauseCategory → List String → List CauseCategory
unfolding add_cause cause_of
add_causes out [] = out
add_causes out (v ∷ vs) = add_causes (add_cause out (cause_of v)) vs

-- the list that is read: that of `cause_categories`, or the legacy key
abbrev pub raw_causes : Option (List String) → Option String → List String
raw_causes (some vs) one = vs
raw_causes none none = []
raw_causes none (some v) = if v == "" then [] else v ∷ []

abbrev pub or_unknown : List CauseCategory → List CauseCategory
or_unknown [] = unknown ∷ []
or_unknown (c ∷ cs) = c ∷ cs

-- `_parse_cause_categories`
unfoldable pub parse_cause_categories : VerdictDict → List CauseCategory
unfolding add_causes
parse_cause_categories d =
    or_unknown (add_causes [] (raw_causes d.cause_categories d.cause_category))

-- the evidence whose items have the keys
abbrev pub with_keys :
    Option String → Option String → Option String → String → List EvidenceLink → List EvidenceLink
with_keys (some kind) (some ref) (some detail) url rest =
    record { kind = kind; ref = ref; detail = detail; url = url } ∷ rest
with_keys _ _ _ url rest = rest

unfoldable pub parse_links : List EvidenceDict → List EvidenceLink
parse_links [] = []
parse_links (e ∷ es) = with_keys e.kind e.ref e.detail (or_else e.url "") (parse_links es)

unfoldable pub read_triage : Option String → Triage
unfolding triage_of
read_triage none = insufficient_evidence
read_triage (some s) = or_else (triage_of s) insufficient_evidence

unfoldable pub read_confidence : Option String → Confidence
unfolding confidence_of
read_confidence none = low
read_confidence (some s) = or_else (confidence_of s) low
