-- ===== src/Verdict/Schema.antt =====
-- rca_agent/schema.py: the verdict, and the answers that are derived from it.
use rca_claude_agent.Prelude.{
  none, ◌++◌, ◌∷◌, any, false, find, [], ◌==◌, ◌||◌, true, some, if◌then◌else◌, Bool, ◌<>◌, Option,
  List, String,
}

pub data Confidence : Type 0 where
  high medium low : Confidence

pub data Triage : Type 0 where
  real_bug config environment likely_duplicate insufficient_evidence : Triage

pub data CauseCategory : Type 0 where
  code data_cause infrastructure third_party user_side ux unknown : CauseCategory

pub record EvidenceLink : Type 0 where
  pub kind : String
  pub ref : String
  pub detail : String
  pub url : String

pub record Verdict : Type 0 where
  pub ticket : String
  pub probable_root_cause : String
  pub tldr : String
  pub headline : String
  pub plain_summary : String
  pub cause_categories : List CauseCategory
  pub evidence_chain : List EvidenceLink
  pub is_regression : Option Bool
  pub introducing_mr : Option String
  pub triage : Triage
  pub confidence : Confidence
  pub suggested_next_action : String
  pub candidates : List String
  pub blast_radius : List String
  pub notes : String

-- `_regression_str`
unfoldable pub regression_str : Option Bool → String
regression_str none = "unknown"
regression_str (some true) = "yes"
regression_str (some false) = "no"

-- `_TRIAGE_WORDS`
unfoldable pub triage_words : Triage → String
triage_words real_bug = "Real bug"
triage_words config = "Setting / setup issue"
triage_words environment = "Server / environment issue"
triage_words likely_duplicate = "Probably a duplicate ticket"
triage_words insufficient_evidence = "Not enough evidence yet"

-- `_plain_status`
unfoldable pub plain_status : Verdict → String
unfolding triage_words regression_str
plain_status v =
    triage_words v.triage <> " · Started after a recent change: " <> regression_str v.is_regression

-- the causes that are ours
abbrev pub is_ours : CauseCategory → Bool
is_ours code = true
is_ours data_cause = true
is_ours infrastructure = true
is_ours _ = false

-- the causes that are not
abbrev pub is_theirs : CauseCategory → Bool
is_theirs user_side = true
is_theirs third_party = true
is_theirs ux = true
is_theirs _ = false

abbrev pub is_low : Confidence → Bool
is_low low = true
is_low _ = false

abbrev pub is_insufficient : Triage → Bool
is_insufficient insufficient_evidence = true
is_insufficient _ = false

unfoldable pub verdict_label : Verdict → String
verdict_label v =
    if is_insufficient v.triage || is_low v.confidence
    then "Needs review"
    else if any is_ours v.cause_categories
    then "Issue Accepted"
    else if any is_theirs v.cause_categories
    then "Not a BUG"
    else "Needs review"

-- where the code is
abbrev pub shows_code : EvidenceLink → Bool
shows_code e = (e.kind == "file_content") || (e.kind == "stack_frame") || (e.kind == "blame")

-- what introduced it
abbrev pub shows_mr : EvidenceLink → Bool
shows_mr e = e.kind == "merge_request"

abbrev pub found_links : Option EvidenceLink → List EvidenceLink
found_links none = []
found_links (some e) = e ∷ []

-- `_key_links`
unfoldable pub key_links : Verdict → List EvidenceLink
key_links v =
    found_links (find shows_code v.evidence_chain) ++ found_links (find shows_mr v.evidence_chain)
