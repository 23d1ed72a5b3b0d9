-- ===== src/Verdict/Samples.antt =====
-- A verdict for the tests.
use rca_claude_agent.Verdict.Schema.{Confidence, Triage, CauseCategory, Verdict}
use rca_claude_agent.Prelude.{◌==◌, true, if◌then◌else◌, some, none, [], ◌∷◌, Bool}
use rca_claude_agent.Verdict.Verify.{Sources}
use rca_claude_agent.Review.World.{raised, returned}

abbrev pub fault : Verdict
fault = record {
  ticket = "AUT-1";
  probable_root_cause = "The total adds the tax twice";
  tldr = "Totals are too high";
  headline = "The invoice total counts tax twice since !12";
  plain_summary = "";
  cause_categories = CauseCategory.code ∷ [];
  evidence_chain =
      record { kind = "file_content"; ref = "tax.py:8"; detail = "adds the tax again"; url = "" }
      ∷ record { kind = "merge_request"; ref = "!12"; detail = "moved the tax"; url = "mr-12" }
      ∷ [];
  is_regression = some true;
  introducing_mr = some "!12";
  triage = Triage.real_bug;
  confidence = Confidence.high;
  suggested_next_action = "";
  candidates = [];
  blast_radius = [];
  notes = "";
}

-- no clone, and a GitLab that answers every question with `found`, or cannot be reached
abbrev pub gitlab : Bool → Sources
gitlab found = record {
  repos = none;
  get_file_lines = λ proj ref path. if found then returned tt else raised "HTTPError" "503";
  get_commit = λ proj sha. if found then returned (some "Move tax") else raised "HTTPError" "503";
  get_merge_request =
      λ proj iid. if found then returned (some "Move tax") else raised "HTTPError" "503";
  parse_commit_url = λ url. none;
  parse_mr_url = λ url. if url == "mr-12" then some ("acme/billing", 12) else none;
  parse_blob_url = λ url. none;
  strip_line = λ ref. ref;
}
