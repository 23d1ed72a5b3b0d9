-- ===== src/Agent/Verdicts.antt =====
-- rca_agent/agent.py: `parse_verdict`; rca_agent/schema.py: `Verdict.to_dict`.
use rca_claude_agent.Verdict.Schema.{
  Verdict, EvidenceLink, insufficient_evidence, low, unknown, verdict_label,
}
use rca_claude_agent.Agent.Parse.{
  read_confidence, read_triage, confidence_value, parse_links, triage_value, parse_cause_categories,
  cause_value, EvidenceDict, VerdictDict,
}
use rca_claude_agent.Prelude.{
  starts_with, map, none, if◌then◌else◌, [], strip, ◌∷◌, Option, some, cut, String,
}
use rca_claude_agent.Fix.Answer.{in_braces, to_brace, unfence, from_brace}
use rca_claude_agent.Gitlab.Server.{or_else}

-- the dict of one piece of evidence
abbrev pub link_dict : EvidenceLink → EvidenceDict
link_dict e = record {
  kind = some e.kind;
  ref = some e.ref;
  detail = some e.detail;
  url = some e.url;
}

-- `to_dict`; the disclaimer is left out
unfoldable pub to_dict : Verdict → VerdictDict
to_dict v = record {
  ticket = some v.ticket;
  probable_root_cause = some v.probable_root_cause;
  tldr = some v.tldr;
  headline = some v.headline;
  plain_summary = some v.plain_summary;
  cause_categories = some (map cause_value v.cause_categories);
  cause_category = none;
  evidence_chain = some (map link_dict v.evidence_chain);
  is_regression = v.is_regression;
  introducing_mr = v.introducing_mr;
  triage = some (triage_value v.triage);
  confidence = some (confidence_value v.confidence);
  suggested_next_action = some v.suggested_next_action;
  candidates = some v.candidates;
  blast_radius = some v.blast_radius;
  notes = some v.notes;
  verdict_label = some (verdict_label v);
}

-- the verdict of a dict
unfoldable pub verdict_of : VerdictDict → (ticket_key : String) → Verdict
verdict_of d ticket_key = record {
  ticket = or_else d.ticket ticket_key;
  probable_root_cause = or_else d.probable_root_cause "";
  tldr = or_else d.tldr "";
  headline = or_else d.headline "";
  plain_summary = or_else d.plain_summary "";
  cause_categories = parse_cause_categories d;
  evidence_chain = parse_links (or_else d.evidence_chain []);
  is_regression = d.is_regression;
  introducing_mr = d.introducing_mr;
  triage = read_triage d.triage;
  confidence = read_confidence d.confidence;
  suggested_next_action = or_else d.suggested_next_action "";
  candidates = or_else d.candidates [];
  blast_radius = [];
  notes = or_else d.notes "";
}

-- the outermost braces of a text, if it has a pair in order, and else the text
abbrev pub isolated : String → Option String → String
isolated raw none = raw
isolated raw (some s) = s

unfoldable pub outermost : String → Option String
unfolding from_brace to_brace
outermost raw = in_braces (from_brace raw)

-- the verdict of an output that is no JSON
abbrev pub unparsed : (text ticket_key : String) → Verdict
unfolding cut
unparsed text ticket_key = record {
  ticket = ticket_key;
  probable_root_cause = "Agent output was not valid JSON.";
  tldr = "";
  headline = "";
  plain_summary = "";
  cause_categories = unknown ∷ [];
  evidence_chain = [];
  is_regression = none;
  introducing_mr = none;
  triage = insufficient_evidence;
  confidence = low;
  suggested_next_action = "";
  candidates = [];
  blast_radius = [];
  notes = cut 500 text;
}

abbrev pub parsed_or : (text ticket_key : String) → Option VerdictDict → Verdict
unfolding verdict_of unparsed
parsed_or text ticket_key none = unparsed text ticket_key
parsed_or text ticket_key (some d) = verdict_of d ticket_key

-- `parse_verdict`. The parameter is `json.loads` of a text that holds a dict, `none` where it raises.
unfoldable pub parse_verdict : (String → Option VerdictDict) → (text ticket_key : String) → Verdict
unfolding parsed_or outermost unfence strip
parse_verdict loads text ticket_key =
    let raw = strip text in
    let bare = if starts_with raw "```" then unfence raw else raw in
    parsed_or text ticket_key (loads (isolated bare (outermost bare)))
