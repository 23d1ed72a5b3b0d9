-- ===== src/Agent/Run.antt =====
-- rca_agent/investigation.py: `investigate`.
use rca_claude_agent.Review.World.{Outcome, returned, raised}
use rca_claude_agent.Verdict.Schema.{Verdict, EvidenceLink, unknown}
use rca_claude_agent.Gitlab.Server.{web_blob_url, Commit, MergeRequest}
use rca_claude_agent.Agent.Trace.{
  no_trace_verdict, Routed, confirm_frame, plain_verdict, frame_ref, Tools,
}
use rca_claude_agent.Prelude.{
  map, ◌==◌, [], if◌then◌else◌, ◌∷◌, some, none, ◌<>◌, Option, List, Bool, String,
}
use rca_claude_agent.Trace.Frames.{parse_stack_trace, crash_site, Frame}
use rca_claude_agent.Agent.Investigate.{
  blast_radius_of, regression, change_links, plain_of, introducing, headline_of, synthesize,
  in_symbol, Change,
}

-- What is known of the trace's place: the ticket, the project with the routed candidates, the ref, and
-- the frame of the crash.
pub record Site : Type 0 where
  pub ticket_key : String
  pub project : String
  pub routed : List Routed
  pub ref : String
  pub crash : Frame

abbrev pub crash_url : Tools → Site → String
crash_url T s = web_blob_url T.gitlab_url s.project s.ref s.crash.path (some s.crash.line)

abbrev pub trace_detail : Frame → String
trace_detail f = "Crash site from ticket trace: `" <> f.raw <> "`" <> in_symbol " in " "" f.symbol

-- the evidence of the trace itself
abbrev pub trace_link : Tools → Site → EvidenceLink
trace_link T s = record {
  kind = "stack_frame";
  ref = frame_ref s.crash;
  detail = trace_detail s.crash;
  url = crash_url T s;
}

abbrev pub repo_note : String → List Routed → String
repo_note project [] = "Repo pinned to " <> project <> " (--project)."
repo_note project (c ∷ cs) = "Repo routed to " <> project <> " (score " <> c.score <> ")."

-- the verdict at the end of the chain
unfoldable pub final_verdict : Tools → Site → EvidenceLink → Bool → Option Change → Verdict
final_verdict T s file_ev confirmed change =
    let url = crash_url T s in
    let said = synthesize confirmed s.crash change in
    record {
      ticket = s.ticket_key;
      probable_root_cause = said.1.1.0;
      tldr = "";
      headline = headline_of s.crash change (introducing change);
      plain_summary = plain_of s.crash change (introducing change);
      cause_categories = unknown ∷ [];
      evidence_chain =
          trace_link T s
          ∷ (record file_ev { url = if file_ev.url == "" then url else file_ev.url })
          ∷ change_links T.gitlab_url s.project url s.crash change;
      is_regression = regression change;
      introducing_mr = introducing change;
      triage = said.1.0;
      confidence = said.0;
      suggested_next_action = said.1.1.1;
      candidates = [];
      blast_radius = blast_radius_of T s.project s.crash.symbol;
      notes = repo_note s.project s.routed;
    }

-- `mrs[0]`, if there is one
abbrev pub first_mr : List MergeRequest → Option MergeRequest
first_mr [] = none
first_mr (m ∷ ms) = some m

unfoldable pub with_mrs :
    Tools → Site → EvidenceLink → Bool → Commit → Outcome (List MergeRequest) → Outcome Verdict
with_mrs T s file_ev confirmed c (raised type text) = raised type text
with_mrs T s file_ev confirmed c (returned ms) =
    returned (final_verdict T s file_ev confirmed (some (record { commit = c; mr = first_mr ms })))

-- with the blame of the line
unfoldable pub with_blame :
    Tools → Site → EvidenceLink → Bool → Outcome (Option Commit) → Outcome Verdict
with_blame T s file_ev confirmed (raised type text) = raised type text
with_blame T s file_ev confirmed (returned none) =
    returned (final_verdict T s file_ev confirmed none)
with_blame T s file_ev confirmed (returned (some c)) =
    with_mrs T s file_ev confirmed c (T.merge_requests_for_commit s.project c.id)

-- the verdict where the file cannot be fetched
unfoldable pub unfetched : Tools → Site → Verdict
unfetched T s =
    plain_verdict s.ticket_key
      ("Trace points at "
        <> frame_ref s.crash
        <> " in "
        <> s.project
        <> ", but that file/line could not be fetched.")
      (trace_link T s ∷ []) (map (λ (c : Routed). c.project) s.routed)
      "Verify the repo mapping; the trace path may live in a different repo."
      "Could not confirm the suspect line against GitLab."

-- with the evidence of the file
unfoldable pub with_file : Tools → Site → Outcome (Option (EvidenceLink × Bool)) → Outcome Verdict
with_file T s (raised type text) = raised type text
with_file T s (returned none) = returned (unfetched T s)
with_file T s (returned (some (file_ev, confirmed))) =
    with_blame T s file_ev confirmed (T.blame_line s.project s.ref s.crash.path s.crash.line)

unfoldable pub at_site : Tools → Site → Outcome Verdict
at_site T s = with_file T s (confirm_frame T s.project s.ref s.crash)

-- the verdict where no repository matches
unfoldable pub unrouted : (ticket_key : String) → Frame → Verdict
unrouted ticket_key crash =
    plain_verdict ticket_key
      ("Trace points at "
        <> frame_ref crash
        <> " but no repo summary matched — cannot locate the repo.")
      (record {
        kind = "stack_frame";
        ref = frame_ref crash;
        detail = "Crash site: " <> crash.raw;
        url = "";
      }
        ∷ [])
      ("unknown repo — pass --project or add a summary" ∷ [])
      "Pin the repo with --project, or add a repo summary covering this path." ""

-- with the candidates of the routing
unfoldable pub routed_to : Tools → (ticket_key ref : String) → Frame → List Routed → Outcome Verdict
routed_to T ticket_key ref crash [] = returned (unrouted ticket_key crash)
routed_to T ticket_key ref crash (c ∷ cs) = at_site T (record {
  ticket_key = ticket_key;
  project = c.project;
  routed = c ∷ cs;
  ref = ref;
  crash = crash;
})

-- with the crash site, if the ticket has a trace
unfoldable pub from_crash :
    Tools → (ticket_key ticket_text pinned ref : String) → Option Frame → Outcome Verdict
from_crash T ticket_key ticket_text pinned ref none =
    returned (no_trace_verdict T ticket_key ticket_text)
from_crash T ticket_key ticket_text pinned ref (some crash) =
    if pinned == ""
    then routed_to T ticket_key ref crash (T.route_repo ticket_text)
    else at_site T (record {
      ticket_key = ticket_key;
      project = pinned;
      routed = [];
      ref = ref;
      crash = crash;
    })

-- `investigate`; `project_override` is "" where there is none
unfoldable pub investigate :
    Tools → (ticket_key ticket_text project_override ref : String) → Outcome Verdict
investigate T ticket_key ticket_text project_override ref =
    from_crash T ticket_key ticket_text project_override ref
      (crash_site (parse_stack_trace (T.matches ticket_text)))
