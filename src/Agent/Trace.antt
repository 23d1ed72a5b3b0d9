-- ===== src/Agent/Trace.antt =====
-- rca_agent/investigation.py: what an investigation asks, `_no_trace_verdict` and `_confirm_frame`.
use rca_claude_agent.Review.World.{Outcome, returned, raised}
use rca_claude_agent.Verdict.Schema.{Verdict, EvidenceLink, low, insufficient_evidence, unknown}
use rca_claude_agent.Gitlab.Server.{FileSlice, Commit, MergeRequest}
use rca_claude_agent.Prelude.{
  any, ◌+◌, ◌&&◌, ◌||◌, ◌-◌, not, ◌==◌, ◌=ℕ◌, map, none, max, some, true, if◌then◌else◌, ◌++◌, [],
  Bool, take, ◌<>◌, ◌∷◌, strip, Option, List, decimal, ℕ, String,
}
use rca_claude_agent.Fix.Prompt.{join_commas}
use rca_claude_agent.Graph.Search.{occurs_in, search_symbols}
use rca_claude_agent.Trace.Frames.{Frame, Matches}
use rca_claude_agent.Graph.Model.{RepoGraph, SymbolNode}
use rca_claude_agent.Fix.Answer.{is_cons}

-- a repository that `route_repo` proposes; the score is its text, as the notes show it
pub record Routed : Type 0 where
  pub project : String
  pub score : String
  pub matched : List String

-- What an investigation asks of the world: the matches of the trace's regular expressions, the routing
-- of a text, the code graph of a project or an exception, the GitLab client, and the settings.
pub record Tools : Type 0 where
  pub matches : String → Matches
  pub route_repo : String → List Routed
  pub load_repo_graph : String → Outcome RepoGraph
  pub get_file_lines : (project ref path : String) → (start end_ : ℕ) → Outcome FileSlice
  pub blame_line : (project ref path : String) → ℕ → Outcome (Option Commit)
  pub merge_requests_for_commit : (project sha : String) → Outcome (List MergeRequest)
  pub gitlab_url : String
  pub context_lines : ℕ

-- a verdict with these fields, and the defaults for the others
abbrev pub plain_verdict :
    (ticket root : String) → List EvidenceLink → List String → (action notes : String) → Verdict
plain_verdict ticket root chain candidates action notes = record {
  ticket = ticket;
  probable_root_cause = root;
  tldr = "";
  headline = "";
  plain_summary = "";
  cause_categories = unknown ∷ [];
  evidence_chain = chain;
  is_regression = none;
  introducing_mr = none;
  triage = insufficient_evidence;
  confidence = low;
  suggested_next_action = action;
  candidates = candidates;
  blast_radius = [];
  notes = notes;
}

-- `f"{c.project} (matched: …)"`
unfoldable pub routed_line : Routed → String
unfolding join_commas
routed_line c = c.project <> " (matched: " <> join_commas (take 6 c.matched) <> ")"

-- `Frame.ref` and `SymbolNode.ref`
unfoldable pub frame_ref : Frame → String
unfolding decimal
frame_ref f = f.path <> ":" <> decimal f.line

unfoldable pub node_line : SymbolNode → String
unfolding decimal
node_line n = n.qualname <> " (" <> n.file <> ":" <> decimal n.line <> ")"

unfoldable pub suspects_of : Routed → Outcome RepoGraph → List String
unfolding search_symbols node_line
suspects_of c (raised type text) = []
suspects_of c (returned g) =
    map (λ n. c.project <> ": " <> node_line n) (search_symbols g c.matched 5)

-- the loop over the top repositories: one without a graph is passed over
unfoldable pub suspects : Tools → List Routed → List String
unfolding suspects_of
suspects T [] = []
suspects T (c ∷ cs) = suspects_of c (T.load_repo_graph c.project) ++ suspects T cs

abbrev pub or_widen : List String → List String
or_widen [] = "no repo summary matched — widen search" ∷ []
or_widen (x ∷ xs) = x ∷ xs

-- `_no_trace_verdict`
unfoldable pub no_trace_verdict : Tools → (ticket_key ticket_text : String) → Verdict
unfolding suspects routed_line
no_trace_verdict T ticket_key ticket_text =
    let routed = T.route_repo ticket_text in
    let found = suspects T (take 2 routed) in
    plain_verdict ticket_key
      "No stack trace in the ticket; cannot build a deterministic evidence chain. Localized to candidate code below (unconfirmed)."
      [] (or_widen (map routed_line routed ++ found))
      (if is_cons found
        then "Fetch + blame the candidate symbols below to confirm, or ask the reporter for a stack trace / logs."
        else "Ask reporter for a stack trace / logs, or run code-search over the candidate repos.")
      "Trace-first path unavailable; routing + symbol localization only."

-- `next((t for n, t in sl.numbered_lines if n == frame.line), "")`
abbrev pub text_of_line : ℕ → List (ℕ × String) → String
text_of_line i [] = ""
text_of_line i ((n, t) ∷ rest) = if n =ℕ i then t else text_of_line i rest

-- `if frame.symbol: any(frame.symbol in t for …)`
abbrev pub symbol_found : Option String → List (ℕ × String) → Bool
symbol_found none lines = true
symbol_found (some s) lines = (s == "") || any (λ (l : ℕ × String). occurs_in s l.1) lines

abbrev pub stale_note : Option String → Bool → String
stale_note none ok = ""
stale_note (some s) ok =
    if ok
    then ""
    else " (warning: symbol '" <> s
      <> "' not found nearby — code may have moved; trace possibly stale)"

-- the evidence of a slice, and whether it confirms the frame
unfoldable pub confirm_slice : (project ref : String) → Frame → FileSlice → EvidenceLink × Bool
unfolding strip frame_ref
confirm_slice project ref frame sl =
    let crash_text = text_of_line frame.line sl.numbered_lines in
    let symbol_ok = symbol_found frame.symbol sl.numbered_lines in
    (
      record {
        kind = "file_content";
        ref = frame_ref frame;
        detail =
            "Confirmed against "
            <> project
            <> "@"
            <> ref
            <> ": `"
            <> strip crash_text
            <> "`"
            <> stale_note frame.symbol symbol_ok;
        url = "";
      },
      not (strip crash_text == "") && symbol_ok,
    )

unfoldable pub confirmed_by :
    (project ref : String) → Frame → Outcome FileSlice → Outcome (Option (EvidenceLink × Bool))
unfolding confirm_slice
confirmed_by project ref frame (raised type text) =
    if type == "GitLabError" then returned none else raised type text
confirmed_by project ref frame (returned sl) = returned (some (confirm_slice project ref frame sl))

-- `_confirm_frame`: `none` where the file cannot be fetched
unfoldable pub confirm_frame :
    Tools → (project ref : String) → Frame → Outcome (Option (EvidenceLink × Bool))
unfolding confirmed_by
confirm_frame T project ref frame = confirmed_by project ref frame (
    T.get_file_lines project ref frame.path (max 1 (frame.line - T.context_lines))
      (frame.line + T.context_lines))
