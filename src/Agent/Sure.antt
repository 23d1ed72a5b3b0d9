-- ===== src/Agent/Sure.antt =====
-- rca_agent/investigation.py: what a verdict of high confidence stands on.
use rca_claude_agent.Review.World.{Outcome, returned, raised}
use rca_claude_agent.Verdict.Schema.{Verdict, EvidenceLink, Confidence, high}
use rca_claude_agent.Gitlab.Server.{FileSlice, Commit, MergeRequest}
use rca_claude_agent.Agent.Trace.{
  confirm_slice, confirmed_by, confirm_frame, symbol_found, Routed, text_of_line, no_trace_verdict,
  Tools,
}
use rca_claude_agent.Prelude.{
  sym, Bool-cases, false≢true, inr, ◌&&◌, not, refl, none, [], ◌+◌, ◌∷◌, ◌-◌, ◌==◌, some, ◌⊎◌, max,
  inl, if◌then◌else◌, ◌≡◌, List, strip, false, Option, true, Bool, String,
}
use rca_claude_agent.Trace.Frames.{parse_stack_trace, crash_site, Frame}
use rca_claude_agent.Agent.Run.{
  unfetched, final_verdict, at_site, with_file, with_blame, with_mrs, Site, unrouted, investigate,
  from_crash, routed_to,
}
use rca_claude_agent.Agent.Investigate.{incomplete, of_change, synthesize, mr_name}

abbrev pub is_high : Confidence → Bool
is_high high = true
is_high _ = false

-- The crash line is in the file as it was fetched: it is not blank, and the symbol that the trace names
-- stands near it.
abbrev pub IsConfirmed : Frame → FileSlice → Type 0
IsConfirmed crash sl =
    ((strip (text_of_line crash.line sl.numbered_lines) == "") ≡ false)
    × (symbol_found crash.symbol sl.numbered_lines ≡ true)

-- Live code stands behind the verdict: the file was fetched from the project and confirms the crash
-- line, the blame of that line gave a commit, and a merge request of that commit is the one named.
abbrev pub IsBacked : Tools → (project ref : String) → Frame → Verdict → Type 0
IsBacked T project ref crash v =
    (sl : FileSlice) × ((c : Commit) × ((m : MergeRequest) × ((ms : List MergeRequest)
          × ((T.get_file_lines project ref crash.path (max 1 (crash.line - T.context_lines))
                  (crash.line + T.context_lines)
                ≡ returned sl)
              × (IsConfirmed crash sl
                  × ((T.blame_line project ref crash.path crash.line ≡ returned (some c))
                      × ((T.merge_requests_for_commit project c.id ≡ returned (m ∷ ms))
                          × (v.introducing_mr ≡ some (mr_name m)))))))))

-- a verdict of high confidence is backed, for the crash frame and some project
abbrev pub IsHonest : Tools → (ref : String) → Option Frame → Outcome Verdict → Type 0
IsHonest T ref crash (raised type text) = Unit
IsHonest T ref crash (returned v) =
    (is_high v.confidence ≡ false)
    ⊎ ((f : Frame) × ((project : String) × ((crash ≡ some f) × IsBacked T project ref f v)))

module _ (T : Tools) (s : Site) where
  abbrev Honest : Outcome Verdict → Type 0
  Honest o = IsHonest T s.ref (some s.crash) o

  with_mrs-IsHonest :
      (sl : FileSlice) (ev : EvidenceLink) (confirmed : Bool) (c : Commit)
      (o : Outcome (List MergeRequest))
      → T.get_file_lines s.project s.ref s.crash.path
          (max 1 (s.crash.line - T.context_lines))
          (s.crash.line + T.context_lines)
        ≡ returned sl
      → (confirmed ≡ false) ⊎ IsConfirmed s.crash sl
      → T.blame_line s.project s.ref s.crash.path s.crash.line ≡ returned (some c)
      → T.merge_requests_for_commit s.project c.id ≡ o
      → Honest (with_mrs T s ev confirmed c o)
  unfolding with_mrs final_verdict synthesize of_change incomplete
  with_mrs-IsHonest sl ev confirmed c (raised type text) f k b m = tt
  with_mrs-IsHonest sl ev false c (returned ms) f k b m = inl refl
  with_mrs-IsHonest sl ev true c (returned []) f k b m = inl refl
  with_mrs-IsHonest sl ev true c (returned (x ∷ ms)) f (inl e) b m = absurd (false≢true (sym e))
  with_mrs-IsHonest sl ev true c (returned (x ∷ ms)) f (inr k) b m =
      inr (s.crash, (s.project, (refl, (sl, (c, (x, (ms, (f, (k, (b, (m, refl)))))))))))

  with_blame-IsHonest :
      (sl : FileSlice) (ev : EvidenceLink) (confirmed : Bool) (o : Outcome (Option Commit))
      → T.get_file_lines s.project s.ref s.crash.path
          (max 1 (s.crash.line - T.context_lines))
          (s.crash.line + T.context_lines)
        ≡ returned sl
      → (confirmed ≡ false) ⊎ IsConfirmed s.crash sl
      → T.blame_line s.project s.ref s.crash.path s.crash.line ≡ o
      → Honest (with_blame T s ev confirmed o)
  unfolding with_blame final_verdict synthesize incomplete
  with_blame-IsHonest sl ev confirmed (raised type text) f k b = tt
  with_blame-IsHonest sl ev confirmed (returned none) f k b = inl refl
  with_blame-IsHonest sl ev confirmed (returned (some c)) f k b =
      with_mrs-IsHonest sl ev confirmed c _ f k b refl

  confirmed_lem : (a b : Bool) → ((not a && b) ≡ false) ⊎ ((a ≡ false) × (b ≡ true))
  confirmed_lem true b = inl refl
  confirmed_lem false true = inr (refl, refl)
  confirmed_lem false false = inl refl

  with_file-IsHonest :
      (o : Outcome FileSlice)
      → T.get_file_lines s.project s.ref s.crash.path
          (max 1 (s.crash.line - T.context_lines))
          (s.crash.line + T.context_lines)
        ≡ o
      → Honest (with_file T s (confirmed_by s.project s.ref s.crash o))
  unfolding with_file unfetched confirmed_by confirm_slice
  with_file-IsHonest (raised type text) f = elim (Bool-cases (type == "GitLabError")) [
    | inl e ↦ rw e (inl refl)
    | inr e ↦ rw e tt
  ]
  with_file-IsHonest (returned sl) f =
      with_blame-IsHonest sl _ _ _ f
        (confirmed_lem (strip (text_of_line s.crash.line sl.numbered_lines) == "")
          (symbol_found s.crash.symbol sl.numbered_lines))
        refl

  at_site-IsHonest : Honest (at_site T s)
  unfolding at_site confirm_frame
  at_site-IsHonest = with_file-IsHonest _ refl

routed_to-IsHonest :
    (T : Tools) (ticket_key ref : String) (crash : Frame) (cs : List Routed)
    → IsHonest T ref (some crash) (routed_to T ticket_key ref crash cs)
unfolding routed_to unrouted
routed_to-IsHonest T ticket_key ref crash [] = inl refl
routed_to-IsHonest T ticket_key ref crash (c ∷ cs) = at_site-IsHonest T _

if-IsHonest :
    (T : Tools) (ref : String) (crash : Option Frame) (b : Bool) (x y : Outcome Verdict)
    → IsHonest T ref crash x
    → IsHonest T ref crash y
    → IsHonest T ref crash (if b then x else y)
if-IsHonest T ref crash true x y hx hy = hx
if-IsHonest T ref crash false x y hx hy = hy

from_crash-IsHonest :
    (T : Tools) (ticket_key ticket_text pinned ref : String) (crash : Option Frame)
    → IsHonest T ref crash (from_crash T ticket_key ticket_text pinned ref crash)
unfolding from_crash no_trace_verdict
from_crash-IsHonest T ticket_key ticket_text pinned ref none = inl refl
from_crash-IsHonest T ticket_key ticket_text pinned ref (some crash) =
    if-IsHonest T ref (some crash) (pinned == "") _ _
      (routed_to-IsHonest T ticket_key ref crash (T.route_repo ticket_text)) (at_site-IsHonest T _)

-- A verdict of `investigate` is of high confidence only if live code stands behind it: the ticket has
-- a trace with a crash site; its file was fetched from a project at the ref, the crash line is there
-- and not blank, and the symbol of the trace stands near it; the blame of that line gave a commit;
-- and a merge request of that commit is the one that the verdict names.
pub investigate-IsHonest :
    (T : Tools) (ticket_key ticket_text project_override ref : String)
    → IsHonest T ref
        (crash_site (parse_stack_trace (T.matches ticket_text)))
        (investigate T ticket_key ticket_text project_override ref)
unfolding investigate
investigate-IsHonest T ticket_key ticket_text project_override ref =
    from_crash-IsHonest T ticket_key ticket_text project_override ref _
