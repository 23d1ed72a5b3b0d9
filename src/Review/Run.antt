-- ===== src/Review/Run.antt =====
-- rca_agent/webapp/app.py: the thread of an investigation, `_run_rca_background`, from the end of
-- the agent's run; and `blame_dropped_note` of rca_agent/agent.py. The run ledger is left out.
use rca_claude_agent.Prelude.{
  some, Bool, ◌=ℕ◌, cut, ◌/◌, length, not, ◌&&◌, ◌||◌, ◌<>◌, List, is_none, any, ◌==◌, ℕ, decimal,
  strip, if◌then◌else◌, String,
}
use rca_claude_agent.Review.World.{Jira, World}
use rca_claude_agent.Trace.Frames.{ends_with}
use rca_claude_agent.Verdict.Schema.{Verdict}
use rca_claude_agent.Verdict.Verify.{as_note, Sources, downgraded_confidence, verify_verdict}
use rca_claude_agent.Review.Background.{maybe_auto_post}
use rca_claude_agent.Store.Reviews.{save_rca}
use rca_claude_agent.Store.Jobs.{mark_failed}

-- How the agent's run ends: with a verdict, its turns and the tools it used; by the hard timeout;
-- by an `AgentRunError`; or by any other exception, of the run or of what comes before it.
pub data RunEnd : Type 0 where
  finished : Verdict → ℕ → List String → RunEnd
  timed_out : RunEnd
  agent_error : String → RunEnd
  crashed : String → String → RunEnd

-- `"; ".join(problems)`
abbrev join_problems : String → String → String
join_problems a b = if a == "" then b else if b == "" then a else a <> "; " <> b

abbrev blame_unrecorded : Verdict → String
blame_unrecorded v =
    if any (λ e. (e.kind == "blame") || (e.kind == "commit")) v.evidence_chain
    then ""
    else "git_blame was run but no blame/commit evidence was recorded"

abbrev regression_unset : Verdict → String
regression_unset v =
    if is_none v.is_regression then "is_regression left unset despite blame being gathered" else ""

unfoldable pub blame_dropped_note : Verdict → List String → String
blame_dropped_note v tools_used =
    let problems = join_problems (blame_unrecorded v) (regression_unset v) in
    if any (λ t. ends_with t "git_blame") tools_used && not (problems == "")
    then "[auto-check] " <> problems
    else ""

-- `(v.notes + "\n\n" + note).strip() if v.notes else note`
unfoldable pub add_note : String → String → String
unfolding strip
add_note notes note = if notes == "" then note else strip (notes <> "\n\n" <> note)

-- what becomes of the agent's verdict before it is stored
unfoldable pub settle : Sources → List String → Verdict → Verdict
unfolding verify_verdict downgraded_confidence as_note add_note blame_dropped_note
settle W tools_used v =
    let checks = verify_verdict W v in
    let verified : Verdict = if length checks =ℕ 0 then v else record v {
      notes = add_note v.notes (as_note checks);
      confidence = downgraded_confidence checks v.confidence;
    } in
    let bnote = blame_dropped_note verified tools_used in
    if bnote == "" then verified else record verified { notes = add_note verified.notes bnote }

unfoldable pub timeout_text : ℕ → String
unfolding decimal
timeout_text hard_timeout_seconds =
    "Timed out after "
    <> decimal (hard_timeout_seconds / 60)
    <> " minutes — the investigation ran too long. Try again, or check the ticket has enough detail to localize."

-- `json.dumps(v.to_dict())` is a parameter.
module _ (J : Jira Verdict) (W : Sources) (to_json : Verdict → String) where
  open J use {Site}

  unfoldable pub rca_background : Bool → ℕ → String → ℕ → RunEnd → World Site → World Site
  unfolding maybe_auto_post timeout_text cut
  rca_background auto_post hard_timeout key now (finished v turns tools_used) w =
      let settled = settle W tools_used v in
      maybe_auto_post J auto_post key settled now
        (record w { reviews = save_rca key (to_json settled) (some turns) now w.reviews })
  rca_background auto_post hard_timeout key now timed_out w = record w {
    reviews = mark_failed key (some (timeout_text hard_timeout)) now w.reviews;
  }
  rca_background auto_post hard_timeout key now (agent_error text) w = record w {
    reviews = mark_failed key (some ("Agent could not finish: " <> cut 240 text)) now w.reviews;
  }
  rca_background auto_post hard_timeout key now (crashed name text) w = record w {
    reviews = mark_failed key (some (name <> ": " <> cut 240 text)) now w.reviews;
  }
