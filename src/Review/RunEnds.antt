-- ===== src/Review/RunEnds.antt =====
-- rca_agent/webapp/app.py: what `_run_rca_background` leaves behind, however the run ends.
use rca_claude_agent.Store.History.{Op, apply, effect}
use rca_claude_agent.Prelude.{
  eq_refl, inr, inl, is_some, ◌&&◌, ◌||◌, Option, false, if◌then◌else◌, Bool-cases, true, refl,
  arith, some, ◌≡◌, ℕ, Bool, String,
}
use rca_claude_agent.Review.World.{raised, returned, Outcome, Jira, World}
use rca_claude_agent.Review.Run.{
  timed_out, crashed, agent_error, settle, finished, RunEnd, rca_background,
}
use rca_claude_agent.Verdict.Schema.{Verdict}
use rca_claude_agent.Verdict.Verify.{Sources}
use rca_claude_agent.Review.Background.{posted_id, note_auto_post, is_auto, maybe_auto_post}
use rca_claude_agent.Store.Row.{failed, rca_ready, manual, Row}
use rca_claude_agent.Store.Table.{get_ticket-key, Reviews, UniqueKeys, get_ticket}
use rca_claude_agent.Review.Guards.{status_at}
use rca_claude_agent.Store.Updates.{get-set_auto_post_error, get-set_auto_comment, get-save_rca}
use rca_claude_agent.Store.Jobs.{mark_failed, as_rerun_failed, as_failed}
use rca_claude_agent.Store.Refinement.{apply-effect}
use rca_claude_agent.Store.Reviews.{save_rca}
use rca_claude_agent.Review.Withdraw.{error_text}

abbrev is_finished : RunEnd → Bool
is_finished (finished v turns tools) = true
is_finished _ = false

module _ (J : Jira Verdict) (W : Sources) (to_json : Verdict → String) where
  open J use {Site}

  -- If the row of a ticket says when its investigation ends that it was started by hand, then the
  -- rest of the thread leaves Jira as it was, however the investigation ended and whatever the
  -- switch for automatic posts says. A row that a poller has claimed meanwhile is not covered.
  pub manual_run-no_post :
      (auto_post : Bool) (hard_timeout : ℕ) (key : String) (now : ℕ) (end : RunEnd) (w : World Site)
      (t : Row)
      → get_ticket key w.reviews ≡ some t
      → t.trigger_source ≡ some manual
      → (rca_background J W to_json auto_post hard_timeout key now end w).site ≡ w.site
  unfolding rca_background maybe_auto_post
  manual_run-no_post auto_post hard_timeout key now (finished v turns tools) w t e h =
      ground (arith, get-save_rca key w.reviews t e (to_json (settle W tools v)) (some turns) now)
  manual_run-no_post auto_post hard_timeout key now timed_out w t e h = refl
  manual_run-no_post auto_post hard_timeout key now (agent_error text) w t e h = refl
  manual_run-no_post auto_post hard_timeout key now (crashed name text) w t e h = refl

  note_auto_post-status :
      (key : String) (now : ℕ) (o : Outcome (Option String)) (w : World Site) (t : Row)
      → get_ticket key w.reviews ≡ some t
      → status_at key (note_auto_post J key now o w).reviews ≡ some t.status
  note_auto_post-status key now (returned id) w t e =
      ground (arith, get-set_auto_comment key w.reviews t e (posted_id id) now)
  note_auto_post-status key now (raised name text) w t e =
      ground (arith, get-set_auto_post_error key w.reviews t e (error_text name text))

  maybe_auto_post-status :
      (auto_post : Bool) (key : String) (v : Verdict) (now : ℕ) (w : World Site) (t : Row)
      → get_ticket key w.reviews ≡ some t
      → status_at key (maybe_auto_post J auto_post key v now w).reviews ≡ some t.status
  unfolding maybe_auto_post
  maybe_auto_post-status auto_post key v now w t e =
      let posted = J.post_verdict key v w.site in
      let noted = note_auto_post-status key now posted.0 (record w { site = posted.1 }) t e in
      elim (Bool-cases (is_auto J (get_ticket key w.reviews) && auto_post)) [
        | inl both ↦ rw both noted
        | inr neither ↦ rw neither (rw e refl)
      ]

  mark_failed-status :
      (key : String) (err : Option String) (now : ℕ) (rows : Reviews) (t : Row)
      → UniqueKeys rows
      → get_ticket key rows ≡ some t
      → status_at key (mark_failed key err now rows)
        ≡ some (if is_some t.bot_rca_json then rca_ready else failed)
  unfolding apply effect as_failed as_rerun_failed
  mark_failed-status key err now rows t u e = ground (
    arith,
    apply-effect (Op.fail key err now) rows key t u e,
    get_ticket-key key rows t e,
    eq_refl key,
  )

  -- However an investigation of a ticket ends, its row leaves "running": it is "rca_ready" if the run
  -- gave a verdict or an earlier one is stored, and "failed" otherwise, whatever Jira answers to the
  -- automatic post, if the keys are unique.
  pub rca_background-status :
      (auto_post : Bool) (hard_timeout : ℕ) (key : String) (now : ℕ) (end : RunEnd) (w : World Site)
      (t : Row)
      → UniqueKeys w.reviews
      → get_ticket key w.reviews ≡ some t
      → status_at key (rca_background J W to_json auto_post hard_timeout key now end w).reviews
        ≡ some (if is_finished end || is_some t.bot_rca_json then rca_ready else failed)
  unfolding rca_background
  rca_background-status auto_post hard_timeout key now (finished v turns tools) w t u e =
      let settled = settle W tools v in
      maybe_auto_post-status auto_post key settled now
        (record w { reviews = save_rca key (to_json settled) (some turns) now w.reviews }) _
        (get-save_rca key w.reviews t e (to_json settled) (some turns) now)
  rca_background-status auto_post hard_timeout key now timed_out w t u e =
      mark_failed-status key _ now w.reviews t u e
  rca_background-status auto_post hard_timeout key now (agent_error text) w t u e =
      mark_failed-status key _ now w.reviews t u e
  rca_background-status auto_post hard_timeout key now (crashed name text) w t u e =
      mark_failed-status key _ now w.reviews t u e
