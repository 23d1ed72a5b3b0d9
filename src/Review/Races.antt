-- ===== src/Review/Races.antt =====
-- What the guards of webapp/app.py let through while an investigation is in flight.
use rca_claude_agent.Review.Decide.{or_empty, is_posting, accept}
use rca_claude_agent.Review.World.{rca_task, reply, World, Jira}
use rca_claude_agent.Review.Withdraw.{reset_rca}
use rca_claude_agent.Review.Decide.{run_rca}
use rca_claude_agent.Prelude.{
  Option, arith, none, [], ◌∷◌, ◌++◌, false, truthy, true, some, ◌≡◌, ℕ, String,
}
use rca_claude_agent.Store.Row.{rca_ready, accepted, manual, pending, is_running, Row}
use rca_claude_agent.Store.Table.{get_ticket, UniqueKeys}
use rca_claude_agent.Store.Updates.{get-save_rca, get-mark_accepted, get-reset_row}
use rca_claude_agent.Store.Jobs.{mark_accepted, reset_row}
use rca_claude_agent.Store.Keys.{reset_row-UniqueKeys}
use rca_claude_agent.Store.Claims.{claim_running_lem}
use rca_claude_agent.Review.Guards.{status_at}
use rca_claude_agent.Store.Reviews.{save_rca}

module _ {V : Type 0} (J : Jira V) where
  open J use {Site}

  -- A reset of a ticket whose investigation is in flight, with no RCA of it posted automatically,
  -- frees the claim: the next click on "Run RCA" starts a second investigation beside the first.
  pub reset_rca-second_run :
      (key : String) (now : ℕ) (w : World Site) (t : Row)
      → UniqueKeys w.reviews
      → get_ticket key w.reviews ≡ some t
      → is_running t.status ≡ true
      → truthy t.auto_comment_id ≡ false
      → let w1 = (reset_rca J key w).1 in
        ((run_rca key now w).0 ≡ reply "already_running")
        × ((run_rca key now w1).0 ≡ reply "started")
        × ((run_rca key now w1).1.started ≡ w.started ++ rca_task key ∷ [])
  unfolding reset_rca run_rca
  reset_rca-second_run key now w t u e h n =
      let r1 : Row = record t {
        bot_rca_json = none;
        bot_fix_json = none;
        status = pending;
        job_kind = none;
        job_status = none;
        job_error = none;
        job_result = none;
        auto_comment_id = none;
        auto_posted_at = none;
        auto_post_error = none;
      } in
      let e1 = get-reset_row key w.reviews t e in
      let rows1 = reset_row key w.reviews in
      let c0 = (claim_running_lem key manual now w.reviews t u e).0 in
      let c1 =
        (claim_running_lem key manual now rows1 r1 (reset_row-UniqueKeys key w.reviews u) e1).0 in
      (ground (arith, c0), ground (arith, c1), ground (arith, c1))

  -- A re-run keeps the earlier verdict in the row, so the ticket can be accepted while it is in
  -- flight; when the re-run then stores its verdict, the decision is gone: the row is "rca_ready" again.
  pub accept-lost_to_rerun :
      (key json : String) (turns : Option ℕ) (now later : ℕ) (w : World Site) (t : Row)
      → get_ticket key w.reviews ≡ some t
      → truthy t.bot_rca_json ≡ true
      → is_running t.status ≡ true
      → is_posting t ≡ false
      → let w1 = (accept key now w).1 in
        ((accept key now w).0 ≡ reply "accepted")
        × (status_at key w1.reviews ≡ some accepted)
        × (status_at key (save_rca key json turns later w1.reviews) ≡ some rca_ready)
  unfolding accept
  accept-lost_to_rerun key json turns now later w t e h1 h2 h3 =
      let id = or_empty t.auto_comment_id in
      let e1 = get-mark_accepted key w.reviews t e id now in
      let e2 = get-save_rca key (mark_accepted key id now w.reviews) _ e1 json turns later in
      (ground arith, ground (arith, e1), ground (arith, e2))
