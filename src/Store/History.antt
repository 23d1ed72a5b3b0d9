-- ===== src/Store/History.antt =====
-- webapp/db.py as a whole: every operation that writes `reviews`, runs of such operations, and the
-- row automaton that they implement.
use rca_claude_agent.Prelude.{
  ℕ, String, true, not, ◌&&◌, ◌||◌, Option, none, some, List, [], ◌∷◌, ◌==◌, if◌then◌else◌, is_some,
  is_none,
}
use rca_claude_agent.Store.Row.{
  JobResult, Row, pending, running, rca_ready, failed, accepted, rejected, unclear, Source, auto,
  JobKind, active, done, broken, is_pending, is_running,
}
use rca_claude_agent.Store.Table.{Reviews}
use rca_claude_agent.Store.Reviews
use rca_claude_agent.Store.Reviews.{
  Ticket, new_row, merge_ticket, upsert_ticket, restart_note, like_aut,
}
use rca_claude_agent.Store.Jobs
use rca_claude_agent.Store.Jobs.{job_active, claimable, auto_claimable, as_failed, as_rerun_failed}

-- One constructor for each operation of the store, and `restart` for `init_db`.
pub data Op : Type 0 where
  restart : Op
  sync : Ticket → ℕ → Op
  store_rca : String → String → Option ℕ → ℕ → Op
  note_auto_comment : String → String → ℕ → Op
  note_auto_error : String → String → Op
  forget_auto_comment : String → Op
  store_fix : String → String → ℕ → Op
  drop_fix : String → ℕ → Op
  store_draft : String → String → ℕ → Op
  drop_draft : String → ℕ → Op
  begin_job : String → JobKind → ℕ → Op
  end_job : String → Option JobResult → ℕ → Op
  lose_job : String → String → ℕ → Op
  claim : String → Source → ℕ → Op
  auto_claim : String → ℕ → Op
  set_running : String → ℕ → Op
  fail : String → Option String → ℕ → Op
  accept : String → String → ℕ → Op
  reject : String → String → String → ℕ → Op
  puzzle : String → String → List String → ℕ → Op
  reset : String → Op

-- The table after the operation.
unfoldable pub apply : Op → Reviews → Reviews
unfolding Reviews.save_rca Reviews.set_auto_comment Reviews.set_auto_post_error
    Reviews.clear_auto_comment Reviews.save_fix Reviews.clear_fix Reviews.save_human_rca_draft
    Reviews.clear_human_rca_draft Jobs.start_job Jobs.finish_job Jobs.fail_job Jobs.claim_running
    Jobs.claim_auto_run Jobs.mark_running Jobs.mark_accepted Jobs.mark_rejected Jobs.mark_unclear
    Jobs.reset_row
apply restart = Reviews.init_db
apply (sync t now) = upsert_ticket t now
apply (store_rca k json turns now) = Reviews.save_rca k json turns now
apply (note_auto_comment k id now) = Reviews.set_auto_comment k id now
apply (note_auto_error k e) = Reviews.set_auto_post_error k e
apply (forget_auto_comment k) = Reviews.clear_auto_comment k
apply (store_fix k json now) = Reviews.save_fix k json now
apply (drop_fix k now) = Reviews.clear_fix k now
apply (store_draft k text now) = Reviews.save_human_rca_draft k text now
apply (drop_draft k now) = Reviews.clear_human_rca_draft k now
apply (begin_job k kind now) = λ rows. (Jobs.start_job k kind now rows).0
apply (end_job k result now) = Jobs.finish_job k result now
apply (lose_job k e now) = Jobs.fail_job k e now
apply (claim k source now) = λ rows. (Jobs.claim_running k source now rows).0
apply (auto_claim k now) = λ rows. (Jobs.claim_auto_run k now rows).0
apply (set_running k now) = Jobs.mark_running k now
apply (fail k e now) = Jobs.mark_failed k e now
apply (accept k id now) = Jobs.mark_accepted k id now
apply (reject k text id now) = Jobs.mark_rejected k text id now
apply (puzzle k note reasons now) = Jobs.mark_unclear k note reasons now
apply (reset k) = Jobs.reset_row k

unfoldable pub run : List Op → Reviews → Reviews
run [] rows = rows
run (op ∷ ops) rows = run ops (apply op rows)

-- The specification: what an operation does to one row, whatever else the table holds.
at_key : String → (Row → Row) → Row → Row
at_key k f r = if k == r.key then f r else r

recover_run : Row → Row
recover_run r =
    if is_running r.status then record r { status = failed; error = some restart_note } else r

recover_job : Row → Row
recover_job r =
    if job_active r then record r { job_status = some broken; job_error = some restart_note } else r

backfill : Row → Row
backfill r =
    if like_aut r.key && (not (is_pending r.status) || is_some r.bot_rca_json)
    then record r { on_dashboard = true }
    else r

unfoldable pub effect : Op → Row → Row
unfolding at_key recover_run recover_job backfill
effect restart r = recover_job (recover_run (backfill r))
effect (sync t now) r = at_key t.key (merge_ticket t) r
effect (store_rca k json turns now) r =
    at_key k
      (λ r. record r {
        bot_rca_json = some json;
        status = rca_ready;
        turns_used = turns;
        error = none;
        updated_at = now;
      })
      r
effect (note_auto_comment k id now) r =
    at_key k
      (λ r. record r {
        auto_comment_id = some id;
        auto_posted_at = some now;
        auto_post_error = none;
      })
      r
effect (note_auto_error k e) r = at_key k (λ r. record r { auto_post_error = some e }) r
effect (forget_auto_comment k) r =
    at_key k
      (λ r. record r { auto_comment_id = none; auto_posted_at = none; auto_post_error = none }) r
effect (store_fix k json now) r =
    at_key k (λ r. record r { bot_fix_json = some json; updated_at = now }) r
effect (drop_fix k now) r = at_key k (λ r. record r { bot_fix_json = none; updated_at = now }) r
effect (store_draft k text now) r =
    at_key k (λ r. record r { human_rca_draft = some text; updated_at = now }) r
effect (drop_draft k now) r =
    at_key k (λ r. record r { human_rca_draft = none; updated_at = now }) r
effect (begin_job k kind now) r =
    if (k == r.key) && not (job_active r)
    then record r {
      job_kind = some kind;
      job_status = some active;
      job_error = none;
      job_result = none;
      updated_at = now;
    }
    else r
effect (end_job k result now) r =
    at_key k (λ r. record r { job_status = some done; job_result = result; updated_at = now }) r
effect (lose_job k e now) r =
    at_key k (λ r. record r { job_status = some broken; job_error = some e; updated_at = now }) r
effect (claim k source now) r =
    if (k == r.key) && claimable r
    then record r { status = running; error = none; trigger_source = some source; updated_at = now }
    else r
effect (auto_claim k now) r =
    if (k == r.key) && auto_claimable r
    then record r {
      status = running;
      error = none;
      trigger_source = some auto;
      auto_run_at = some now;
      updated_at = now;
    }
    else r
effect (set_running k now) r =
    at_key k (λ r. record r { status = running; error = none; updated_at = now }) r
effect (fail k e now) r =
    at_key k (λ r. if is_none r.bot_rca_json then as_failed e now r else as_rerun_failed e now r) r
effect (accept k id now) r =
    at_key k (λ r. record r { status = accepted; comment_id = some id; updated_at = now }) r
effect (reject k text id now) r =
    at_key k
      (λ r. record r {
        status = rejected;
        human_rca = some text;
        comment_id = some id;
        updated_at = now;
      })
      r
effect (puzzle k note reasons now) r =
    at_key k
      (λ r. record r {
        status = unclear;
        review_note = some note;
        unclear_reasons = some reasons;
        updated_at = now;
      })
      r
effect (reset k) r =
    at_key k
      (λ r. record r {
        bot_rca_json = none;
        bot_fix_json = none;
        status = pending;
        job_kind = none;
        job_status = none;
        job_error = none;
        job_result = none;
        auto_comment_id = none;
        auto_posted_at = none;
        auto_post_error = none;
      })
      r
