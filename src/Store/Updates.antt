-- ===== src/Store/Updates.antt =====
-- The row of a key behind an UPDATE of that key, for the operations of webapp/db.py that have no
-- other condition.
use rca_claude_agent.Store.Row.{
  done, pending, broken, JobResult, rejected, accepted, rca_ready, Row,
}
use rca_claude_agent.Prelude.{
  eq_refl, arith, true, ◌&&◌, ◌&&◌, ◌==◌, ◌==◌, if◌then◌else◌, ap, ◌∙◌, ◌∙◌, refl, none, ℕ, Option,
  some, ◌≡◌, ◌≡◌, String,
}
use rca_claude_agent.Store.Table.{
  map_row, get-update_key, update_key, KeepsKey, get_ticket, Reviews,
}
use rca_claude_agent.Store.Reviews.{
  save_fix, set_auto_post_error, set_auto_comment, every, clear_human_rca_draft,
  save_human_rca_draft, clear_auto_comment, save_rca,
}
use rca_claude_agent.Store.Jobs.{reset_row, fail_job, finish_job, mark_rejected, mark_accepted}

module _ (k : String) (rows : Reviews) (r : Row) (e : get_ticket k rows ≡ some r) where
  own_update : (f : Row → Row) → KeepsKey f → get_ticket k (update_key k every f rows) ≡ some (f r)
  own_update f h =
      get-update_key k k every f rows h
      ∙ (ap (map_row (λ x. if (k == k) && true then f x else x)) e ∙ ground (arith, eq_refl k))

  pub get-save_rca :
      (json : String) (turns : Option ℕ) (now : ℕ)
      → get_ticket k (save_rca k json turns now rows)
        ≡ some (record r {
          bot_rca_json = some json;
          status = rca_ready;
          turns_used = turns;
          error = none;
          updated_at = now;
        })
  unfolding save_rca
  get-save_rca json turns now = own_update _ (λ _. refl)

  pub get-mark_accepted :
      (id : String) (now : ℕ)
      → get_ticket k (mark_accepted k id now rows)
        ≡ some (record r { status = accepted; comment_id = some id; updated_at = now })
  unfolding mark_accepted
  get-mark_accepted id now = own_update _ (λ _. refl)

  pub get-mark_rejected :
      (text id : String) (now : ℕ)
      → get_ticket k (mark_rejected k text id now rows)
        ≡ some (record r {
          status = rejected;
          human_rca = some text;
          comment_id = some id;
          updated_at = now;
        })
  unfolding mark_rejected
  get-mark_rejected text id now = own_update _ (λ _. refl)

  pub get-save_fix :
      (json : String) (now : ℕ)
      → get_ticket k (save_fix k json now rows)
        ≡ some (record r { bot_fix_json = some json; updated_at = now })
  unfolding save_fix
  get-save_fix json now = own_update _ (λ _. refl)

  pub get-set_auto_comment :
      (id : String) (now : ℕ)
      → get_ticket k (set_auto_comment k id now rows)
        ≡ some (record r {
          auto_comment_id = some id;
          auto_posted_at = some now;
          auto_post_error = none;
        })
  unfolding set_auto_comment
  get-set_auto_comment id now = own_update _ (λ _. refl)

  pub get-set_auto_post_error :
      (err : String)
      → get_ticket k (set_auto_post_error k err rows)
        ≡ some (record r { auto_post_error = some err })
  unfolding set_auto_post_error
  get-set_auto_post_error err = own_update _ (λ _. refl)

  pub get-clear_auto_comment :
      get_ticket k (clear_auto_comment k rows)
      ≡ some (record r { auto_comment_id = none; auto_posted_at = none; auto_post_error = none })
  unfolding clear_auto_comment
  get-clear_auto_comment = own_update _ (λ _. refl)

  pub get-save_draft :
      (text : String) (now : ℕ)
      → get_ticket k (save_human_rca_draft k text now rows)
        ≡ some (record r { human_rca_draft = some text; updated_at = now })
  unfolding save_human_rca_draft
  get-save_draft text now = own_update _ (λ _. refl)

  pub get-clear_draft :
      (now : ℕ)
      → get_ticket k (clear_human_rca_draft k now rows)
        ≡ some (record r { human_rca_draft = none; updated_at = now })
  unfolding clear_human_rca_draft
  get-clear_draft now = own_update _ (λ _. refl)

  pub get-finish_job :
      (result : Option JobResult) (now : ℕ)
      → get_ticket k (finish_job k result now rows)
        ≡ some (record r { job_status = some done; job_result = result; updated_at = now })
  unfolding finish_job
  get-finish_job result now = own_update _ (λ _. refl)

  pub get-fail_job :
      (text : String) (now : ℕ)
      → get_ticket k (fail_job k text now rows)
        ≡ some (record r { job_status = some broken; job_error = some text; updated_at = now })
  unfolding fail_job
  get-fail_job text now = own_update _ (λ _. refl)

  pub get-reset_row :
      get_ticket k (reset_row k rows)
      ≡ some (record r {
        bot_rca_json = none;
        bot_fix_json = none;
        status = pending;
        job_kind = none;
        job_status = none;
        job_error = none;
        job_result = none;
        auto_comment_id = none;
        auto_posted_at = none;
        auto_post_error = none;
      })
  unfolding reset_row
  get-reset_row = own_update _ (λ _. refl)
