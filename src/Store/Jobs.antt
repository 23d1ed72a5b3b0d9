-- ===== src/Store/Jobs.antt =====
-- webapp/db.py: the claims of a run and of the job slot, and the outcomes of a run, of a job and of
-- a review.
use rca_claude_agent.Prelude.{
  ℕ, String, ◌<>◌, Bool, true, false, not, ◌&&◌, Option, none, some, List, ◌==◌, if◌then◌else◌,
  is_some, is_none,
}
use rca_claude_agent.Store.Row.{
  JobResult, Row, pending, running, rca_ready, failed, accepted, rejected, unclear, Source, auto,
  JobKind, active, done, broken, is_pending, is_running,
}
use rca_claude_agent.Store.Table.{Reviews, update_key, hits_key}
use rca_claude_agent.Store.Reviews.{every}

-- `job_status = 'running'`
abbrev pub job_active : Row → Bool
job_active r = elim r.job_status [ some active ↦ true | _ ↦ false ]

unfoldable pub start_job : String → JobKind → ℕ → Reviews → Reviews × Bool
start_job key kind now rows = (
  update_key key (λ r. not (job_active r))
      (λ r. record r {
        job_kind = some kind;
        job_status = some active;
        job_error = none;
        job_result = none;
        updated_at = now;
      })
      rows,
  hits_key key (λ r. not (job_active r)) rows,
)

unfoldable pub finish_job : String → Option JobResult → ℕ → Reviews → Reviews
finish_job key result now =
    update_key key every
      λ r. record r { job_status = some done; job_result = result; updated_at = now }

unfoldable pub fail_job : String → String → ℕ → Reviews → Reviews
fail_job key e now =
    update_key key every
      λ r. record r { job_status = some broken; job_error = some e; updated_at = now }

-- `WHERE key = ? AND status != 'running'`
abbrev pub claimable : Row → Bool
claimable r = not (is_running r.status)

unfoldable pub claim_running : String → Source → ℕ → Reviews → Reviews × Bool
claim_running key source now rows = (
  update_key key claimable
      (λ r. record r {
        status = running;
        error = none;
        trigger_source = some source;
        updated_at = now;
      })
      rows,
  hits_key key claimable rows,
)

-- `AND status = 'pending' AND bot_rca_json IS NULL AND auto_run_at IS NULL`
abbrev pub auto_claimable : Row → Bool
auto_claimable r = is_pending r.status && is_none r.bot_rca_json && is_none r.auto_run_at

unfoldable pub claim_auto_run : String → ℕ → Reviews → Reviews × Bool
claim_auto_run key now rows = (
  update_key key auto_claimable
      (λ r. record r {
        status = running;
        error = none;
        trigger_source = some auto;
        auto_run_at = some now;
        updated_at = now;
      })
      rows,
  hits_key key auto_claimable rows,
)

unfoldable pub mark_running : String → ℕ → Reviews → Reviews
mark_running key now =
    update_key key every λ r. record r { status = running; error = none; updated_at = now }

-- `f"[last re-run did not finish: {error}]" if error else None`
unfoldable pub rerun_note : Option String → Option String
rerun_note none = none
rerun_note (some e) = if e == "" then none else some ("[last re-run did not finish: " <> e <> "]")

-- The SETs of the two UPDATEs of `mark_failed`.
unfoldable pub as_failed : Option String → ℕ → Row → Row
as_failed e now r = record r { status = failed; error = e; updated_at = now }

unfoldable pub as_rerun_failed : Option String → ℕ → Row → Row
unfolding rerun_note
as_rerun_failed e now r = record r { status = rca_ready; error = rerun_note e; updated_at = now }

abbrev pub no_verdict : Row → Bool
no_verdict r = is_none r.bot_rca_json

abbrev pub has_verdict : Row → Bool
has_verdict r = is_some r.bot_rca_json

-- The second UPDATE is made only if the first changed no row.
unfoldable pub mark_failed : String → Option String → ℕ → Reviews → Reviews
mark_failed key e now rows =
    let first = update_key key no_verdict (as_failed e now) rows in
    if hits_key key no_verdict rows
    then first
    else update_key key has_verdict (as_rerun_failed e now) first

unfoldable pub mark_accepted : String → String → ℕ → Reviews → Reviews
mark_accepted key comment_id now =
    update_key key every
      λ r. record r { status = accepted; comment_id = some comment_id; updated_at = now }

unfoldable pub mark_rejected : String → String → String → ℕ → Reviews → Reviews
mark_rejected key human_rca comment_id now = update_key key every λ r. record r {
  status = rejected;
  human_rca = some human_rca;
  comment_id = some comment_id;
  updated_at = now;
}

unfoldable pub mark_unclear : String → String → List String → ℕ → Reviews → Reviews
mark_unclear key note reasons now = update_key key every λ r. record r {
  status = unclear;
  review_note = some note;
  unclear_reasons = some reasons;
  updated_at = now;
}

-- The UPDATE of `reset_rca` in webapp/app.py.
unfoldable pub reset_row : String → Reviews → Reviews
reset_row key = update_key key every λ r. record r {
  bot_rca_json = none;
  bot_fix_json = none;
  status = pending;
  job_kind = none;
  job_status = none;
  job_error = none;
  job_result = none;
  auto_comment_id = none;
  auto_posted_at = none;
  auto_post_error = none;
}
