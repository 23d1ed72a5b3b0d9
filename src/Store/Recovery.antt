-- ===== src/Store/Recovery.antt =====
-- `init_db` of webapp/db.py: the recovery after a crash.
use rca_claude_agent.Store.Row.{broken, failed, is_running, Row}
use rca_claude_agent.Store.History.{apply, restart, effect}
use rca_claude_agent.Store.Reviews.{init_db}
use rca_claude_agent.Prelude.{arith, false, if◌then◌else◌, some, ◌≡◌, ◌≡◌, String}
use rca_claude_agent.Store.Table.{get_ticket, UniqueKeys, Reviews}
use rca_claude_agent.Store.Jobs.{job_active}
use rca_claude_agent.Store.Refinement.{apply-effect}

-- After a start no run and no job is in flight of a ticket of a table whose keys are unique: an
-- interrupted run is failed, its error a note that asks to retry, and an interrupted job is broken,
-- with the same note; any other status, job status, error and job error is as it was, and so are
-- the verdict, the comments and the stamp of an automatic run.
pub init_db-recovers :
    (k : String) (rows : Reviews) (r : Row)
    → UniqueKeys rows
    → get_ticket k rows ≡ some r
    → (s : Row) × (get_ticket k (init_db rows) ≡ some s)
      × (s.status ≡ (if is_running r.status then failed else r.status))
      × (s.job_status ≡ (if job_active r then some broken else r.job_status))
      × (s.error ≡ (
          if is_running r.status
          then some "Interrupted by a server restart — please retry."
          else r.error))
      × (s.job_error ≡ (
          if job_active r
          then some "Interrupted by a server restart — please retry."
          else r.job_error))
      × (is_running s.status ≡ false)
      × (job_active s ≡ false)
      × (s.bot_rca_json ≡ r.bot_rca_json)
      × (s.comment_id ≡ r.comment_id)
      × (s.auto_comment_id ≡ r.auto_comment_id)
      × (s.auto_run_at ≡ r.auto_run_at)
unfolding effect apply
init_db-recovers k rows r u e = (
  effect restart r,
  apply-effect restart rows k r u e,
  ground arith,
  ground arith,
  ground arith,
  ground arith,
  ground arith,
  ground arith,
  ground arith,
  ground arith,
  ground arith,
  ground arith,
)
