-- ===== src/Review/Jobs.antt =====
-- rca_agent/webapp/app.py: the thread of a fix suggestion and the endpoints that poll a run and a
-- job; `get_job` and `get_scoreboard` of rca_agent/webapp/db.py.
use rca_claude_agent.Review.World.{pure, found, read, ◌>>=◌, Handler}
use rca_claude_agent.Prelude.{
  arith, none, ◌≡◌, refl, if◌then◌else◌, false, some, truthy, true, ◌&&◌, Bool, ℕ, Option, String,
}
use rca_claude_agent.Review.Withdraw.{error_text}
use rca_claude_agent.Store.Table.{get_ticket, Reviews}
use rca_claude_agent.Store.Row.{JobResult, JobStatus, JobKind, Row, Status, done, broken}
use rca_claude_agent.Review.World.{Handler}
use rca_claude_agent.Store.JobSlot.{job_running}
use rca_claude_agent.Store.Jobs.{job_active, fail_job, finish_job}
use rca_claude_agent.Store.Reviews.{save_fix}
use rca_claude_agent.Store.Updates.{get-fail_job, get-save_fix, get-finish_job}

-- How the fix agent ends: with a suggestion's JSON, by the timeout, or by any other exception.
pub data FixEnd : Type 0 where
  suggested : String → FixEnd
  fix_timed_out : FixEnd
  fix_crashed : String → String → FixEnd

-- `_suggest_fix_background`
unfoldable pub suggest_fix_background : String → ℕ → FixEnd → Reviews → Reviews
unfolding error_text
suggest_fix_background key now (suggested json) rows =
    finish_job key (some (JobResult.fix_suggested json)) now (save_fix key json now rows)
suggest_fix_background key now fix_timed_out rows =
    fail_job key "Fix suggestion timed out after 7 minutes." now rows
suggest_fix_background key now (fix_crashed name text) rows =
    fail_job key (error_text name text) now rows

-- What `get_job` gives of a row.
pub record Job : Type 0 where
  pub kind : Option JobKind
  pub status : Option JobStatus
  pub error : Option String
  pub result : Option JobResult

unfoldable pub get_job : String → Reviews → Option Job
get_job key rows = elim (get_ticket key rows) [
  | none ↦ none
  | some t ↦ some (record {
    kind = t.job_kind;
    status = t.job_status;
    error = t.job_error;
    result = t.job_result;
  })
]

-- What GET /api/tickets/{key}/status answers; `verdict` is the stored JSON.
pub record RunStatus : Type 0 where
  pub status : Status
  pub verdict : Option String
  pub turns_used : Option ℕ
  pub error : Option String
  pub auto_comment_id : Option String
  pub auto_post_error : Option String
  pub human_rca_draft : Option String

abbrev is_ready : Status → Bool
is_ready Status.rca_ready = true
is_ready _ = false

abbrev is_failed : Status → Bool
is_failed Status.failed = true
is_failed _ = false

unfoldable pub run_status : Row → RunStatus
run_status t =
    let shown = is_ready t.status && truthy t.bot_rca_json in
    record {
      status = t.status;
      verdict = if shown then t.bot_rca_json else none;
      turns_used = if shown then t.turns_used else none;
      error = if is_failed t.status then t.error else none;
      auto_comment_id = t.auto_comment_id;
      auto_post_error = t.auto_post_error;
      human_rca_draft = if truthy t.human_rca_draft then t.human_rca_draft else none;
    }

module _ {S : Type 0} where
  unfoldable pub rca_status : String → Handler S RunStatus
  unfolding run_status
  rca_status key = do ticket ← read key; t ← found ticket; pure (run_status t)

-- the columns that the thread of a fix suggestion leaves: the job's status, error and result, and the fix
pub record FixColumns : Type 0 where
  pub job_status : Option JobStatus
  pub job_error : Option String
  pub job_result : Option JobResult
  pub bot_fix_json : Option String

abbrev pub left_by : FixEnd → Row → FixColumns
left_by (suggested json) t = record {
  job_status = some done;
  job_error = t.job_error;
  job_result = some (JobResult.fix_suggested json);
  bot_fix_json = some json;
}
left_by fix_timed_out t = record {
  job_status = some broken;
  job_error = some "Fix suggestion timed out after 7 minutes.";
  job_result = t.job_result;
  bot_fix_json = t.bot_fix_json;
}
left_by (fix_crashed name text) t = record {
  job_status = some broken;
  job_error = some (error_text name text);
  job_result = t.job_result;
  bot_fix_json = t.bot_fix_json;
}

get_job_lem :
    (key : String) (rows : Reviews) (s : Row)
    → get_ticket key rows ≡ some s
    → (get_job key rows
        ≡ some (record {
          kind = s.job_kind;
          status = s.job_status;
          error = s.job_error;
          result = s.job_result;
        }))
      × (job_running key rows ≡ job_active s)
unfolding get_job job_running
get_job_lem key rows s e = (ground arith, ground arith)

-- A fix suggestion's thread frees the slot of its ticket however the fix agent ends, and the poller
-- is then told so: a job with a suggestion is done, with the suggestion as its result and as the
-- row's fix; a job that ran out of time or crashed is broken, with its error, and the row's fix is
-- as it was. The status of the ticket and the kind of its job stay. The ticket is one that the
-- table has.
pub suggest_fix_background-frees :
    (key : String) (now : ℕ) (end : FixEnd) (rows : Reviews) (t : Row)
    → get_ticket key rows ≡ some t
    → let after = suggest_fix_background key now end rows in
      let left = left_by end t in
      (s : Row) × (get_ticket key after ≡ some s)
      × (s.bot_fix_json ≡ left.bot_fix_json)
      × (s.status ≡ t.status)
      × (get_job key after
          ≡ some (record {
            kind = t.job_kind;
            status = left.job_status;
            error = left.job_error;
            result = left.job_result;
          }))
      × (job_running key after ≡ false)
unfolding suggest_fix_background
suggest_fix_background-frees key now (suggested json) rows t e =
    let saved = get-save_fix key rows t e json now in
    let q = get-finish_job key _ _ saved (some (JobResult.fix_suggested json)) now in
    let told = get_job_lem key _ _ q in (_, q, refl, refl, told.0, told.1)
suggest_fix_background-frees key now fix_timed_out rows t e =
    let q = get-fail_job key rows t e "Fix suggestion timed out after 7 minutes." now in
    let told = get_job_lem key _ _ q in (_, q, refl, refl, told.0, told.1)
suggest_fix_background-frees key now (fix_crashed name text) rows t e =
    let q = get-fail_job key rows t e (error_text name text) now in
    let told = get_job_lem key _ _ q in (_, q, refl, refl, told.0, told.1)
