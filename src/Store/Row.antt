-- ===== src/Store/Row.antt =====
-- One row of the table `reviews` of webapp/db.py, and the words that its columns hold.
use rca_claude_agent.Prelude.{ℕ, String, Bool, true, false, Option, List}

pub data Status : Type 0 where
  pending running rca_ready failed accepted rejected unclear : Status

-- `trigger_source`
pub data Source : Type 0 where
  manual auto : Source

-- `job_kind`
pub data JobKind : Type 0 where
  fix accept_post reject_post : JobKind

-- `job_status`
pub data JobStatus : Type 0 where
  active done broken : JobStatus

-- What `finish_job` stores for the poller: the posted comment's id, or a fix suggestion's JSON.
pub data JobResult : Type 0 where
  comment_posted : Option String → JobResult
  fix_suggested : String → JobResult

-- Times are ticks of one clock; `unclear_reasons` and `job_result` are what
-- their JSON text encodes; the other columns that hold JSON are its text.
pub record Row : Type 0 where
  pub key : String
  pub title : String
  pub description : String
  pub status : Status
  pub bot_rca_json : Option String
  pub human_rca : Option String
  pub comment_id : Option String
  pub turns_used : Option ℕ
  pub error : Option String
  pub created_at : String
  pub updated_at : ℕ
  pub bot_fix_json : Option String
  pub job_kind : Option JobKind
  pub job_status : Option JobStatus
  pub job_error : Option String
  pub job_result : Option JobResult
  pub human_rca_draft : Option String
  pub trigger_source : Option Source
  pub auto_run_at : Option ℕ
  pub review_note : Option String
  pub unclear_reasons : Option (List String)
  pub on_dashboard : Bool
  pub issue_type : Option String
  pub jira_status : Option String
  pub jira_done : Option Bool
  pub auto_comment_id : Option String
  pub auto_posted_at : Option ℕ
  pub auto_post_error : Option String

abbrev pub is_pending : Status → Bool
is_pending Status.pending = true
is_pending _ = false

abbrev pub is_running : Status → Bool
is_running Status.running = true
is_running _ = false

-- `status in DECIDED_STATUSES`
abbrev pub is_decided : Status → Bool
is_decided Status.accepted = true
is_decided Status.rejected = true
is_decided Status.unclear = true
is_decided _ = false

abbrev pub is_accepted : Status → Bool
is_accepted Status.accepted = true
is_accepted _ = false
