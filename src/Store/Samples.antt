-- ===== src/Store/Samples.antt =====
-- Rows for the tests.
use rca_claude_agent.Prelude.{false, refl, true, [], some, none, ◌≡◌, ◌∷◌}
use rca_claude_agent.Store.Row.{JobStatus, JobKind, Source, Status, Row}
use rca_claude_agent.Store.Table.{UniqueKeys, get_ticket, Reviews}

-- a pending ticket, as the first sync stores it
abbrev pub fresh : Row
fresh = record {
  key = "AUT-1";
  title = "Invoice total is wrong";
  description = "The total counts the tax twice";
  status = Status.pending;
  bot_rca_json = none;
  human_rca = none;
  comment_id = none;
  turns_used = none;
  error = none;
  created_at = "2026-08-03T10:00:00.000+0530";
  updated_at = 100;
  bot_fix_json = none;
  job_kind = none;
  job_status = none;
  job_error = none;
  job_result = none;
  human_rca_draft = none;
  trigger_source = none;
  auto_run_at = none;
  review_note = none;
  unclear_reasons = none;
  on_dashboard = true;
  issue_type = some "Bug";
  jira_status = some "Open";
  jira_done = some false;
  auto_comment_id = none;
  auto_posted_at = none;
  auto_post_error = none;
}

-- another ticket, whose RCA is ready and was posted automatically
abbrev pub posted : Row
posted = record fresh {
  key = "AUT-2";
  status = Status.rca_ready;
  bot_rca_json = some "{}";
  trigger_source = some Source.auto;
  auto_run_at = some 50;
  auto_comment_id = some "c7";
}

-- a re-run in flight, with the verdict of the run before
abbrev pub rerunning : Row
rerunning = record fresh { key = "AUT-3"; status = Status.running; bot_rca_json = some "{}" }

-- accepted
abbrev pub closed_row : Row
closed_row = record posted { key = "AUT-4"; status = Status.accepted; comment_id = some "c7" }

-- a ready RCA whose post is running
abbrev pub posting : Row
posting = record fresh {
  key = "AUT-5";
  status = Status.rca_ready;
  bot_rca_json = some "{}";
  job_kind = some JobKind.accept_post;
  job_status = some JobStatus.active;
}

abbrev pub table : Reviews
table = fresh ∷ posted ∷ rerunning ∷ closed_row ∷ posting ∷ []

pub table-UniqueKeys : UniqueKeys table
unfolding get_ticket
table-UniqueKeys = (refl, (refl, (refl, (refl, (refl, tt)))))

pub posted_here : get_ticket "AUT-2" table ≡ some posted
unfolding get_ticket
posted_here = refl

pub rerunning_here : get_ticket "AUT-3" table ≡ some rerunning
unfolding get_ticket
rerunning_here = refl

pub closed_here : get_ticket "AUT-4" table ≡ some closed_row
unfolding get_ticket
closed_here = refl

pub posting_here : get_ticket "AUT-5" table ≡ some posting
unfolding get_ticket
posting_here = refl
