-- ===== src/Store/Reviews.antt =====
-- webapp/db.py: the operations that write a row of `reviews`. Each is one committed transaction,
-- a function of the table, with the time that SQLite's `now` gives.
use rca_claude_agent.Prelude.{
  ℕ, ◌+◌, String, Bool, true, false, not, ◌&&◌, ◌||◌, Option, none, some, List, [], ◌∷◌, ◌==◌, leb,
  ◌=ℕ◌, if◌then◌else◌, is_some, is_none, codes,
}
use rca_claude_agent.Store.Row.{
  Row, pending, rca_ready, failed, active, broken, is_pending, is_running,
}
use rca_claude_agent.Store.Table.{Reviews, update_where, update_key}

-- no condition beside the key
abbrev pub every : Row → Bool
every r = true

abbrev pub lower : ℕ → ℕ
lower c = if leb b'A' c && leb c b'Z' then c + 32 else c

-- `key LIKE 'AUT-%'`; SQLite's LIKE takes ASCII letters of either case
like_prefix : List ℕ → Bool
like_prefix (a ∷ u ∷ t ∷ d ∷ rest) =
    (lower a =ℕ b'a') && (lower u =ℕ b'u') && (lower t =ℕ b't') && (d =ℕ b'-')
like_prefix _ = false

unfoldable pub like_aut : String → Bool
unfolding like_prefix
like_aut key = like_prefix (codes key)

abbrev pub restart_note : String
restart_note = "Interrupted by a server restart — please retry."

-- The UPDATEs of `init_db`: the backfill of `on_dashboard`, and the recovery of rows and jobs that
-- a crash left at 'running'.
unfoldable pub init_db : Reviews → Reviews
unfolding update_where like_aut
init_db rows =
    update_where (λ r. elim r.job_status [ some active ↦ true | _ ↦ false ])
      (λ r. record r { job_status = some broken; job_error = some restart_note })
      (update_where (λ r. is_running r.status)
        (λ r. record r { status = failed; error = some restart_note })
        (update_where (λ r. like_aut r.key && (not (is_pending r.status) || is_some r.bot_rca_json))
          (λ r. record r { on_dashboard = true }) rows))

-- What `upsert_ticket` is called with.
pub record Ticket : Type 0 where
  pub key : String
  pub title : String
  pub description : String
  pub created_at : String
  pub issue_type : Option String
  pub jira_status : Option String
  pub jira_done : Bool
  pub pin : Bool

-- The row that the INSERT makes: the other columns have their defaults.
unfoldable pub new_row : Ticket → ℕ → Row
new_row t now = record {
  key = t.key;
  title = t.title;
  description = t.description;
  status = pending;
  bot_rca_json = none;
  human_rca = none;
  comment_id = none;
  turns_used = none;
  error = none;
  created_at = t.created_at;
  updated_at = now;
  bot_fix_json = none;
  job_kind = none;
  job_status = none;
  job_error = none;
  job_result = none;
  human_rca_draft = none;
  trigger_source = none;
  auto_run_at = none;
  review_note = none;
  unclear_reasons = none;
  on_dashboard = t.pin;
  issue_type = t.issue_type;
  jira_status = t.jira_status;
  jira_done = some t.jira_done;
  auto_comment_id = none;
  auto_posted_at = none;
  auto_post_error = none;
}

-- `COALESCE(a, b)`
abbrev pub coalesce {ℓ} : {A : Type ℓ} → Option A → Option A → Option A
coalesce none b = b
coalesce (some a) b = some a

-- The `ON CONFLICT(key) DO UPDATE` of `upsert_ticket`.
unfoldable pub merge_ticket : Ticket → Row → Row
merge_ticket t r = record r {
  title = t.title;
  description = t.description;
  issue_type = coalesce t.issue_type r.issue_type;
  jira_status = coalesce t.jira_status r.jira_status;
  jira_done = if is_none t.jira_status then r.jira_done else some t.jira_done;
  on_dashboard = r.on_dashboard || t.pin;
}

unfoldable pub upsert_ticket : Ticket → ℕ → Reviews → Reviews
upsert_ticket t now [] = new_row t now ∷ []
upsert_ticket t now (r ∷ rows) =
    if r.key == t.key then merge_ticket t r ∷ rows else r ∷ upsert_ticket t now rows

unfoldable pub save_rca : String → String → Option ℕ → ℕ → Reviews → Reviews
save_rca key rca_json turns now = update_key key every λ r. record r {
  bot_rca_json = some rca_json;
  status = rca_ready;
  turns_used = turns;
  error = none;
  updated_at = now;
}

unfoldable pub set_auto_comment : String → String → ℕ → Reviews → Reviews
set_auto_comment key comment_id now = update_key key every λ r. record r {
  auto_comment_id = some comment_id;
  auto_posted_at = some now;
  auto_post_error = none;
}

unfoldable pub set_auto_post_error : String → String → Reviews → Reviews
set_auto_post_error key e = update_key key every λ r. record r { auto_post_error = some e }

unfoldable pub clear_auto_comment : String → Reviews → Reviews
clear_auto_comment key =
    update_key key every
      λ r. record r { auto_comment_id = none; auto_posted_at = none; auto_post_error = none }

unfoldable pub save_fix : String → String → ℕ → Reviews → Reviews
save_fix key fix_json now =
    update_key key every λ r. record r { bot_fix_json = some fix_json; updated_at = now }

unfoldable pub clear_fix : String → ℕ → Reviews → Reviews
clear_fix key now = update_key key every λ r. record r { bot_fix_json = none; updated_at = now }

unfoldable pub save_human_rca_draft : String → String → ℕ → Reviews → Reviews
save_human_rca_draft key text now =
    update_key key every λ r. record r { human_rca_draft = some text; updated_at = now }

unfoldable pub clear_human_rca_draft : String → ℕ → Reviews → Reviews
clear_human_rca_draft key now =
    update_key key every λ r. record r { human_rca_draft = none; updated_at = now }
