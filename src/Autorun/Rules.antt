-- ===== src/Autorun/Rules.antt =====
-- webapp/autorun.py: which tickets may be investigated automatically; and `_sync_issue` of
-- webapp/app.py, which stores an issue that Jira gave.
use rca_claude_agent.Prelude.{
  refl, inr, inl, ◌⊎◌, starts_with, truthy, not, ◌||◌, none, ◌≡◌, ◌<>◌, leb, if◌then◌else◌, is_some,
  [], contains, some, true, ◌∷◌, false, Option, Bool, List, String, ℕ,
}
use rca_claude_agent.Store.Table.{Reviews}
use rca_claude_agent.Store.Row.{is_pending, Row, Status}
use rca_claude_agent.Autorun.Settings.{Settings}
use rca_claude_agent.Store.Reviews.{upsert_ticket}

-- The fields of a Jira issue that the rules read. `created` is `created_text` as `parse_jira_ts`
-- reads it.
pub record Issue : Type 0 where
  pub key : String
  pub summary : String
  pub description : String
  pub issue_type : Option String
  pub status_name : Option String
  pub status_category : Option String
  pub created_text : String
  pub created : Option ℕ

abbrev pub one_of : List String → Option String → Bool
one_of names none = false
one_of names (some s) = contains names s

-- `(status.get("statusCategory") or {}).get("key") == "done"`
abbrev pub is_closed : Issue → Bool
is_closed i = one_of ("done" ∷ []) i.status_category

-- `_sync_issue`
unfoldable pub sync_issue : Issue → ℕ → Reviews → Reviews
sync_issue i now =
    upsert_ticket
      (record {
        key = i.key;
        title = i.summary;
        description = i.description;
        created_at = i.created_text;
        issue_type = i.issue_type;
        jira_status = i.status_name;
        jira_done = is_closed i;
        pin = one_of ("Bug" ∷ "Incident" ∷ []) i.issue_type;
      })
      now

-- The answer of `is_eligible`: yes, or no with the reason.
pub data Eligibility : Type 0 where
  eligible : Eligibility
  skipped : String → Eligibility

abbrev pub is_eligible_answer : Eligibility → Bool
is_eligible_answer eligible = true
is_eligible_answer (skipped why) = false

pub Eligibility-cases : (a : Eligibility) → (a ≡ eligible) ⊎ ((why : String) × (a ≡ skipped why))
Eligibility-cases eligible = inl refl
Eligibility-cases (skipped why) = inr (why, refl)

-- The tests of `is_eligible` on the row that the store has: `status` is by its name in a reason.
unfoldable pub row_bars : Option Row → Bool
row_bars none = false
row_bars (some r) = is_some r.auto_run_at || truthy r.bot_rca_json || not (is_pending r.status)

abbrev pub status_word : Status → String
status_word Status.pending = "pending"
status_word Status.running = "running"
status_word Status.rca_ready = "rca_ready"
status_word Status.failed = "failed"
status_word Status.accepted = "accepted"
status_word Status.rejected = "rejected"
status_word Status.unclear = "unclear"

abbrev pub row_reason : Option Row → String
row_reason none = ""
row_reason (some r) =
    if is_some r.auto_run_at then "already auto-run once" else "already " <> status_word r.status

-- whether the issue was created at or after the watermark
abbrev pub from_watermark : Option ℕ → Option ℕ → Bool
from_watermark (some enabled_at) (some created) = leb enabled_at created
from_watermark _ _ = false

abbrev pub date_reason : Option ℕ → Option ℕ → String
date_reason none created = "no enabled_at watermark"
date_reason (some e) none = "no created timestamp"
date_reason (some e) (some c) = "created before Auto-RCA was enabled"

-- The reason for a type leaves out the type's `repr`. `is_qa_env` finds the reason why a ticket belongs to a test environment, if there is one.
module _ (is_qa_env : Issue → Settings → Option String) where
  abbrev qa_answer : Option String → Eligibility
  qa_answer none = eligible
  qa_answer (some why) = skipped ("qa-env " <> why)

  unfoldable pub is_eligible : Issue → Settings → Option Row → Eligibility
  unfolding row_bars
  is_eligible i s row =
      if not (starts_with i.key "AUT-")
      then skipped "not an AUT ticket"
      else if not (one_of s.allowed_types i.issue_type)
      then skipped "type not in allowed_types"
      else if is_closed i
      then skipped "already Done"
      else if not (from_watermark s.enabled_at i.created)
      then skipped (date_reason s.enabled_at i.created)
      else if row_bars row
      then skipped (row_reason row)
      else qa_answer (is_qa_env i s)
