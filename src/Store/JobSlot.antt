-- ===== src/Store/JobSlot.antt =====
-- The job slot of webapp/db.py: `start_job` among the other operations.
use rca_claude_agent.Store.Row.{active, JobKind, Row}
use rca_claude_agent.Prelude.{
  refl, sym, if_unless, ap, ◌∙◌, ◌∙◌, none, some, not, eq_iff, inr, inl, [], Option-cases, arith,
  ◌&&◌, count, false, if◌then◌else◌, ◌==◌, ◌≤◌, ◌+◌, ◌≡◌, ◌∷◌, true, ℕ, Bool, List, String,
}
use rca_claude_agent.Store.Jobs.{job_active, as_rerun_failed, as_failed, start_job}
use rca_claude_agent.Store.History.{restart, reset, apply, lose_job, end_job, begin_job, Op, effect}
use rca_claude_agent.Store.Table.{
  get_ticket-key, hits_key_lem, get_ticket, holds_at, UniqueKeys, Reviews,
}
use rca_claude_agent.Store.Reviews.{merge_ticket}
use rca_claude_agent.Store.Keys.{apply-UniqueKeys}
use rca_claude_agent.Store.Refinement.{at_row, apply-effect}

-- A background job of the ticket is recorded as running.
unfoldable pub job_running : String → Reviews → Bool
job_running k rows = holds_at job_active (get_ticket k rows)

-- Whether the operation is a `start_job` of the ticket that succeeds.
unfoldable pub takes_job : String → Op → Reviews → Bool
unfolding start_job
takes_job k (begin_job j kind now) rows = (j == k) && (start_job j kind now rows).1
takes_job k _ rows = false

-- Whether the operation may free the job slot of the ticket.
abbrev pub frees_job : String → Op → Bool
frees_job k restart = true
frees_job k (end_job j result now) = j == k
frees_job k (lose_job j e now) = j == k
frees_job k (reset j) = j == k
frees_job k _ = false

unfoldable pub jobs_taken : String → List Op → Reviews → ℕ
jobs_taken k [] rows = 0
jobs_taken k (op ∷ ops) rows =
    (if takes_job k op rows then 1 else 0) + jobs_taken k ops (apply op rows)

effect-job_active :
    (op : Op) (r : Row)
    → frees_job r.key op ≡ false
    → job_active r ≡ true
    → job_active (effect op r) ≡ true
unfolding effect merge_ticket as_failed as_rerun_failed
effect-job_active restart r n h = ground arith
effect-job_active _ r n h = ground arith

apply-job_running :
    (k : String) (op : Op) (rows : Reviews)
    → UniqueKeys rows
    → frees_job k op ≡ false
    → job_running k rows ≡ true
    → job_running k (apply op rows) ≡ true
unfolding job_running
apply-job_running k op rows u n h = elim (Option-cases (get_ticket k rows)) [
  | inl e ↦ absurd (ground arith)
  | inr (r, e) ↦ ground (
    arith,
    apply-effect op rows k r u e,
    effect-job_active op r (rw (get_ticket-key k rows r e) n),
  )
]

takes_job-row :
    (k : String) (op : Op) (rows : Reviews)
    → UniqueKeys rows
    → takes_job k op rows ≡ true
    → (job_running k rows ≡ false) × (job_running k (apply op rows) ≡ true)
unfolding takes_job job_running effect
takes_job-row k (begin_job j kind now) rows u h = elim (Option-cases (get_ticket k rows)) [
  | inl e ↦
      absurd (ground (arith, eq_iff j k, hits_key_lem j (λ (r : Row). not (job_active r)) rows u))
  | inr (r, e) ↦ ground (
    arith,
    eq_iff j k,
    eq_iff j r.key,
    get_ticket-key k rows r e,
    hits_key_lem j (λ (x : Row). not (job_active x)) rows u,
    apply-effect (begin_job j kind now) rows k r u e,
  )
]
takes_job-row k restart rows u h = absurd (ground arith)
takes_job-row k _ rows u h = absurd (ground arith)

jobs_taken-running :
    (k : String) (ops : List Op) (rows : Reviews)
    → UniqueKeys rows
    → jobs_taken k ops rows + (if job_running k rows then 1 else 0) ≤ count (frees_job k) ops + 1
unfolding jobs_taken
jobs_taken-running k [] rows u = ground arith
jobs_taken-running k (op ∷ ops) rows u = ground (
  arith,
  jobs_taken-running k ops (apply op rows) (apply-UniqueKeys op rows u),
  apply-job_running k op rows u,
  takes_job-row k op rows u,
)

-- In any history of the store, the background jobs that start for a ticket are at most one more
-- than the operations that may free its slot: the end or the loss of a job, a reset, a restart.
pub jobs_taken-le :
    (k : String) (ops : List Op) (rows : Reviews)
    → UniqueKeys rows
    → jobs_taken k ops rows ≤ count (frees_job k) ops + 1
jobs_taken-le k ops rows u = ground (arith, jobs_taken-running k ops rows u)

-- A job starts exactly if the ticket is there and its slot is free; the row keeps all but the job's
-- columns.
pub start_job_lem :
    (k : String) (kind : JobKind) (now : ℕ) (rows : Reviews) (r : Row)
    → UniqueKeys rows
    → get_ticket k rows ≡ some r
    → ((start_job k kind now rows).1 ≡ not (job_active r))
      × (get_ticket k (start_job k kind now rows).0
          ≡ some (
              if job_active r then r else record r {
                job_kind = some kind;
                job_status = some active;
                job_error = none;
                job_result = none;
                updated_at = now;
              }))
unfolding start_job
start_job_lem k kind now rows r u e = (
  ground (arith, hits_key_lem k (λ (x : Row). not (job_active x)) rows u),
  at_row k rows r e k (λ x. not (job_active x)) _ (λ _. refl)
      ∙ ap some (
          if_unless (k == r.key) (job_active r) _ r
            ((eq_iff k r.key).1 (sym (get_ticket-key k rows r e)))),
)
