-- ===== src/Store/Once.antt =====
-- What no history of operations undoes: the stamp of an automatic run, the place on the Triage
-- list, and a verdict, save by a reset.
use rca_claude_agent.Prelude.{
  [], eq_iff, ◌+◌, inr, if◌then◌else◌, ◌&&◌, ◌≤◌, inl, ◌∷◌, Option-cases, some, ℕ, List, String,
  ◌≡◌, Bool, true, false, arith, ◌==◌, is_some,
}
use rca_claude_agent.Store.Row.{Row}
use rca_claude_agent.Store.Reviews.{merge_ticket}
use rca_claude_agent.Store.Jobs.{auto_claimable, claim_auto_run, as_failed, as_rerun_failed}
use rca_claude_agent.Store.History.{auto_claim, apply, Op, restart, reset, effect}
use rca_claude_agent.Store.Table.{
  get_ticket-key, hits_key_lem, UniqueKeys, get_ticket, holds_at, Reviews,
}
use rca_claude_agent.Store.Refinement.{apply-effect}
use rca_claude_agent.Store.Keys.{apply-UniqueKeys}

abbrev pub has_stamp : Row → Bool
has_stamp r = is_some r.auto_run_at

pub effect-auto_run_at :
    (op : Op) (r : Row) → has_stamp r ≡ true → (effect op r).auto_run_at ≡ r.auto_run_at
unfolding effect merge_ticket as_failed as_rerun_failed
effect-auto_run_at restart r h = ground arith
effect-auto_run_at _ r h = ground arith

pub effect-on_dashboard :
    (op : Op) (r : Row) → r.on_dashboard ≡ true → (effect op r).on_dashboard ≡ true
unfolding effect merge_ticket as_failed as_rerun_failed
effect-on_dashboard restart r h = ground arith
effect-on_dashboard _ r h = ground arith

-- whether the operation is a reset of the ticket
abbrev pub resets : String → Op → Bool
resets k (reset j) = j == k
resets k _ = false

pub effect-bot_rca_json :
    (op : Op) (r : Row)
    → resets r.key op ≡ false
    → is_some r.bot_rca_json ≡ true
    → is_some (effect op r).bot_rca_json ≡ true
unfolding effect merge_ticket as_failed as_rerun_failed
effect-bot_rca_json restart r n h = ground arith
effect-bot_rca_json _ r n h = ground arith

effect-key : (op : Op) (r : Row) → (effect op r).key ≡ r.key
unfolding effect merge_ticket as_failed as_rerun_failed
effect-key restart r = ground arith
effect-key _ r = ground arith

-- Whether the ticket has been run automatically.
unfoldable pub stamped : String → Reviews → Bool
stamped k rows = holds_at has_stamp (get_ticket k rows)

-- Whether the operation is an automatic claim of the ticket that succeeds.
unfoldable pub wins : String → Op → Reviews → Bool
unfolding claim_auto_run
wins k (auto_claim j now) rows = (j == k) && (claim_auto_run j now rows).1
wins k _ rows = false

-- The successful automatic claims of the ticket in a history.
unfoldable pub auto_claims : String → List Op → Reviews → ℕ
auto_claims k [] rows = 0
auto_claims k (op ∷ ops) rows =
    (if wins k op rows then 1 else 0) + auto_claims k ops (apply op rows)

stamped-row :
    (k : String) (rows : Reviews)
    → stamped k rows ≡ true
    → (r : Row) × (get_ticket k rows ≡ some r) × (has_stamp r ≡ true)
unfolding stamped
stamped-row k rows h = elim (Option-cases (get_ticket k rows)) [
  | inl e ↦ absurd (ground arith)
  | inr (r, e) ↦ (r, e, ground arith)
]

apply-stamped :
    (k : String) (op : Op) (rows : Reviews)
    → UniqueKeys rows
    → stamped k rows ≡ true
    → stamped k (apply op rows) ≡ true
unfolding stamped
apply-stamped k op rows u h =
    let (r, e, s) = stamped-row k rows h in
    ground (arith, apply-effect op rows k r u e, effect-auto_run_at op r s)

-- The row that an automatic claim takes.
wins-row :
    (k : String) (op : Op) (rows : Reviews)
    → UniqueKeys rows
    → wins k op rows ≡ true
    → (stamped k rows ≡ false) × (stamped k (apply op rows) ≡ true)
unfolding wins stamped effect
wins-row k (auto_claim j now) rows u h = elim (Option-cases (get_ticket k rows)) [
  | inl e ↦ absurd (ground (arith, eq_iff j k, hits_key_lem j auto_claimable rows u))
  | inr (r, e) ↦ ground (
    arith,
    eq_iff j k,
    eq_iff j r.key,
    get_ticket-key k rows r e,
    hits_key_lem j auto_claimable rows u,
    apply-effect (auto_claim j now) rows k r u e,
  )
]
wins-row k restart rows u h = absurd (ground arith)
wins-row k _ rows u h = absurd (ground arith)

run-stamped :
    (k : String) (ops : List Op) (rows : Reviews)
    → UniqueKeys rows
    → auto_claims k ops rows ≤ (if stamped k rows then 0 else 1)
unfolding auto_claims
run-stamped k [] rows u = omega arith
run-stamped k (op ∷ ops) rows u = ground (
  arith,
  run-stamped k ops (apply op rows) (apply-UniqueKeys op rows u),
  apply-stamped k op rows u,
  wins-row k op rows u,
)

-- A ticket is run automatically at most once, ever: whatever operations of the store follow one
-- another on a table with unique keys, re-runs, resets, failures and restarts among them, at most
-- one automatic claim of the ticket succeeds.
pub auto_claims-le-one :
    (k : String) (ops : List Op) (rows : Reviews) → UniqueKeys rows → auto_claims k ops rows ≤ 1
auto_claims-le-one k ops rows u = ground (arith, run-stamped k ops rows u)
