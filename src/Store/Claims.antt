-- ===== src/Store/Claims.antt =====
-- The atomic claims of webapp/db.py, `claim_running`, `claim_auto_run` and `start_job`, in any
-- order among the other operations.
use rca_claude_agent.Store.Row.{running, is_running, Source, Row}
use rca_claude_agent.Prelude.{
  if_unless, refl, sym, ap, ◌∙◌, eq_iff, inr, none, inl, [], Option-cases, not, arith, ◌&&◌, some,
  count, false, if◌then◌else◌, ◌==◌, ◌≤◌, ◌+◌, ◌≡◌, ◌∷◌, true, ℕ, Bool, List, String,
}
use rca_claude_agent.Store.Jobs.{
  auto_claimable, claimable, as_rerun_failed, as_failed, claim_auto_run, claim_running,
}
use rca_claude_agent.Store.History.{
  reset, puzzle, reject, restart, accept, auto_claim, apply, fail, store_rca, claim, Op, effect,
}
use rca_claude_agent.Store.Table.{
  get_ticket-key, hits_key_lem, get_ticket, holds_at, UniqueKeys, Reviews,
}
use rca_claude_agent.Store.Reviews.{merge_ticket}
use rca_claude_agent.Store.Keys.{apply-UniqueKeys}
use rca_claude_agent.Store.Refinement.{at_row, apply-effect}

-- The ticket's investigation is in flight.
unfoldable pub in_flight : String → Reviews → Bool
in_flight k rows = holds_at (λ r. is_running r.status) (get_ticket k rows)

-- Whether the operation is a claim of a run of the ticket, by a click or by the poller, that succeeds.
unfoldable pub takes_run : String → Op → Reviews → Bool
unfolding claim_running claim_auto_run
takes_run k (claim j source now) rows = (j == k) && (claim_running j source now rows).1
takes_run k (auto_claim j now) rows = (j == k) && (claim_auto_run j now rows).1
takes_run k _ rows = false

-- Whether the operation may end a run of the ticket: its outcome, a decision, a reset, a restart.
abbrev pub ends_run : String → Op → Bool
ends_run k restart = true
ends_run k (store_rca j json turns now) = j == k
ends_run k (fail j e now) = j == k
ends_run k (accept j id now) = j == k
ends_run k (reject j text id now) = j == k
ends_run k (puzzle j note reasons now) = j == k
ends_run k (reset j) = j == k
ends_run k _ = false

unfoldable pub runs_taken : String → List Op → Reviews → ℕ
runs_taken k [] rows = 0
runs_taken k (op ∷ ops) rows =
    (if takes_run k op rows then 1 else 0) + runs_taken k ops (apply op rows)

effect-running :
    (op : Op) (r : Row)
    → ends_run r.key op ≡ false
    → is_running r.status ≡ true
    → is_running (effect op r).status ≡ true
unfolding effect merge_ticket as_failed as_rerun_failed
effect-running restart r n h = ground arith
effect-running _ r n h = ground arith

apply-in_flight :
    (k : String) (op : Op) (rows : Reviews)
    → UniqueKeys rows
    → ends_run k op ≡ false
    → in_flight k rows ≡ true
    → in_flight k (apply op rows) ≡ true
unfolding in_flight
apply-in_flight k op rows u n h = elim (Option-cases (get_ticket k rows)) [
  | inl e ↦ absurd (ground arith)
  | inr (r, e) ↦ ground (
    arith,
    get_ticket-key k rows r e,
    apply-effect op rows k r u e,
    effect-running op r (rw (get_ticket-key k rows r e) n),
  )
]

-- A claim that succeeds found the ticket idle and leaves it in flight.
takes_run-row :
    (k : String) (op : Op) (rows : Reviews)
    → UniqueKeys rows
    → takes_run k op rows ≡ true
    → (in_flight k rows ≡ false) × (in_flight k (apply op rows) ≡ true)
unfolding takes_run in_flight effect
takes_run-row k (claim j source now) rows u h = elim (Option-cases (get_ticket k rows)) [
  | inl e ↦ absurd (ground (arith, eq_iff j k, hits_key_lem j claimable rows u))
  | inr (r, e) ↦ ground (
    arith,
    eq_iff j k,
    eq_iff j r.key,
    get_ticket-key k rows r e,
    hits_key_lem j claimable rows u,
    apply-effect (claim j source now) rows k r u e,
  )
]
takes_run-row k (auto_claim j now) rows u h = elim (Option-cases (get_ticket k rows)) [
  | inl e ↦ absurd (ground (arith, eq_iff j k, hits_key_lem j auto_claimable rows u))
  | inr (r, e) ↦ ground (
    arith,
    eq_iff j k,
    eq_iff j r.key,
    get_ticket-key k rows r e,
    hits_key_lem j auto_claimable rows u,
    apply-effect (auto_claim j now) rows k r u e,
  )
]
takes_run-row k _ rows u h = absurd (ground arith)

runs_taken-in_flight :
    (k : String) (ops : List Op) (rows : Reviews)
    → UniqueKeys rows
    → runs_taken k ops rows + (if in_flight k rows then 1 else 0) ≤ count (ends_run k) ops + 1
unfolding runs_taken
runs_taken-in_flight k [] rows u = ground arith
runs_taken-in_flight k (op ∷ ops) rows u = ground (
  arith,
  runs_taken-in_flight k ops (apply op rows) (apply-UniqueKeys op rows u),
  apply-in_flight k op rows u,
  takes_run-row k op rows u,
)

-- In any history of the store, the successful claims of a ticket's run, by clicks and by the poller
-- together, are at most one more than the operations that may end a run of it: two investigations
-- are never claimed with none of those between them.
pub runs_taken-le :
    (k : String) (ops : List Op) (rows : Reviews)
    → UniqueKeys rows
    → runs_taken k ops rows ≤ count (ends_run k) ops + 1
runs_taken-le k ops rows u = ground (arith, runs_taken-in_flight k ops rows u)

-- A claim succeeds exactly if the ticket is there and idle; then its row is running, with its error
-- cleared and the source of the run, and with its verdict, decision and stamp as they were.
pub claim_running_lem :
    (k : String) (source : Source) (now : ℕ) (rows : Reviews) (r : Row)
    → UniqueKeys rows
    → get_ticket k rows ≡ some r
    → ((claim_running k source now rows).1 ≡ not (is_running r.status))
      × (get_ticket k (claim_running k source now rows).0
          ≡ some (
              if is_running r.status then r else record r {
                status = running;
                error = none;
                trigger_source = some source;
                updated_at = now;
              }))
unfolding claim_running
claim_running_lem k source now rows r u e = (
  ground (arith, hits_key_lem k claimable rows u),
  at_row k rows r e k claimable _ (λ _. refl)
      ∙ ap some (
          if_unless (k == r.key) (is_running r.status) _ r
            ((eq_iff k r.key).1 (sym (get_ticket-key k rows r e)))),
)
