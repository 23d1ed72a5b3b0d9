-- ===== src/Store/Keys.antt =====
-- The primary key of `reviews` under every operation of webapp/db.py.
use rca_claude_agent.Prelude.{
  ℕ, String, ◌≡◌, refl, ◌≢◌, inl, inr, ◌&&◌, Option, none, List, [], ◌∷◌, arith, ◌==◌, eq_iff,
  Bool-cases,
}
use rca_claude_agent.Store.Row.{Row}
use rca_claude_agent.Store.Table.{
  Reviews, get_ticket, hits_key, UniqueKeys, update_where-UniqueKeys,
}
use rca_claude_agent.Store.Reviews.{Ticket, upsert_ticket, new_row, init_db}
use rca_claude_agent.Store.Jobs.{reset_row, no_verdict, as_failed, as_rerun_failed, mark_failed}
use rca_claude_agent.Store.History.{
  Op, restart, sync, store_rca, begin_job, claim, auto_claim, fail, apply, run,
}
use rca_claude_agent.Store.Refinement.{key-merge_ticket}

key-new_row : (t : Ticket) (now : ℕ) → (new_row t now).key ≡ t.key
unfolding new_row
key-new_row t now = refl

upsert_ticket-absent :
    (j : String) (t : Ticket) (now : ℕ) (rows : Reviews)
    → get_ticket j rows ≡ none
    → t.key ≢ j
    → get_ticket j (upsert_ticket t now rows) ≡ none
unfolding get_ticket upsert_ticket
upsert_ticket-absent j t now [] h d =
    ground (arith, key-new_row t now, eq_iff (new_row t now).key j)
upsert_ticket-absent j t now (r ∷ rows) h d = ground (
  arith,
  key-merge_ticket t r,
  eq_iff r.key t.key,
  eq_iff r.key j,
  upsert_ticket-absent j t now rows,
)

pub upsert_ticket-UniqueKeys :
    (t : Ticket) (now : ℕ) (rows : Reviews)
    → UniqueKeys rows
    → UniqueKeys (upsert_ticket t now rows)
unfolding upsert_ticket get_ticket
upsert_ticket-UniqueKeys t now [] u = (refl, tt)
upsert_ticket-UniqueKeys t now (r ∷ rows) u = ground (
  arith,
  key-merge_ticket t r,
  eq_iff r.key t.key,
  upsert_ticket-absent r.key t now rows u.0,
  upsert_ticket-UniqueKeys t now rows u.1,
)

init_db-UniqueKeys : (rows : Reviews) → UniqueKeys rows → UniqueKeys (init_db rows)
unfolding init_db
init_db-UniqueKeys rows u =
    update_where-UniqueKeys _ _ _ (λ _. refl)
      (update_where-UniqueKeys _ _ _ (λ _. refl) (update_where-UniqueKeys _ _ rows (λ _. refl) u))

mark_failed-UniqueKeys :
    (k : String) (e : Option String) (now : ℕ) (rows : Reviews)
    → UniqueKeys rows
    → UniqueKeys (mark_failed k e now rows)
unfolding mark_failed as_failed as_rerun_failed
mark_failed-UniqueKeys k e now rows u =
    let once =
      update_where-UniqueKeys (λ (r : Row). (r.key == k) && no_verdict r) (as_failed e now) rows
        (λ _. refl) u in
    elim (Bool-cases (hits_key k no_verdict rows)) [
      | inl yes_hit ↦ rw yes_hit once
      | inr no_hit ↦ rw no_hit (update_where-UniqueKeys _ _ _ (λ _. refl) once)
    ]

-- Every operation keeps the keys unique.
pub apply-UniqueKeys : (op : Op) (rows : Reviews) → UniqueKeys rows → UniqueKeys (apply op rows)
unfolding apply
apply-UniqueKeys restart rows u = init_db-UniqueKeys rows u
apply-UniqueKeys (sync t now) rows u = upsert_ticket-UniqueKeys t now rows u
apply-UniqueKeys (fail k e now) rows u = mark_failed-UniqueKeys k e now rows u
apply-UniqueKeys (store_rca k json turns now) rows u =
    update_where-UniqueKeys _ _ rows (λ _. refl) u
apply-UniqueKeys (begin_job k kind now) rows u = update_where-UniqueKeys _ _ rows (λ _. refl) u
apply-UniqueKeys (claim k source now) rows u = update_where-UniqueKeys _ _ rows (λ _. refl) u
apply-UniqueKeys (auto_claim k now) rows u = update_where-UniqueKeys _ _ rows (λ _. refl) u
apply-UniqueKeys _ rows u = update_where-UniqueKeys _ _ rows (λ _. refl) u

-- The empty table and all that the program makes of it have unique keys.
pub run-UniqueKeys : (ops : List Op) (rows : Reviews) → UniqueKeys rows → UniqueKeys (run ops rows)
unfolding run
run-UniqueKeys [] rows u = u
run-UniqueKeys (op ∷ ops) rows u = run-UniqueKeys ops (apply op rows) (apply-UniqueKeys op rows u)

pub reset_row-UniqueKeys :
    (k : String) (rows : Reviews) → UniqueKeys rows → UniqueKeys (reset_row k rows)
unfolding reset_row
reset_row-UniqueKeys k rows u = update_where-UniqueKeys _ _ rows (λ _. refl) u
