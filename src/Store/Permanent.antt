-- ===== src/Store/Permanent.antt =====
-- Facts of a row that no history of operations undoes.
use rca_claude_agent.Store.Row.{Row}
use rca_claude_agent.Prelude.{
  arith, [], false, ◌∙◌, any, ap, is_some, true, ◌∷◌, some, ◌≡◌, ℕ, List, String,
}
use rca_claude_agent.Store.History.{apply, effect, run, Op}
use rca_claude_agent.Store.Table.{get_ticket-key, get_ticket, UniqueKeys, Reviews}
use rca_claude_agent.Store.Once.{
  effect-bot_rca_json, resets, effect-on_dashboard, effect-auto_run_at,
}
use rca_claude_agent.Store.Keys.{apply-UniqueKeys}
use rca_claude_agent.Store.Refinement.{apply-effect}

-- What every operation keeps of a row, every history keeps.
module _ {ℓ} (P : Row → Type ℓ) (kept : (op : Op) (r : Row) → P r → P (effect op r)) where
  run-row :
      (k : String) (ops : List Op) (rows : Reviews) (r : Row)
      → UniqueKeys rows
      → get_ticket k rows ≡ some r
      → P r
      → (s : Row) × (get_ticket k (run ops rows) ≡ some s) × P s
  unfolding run
  run-row k [] rows r u e p = (r, e, p)
  run-row k (op ∷ ops) rows r u e p =
      run-row k ops (apply op rows) (effect op r) (apply-UniqueKeys op rows u)
        (apply-effect op rows k r u e) (kept op r p)

-- Once a ticket is stamped by an automatic run, no history changes or clears the stamp: its row is
-- still there and carries the same time.
pub run-auto_run_at :
    (k : String) (ops : List Op) (rows : Reviews) (r : Row) (t : ℕ)
    → UniqueKeys rows
    → get_ticket k rows ≡ some r
    → r.auto_run_at ≡ some t
    → (s : Row) × (get_ticket k (run ops rows) ≡ some s) × (s.auto_run_at ≡ some t)
run-auto_run_at k ops rows r t u e h =
    run-row (λ x. x.auto_run_at ≡ some t) (λ op x p. effect-auto_run_at op x (ap is_some p) ∙ p) k
      ops rows r u e h

-- A ticket on the Triage list stays on it, whatever follows: its type may change in Jira, it may be
-- closed, reset or decided.
pub run-on_dashboard :
    (k : String) (ops : List Op) (rows : Reviews) (r : Row)
    → UniqueKeys rows
    → get_ticket k rows ≡ some r
    → r.on_dashboard ≡ true
    → (s : Row) × (get_ticket k (run ops rows) ≡ some s) × (s.on_dashboard ≡ true)
run-on_dashboard = run-row (λ x. x.on_dashboard ≡ true) effect-on_dashboard

-- A stored verdict is lost only by a reset of its ticket: a history with none, with failed re-runs
-- and restarts as it likes, ends with a verdict in the ticket's row.
pub run-keeps_verdict :
    (k : String) (ops : List Op) (rows : Reviews) (r : Row)
    → UniqueKeys rows
    → get_ticket k rows ≡ some r
    → is_some r.bot_rca_json ≡ true
    → any (resets k) ops ≡ false
    → (s : Row) × (get_ticket k (run ops rows) ≡ some s) × (is_some s.bot_rca_json ≡ true)
unfolding run
run-keeps_verdict k [] rows r u e h n = (r, e, h)
run-keeps_verdict k (op ∷ ops) rows r u e h n =
    run-keeps_verdict k ops (apply op rows) (effect op r) (apply-UniqueKeys op rows u)
      (apply-effect op rows k r u e)
      (effect-bot_rca_json op r (rw (get_ticket-key k rows r e) (ground arith)) h) (ground arith)
