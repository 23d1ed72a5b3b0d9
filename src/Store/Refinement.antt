-- ===== src/Store/Refinement.antt =====
-- The operations of webapp/db.py against the row automaton: the UPDATEs of a table with unique keys
-- act on each row alone.
use rca_claude_agent.Prelude.{
  ℕ, String, ◌≡◌, refl, ◌∙◌, Bool, ◌&&◌, Option, some, [], ◌∷◌, arith, ◌==◌, eq_iff, if◌then◌else◌,
}
use rca_claude_agent.Store.Row.{Row}
use rca_claude_agent.Store.Table.{
  Reviews, get_ticket, update_where, update_key, UniqueKeys, KeepsKey, get_ticket-key,
  get-update_where, get-update_key, hits_key_lem,
}
use rca_claude_agent.Store.Reviews
use rca_claude_agent.Store.Reviews.{Ticket, every, upsert_ticket, merge_ticket, new_row, like_aut}
use rca_claude_agent.Store.Jobs.{job_active}
use rca_claude_agent.Store.Jobs
use rca_claude_agent.Store.Jobs.{no_verdict, has_verdict, as_failed, as_rerun_failed}
use rca_claude_agent.Store.History.{
  Op, restart, sync, store_rca, note_auto_comment, note_auto_error, forget_auto_comment, store_fix,
  drop_fix, store_draft, drop_draft, begin_job, end_job, lose_job, claim, auto_claim, set_running,
  fail, accept, reject, puzzle, reset, apply, effect,
}

-- The update of the row with the key `r.key`, as `effect` writes it.
module _ (j : String) (rows : Reviews) (r : Row) (found : get_ticket j rows ≡ some r) where
  pub at_row :
      (k : String) (p : Row → Bool) (f : Row → Row)
      → KeepsKey f
      → get_ticket j (update_key k p f rows) ≡ some (if (k == r.key) && p r then f r else r)
  at_row k p f h =
      rw (get-update_key j k p f rows h, found) (rw (get_ticket-key j rows r found) refl)

  pub at_row_every :
      (k : String) (f : Row → Row)
      → KeepsKey f
      → get_ticket j (update_key k every f rows) ≡ some (if k == r.key then f r else r)
  at_row_every k f h = at_row k every f h ∙ ground arith

  -- the UPDATEs of `init_db`
  at_row_where :
      (p : Row → Bool) (f : Row → Row)
      → KeepsKey f
      → get_ticket j (update_where p f rows) ≡ some (if p r then f r else r)
  at_row_where p f h = rw (get-update_where j p f rows h, found) refl

pub key-merge_ticket : (t : Ticket) (r : Row) → (merge_ticket t r).key ≡ r.key
unfolding merge_ticket
key-merge_ticket t r = refl

get-upsert_ticket :
    (j : String) (t : Ticket) (now : ℕ) (rows : Reviews) (r : Row)
    → get_ticket j rows ≡ some r
    → get_ticket j (upsert_ticket t now rows)
      ≡ some (if t.key == r.key then merge_ticket t r else r)
unfolding get_ticket upsert_ticket
get-upsert_ticket j t now [] r h = ground arith
get-upsert_ticket j t now (x ∷ rows) r h = ground (
  arith,
  eq_iff x.key j,
  eq_iff x.key t.key,
  eq_iff t.key r.key,
  key-merge_ticket t x,
  get_ticket-key j rows r,
  get-upsert_ticket j t now rows r,
)

get-init_db :
    (j : String) (rows : Reviews) (r : Row)
    → get_ticket j rows ≡ some r
    → get_ticket j (Reviews.init_db rows) ≡ some (effect restart r)
unfolding Reviews.init_db effect
get-init_db j rows r h =
    at_row_where j _ _
      (at_row_where j _ _ (at_row_where j rows r h _ _ (λ _. refl)) _ _ (λ _. refl)) _ _ (λ _. refl)

key-as_failed : (e : Option String) (now : ℕ) (r : Row) → (as_failed e now r).key ≡ r.key
unfolding as_failed
key-as_failed e now r = refl

key-as_rerun_failed :
    (e : Option String) (now : ℕ) (r : Row) → (as_rerun_failed e now r).key ≡ r.key
unfolding as_rerun_failed
key-as_rerun_failed e now r = refl

-- The two UPDATEs of `mark_failed` as one case distinction on the verdict.
get-mark_failed :
    (j k : String) (e : Option String) (now : ℕ) (rows : Reviews) (r : Row)
    → UniqueKeys rows
    → get_ticket j rows ≡ some r
    → get_ticket j (Jobs.mark_failed k e now rows) ≡ some (effect (fail k e now) r)
unfolding Jobs.mark_failed effect
get-mark_failed j k e now rows r u h =
    let first : Reviews = update_key k no_verdict (as_failed e now) rows in
    let r1 : Row = if (k == r.key) && no_verdict r then as_failed e now r else r in
    let h1 : get_ticket j first ≡ some r1 =
      at_row j rows r h k no_verdict _ (key-as_failed e now) in
    ground (
      arith,
      h1,
      eq_iff k r.key,
      get_ticket-key j rows r h,
      hits_key_lem k no_verdict rows u,
      key-as_failed e now r,
      at_row j first r1 h1 k has_verdict (as_rerun_failed e now) (key-as_rerun_failed e now),
    )

-- Refinement: on a table with unique keys every operation acts on each row as the automaton says,
-- whatever the other rows are.
pub apply-effect :
    (op : Op) (rows : Reviews) (j : String) (r : Row)
    → UniqueKeys rows
    → get_ticket j rows ≡ some r
    → get_ticket j (apply op rows) ≡ some (effect op r)
unfolding apply effect
apply-effect restart rows j r u h = get-init_db j rows r h
apply-effect (sync t now) rows j r u h = get-upsert_ticket j t now rows r h
apply-effect (store_rca k json turns now) rows j r u h = at_row_every j rows r h k _ (λ _. refl)
apply-effect (note_auto_comment k id now) rows j r u h = at_row_every j rows r h k _ (λ _. refl)
apply-effect (note_auto_error k e) rows j r u h = at_row_every j rows r h k _ (λ _. refl)
apply-effect (forget_auto_comment k) rows j r u h = at_row_every j rows r h k _ (λ _. refl)
apply-effect (store_fix k json now) rows j r u h = at_row_every j rows r h k _ (λ _. refl)
apply-effect (drop_fix k now) rows j r u h = at_row_every j rows r h k _ (λ _. refl)
apply-effect (store_draft k text now) rows j r u h = at_row_every j rows r h k _ (λ _. refl)
apply-effect (drop_draft k now) rows j r u h = at_row_every j rows r h k _ (λ _. refl)
apply-effect (begin_job k kind now) rows j r u h = at_row j rows r h k _ _ (λ _. refl)
apply-effect (end_job k result now) rows j r u h = at_row_every j rows r h k _ (λ _. refl)
apply-effect (lose_job k e now) rows j r u h = at_row_every j rows r h k _ (λ _. refl)
apply-effect (claim k source now) rows j r u h = at_row j rows r h k _ _ (λ _. refl)
apply-effect (auto_claim k now) rows j r u h = at_row j rows r h k _ _ (λ _. refl)
apply-effect (set_running k now) rows j r u h = at_row_every j rows r h k _ (λ _. refl)
apply-effect (fail k e now) rows j r u h = get-mark_failed j k e now rows r u h
apply-effect (accept k id now) rows j r u h = at_row_every j rows r h k _ (λ _. refl)
apply-effect (reject k text id now) rows j r u h = at_row_every j rows r h k _ (λ _. refl)
apply-effect (puzzle k note reasons now) rows j r u h = at_row_every j rows r h k _ (λ _. refl)
apply-effect (reset k) rows j r u h = at_row_every j rows r h k _ (λ _. refl)

pub get-save_human_rca_draft :
    (k text : String) (now : ℕ) (rows : Reviews) (r : Row)
    → get_ticket k rows ≡ some r
    → get_ticket k (Reviews.save_human_rca_draft k text now rows)
      ≡ some (if k == r.key then record r { human_rca_draft = some text; updated_at = now } else r)
unfolding Reviews.save_human_rca_draft
get-save_human_rca_draft k text now rows r e = at_row_every k rows r e k _ (λ _. refl)
