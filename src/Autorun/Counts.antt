-- ===== src/Autorun/Counts.antt =====
-- webapp/autorun.py: what a claim and a sync do to the two counts that `Poller.tick` reads.
use rca_claude_agent.Prelude.{
  some, none, ◌≤◌, [], refl, if◌then◌else◌, ◌∷◌, arith, ◌+◌, false, true, ◌≡◌, ℕ, Bool, String,
}
use rca_claude_agent.Store.Table.{
  update_where-UniqueKeys, keyed, count-keyed, hits_key_lem, UniqueKeys, Reviews, update_where,
  count_where,
}
use rca_claude_agent.Store.Jobs.{auto_claimable, claim_auto_run}
use rca_claude_agent.Autorun.Rules.{Issue, sync_issue}
use rca_claude_agent.Store.Row.{Source, Status, Row}
use rca_claude_agent.Store.Reviews.{new_row, merge_ticket, Ticket, upsert_ticket}
use rca_claude_agent.Autorun.Tick.{since, runs_auto, count_auto_runs_today, running_auto}
use rca_claude_agent.Store.Keys.{upsert_ticket-UniqueKeys}

-- An UPDATE whose condition the counted rows fail, and whose rows all count behind it, adds to the
-- count the number of its rows.
count-update_where :
    (P q : Row → Bool) (f : Row → Row) (rows : Reviews)
    → ((r : Row) → q r ≡ true → (P r ≡ false) × (P (f r) ≡ true))
    → count_where P (update_where q f rows) ≡ count_where P rows + count_where q rows
unfolding count_where update_where
count-update_where P q f [] h = refl
count-update_where P q f (r ∷ rows) h = ground (arith, h r, count-update_where P q f rows h)

-- the row of a claim that succeeds
abbrev as_claimed : ℕ → Row → Row
as_claimed now r = record r {
  status = Status.running;
  error = none;
  trigger_source = some Source.auto;
  auto_run_at = some now;
  updated_at = now;
}

-- A claim of the poller adds a row to the count exactly if it succeeds.
claim-count :
    (P : Row → Bool) (k : String) (now : ℕ) (rows : Reviews)
    → UniqueKeys rows
    → ((r : Row) → auto_claimable r ≡ true → (P r ≡ false) × (P (as_claimed now r) ≡ true))
    → count_where P (claim_auto_run k now rows).0
      ≡ count_where P rows + (if (claim_auto_run k now rows).1 then 1 else 0)
unfolding claim_auto_run
claim-count P k now rows u h = ground (
  arith,
  hits_key_lem k auto_claimable rows u,
  count-keyed k auto_claimable rows u,
  count-update_where P (keyed k auto_claimable) (as_claimed now) rows (λ r e. h r (ground arith)),
)

pub claim-counts :
    (k : String) (now day : ℕ) (rows : Reviews)
    → UniqueKeys rows
    → day ≤ now
    → (running_auto (claim_auto_run k now rows).0
        ≡ running_auto rows + (if (claim_auto_run k now rows).1 then 1 else 0))
      × (count_auto_runs_today day (claim_auto_run k now rows).0
          ≡ count_auto_runs_today day rows + (if (claim_auto_run k now rows).1 then 1 else 0))
unfolding running_auto count_auto_runs_today
claim-counts k now day rows u h = (
  claim-count runs_auto k now rows u (λ r e. ground arith),
  claim-count (since day) k now rows u (λ r e. ground arith),
)

upsert-count :
    (P : Row → Bool) (t : Ticket) (now : ℕ) (rows : Reviews)
    → P (new_row t now) ≡ false
    → ((r : Row) → P (merge_ticket t r) ≡ P r)
    → count_where P (upsert_ticket t now rows) ≡ count_where P rows
unfolding count_where upsert_ticket
upsert-count P t now [] h1 h2 = ground arith
upsert-count P t now (r ∷ rows) h1 h2 = ground (arith, h2 r, upsert-count P t now rows h1 h2)

pub sync-counts :
    (i : Issue) (now day : ℕ) (rows : Reviews)
    → (running_auto (sync_issue i now rows) ≡ running_auto rows)
      × (count_auto_runs_today day (sync_issue i now rows) ≡ count_auto_runs_today day rows)
unfolding sync_issue running_auto count_auto_runs_today merge_ticket new_row
sync-counts i now day rows = (
  upsert-count runs_auto _ now rows refl (λ r. refl),
  upsert-count (since day) _ now rows refl (λ r. refl),
)

pub round-UniqueKeys :
    (i : Issue) (now : ℕ) (rows : Reviews)
    → UniqueKeys rows
    → UniqueKeys (claim_auto_run i.key now (sync_issue i now rows)).0
unfolding claim_auto_run sync_issue
round-UniqueKeys i now rows u =
    update_where-UniqueKeys _ _ _ (λ _. refl) (upsert_ticket-UniqueKeys _ now rows u)

pub sync_issue-UniqueKeys :
    (i : Issue) (now : ℕ) (rows : Reviews) → UniqueKeys rows → UniqueKeys (sync_issue i now rows)
unfolding sync_issue
sync_issue-UniqueKeys i now rows u = upsert_ticket-UniqueKeys _ now rows u
