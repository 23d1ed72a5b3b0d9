-- ===== src/Autorun/Tick.antt =====
-- webapp/autorun.py: one poll, `Poller.tick`.
use rca_claude_agent.Prelude.{
  ◌++◌, true, none, ltb, contains, ◌+◌, is_some, ◌-◌, ◌||◌, false, min, ◌==◌, leb, ◌&&◌, [], Option,
  starts_with, some, if◌then◌else◌, ◌∷◌, Bool, String, List, ℕ,
}
use rca_claude_agent.Store.Row.{Source, is_running, Row}
use rca_claude_agent.Store.Table.{get_ticket, count_where, Reviews}
use rca_claude_agent.Autorun.Rules.{eligible, is_eligible, skipped, Eligibility, sync_issue, Issue}
use rca_claude_agent.Autorun.Settings.{Settings}
use rca_claude_agent.Store.Jobs.{claim_auto_run}

abbrev pub runs_auto : Row → Bool
runs_auto r = is_running r.status && elim r.trigger_source [ some Source.auto ↦ true | _ ↦ false ]

-- the number of `running_auto_keys()`
unfoldable pub running_auto : Reviews → ℕ
running_auto = count_where runs_auto

abbrev pub since : ℕ → Row → Bool
since day r = elim r.auto_run_at [ some t ↦ leb day t | none ↦ false ]

-- `count_auto_runs_today`, where the IST day began at `day`
unfoldable pub count_auto_runs_today : ℕ → Reviews → ℕ
count_auto_runs_today day = count_where (since day)

-- an issue without a date goes last
abbrev pub before : Issue → Issue → Bool
before a b = elim a.created [
  | none ↦ elim b.created [ none ↦ true | some y ↦ false ]
  | some x ↦ elim b.created [ none ↦ true | some y ↦ leb x y ]
]

insert_issue : Issue → List Issue → List Issue
insert_issue i [] = i ∷ []
insert_issue i (j ∷ js) = if before i j then i ∷ j ∷ js else j ∷ insert_issue i js

-- `sorted(issues, key=created)`, which is stable
unfoldable pub sort_issues : List Issue → List Issue
unfolding insert_issue
sort_issues [] = []
sort_issues (i ∷ is) = insert_issue i (sort_issues is)

-- The variables of the loop, with the keys of the threads that it started.
pub record Progress : Type 0 where
  pub reviews : Reviews
  pub launched : ℕ
  pub skipped_qa : ℕ
  pub seen : List String
  pub threads : List String

-- `why.startswith("qa-env")`
abbrev pub counts_qa : String → ℕ
counts_qa why = if starts_with why "qa-env" then 1 else 0

-- `at` is the time at which the loop comes to a ticket.
module _ (is_qa_env : Issue → Settings → Option String) (s : Settings) (at : String → ℕ) where
  -- the claim of an eligible ticket and the start of its thread; true if it was launched
  unfoldable pub launch : Issue → Progress → Progress × Bool
  launch i p =
      let rows = sync_issue i (at i.key) p.reviews in
      let (claimed_rows, claimed) = claim_auto_run i.key (at i.key) rows in
      if claimed
      then (
        record p {
          reviews = claimed_rows;
          launched = p.launched + 1;
          threads = p.threads ++ i.key ∷ [];
        },
        true,
      )
      else (record p { reviews = claimed_rows }, false)

  abbrev consider : Eligibility → Issue → Progress → Progress × Bool
  consider eligible i p = launch i p
  consider (skipped why) i p = (record p { skipped_qa = p.skipped_qa + counts_qa why }, false)

  -- one round of the loop
  unfoldable pub visit : Issue → Progress → Progress × Bool
  visit i p =
      if (i.key == "") || contains p.seen i.key
      then (p, false)
      else consider (is_eligible is_qa_env i s (get_ticket i.key p.reviews)) i
          (record p { seen = i.key ∷ p.seen })

  -- the loop: it breaks behind the launch that uses the last slot
  unfoldable pub launch_loop : ℕ → List Issue → Progress → Progress
  launch_loop slots [] p = p
  launch_loop slots (i ∷ is) p =
      let (p', started) = visit i p in
      let rest = launch_loop slots is p' in if started && leb slots p'.launched then p' else rest

  abbrev pub free_slots : ℕ → Reviews → ℕ
  free_slots day rows =
      min (s.max_parallel - running_auto rows) (s.daily_cap - count_auto_runs_today day rows)

  abbrev idle : Reviews → Progress
  idle rows = record { reviews = rows; launched = 0; skipped_qa = 0; seen = []; threads = [] }

  -- `tick`, for the issues that the search gave; `day` is the start of the IST day
  unfoldable pub tick : Bool → ℕ → List Issue → Reviews → Progress
  unfolding sort_issues
  tick has_jira day issues rows =
      if s.enabled && has_jira && is_some s.enabled_at && ltb 0 (free_slots day rows)
      then launch_loop (free_slots day rows) (sort_issues issues) (idle rows)
      else idle rows
