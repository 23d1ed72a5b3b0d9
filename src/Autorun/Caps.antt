-- ===== src/Autorun/Caps.antt =====
-- webapp/autorun.py: the limits of `Poller.tick` on what it launches.
use rca_claude_agent.Prelude.{
  ltb, is_some, ◌-◌, max, min, Bool, refl, [], inr, length-append, inl, leb, contains, ◌&&◌, ◌||◌,
  arith, ◌==◌, suc, Bool-cases, List, ◌∷◌, length, if◌then◌else◌, ◌+◌, ◌≡◌, ◌≤◌, Option, ℕ, String,
}
use rca_claude_agent.Autorun.Rules.{is_eligible, Eligibility-cases, sync_issue, Issue}
use rca_claude_agent.Store.Table.{get_ticket, UniqueKeys, Reviews}
use rca_claude_agent.Autorun.Settings.{Settings}
use rca_claude_agent.Autorun.Tick.{
  sort_issues, tick, launch_loop, visit, count_auto_runs_today, launch, running_auto, Progress,
}
use rca_claude_agent.Autorun.Counts.{
  round-UniqueKeys, sync-counts, sync_issue-UniqueKeys, claim-counts,
}
use rca_claude_agent.Store.Jobs.{claim_auto_run}

-- Two tables and the launches between them: both counts grew by as many.
record Grew (day : ℕ) (rows : Reviews) (p : Progress) : Type 0 where
  unique : UniqueKeys p.reviews
  running_grew : running_auto p.reviews ≡ running_auto rows + p.launched
  today_grew : count_auto_runs_today day p.reviews ≡ count_auto_runs_today day rows + p.launched
  threads_grew : length p.threads ≡ p.launched

module _ (is_qa_env : Issue → Settings → Option String) (s : Settings) (at : String → ℕ) (day : ℕ)
    (rows : Reviews) (today : (k : String) → day ≤ at k) where
  launch-Grew :
      (i : Issue) (p : Progress)
      → Grew day rows p
      → Grew day rows (launch is_qa_env s at i p).0
        × ((launch is_qa_env s at i p).0.launched
            ≡ p.launched + (if (launch is_qa_env s at i p).1 then 1 else 0))
  unfolding launch
  launch-Grew i p g =
      let synced = sync_issue i (at i.key) p.reviews in
      let counts =
        claim-counts i.key (at i.key) day synced
          (sync_issue-UniqueKeys i (at i.key) p.reviews g.unique) (today i.key) in
      let kept = sync-counts i (at i.key) day p.reviews in
      let unique = round-UniqueKeys i (at i.key) p.reviews g.unique in
      elim (Bool-cases (claim_auto_run i.key (at i.key) synced).1) [
        | inl e ↦ rw e (
          record {
            unique = unique;
            running_grew = ground arith;
            today_grew = ground arith;
            threads_grew = ground (arith, length-append p.threads (i.key ∷ []));
          },
          refl,
        )
        | inr e ↦ rw e (
          record {
            unique = unique;
            running_grew = ground arith;
            today_grew = ground arith;
            threads_grew = g.threads_grew;
          },
          omega arith,
        )
      ]

  visit-Grew :
      (i : Issue) (p : Progress)
      → Grew day rows p
      → Grew day rows (visit is_qa_env s at i p).0
        × ((visit is_qa_env s at i p).0.launched
            ≡ p.launched + (if (visit is_qa_env s at i p).1 then 1 else 0))
  unfolding visit
  visit-Grew i p g =
      let marked : Grew day rows (record p { seen = i.key ∷ p.seen }) = record {
        unique = g.unique;
        running_grew = g.running_grew;
        today_grew = g.today_grew;
        threads_grew = g.threads_grew;
      } in
      elim (Bool-cases ((i.key == "") || contains p.seen i.key)) [
        | inl e ↦ rw e (g, omega arith)
        | inr e ↦
            rw e
              (elim (Eligibility-cases (is_eligible is_qa_env i s (get_ticket i.key p.reviews))) [
                | inl e2 ↦ rw e2 (launch-Grew i (record p { seen = i.key ∷ p.seen }) marked)
                | inr (why, e2) ↦ rw e2 (
                  record {
                    unique = g.unique;
                    running_grew = g.running_grew;
                    today_grew = g.today_grew;
                    threads_grew = g.threads_grew;
                  },
                  omega arith,
                )
              ])
      ]

  launch_loop-Grew :
      (slots : ℕ) (is : List Issue) (p : Progress)
      → Grew day rows p
      → suc p.launched ≤ slots
      → Grew day rows (launch_loop is_qa_env s at slots is p)
        × ((launch_loop is_qa_env s at slots is p).launched ≤ slots)
  unfolding launch_loop
  launch_loop-Grew slots [] p g h = (g, omega arith)
  launch_loop-Grew slots (i ∷ is) p g h =
      let next = visit is_qa_env s at i p in
      let (grew, step) = visit-Grew i p g in
      elim (Bool-cases (next.1 && leb slots next.0.launched)) [
        | inl e ↦ rw e (grew, ground arith)
        | inr e ↦ rw e (launch_loop-Grew slots is next.0 grew (ground arith))
      ]

  tick-Grew :
      (has_jira : Bool) (issues : List Issue)
      → UniqueKeys rows
      → Grew day rows (tick is_qa_env s at has_jira day issues rows)
        × ((tick is_qa_env s at has_jira day issues rows).launched
            ≤ min
                (s.max_parallel - running_auto rows)
                (s.daily_cap - count_auto_runs_today day rows))
  unfolding tick
  tick-Grew has_jira issues u =
      let none_yet : Grew day rows
          (record { reviews = rows; launched = 0; skipped_qa = 0; seen = []; threads = [] }) =
        record {
          unique = u;
          running_grew = omega arith;
          today_grew = omega arith;
          threads_grew = refl;
        } in
      elim (Bool-cases (
        s.enabled
        && has_jira
        && is_some s.enabled_at
        && ltb 0 (
            min (s.max_parallel - running_auto rows)
              (s.daily_cap - count_auto_runs_today day rows)))) [
                | inl e ↦ rw e (launch_loop-Grew _ (sort_issues issues) _ none_yet (ground arith))
                | inr e ↦ rw e (none_yet, omega arith)
              ]

  -- A poll starts one thread for each ticket it claims: the automatic runs in flight and the
  -- automatic runs of the day both grow by exactly the number of threads, if the keys are unique and
  -- every claim of the poll falls in the day.
  pub tick-counts :
      (has_jira : Bool) (issues : List Issue)
      → UniqueKeys rows
      → (running_auto (tick is_qa_env s at has_jira day issues rows).reviews
          ≡ running_auto rows + length (tick is_qa_env s at has_jira day issues rows).threads)
        × (count_auto_runs_today day (tick is_qa_env s at has_jira day issues rows).reviews
            ≡ count_auto_runs_today day rows
              + length (tick is_qa_env s at has_jira day issues rows).threads)
  tick-counts has_jira issues u =
      let (g, _) = tick-Grew has_jira issues u in
      (ground (arith, g.running_grew, g.threads_grew), ground (arith, g.today_grew, g.threads_grew))

  -- A poll passes no limit: unless they stood above it before, the automatic runs in flight stay
  -- within `max_parallel` and those of the day within `daily_cap`, if the keys are unique and every
  -- claim of the poll falls in the day.
  pub tick-caps :
      (has_jira : Bool) (issues : List Issue)
      → UniqueKeys rows
      → (running_auto (tick is_qa_env s at has_jira day issues rows).reviews
          ≤ max s.max_parallel (running_auto rows))
        × (count_auto_runs_today day (tick is_qa_env s at has_jira day issues rows).reviews
            ≤ max s.daily_cap (count_auto_runs_today day rows))
  tick-caps has_jira issues u =
      let (g, small) = tick-Grew has_jira issues u in
      (ground (arith, g.running_grew, small), ground (arith, g.today_grew, small))
