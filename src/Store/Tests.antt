-- ===== src/Store/Tests.antt =====
-- Runs of the store, and the theorems of Store at the sample rows.
use rca_claude_agent.Store.Samples.{
  rerunning_here, rerunning, posted_here, posted, table-UniqueKeys, table,
}
use rca_claude_agent.Prelude.{
  Bool, false, none, refl, [], is_some, true, ◌+◌, some, ◌∷◌, ◌≡◌, count, ◌≤◌, List,
}
use rca_claude_agent.Store.Once.{auto_claims-le-one, wins, auto_claims}
use rca_claude_agent.Store.Claims.{runs_taken-le, ends_run, takes_run, runs_taken}
use rca_claude_agent.Store.Table.{update_where, count_where, UniqueKeys, get_ticket}
use rca_claude_agent.Store.JobSlot.{jobs_taken-le, frees_job, jobs_taken}
use rca_claude_agent.Store.Row.{is_running, Status, Source, JobKind, Row}
use rca_claude_agent.Store.History.{
  reset, lose_job, effect, claim, begin_job, fail, auto_claim, run, apply, Op,
}
use rca_claude_agent.Store.Jobs.{
  job_active, reset_row, as_failed, mark_failed, claim_running, claim_auto_run,
}
use rca_claude_agent.Store.Keys.{run-UniqueKeys}
use rca_claude_agent.Store.Permanent.{run-keeps_verdict, run-on_dashboard, run-auto_run_at}
use rca_claude_agent.Store.Refinement.{apply-effect}
use rca_claude_agent.Store.Reviews.{init_db}
use rca_claude_agent.Store.Recovery.{init_db-recovers}
use rca_claude_agent.Store.Stats.{
  stats_of, set_setting, get_setting, start_from, get_period_stats, get_period_start,
}

abbrev clicks : List Op
clicks =
    auto_claim "AUT-1" 110
    ∷ claim "AUT-1" Source.manual 111
    ∷ fail "AUT-1" (some "Timed out") 120
    ∷ reset "AUT-1"
    ∷ auto_claim "AUT-1" 130
    ∷ claim "AUT-1" Source.manual 140
    ∷ []

clicks_claims : auto_claims "AUT-1" clicks table ≡ 1
unfolding auto_claims wins claim_auto_run apply count_where update_where claim_running mark_failed
    as_failed reset_row
clicks_claims = refl

clicks_runs : runs_taken "AUT-1" clicks table ≡ 2
unfolding runs_taken takes_run claim_running claim_auto_run apply count_where update_where
    mark_failed as_failed reset_row
clicks_runs = refl

apply-effect_example :
    get_ticket "AUT-2" (apply (fail "AUT-2" (some "overloaded") 120) table)
    ≡ some (effect (fail "AUT-2" (some "overloaded") 120) posted)
apply-effect_example =
    apply-effect (fail "AUT-2" (some "overloaded") 120) table "AUT-2" posted table-UniqueKeys
      posted_here

auto_claims-le-one_example : auto_claims "AUT-1" clicks table ≤ 1
auto_claims-le-one_example = auto_claims-le-one "AUT-1" clicks table table-UniqueKeys

runs_taken-le_example : runs_taken "AUT-1" clicks table ≤ count (ends_run "AUT-1") clicks + 1
runs_taken-le_example = runs_taken-le "AUT-1" clicks table table-UniqueKeys

abbrev jobs : List Op
jobs =
    begin_job "AUT-2" JobKind.fix 110
    ∷ begin_job "AUT-2" JobKind.fix 111
    ∷ lose_job "AUT-2" "no repository" 120
    ∷ []

jobs_taken-le_example : jobs_taken "AUT-2" jobs table ≤ count (frees_job "AUT-2") jobs + 1
jobs_taken-le_example = jobs_taken-le "AUT-2" jobs table table-UniqueKeys

run-UniqueKeys_example : UniqueKeys (run clicks table)
run-UniqueKeys_example = run-UniqueKeys clicks table table-UniqueKeys

run-auto_run_at_example :
    (s : Row) × (get_ticket "AUT-2" (run clicks table) ≡ some s) × (s.auto_run_at ≡ some 50)
run-auto_run_at_example =
    run-auto_run_at "AUT-2" clicks table posted 50 table-UniqueKeys posted_here refl

run-on_dashboard_example :
    (s : Row) × (get_ticket "AUT-2" (run clicks table) ≡ some s) × (s.on_dashboard ≡ true)
run-on_dashboard_example =
    run-on_dashboard "AUT-2" clicks table posted table-UniqueKeys posted_here refl

run-keeps_verdict_example :
    (s : Row) × (get_ticket "AUT-2" (run clicks table) ≡ some s) × (is_some s.bot_rca_json ≡ true)
run-keeps_verdict_example =
    run-keeps_verdict "AUT-2" clicks table posted table-UniqueKeys posted_here refl refl

init_db-recovers_example :
    (s : Row) × (get_ticket "AUT-3" (init_db table) ≡ some s)
    × (s.status ≡ Status.failed)
    × (s.job_status ≡ none)
    × (s.error ≡ some "Interrupted by a server restart — please retry.")
    × (s.job_error ≡ none)
    × (is_running s.status ≡ false)
    × (job_active s ≡ false)
    × (s.bot_rca_json ≡ some "{}")
    × (s.comment_id ≡ none)
    × (s.auto_comment_id ≡ none)
    × (s.auto_run_at ≡ none)
init_db-recovers_example = init_db-recovers "AUT-3" table rerunning table-UniqueKeys rerunning_here

abbrev is_ready_row : Row → Bool
is_ready_row r = elim r.status [ Status.rca_ready ↦ true | _ ↦ false ]

period_starts_once :
    (get_period_start "2026-08-02" (get_period_start "2026-08-01" []).1).0 ≡ "2026-08-01"
unfolding get_period_start start_from get_setting set_setting
period_starts_once = refl

no_stats_before : (get_period_stats "2026-08-02" "2026-01-01" "" [] []).0.from_date ≡ "2026-08-02"
unfolding get_period_stats get_period_start start_from get_setting set_setting stats_of
no_stats_before = refl
