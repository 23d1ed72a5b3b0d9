-- ===== src/Autorun/Tests.antt =====
-- The poller on two issues, and the theorems of Autorun at them.
use rca_claude_agent.Prelude.{
  decimal, lower, strip, refl, arith, length, ◌↔◌, max, ◌+◌, ◌≤◌, ◌≡◌, [], none, ◌∷◌, Option, true,
  some, List, ℕ, String,
}
use rca_claude_agent.Autorun.Settings.{
  out_of_range, ok, check_flag, clean_from, clean_tokens, check_types, flag, bounded, number,
  invalid, apply_update, Update, Settings, default_settings,
}
use rca_claude_agent.Autorun.Rules.{sync_issue, row_bars, eligible, is_eligible, Issue}
use rca_claude_agent.Autorun.Eligible.{is_eligible_iff, IsOpenTicket, IsFrom, IsUntouched}
use rca_claude_agent.Autorun.Tick.{
  count_auto_runs_today, sort_issues, launch, visit, launch_loop, running_auto, tick,
}
use rca_claude_agent.Store.Samples.{table-UniqueKeys, table, fresh}
use rca_claude_agent.Autorun.Caps.{tick-caps, tick-counts}
use rca_claude_agent.Store.Reviews.{merge_ticket, new_row, upsert_ticket}
use rca_claude_agent.Store.Jobs.{claim_auto_run}
use rca_claude_agent.Store.Table.{update_where, count_where, get_ticket}
use rca_claude_agent.Autorun.Valid.{apply_update-IsValid, IsValid}
use rca_claude_agent.Autorun.Query.{quoted_types, build_jql}

abbrev issue : String → ℕ → Issue
issue key created = record {
  key = key;
  summary = "Invoice total is wrong";
  description = "";
  issue_type = some "Bug";
  status_name = some "Open";
  status_category = some "new";
  created_text = "";
  created = some created;
}

abbrev on : Settings
on = record default_settings { enabled = true; enabled_at = some 90 }

-- an environment is known by its label only
abbrev any_env : Issue → Settings → Option String
any_env i s = none

abbrev clock : String → ℕ
clock key = 200

abbrev queue : List Issue
queue = issue "AUT-8" 120 ∷ issue "AUT-1" 100 ∷ issue "AUT-9" 80 ∷ issue "AUT-1" 100 ∷ []

-- the older issue first; the one from before the watermark, and the second copy, are passed over
launched_in_order : (tick any_env on clock true 150 queue table).threads ≡ "AUT-1" ∷ "AUT-8" ∷ []
unfolding tick launch_loop visit launch sort_issues is_eligible row_bars sync_issue upsert_ticket
    claim_auto_run get_ticket count_where update_where running_auto count_auto_runs_today new_row
    merge_ticket
launched_in_order = refl

is_eligible_iff_example : (is_eligible any_env (issue "AUT-1" 100) on (some fresh) ≡ eligible) ↔ (
    IsOpenTicket (issue "AUT-1" 100) on.allowed_types
    × IsFrom on.enabled_at (some 100)
    × IsUntouched (some fresh)
    × (any_env (issue "AUT-1" 100) on ≡ none))
is_eligible_iff_example = is_eligible_iff any_env (issue "AUT-1" 100) on (some fresh)

tick-counts_example :
    (running_auto (tick any_env on clock true 150 queue table).reviews
      ≡ running_auto table + length (tick any_env on clock true 150 queue table).threads)
    × (count_auto_runs_today 150 (tick any_env on clock true 150 queue table).reviews
        ≡ count_auto_runs_today 150 table
          + length (tick any_env on clock true 150 queue table).threads)
tick-counts_example =
    tick-counts any_env on clock 150 table (λ k. omega arith) true queue table-UniqueKeys

tick-caps_example :
    (running_auto (tick any_env on clock true 150 queue table).reviews
      ≤ max on.max_parallel (running_auto table))
    × (count_auto_runs_today 150 (tick any_env on clock true 150 queue table).reviews
        ≤ max on.daily_cap (count_auto_runs_today 150 table))
tick-caps_example =
    tick-caps any_env on clock 150 table (λ k. omega arith) true queue table-UniqueKeys

abbrev nothing : Update
nothing = record {
  interval_seconds = none;
  max_parallel = none;
  daily_cap = none;
  lookback_hours = none;
  allowed_types = none;
  exclude_labels = none;
  exclude_env_keywords = none;
  auto_post = none;
  enabled = none;
}

abbrev change : Update
change = record nothing {
  max_parallel = some (number 3);
  exclude_labels = some (" QA-Found " ∷ []);
  enabled = some (flag true);
}

abbrev changed : Settings
changed = record default_settings {
  enabled = true;
  max_parallel = 3;
  enabled_at = some 7000;
  exclude_labels = "qa-found" ∷ [];
}

change_accepted : apply_update default_settings change 7999 ≡ ok changed
unfolding apply_update bounded check_types clean_tokens clean_from check_flag strip lower
change_accepted = refl

cap_refused :
    apply_update default_settings (record nothing { daily_cap = some (number 201) }) 7999
    ≡ invalid "daily_cap must be an integer between 0 and 200"
unfolding apply_update bounded out_of_range decimal
cap_refused = refl

default-IsValid : IsValid default_settings
default-IsValid = record {
  interval_low = omega arith;
  interval_high = omega arith;
  parallel_low = omega arith;
  parallel_high = omega arith;
  cap_high = omega arith;
  lookback_low = omega arith;
  lookback_high = omega arith;
  some_type = omega arith;
  known_types = refl;
  label_tokens = refl;
  keyword_tokens = refl;
}

apply_update-IsValid_example : IsValid changed
apply_update-IsValid_example =
    apply_update-IsValid default_settings changed change 7999 default-IsValid change_accepted

bugs_jql :
    build_jql ("Bug" ∷ "Incident" ∷ []) 48
    ≡ ok
        "project = AUT AND issuetype in (\"Bug\", \"Incident\") AND statusCategory != Done AND created >= -48h ORDER BY created ASC"
unfolding build_jql quoted_types decimal
bugs_jql = refl
