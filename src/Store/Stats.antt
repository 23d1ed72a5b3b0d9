-- ===== src/Store/Stats.antt =====
-- rca_agent/webapp/db.py: the settings table, the Triage list, and the counts of a period.
use Prim.Native.Nat.{Ordering}
use Prim.Native.String.{compare as compare_text}
use rca_claude_agent.Store.Table.{Reviews}
use rca_claude_agent.Store.Row.{is_accepted, Row, Status, is_decided}
use rca_claude_agent.Prelude.{
  ◌-◌, refl, length, ◌||◌, ◌+◌, arith, ◌&&◌, true, some, ◌==◌, none, [], ◌≡◌, not, truthy, ℕ, keep,
  cut, false, if◌then◌else◌, Option, Bool, List, count, ◌∷◌, String,
}
use rca_claude_agent.Store.Reviews.{like_aut}

-- the table `app_settings`: a key and a value
abbrev pub Settings : Type 0
Settings = List (String × String)

-- `get_setting`, of texts; `none` where there is no row
unfoldable pub get_setting : String → Settings → Option String
get_setting key [] = none
get_setting key ((k, v) ∷ rest) = if k == key then some v else get_setting key rest

-- `set_setting`: a row that is there is overwritten
unfoldable pub set_setting : String → String → Settings → Settings
set_setting key value [] = (key, value) ∷ []
set_setting key value ((k, v) ∷ rest) =
    let further = (k, v) ∷ set_setting key value rest in
    if k == key then (k, value) ∷ rest else further

unfoldable pub start_from : String → Settings → Option String → String × Settings
unfolding set_setting
start_from today rows none = (today, set_setting "period_stats_start" today rows)
start_from today rows (some start) =
    if start == "" then (today, set_setting "period_stats_start" today rows) else (start, rows)

-- `get_period_start`, on the day: it is set once
unfoldable pub get_period_start : String → Settings → String × Settings
unfolding start_from get_setting
get_period_start today rows = start_from today rows (get_setting "period_stats_start" rows)

-- `a <= b` of two texts
abbrev pub text_leb : String → String → Bool
text_leb a b = elim (compare_text a b) [ Ordering.gt ↦ false | _ ↦ true ]

abbrev pub later_of : String → String → String
later_of a b = if text_leb a b then b else a

-- the WHERE of the Triage list, from a day to a day; "" is no bound
abbrev pub on_list : (from_date to_date : String) → Row → Bool
unfolding like_aut cut
on_list from_date to_date r =
    r.on_dashboard
    && like_aut r.key
    && ((from_date == "") || text_leb from_date (cut 10 r.created_at))
    && ((to_date == "") || text_leb (cut 10 r.created_at) to_date)

abbrev pub insert_created : Row → Reviews → Reviews
insert_created r [] = r ∷ []
insert_created r (s ∷ rows) =
    let rest = insert_created r rows in
    if text_leb s.created_at r.created_at then r ∷ s ∷ rows else s ∷ rest

unfoldable pub last_created : Reviews → Reviews
last_created [] = []
last_created (r ∷ rows) = insert_created r (last_created rows)

-- `get_all_tickets`
unfoldable pub get_all_tickets : Reviews → Reviews
get_all_tickets rows = last_created rows

-- `get_dashboard_tickets`
unfoldable pub get_dashboard_tickets : (from_date to_date : String) → Reviews → Reviews
unfolding on_list last_created
get_dashboard_tickets from_date to_date rows = last_created (keep (on_list from_date to_date) rows)

pub record PeriodStats : Type 0 where
  pub start : String
  pub from_date : String
  pub to_date : String
  pub raised_count : ℕ
  pub accepted_count : ℕ
  pub rejected_count : ℕ
  pub no_action : ℕ
  pub unclear_count : ℕ
  pub not_run : ℕ

abbrev pub is_rejected : Status → Bool
is_rejected Status.rejected = true
is_rejected _ = false

abbrev pub is_unclear : Status → Bool
is_unclear Status.unclear = true
is_unclear _ = false

-- an RCA that nobody decided on
abbrev pub awaits : Row → Bool
awaits r = truthy r.bot_rca_json && not (is_decided r.status)

-- the counts of the rows
unfoldable pub stats_of : (start from_date to_date : String) → Reviews → PeriodStats
stats_of start from_date to_date rows =
    let accepted = count (λ r. is_accepted r.status) rows in
    let rejected = count (λ r. is_rejected r.status) rows in
    let unclear = count (λ r. is_unclear r.status) rows in
    let no_action = count awaits rows in
    record {
      start = start;
      from_date = from_date;
      to_date = to_date;
      raised_count = length rows;
      accepted_count = accepted;
      rejected_count = rejected;
      no_action = no_action;
      unclear_count = unclear;
      not_run = length rows - accepted - rejected - unclear - no_action;
    }

-- `get_period_stats`, with the settings that it leaves
unfoldable pub get_period_stats :
    (today from_date to_date : String) → Reviews → Settings → PeriodStats × Settings
unfolding get_period_start get_dashboard_tickets stats_of
get_period_stats today from_date to_date rows settings =
    let period = get_period_start today settings in
    let first = later_of (if from_date == "" then period.0 else from_date) period.0 in
    (stats_of period.0 first to_date (get_dashboard_tickets first to_date rows), period.1)

-- a ticket that was never investigated to an end, and on which nobody decided
abbrev pub never_run : Row → Bool
never_run r = not (truthy r.bot_rca_json) && not (is_decided r.status)

status_lem :
    (s : Status) (b : Bool)
    → (if is_accepted s then 1 else 0)
        + (if is_rejected s then 1 else 0)
        + (if is_unclear s then 1 else 0)
        + (if b && not (is_decided s) then 1 else 0)
        + (if not b && not (is_decided s) then 1 else 0)
      ≡ 1
status_lem Status.pending true = refl
status_lem Status.pending false = refl
status_lem Status.running true = refl
status_lem Status.running false = refl
status_lem Status.rca_ready true = refl
status_lem Status.rca_ready false = refl
status_lem Status.failed true = refl
status_lem Status.failed false = refl
status_lem Status.accepted true = refl
status_lem Status.accepted false = refl
status_lem Status.rejected true = refl
status_lem Status.rejected false = refl
status_lem Status.unclear true = refl
status_lem Status.unclear false = refl

counts-length :
    (rows : Reviews)
    → count (λ r. is_accepted r.status) rows
        + count (λ r. is_rejected r.status) rows
        + count (λ r. is_unclear r.status) rows
        + count awaits rows
        + count never_run rows
      ≡ length rows
counts-length [] = refl
counts-length (r ∷ rows) =
    omega (arith, status_lem r.status (truthy r.bot_rca_json), counts-length rows)

-- The counts of a period add up to the tickets raised in it, and the last of them, which the code
-- gets by subtraction, is the number of its tickets that hold no RCA and that nobody decided on.
stats_of_lem :
    (start from_date to_date : String) (rows : Reviews)
    → (stats_of start from_date to_date rows).not_run ≡ count never_run rows
unfolding stats_of
stats_of_lem start from_date to_date rows = omega (arith, counts-length rows)
