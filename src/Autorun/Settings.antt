-- ===== src/Autorun/Settings.antt =====
-- webapp/autorun.py: the settings of Auto-RCA and their update from the dashboard.
use rca_claude_agent.Prelude.{
  decimal, dedupe, ◌++◌, length, none, ◌=ℕ◌, size, ◌||◌, all, ◌==◌, ◌<>◌, [], ◌&&◌, ◌*◌, not, lower,
  all_chars, leb, contains, some, ◌∷◌, if◌then◌else◌, ◌/◌, strip, String, Option, List, false, Bool,
  ℕ,
}

-- The settings. Times are ticks of one clock, a thousand to the second.
pub record Settings : Type 0 where
  pub enabled : Bool
  pub interval_seconds : ℕ
  pub allowed_types : List String
  pub max_parallel : ℕ
  pub daily_cap : ℕ
  pub lookback_hours : ℕ
  pub enabled_at : Option ℕ
  pub exclude_labels : List String
  pub exclude_env_keywords : List String
  pub auto_post : Bool

abbrev pub default_settings : Settings
default_settings = record {
  enabled = false;
  interval_seconds = 120;
  allowed_types = "Bug" ∷ "Incident" ∷ [];
  max_parallel = 2;
  daily_cap = 30;
  lookback_hours = 48;
  enabled_at = none;
  exclude_labels = "qa-found" ∷ [];
  exclude_env_keywords = "qa" ∷ "qa1" ∷ "qa2" ∷ "qa3" ∷ "uat" ∷ "staging" ∷ "preprod" ∷ [];
  auto_post = false;
}

abbrev pub work_types : List String
work_types =
    "New Feature" ∷ "Task" ∷ "Bug" ∷ "Epic" ∷ "Subtask" ∷ "Enhancement" ∷ "Maintenance" ∷ "Incident"
    ∷ "Defect" ∷ []

-- A value of the request's body: a whole number of at least 0 that is no bool, a bool, or anything
-- else, of which only the truth is read.
pub data Value : Type 0 where
  number : ℕ → Value
  flag : Bool → Value
  other : Bool → Value

-- A partial update; `none` is a field that is left out or null.
pub record Update : Type 0 where
  pub interval_seconds : Option Value
  pub max_parallel : Option Value
  pub daily_cap : Option Value
  pub lookback_hours : Option Value
  pub allowed_types : Option (List String)
  pub exclude_labels : Option (List String)
  pub exclude_env_keywords : Option (List String)
  pub auto_post : Option Value
  pub enabled : Option Value

-- A `ValueError` with its message, or the value.
pub data Checked {ℓ} (A : Type ℓ) : Type ℓ where
  ok : A → Checked A
  invalid : String → Checked A

infixl 5 ◌>>=◌
abbrev pub ◌>>=◌ {ℓ κ} : {A : Type ℓ} {B : Type κ} → Checked A → (A → Checked B) → Checked B
ok a >>= f = f a
invalid e >>= f = invalid e

-- `f"{field} must be an integer between {lo} and {hi}"`
unfoldable pub out_of_range : String → ℕ → ℕ → String
unfolding decimal
out_of_range field lo hi =
    field <> " must be an integer between " <> decimal lo <> " and " <> decimal hi

-- one round of the loop over LIMITS
unfoldable pub bounded : String → ℕ → ℕ → ℕ → Option Value → Checked ℕ
bounded field lo hi old none = ok old
bounded field lo hi old (some (number v)) =
    if leb lo v && leb v hi then ok v else invalid (out_of_range field lo hi)
bounded field lo hi old (some (flag b)) = invalid (out_of_range field lo hi)
bounded field lo hi old (some (other b)) = invalid (out_of_range field lo hi)

-- `[str(t).strip() for t in xs if str(t).strip()]`
abbrev pub stripped : List String → List String
stripped [] = []
stripped (x ∷ xs) = if strip x == "" then stripped xs else strip x ∷ stripped xs

abbrev pub known : String → Bool
known t = contains work_types t

unfoldable pub check_types : List String → Option (List String) → Checked (List String)
check_types old none = ok old
check_types old (some names) =
    let types = stripped names in
    if all known types
    then (if length types =ℕ 0
        then invalid "allowed_types must name at least one work type"
        else ok (dedupe types))
    else invalid "allowed_types: unknown work type"

-- `_TOKEN_RE`, `^[a-z0-9_-]{1,40}$`, on a stripped text
abbrev pub token_char : ℕ → Bool
token_char c = (leb 97 c && leb c 122) || (leb 48 c && leb c 57) || (c =ℕ 95) || (c =ℕ 45)

abbrev pub is_token : String → Bool
is_token t = all_chars token_char t && leb 1 (size t) && leb (size t) 40

-- `_clean_tokens`, with the tokens that were found before
unfoldable pub clean_from : String → List String → List String → Checked (List String)
clean_from field out [] = ok out
clean_from field out (v ∷ values) =
    let t = lower (strip v) in
    let next =
      clean_from field (if contains out t || (t == "") then out else out ++ t ∷ []) values in
    if (t == "") || is_token t
    then next
    else invalid (
        field <> ": '" <> t <> "' is not a valid token (letters, digits, '-' or '_', max 40 chars)")

unfoldable pub clean_tokens : String → List String → Option (List String) → Checked (List String)
unfolding clean_from
clean_tokens field old none = ok old
clean_tokens field old (some values) = clean_from field [] values

unfoldable pub check_flag : Bool → Option Value → Checked Bool
check_flag old none = ok old
check_flag old (some (flag b)) = ok b
check_flag old (some (number n)) = invalid "auto_post must be true or false"
check_flag old (some (other b)) = invalid "auto_post must be true or false"

-- `bool(v)`
abbrev pub truth : Value → Bool
truth (number n) = not (n =ℕ 0)
truth (flag b) = b
truth (other b) = b

abbrev pub new_enabled : Bool → Option Value → Bool
new_enabled old none = old
new_enabled old (some v) = truth v

-- `now.strftime("%Y-%m-%dT%H:%M:%SZ")` keeps the whole seconds
abbrev pub whole_second : ℕ → ℕ
whole_second now = now / 1000 * 1000

unfoldable pub apply_update : Settings → Update → ℕ → Checked Settings
apply_update current update now = do
  interval ← bounded "interval_seconds" 30 3600 current.interval_seconds update.interval_seconds
  parallel ← bounded "max_parallel" 1 4 current.max_parallel update.max_parallel
  cap ← bounded "daily_cap" 0 200 current.daily_cap update.daily_cap
  lookback ← bounded "lookback_hours" 1 168 current.lookback_hours update.lookback_hours
  types ← check_types current.allowed_types update.allowed_types
  labels ← clean_tokens "exclude_labels" current.exclude_labels update.exclude_labels
  keywords ←
      clean_tokens "exclude_env_keywords" current.exclude_env_keywords update.exclude_env_keywords
  post ← check_flag current.auto_post update.auto_post
  let on = new_enabled current.enabled update.enabled
  ok (record {
    enabled = on;
    interval_seconds = interval;
    allowed_types = types;
    max_parallel = parallel;
    daily_cap = cap;
    lookback_hours = lookback;
    enabled_at = if on && not current.enabled then some (whole_second now) else current.enabled_at;
    exclude_labels = labels;
    exclude_env_keywords = keywords;
    auto_post = post;
  })
