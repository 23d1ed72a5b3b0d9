-- ===== src/Autorun/Query.antt =====
-- webapp/autorun.py: the query that a poll sends to Jira, `build_jql`, and the poller's interval.
use rca_claude_agent.Prelude.{
  arith, false, ◌=ℕ◌, leb, length, [], ◌&&◌, true, ◌||◌, all, not, min, ◌<>◌, ◌≡◌, Bool,
  if◌then◌else◌, max, ◌∷◌, decimal, ℕ, List, String,
}
use rca_claude_agent.Autorun.Settings.{invalid, ok, Checked, Settings, known}

-- `", ".join(f'"{t}"' for t in types)`
unfoldable pub quoted_types : List String → String
quoted_types [] = ""
quoted_types (t ∷ []) = "\"" <> t <> "\""
quoted_types (t ∷ (u ∷ us)) = "\"" <> t <> "\", " <> quoted_types (u ∷ us)

abbrev clamp : ℕ → ℕ → ℕ → ℕ
clamp lo hi n = max lo (min hi n)

-- `build_jql`; its error leaves out the list of the bad types
unfoldable pub build_jql : List String → ℕ → Checked String
unfolding quoted_types decimal
build_jql types lookback_hours =
    if not (all known types) || (length types =ℕ 0)
    then invalid "allowed_types must be a non-empty subset of WORK_TYPES"
    else ok (
        "project = AUT AND issuetype in ("
        <> quoted_types types
        <> ") AND statusCategory != Done AND created >= -"
        <> decimal (clamp 1 168 lookback_hours)
        <> "h ORDER BY created ASC")

-- `Poller._interval`
unfoldable pub poll_interval : Settings → ℕ
poll_interval s = clamp 30 3600 s.interval_seconds

abbrev pub is_ok {ℓ} : {A : Type ℓ} → Checked A → Bool
is_ok (ok a) = true
is_ok (invalid e) = false

-- A query is built exactly if every type is a known work type and there is at least one, whatever
-- the hours: no other text gets into it as a type.
build_jql-is_ok :
    (types : List String) (hours : ℕ)
    → is_ok (build_jql types hours) ≡ (all known types && leb 1 (length types))
unfolding build_jql
build_jql-is_ok types hours = ground arith
