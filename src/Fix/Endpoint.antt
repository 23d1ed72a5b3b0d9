-- ===== src/Fix/Endpoint.antt =====
-- rca_agent/webapp/app.py: `raise_mr_endpoint`.
use rca_claude_agent.Review.World.{
  ◌>>◌, modify, read, reply, pure, refuse, ◌>>=◌, ◌>>◌, Handler, Outcome, returned, raised,
}
use rca_claude_agent.Fix.Raise.{Sent, Remote}
use rca_claude_agent.Prelude.{ℕ, none, truthy, if◌then◌else◌, some, String, Option}
use rca_claude_agent.Fix.Push.{mr_results, mr_error, RaiseAnswer, raise_mr}
use rca_claude_agent.Store.Reviews.{save_fix}
use rca_claude_agent.Store.Table.{get_ticket}
use rca_claude_agent.Store.Row.{Row}
use rca_claude_agent.Fix.Build.{FixSuggestion}

-- What the endpoint is called with, beside the key: the configuration, `json.loads` of a stored fix,
-- the JSON text of a fix with what became of it, and the reviewer's targets.
pub record Setup : Type 0 where
  pub remote : Remote
  pub cfg : Option (String × String)
  pub load_fix : String → FixSuggestion
  pub dump_fix : FixSuggestion → RaiseAnswer → String
  pub targets : String → String

-- `if not ticket or not ticket.get("bot_fix_json")`
abbrev stored_fix : Option Row → Option String
stored_fix none = none
stored_fix (some t) = if truthy t.bot_fix_json then t.bot_fix_json else none

abbrev pub with_fix : Option String → Handler Sent String
with_fix none = refuse 400 "No fix suggestion found — run the dev agent first"
with_fix (some json) = pure json

-- `raise_mr(…)` with its requests
abbrev pub call_raise : Setup → String → FixSuggestion → Handler Sent (Outcome RaiseAnswer)
unfolding raise_mr
call_raise S key fix w =
    let done = raise_mr S.remote S.cfg key fix S.targets w.site in
    (reply done.0, record w { site = done.1 })

-- what is stored, and the answer; an exception that nothing catches is a 500
abbrev pub after_raise :
    Setup → String → FixSuggestion → ℕ → Outcome RaiseAnswer → Handler Sent RaiseAnswer
unfolding save_fix
after_raise S key fix now (raised type text) = refuse 500 "Internal Server Error"
after_raise S key fix now (returned (mr_error e)) = refuse 400 e
after_raise S key fix now (returned (mr_results rs)) = do
  modify (save_fix key (S.dump_fix fix (mr_results rs)) now)
  pure (mr_results rs)

-- `raise_mr_endpoint`
unfoldable pub raise_mr_endpoint : Setup → String → ℕ → Handler Sent RaiseAnswer
unfolding get_ticket
raise_mr_endpoint S key now = do
  ticket ← read key
  json ← with_fix (stored_fix ticket)
  res ← call_raise S key (S.load_fix json)
  after_raise S key (S.load_fix json) now res
