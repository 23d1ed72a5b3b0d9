-- ===== src/Review/World.antt =====
-- What the endpoints of webapp/app.py work on: the review table, the Jira site behind the client,
-- the background threads that were started; and handlers, which may raise an `HTTPException`.
use rca_claude_agent.Store.Table.{get_ticket, Reviews}
use rca_claude_agent.Prelude.{
  none, truthy, some, [], ◌∷◌, ◌∷◌, if◌then◌else◌, Option, ◌++◌, Bool, List, ℕ, String,
}
use rca_claude_agent.Store.Row.{Row}

-- What a call of the Jira client gives back: a value, or an exception by its type and text.
pub data Outcome {ℓ} (A : Type ℓ) : Type ℓ where
  returned : A → Outcome A
  raised : String → String → Outcome A

-- The calls that the endpoints make of the Jira client, over any state of the site. The client
-- returns the new comment's `id` where Jira's answer has one.
pub record Jira (V : Type 0) : Type 1 where
  pub Site : Type 0
  pub post_verdict : String → V → Site → Outcome (Option String) × Site
  pub delete_comment : String → String → Site → Outcome (Unit {0}) × Site
  pub add_comment : String → String → Site → Outcome (Option String) × Site

-- A thread that an endpoint starts, by its target and arguments.
pub data Task : Type 0 where
  rca_task : String → Task
  fix_task : String → Task
  accept_task : String → Task
  reject_task : String → String → Task

pub record World (S : Type 0) : Type 0 where
  pub reviews : Reviews
  pub site : S
  pub started : List Task

-- The answer of a handler: what it returns, or the `HTTPException` that it raises.
pub data Answer {ℓ} (A : Type ℓ) : Type ℓ where
  reply : A → Answer A
  http : ℕ → String → Answer A

abbrev pub Handler : Type 0 → Type 0 → Type 0
Handler S A = World S → Answer A × World S

module _ {S A B : Type 0} where
  abbrev pub continue : Answer A → (A → Handler S B) → Handler S B
  continue (reply a) f w = f a w
  continue (http code detail) f w = (http code detail, w)

  infixl 5 ◌>>=◌ ◌>>◌
  abbrev pub ◌>>=◌ : Handler S A → (A → Handler S B) → Handler S B
  ◌>>=◌ m f w = continue (m w).0 f (m w).1

  abbrev pub ◌>>◌ : Handler S A → Handler S B → Handler S B
  m >> k = m >>= λ _. k

module _ {S : Type 0} where
  abbrev pub pure : {A : Type 0} → A → Handler S A
  pure a w = (reply a, w)

  abbrev pub refuse : {A : Type 0} → ℕ → String → Handler S A
  refuse code detail w = (http code detail, w)

  -- `if test: raise HTTPException(code, detail)`
  abbrev pub refuse_if : Bool → ℕ → String → Handler S (Unit {0})
  refuse_if b code detail = if b then refuse code detail else pure tt

  abbrev pub modify : (Reviews → Reviews) → Handler S (Unit {0})
  modify f w = (reply tt, record w { reviews = f w.reviews })

  -- a claim of the store, with what it returns
  abbrev pub claim_by : (Reviews → Reviews × Bool) → Handler S Bool
  claim_by f w = (reply (f w.reviews).1, record w { reviews = (f w.reviews).0 })

  -- `threading.Thread(target=…, args=…).start()`
  abbrev pub start : Task → Handler S (Unit {0})
  start t w = (reply tt, record w { started = w.started ++ t ∷ [] })

  -- `store.get_ticket(key)`
  abbrev pub read : String → Handler S (Option Row)
  read key w = (reply (get_ticket key w.reviews), w)

  -- `ticket = store.get_ticket(key)`, `if not ticket: raise HTTPException(404, …)`
  abbrev pub found : Option Row → Handler S Row
  found none = refuse 404 "Ticket not found"
  found (some t) = pure t

  -- `if not ticket or not ticket.get("bot_rca_json"): raise HTTPException(400, …)`
  abbrev pub with_rca : Option Row → Handler S Row
  with_rca none = refuse 400 "No RCA found for this ticket — run RCA first"
  with_rca (some t) =
      if truthy t.bot_rca_json
      then pure t
      else refuse 400 "No RCA found for this ticket — run RCA first"
