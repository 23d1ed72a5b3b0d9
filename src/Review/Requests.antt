-- ===== src/Review/Requests.antt =====
-- The requests by which a reviewer works on a ticket's RCA, as one handler.
use rca_claude_agent.Review.World.{Handler, http, reply, Answer, Jira}
use rca_claude_agent.Prelude.{◌=ℕ◌, ◌=ℕ◌, true, false, Bool, List, ℕ, String}
use rca_claude_agent.Review.Decide.{unclear, reject, accept_and_post, accept, save_human_rca}
use rca_claude_agent.Review.Withdraw.{reject_local}

-- One constructor for each endpoint, with its body.
pub data Request : Type 0 where
  draft : String → Request
  accept_here : Request
  accept_on_jira : Request
  reject_here : String → Request
  reject_on_jira : String → Request
  not_understood : String → List String → Request

module _ {V : Type 0} (J : Jira V) where
  unfoldable pub handle : Request → String → ℕ → Handler J.Site String
  unfolding save_human_rca accept accept_and_post reject_local reject unclear
  handle (draft text) key now = save_human_rca key text now
  handle accept_here key now = accept key now
  handle accept_on_jira key now = accept_and_post key now
  handle (reject_here text) key now = reject_local J key text now
  handle (reject_on_jira text) key now = reject key text now
  handle (not_understood note reasons) key now = unclear key note reasons now

-- whether the answer is the `HTTPException` of this code
abbrev pub is_http {ℓ} : {A : Type ℓ} → ℕ → Answer A → Bool
is_http code (reply a) = false
is_http code (http c detail) = c =ℕ code

abbrev pub is_reply {ℓ} : {A : Type ℓ} → Answer A → Bool
is_reply (reply a) = true
is_reply (http c detail) = false
