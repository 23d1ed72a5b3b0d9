-- ===== src/Review/Guards.antt =====
-- The guards of the review endpoints of webapp/app.py.
use rca_claude_agent.Review.World.{World, Jira}
use rca_claude_agent.Review.Requests.{
  accept_on_jira, accept_here, not_understood, reject_on_jira, reject_here, draft, is_http, Request,
  handle,
}
use rca_claude_agent.Prelude.{none, Option, arith, true, some, ◌≡◌, ◌≡◌, ℕ, String}
use rca_claude_agent.Store.Row.{reject_post, accept_post, Status, is_decided, Row}
use rca_claude_agent.Store.Table.{UniqueKeys, Reviews, get_ticket}
use rca_claude_agent.Review.Decide.{is_posting}
use rca_claude_agent.Store.Refinement.{get-save_human_rca_draft}
use rca_claude_agent.Store.JobSlot.{start_job_lem}

module _ {V : Type 0} (J : Jira V) where
  open J use {Site}

  -- A ticket that is decided already is refused by every review request with a 400, and nothing
  -- changes: not the table, not Jira, and no thread is started.
  pub decided_refused :
      (q : Request) (key : String) (now : ℕ) (w : World Site) (t : Row)
      → get_ticket key w.reviews ≡ some t
      → is_decided t.status ≡ true
      → (is_http 400 (handle J q key now w).0 ≡ true) × ((handle J q key now w).1 ≡ w)
  unfolding handle
  decided_refused (draft text) key now w t e d = ground arith
  decided_refused accept_here key now w t e d = ground arith
  decided_refused accept_on_jira key now w t e d = ground arith
  decided_refused (reject_here text) key now w t e d = ground arith
  decided_refused (reject_on_jira text) key now w t e d = ground arith
  decided_refused (not_understood note reasons) key now w t e d = ground arith

abbrev status_of : Option Row → Option Status
status_of none = none
status_of (some r) = some r.status

-- the status of a ticket's row
abbrev pub status_at : String → Reviews → Option Status
status_at key rows = status_of (get_ticket key rows)

module _ {V : Type 0} (J : Jira V) where
  open J use {Site}

  -- While a post of a ticket to Jira runs in the background, a review request
  -- changes neither its status nor Jira and starts no thread.
  pub posting_guarded :
      (q : Request) (key : String) (now : ℕ) (w : World Site) (t : Row)
      → UniqueKeys w.reviews
      → get_ticket key w.reviews ≡ some t
      → is_posting t ≡ true
      → (status_at key (handle J q key now w).1.reviews ≡ some t.status)
        × ((handle J q key now w).1.site ≡ w.site)
        × ((handle J q key now w).1.started ≡ w.started)
  unfolding handle
  posting_guarded (draft text) key now w t u e p =
      ground (arith, get-save_human_rca_draft key text now w.reviews t e)
  posting_guarded accept_here key now w t u e p = ground arith
  posting_guarded accept_on_jira key now w t u e p =
      ground (arith, start_job_lem key accept_post now w.reviews t u e)
  posting_guarded (reject_here text) key now w t u e p = ground arith
  posting_guarded (reject_on_jira text) key now w t u e p =
      ground (arith, start_job_lem key reject_post now w.reviews t u e)
  posting_guarded (not_understood note reasons) key now w t u e p = ground arith
