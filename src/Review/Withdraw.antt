-- ===== src/Review/Withdraw.antt =====
-- webapp/app.py: the endpoints that take an automatically posted RCA off Jira first, and the
-- background threads that post to Jira.
use rca_claude_agent.Review.World.{
  refuse, raised, refuse_if, pure, with_rca, modify, read, returned, reply, Outcome, Jira, ◌>>=◌,
  ◌>>◌, Handler,
}
use rca_claude_agent.Prelude.{
  none, not, ◌&&◌, ◌&&◌, ◌==◌, some, ◌==◌, truthy, if◌then◌else◌, ◌<>◌, Option, ℕ, ◌<>◌, strip,
  String, cut,
}
use rca_claude_agent.Review.Decide.{or_empty, refuse_if_posting}
use rca_claude_agent.Store.Row.{is_accepted, is_decided, Row}
use rca_claude_agent.Store.Reviews.{save_human_rca_draft, clear_auto_comment}
use rca_claude_agent.Store.Jobs.{mark_rejected, reset_row}

-- `f"{type(e).__name__}: {str(e)[:200]}"`
unfoldable pub error_text : String → String → String
unfolding cut
error_text name text = name <> ": " <> cut 200 text

module _ {V : Type 0} (J : Jira V) where
  open J use {Site}

  abbrev call : {A : Type 0} → (Site → Outcome A × Site) → Handler Site (Outcome A)
  call f w = (reply (f w.site).0, record w { site = (f w.site).1 })

  -- the outcome of `delete_comment` in `_withdraw_auto_post`
  abbrev after_delete : String → Outcome (Unit {0}) → Handler Site (Unit {0})
  after_delete key (returned _) = modify (clear_auto_comment key)
  after_delete key (raised name text) = refuse 502 (
      "Could not delete the auto-posted RCA from Jira ("
      <> error_text name text
      <> ") — nothing was changed; retry, or delete the comment on Jira by hand")

  -- `_withdraw_auto_post`
  unfoldable pub withdraw_auto_post : String → Row → Handler Site (Unit {0})
  withdraw_auto_post key t =
      if truthy t.auto_comment_id
      then (do
        deleted ← call (J.delete_comment key (or_empty t.auto_comment_id))
        after_delete key deleted)
      else pure tt

  -- the guard and the UPDATEs of `reject_local` behind the withdrawal
  abbrev save_draft_if : String → String → ℕ → Handler Site (Unit {0})
  save_draft_if key text now =
      if text == "" then pure tt else modify (save_human_rca_draft key text now)

  -- POST /api/tickets/{key}/reject_local
  unfoldable pub reject_local : String → String → ℕ → Handler Site String
  unfolding strip refuse_if_posting withdraw_auto_post
  reject_local key human_rca now = do
    ticket ← read key
    t ← with_rca ticket
    refuse_if (is_decided t.status) 400 "Already reviewed"
    refuse_if_posting t
    withdraw_auto_post key t
    save_draft_if key (strip human_rca) now
    modify (mark_rejected key (strip human_rca) "" now)
    pure "rejected"

  -- the part of `reset_rca` before its UPDATE
  unfoldable pub withdraw_undecided : String → Option Row → Handler Site (Unit {0})
  unfolding refuse_if_posting withdraw_auto_post
  withdraw_undecided key none = pure tt
  withdraw_undecided key (some t) =
      if truthy t.auto_comment_id && not (is_accepted t.status)
      then (do refuse_if_posting t; withdraw_auto_post key t)
      else pure tt

  -- POST /api/tickets/{key}/reset
  unfoldable pub reset_rca : String → Handler Site String
  unfolding withdraw_undecided
  reset_rca key = do
    ticket ← read key
    withdraw_undecided key ticket
    modify (reset_row key)
    pure "reset"
