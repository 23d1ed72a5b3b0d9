-- ===== src/Review/Background.antt =====
-- webapp/app.py: the threads that post a reviewed RCA to Jira, and the automatic post.
use rca_claude_agent.Review.World.{raised, returned, Outcome, World, Jira}
use rca_claude_agent.Prelude.{
  ◌&&◌, ◌&&◌, truthy, none, if◌then◌else◌, true, false, some, Bool, ℕ, Option, String,
}
use rca_claude_agent.Review.Withdraw.{error_text}
use rca_claude_agent.Review.Decide.{or_empty}
use rca_claude_agent.Store.Row.{Source, comment_posted, Row}
use rca_claude_agent.Store.Jobs.{mark_rejected, mark_accepted, finish_job, fail_job}
use rca_claude_agent.Store.Table.{get_ticket}
use rca_claude_agent.Store.Reviews.{
  set_auto_post_error, clear_human_rca_draft, set_auto_comment, clear_auto_comment,
}

-- The comment id that Jira's answer holds, `res.get("id", "")`.
abbrev pub posted_id : Option String → String
posted_id = or_empty

module _ {V : Type 0} (J : Jira V) where
  open J use {Site}

  -- `except Exception as e: store.fail_job(key, …)`
  unfoldable pub lose : String → String → String → ℕ → World Site → World Site
  unfolding error_text
  lose key name text now w = record w {
    reviews = fail_job key (error_text name text) now w.reviews;
  }

  -- what follows the post of `_accept_and_post_background`
  unfoldable pub after_post : String → ℕ → Outcome (Option String) → World Site → World Site
  unfolding lose
  after_post key now (returned id) w = record w {
    reviews =
        finish_job key (some (comment_posted id)) now
          (mark_accepted key (posted_id id) now w.reviews);
  }
  after_post key now (raised name text) w = lose key name text now w

  -- what follows the comment of `_reject_background`
  unfoldable pub after_comment :
      String → String → ℕ → Outcome (Option String) → World Site → World Site
  unfolding lose
  after_comment key human_rca now (returned id) w = record w {
    reviews =
        finish_job key (some (comment_posted id)) now (
          clear_human_rca_draft key now (mark_rejected key human_rca (posted_id id) now w.reviews));
  }
  after_comment key human_rca now (raised name text) w = lose key name text now w

  -- the comment of `_reject_background`, behind the deletion
  unfoldable pub post_human_rca : String → String → ℕ → World Site → World Site
  unfolding after_comment
  post_human_rca key human_rca now w =
      let posted = J.add_comment key human_rca w.site in
      after_comment key human_rca now posted.0 (record w { site = posted.1 })

  -- what follows the deletion of `_reject_background`
  unfoldable pub after_removal : String → String → ℕ → Outcome (Unit {0}) → World Site → World Site
  unfolding lose post_human_rca
  after_removal key human_rca now (returned _) w =
      post_human_rca key human_rca now (record w { reviews = clear_auto_comment key w.reviews })
  after_removal key human_rca now (raised name text) w = lose key name text now w

  abbrev pub auto_comment : Option Row → Option String
  auto_comment none = none
  auto_comment (some t) = t.auto_comment_id

  -- `_reject_background`
  unfoldable pub reject_background : String → String → ℕ → World Site → World Site
  unfolding after_removal post_human_rca
  reject_background key human_rca now w =
      let cid = auto_comment (get_ticket key w.reviews) in
      let removed = J.delete_comment key (or_empty cid) w.site in
      let with_removal =
        after_removal key human_rca now removed.0 (record w { site = removed.1 }) in
      let plain = post_human_rca key human_rca now w in if truthy cid then with_removal else plain

  -- `_maybe_auto_post`, with the `auto_post` switch of the settings
  abbrev pub note_auto_post : String → ℕ → Outcome (Option String) → World Site → World Site
  note_auto_post key now (returned id) w = record w {
    reviews = set_auto_comment key (posted_id id) now w.reviews;
  }
  note_auto_post key now (raised name text) w = record w {
    reviews = set_auto_post_error key (error_text name text) w.reviews;
  }

  abbrev pub is_auto : Option Row → Bool
  is_auto none = false
  is_auto (some t) = elim t.trigger_source [ some Source.auto ↦ true | _ ↦ false ]

  unfoldable pub maybe_auto_post : Bool → String → V → ℕ → World Site → World Site
  unfolding error_text
  maybe_auto_post auto_post key verdict now w =
      let posted = J.post_verdict key verdict w.site in
      let after = note_auto_post key now posted.0 (record w { site = posted.1 }) in
      if is_auto (get_ticket key w.reviews) && auto_post then after else w

  module _ (parse_verdict : String → String → V) where
    -- `_accept_and_post_background`; a row without a verdict makes `parse_verdict` raise
    abbrev post_stored : String → ℕ → Option String → World Site → World Site
    post_stored key now none w =
        lose key "AttributeError" "'NoneType' object has no attribute 'strip'" now w
    post_stored key now (some json) w =
        let posted = J.post_verdict key (parse_verdict json key) w.site in
        after_post key now posted.0 (record w { site = posted.1 })

    abbrev post_ticket : String → ℕ → Option Row → World Site → World Site
    post_ticket key now none w = lose key "TypeError" "'NoneType' object is not subscriptable" now w
    post_ticket key now (some t) w = post_stored key now t.bot_rca_json w

    unfoldable pub accept_background : String → ℕ → World Site → World Site
    unfolding after_post lose
    accept_background key now w = post_ticket key now (get_ticket key w.reviews) w
