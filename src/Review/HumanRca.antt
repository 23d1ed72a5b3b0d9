-- ===== src/Review/HumanRca.antt =====
-- The thread of webapp/app.py that posts the human's RCA, on every outcome of the calls to Jira.
use rca_claude_agent.Review.World.{raised, World, returned, Outcome, Jira}
use rca_claude_agent.Store.Table.{get_ticket}
use rca_claude_agent.Review.Withdraw.{error_text}
use rca_claude_agent.Prelude.{
  Option, if◌then◌else◌, refl, arith, none, truthy, some, ◌≡◌, ◌≡◌, true, ℕ, String,
}
use rca_claude_agent.Store.Row.{comment_posted, done, broken, rejected, Row}
use rca_claude_agent.Review.Decide.{or_empty}
use rca_claude_agent.Store.Updates.{
  get-clear_draft, get-finish_job, get-fail_job, get-mark_rejected, get-clear_auto_comment,
}
use rca_claude_agent.Store.Reviews.{clear_auto_comment}
use rca_claude_agent.Review.Background.{posted_id, after_comment, reject_background}
use rca_claude_agent.Review.Posting.{is_returned, At}

module _ {V : Type 0} (J : Jira V) where
  open J use {Site}

  after_comment-row :
      (key text : String) (now : ℕ) (o : Outcome (Option String)) (w : World Site) (t : Row)
      → get_ticket key w.reviews ≡ some t
      → At (after_comment J key text now o w).reviews key λ s.
        (s.status ≡ (if is_returned o then rejected else t.status))
        × (s.human_rca ≡ (if is_returned o then some text else t.human_rca))
        × (s.human_rca_draft ≡ (if is_returned o then none else t.human_rca_draft))
        × (s.job_status ≡ (if is_returned o then some done else some broken))
        × (s.auto_comment_id ≡ t.auto_comment_id)
  unfolding after_comment
  after_comment-row key text now (returned id) w t e = (
    _,
    get-finish_job key _ _
        (get-clear_draft key _ _ (get-mark_rejected key w.reviews t e text (posted_id id) now) now)
        (some (comment_posted id)) now,
    (refl, refl, refl, refl, refl),
  )
  after_comment-row key text now (raised name message) w t e = (
    _,
    get-fail_job key w.reviews t e (error_text name message) now,
    (refl, refl, refl, refl, refl),
  )

  site-after_comment :
      (key text : String) (now : ℕ) (o : Outcome (Option String)) (w : World Site)
      → (after_comment J key text now o w).site ≡ w.site
  unfolding after_comment
  site-after_comment key text now o w = ground arith

  reject_background-eq :
      (key text : String) (now : ℕ) (w : World Site) (t : Row)
      → get_ticket key w.reviews ≡ some t
      → truthy t.auto_comment_id ≡ true
      → (J.delete_comment key (or_empty t.auto_comment_id) w.site).0 ≡ returned tt
      → let del = J.delete_comment key (or_empty t.auto_comment_id) w.site in
        let post = J.add_comment key text del.1 in
        reject_background J key text now w
        ≡ after_comment J key text now post.0
            (record w { reviews = clear_auto_comment key w.reviews; site = post.1 })
  unfolding reject_background
  reject_background-eq key text now w t e h r = ground arith

  -- The thread that posts the human's RCA, on a ticket whose RCA was posted automatically, when
  -- Jira refuses to delete that comment: nothing else is sent to Jira, the row keeps its status, its
  -- draft and its automatic comment, and the job is broken.
  pub reject_background-no_removal :
      (key text name message : String) (now : ℕ) (w : World Site) (t : Row)
      → get_ticket key w.reviews ≡ some t
      → truthy t.auto_comment_id ≡ true
      → (J.delete_comment key (or_empty t.auto_comment_id) w.site).0 ≡ raised name message
      → let del = J.delete_comment key (or_empty t.auto_comment_id) w.site in
        let out = reject_background J key text now w in
        (out.site ≡ del.1)
        × At out.reviews key λ s.
          (s.status ≡ t.status)
          × (s.human_rca_draft ≡ t.human_rca_draft)
          × (s.auto_comment_id ≡ t.auto_comment_id)
          × (s.job_status ≡ some broken)
  unfolding reject_background
  reject_background-no_removal key text name message now w t e h r = (
    ground arith,
    (
      record t {
        job_status = some broken;
        job_error = some (error_text name message);
        updated_at = now;
      },
      ground (arith, get-fail_job key w.reviews t e (error_text name message) now),
      (refl, refl, refl, refl),
    ),
  )

  -- The same thread when Jira deletes the comment: the row forgets it, whatever follows. Jira is
  -- then sent the human's RCA once. If that returns, the row is rejected with it, its draft is
  -- dropped and the job is done; if it raises, the status and the draft are kept, and the job is broken.
  pub reject_background-removed :
      (key text : String) (now : ℕ) (w : World Site) (t : Row)
      → get_ticket key w.reviews ≡ some t
      → truthy t.auto_comment_id ≡ true
      → (J.delete_comment key (or_empty t.auto_comment_id) w.site).0 ≡ returned tt
      → let del = J.delete_comment key (or_empty t.auto_comment_id) w.site in
        let post = J.add_comment key text del.1 in
        let out = reject_background J key text now w in
        (out.site ≡ post.1)
        × At out.reviews key λ s.
          (s.status ≡ (if is_returned post.0 then rejected else t.status))
          × (s.human_rca ≡ (if is_returned post.0 then some text else t.human_rca))
          × (s.human_rca_draft ≡ (if is_returned post.0 then none else t.human_rca_draft))
          × (s.job_status ≡ (if is_returned post.0 then some done else some broken))
          × (s.auto_comment_id ≡ none)
  reject_background-removed key text now w t e h r =
      let del = J.delete_comment key (or_empty t.auto_comment_id) w.site in
      let post = J.add_comment key text del.1 in
      let w2 : World Site = record w {
        reviews = clear_auto_comment key w.reviews;
        site = post.1;
      } in
      rw (reject_background-eq key text now w t e h r) (
        site-after_comment key text now post.0 w2,
        after_comment-row key text now post.0 w2 _ (get-clear_auto_comment key w.reviews t e),
      )
