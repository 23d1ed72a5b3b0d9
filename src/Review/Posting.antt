-- ===== src/Review/Posting.antt =====
-- What the endpoints and threads of webapp/app.py that touch Jira leave behind on every outcome of
-- the calls.
use rca_claude_agent.Review.World.{raised, World, returned, Outcome, Jira}
use rca_claude_agent.Store.Table.{get_ticket, Reviews}
use rca_claude_agent.Review.Withdraw.{error_text, reject_local}
use rca_claude_agent.Prelude.{
  ◌⊎◌, Option, if◌then◌else◌, refl, inr, inl, ◌==◌, Bool-cases, arith, strip, none, not, truthy,
  some, false, ◌≡◌, ◌≡◌, true, ℕ, Bool, String,
}
use rca_claude_agent.Store.Row.{comment_posted, done, accepted, broken, rejected, is_decided, Row}
use rca_claude_agent.Review.Decide.{or_empty, is_posting}
use rca_claude_agent.Review.Requests.{is_http, is_reply}
use rca_claude_agent.Store.Updates.{
  get-mark_accepted, get-finish_job, get-fail_job, get-save_draft, get-mark_rejected,
  get-clear_auto_comment,
}
use rca_claude_agent.Store.Reviews.{save_human_rca_draft, clear_auto_comment}
use rca_claude_agent.Review.Background.{posted_id, after_post, accept_background}

abbrev pub is_returned {ℓ} : {A : Type ℓ} → Outcome A → Bool
is_returned (returned a) = true
is_returned (raised name text) = false

-- the comment id of the row behind a post: the new comment's, or the one it had
abbrev pub comment_after : Outcome (Option String) → Option String → Option String
comment_after (returned id) old = some (posted_id id)
comment_after (raised name text) old = old

-- a fact of a ticket's row
abbrev pub At : Reviews → String → (Row → Type 0) → Type 0
At rows key P = (s : Row) × (get_ticket key rows ≡ some s) × P s

module _ {V : Type 0} (J : Jira V) where
  open J use {Site}

  reject_local-refused :
      (key text : String) (now : ℕ) (w : World Site) (t : Row)
      → get_ticket key w.reviews ≡ some t
      → truthy t.bot_rca_json ≡ true
      → is_decided t.status ≡ false
      → is_posting t ≡ false
      → truthy t.auto_comment_id ≡ true
      → is_returned (J.delete_comment key (or_empty t.auto_comment_id) w.site).0 ≡ false
      → let out = reject_local J key text now w in
        (out.1.site ≡ (J.delete_comment key (or_empty t.auto_comment_id) w.site).1)
        × (is_http 502 out.0 ≡ true)
        × (out.1.reviews ≡ w.reviews)
  unfolding reject_local
  reject_local-refused key text now w t e h1 h2 h3 h4 no_delete =
      (ground arith, ground arith, ground arith)

  -- the row behind the deletion
  abbrev forgotten : Row → Row
  forgotten t = record t { auto_comment_id = none; auto_posted_at = none; auto_post_error = none }

  reject_local-withdrawn :
      (key text : String) (now : ℕ) (w : World Site) (t : Row)
      → get_ticket key w.reviews ≡ some t
      → truthy t.bot_rca_json ≡ true
      → is_decided t.status ≡ false
      → is_posting t ≡ false
      → truthy t.auto_comment_id ≡ true
      → is_returned (J.delete_comment key (or_empty t.auto_comment_id) w.site).0 ≡ true
      → let out = reject_local J key text now w in
        (out.1.site ≡ (J.delete_comment key (or_empty t.auto_comment_id) w.site).1)
        × (is_reply out.0 ≡ true)
        × (is_http 502 out.0 ≡ false)
        × At out.1.reviews key λ s.
          (s.status ≡ rejected) × (s.auto_comment_id ≡ none) × (s.human_rca ≡ some (strip text))
  unfolding reject_local
  reject_local-withdrawn key text now w t e h1 h2 h3 h4 ok =
      let r1 = forgotten t in
      let e1 = get-clear_auto_comment key w.reviews t e in
      let rows1 = clear_auto_comment key w.reviews in
      (
        ground arith,
        ground arith,
        ground arith,
        elim (Bool-cases (strip text == "")) [
          | inl b ↦
              let e2 = get-mark_rejected key rows1 r1 e1 (strip text) "" now in
              (
                record r1 {
                  status = rejected;
                  human_rca = some (strip text);
                  comment_id = some "";
                  updated_at = now;
                },
                ground (arith, e2),
                (refl, refl, refl),
              )
          | inr b ↦
              let r2 : Row = record r1 { human_rca_draft = some (strip text); updated_at = now } in
              let e2 = get-save_draft key rows1 r1 e1 (strip text) now in
              let rows2 = save_human_rca_draft key (strip text) now rows1 in
              let e3 = get-mark_rejected key rows2 r2 e2 (strip text) "" now in
              (
                record r2 {
                  status = rejected;
                  human_rca = some (strip text);
                  comment_id = some "";
                  updated_at = now;
                },
                ground (arith, e3),
                (refl, refl, refl),
              )
        ],
      )

  -- Rejecting an undecided ticket whose RCA was posted automatically, and for which no post is
  -- running, deletes that comment and no other. If Jira refuses, the answer is a 502 and the table
  -- is as it was. If Jira deletes it, the row is rejected with the reviewer's text and forgets the comment.
  pub reject_local_withdraws :
      (key text : String) (now : ℕ) (w : World Site) (t : Row)
      → get_ticket key w.reviews ≡ some t
      → truthy t.bot_rca_json ≡ true
      → is_decided t.status ≡ false
      → is_posting t ≡ false
      → truthy t.auto_comment_id ≡ true
      → let del = J.delete_comment key (or_empty t.auto_comment_id) w.site in
        let out = reject_local J key text now w in
        (out.1.site ≡ del.1)
        × (is_reply out.0 ≡ is_returned del.0)
        × (is_http 502 out.0 ≡ not (is_returned del.0))
        × (((is_returned del.0 ≡ false) × (out.1.reviews ≡ w.reviews))
            ⊎ ((is_returned del.0 ≡ true)
                × At out.1.reviews key λ s.
                  (s.status ≡ rejected)
                  × (s.auto_comment_id ≡ none)
                  × (s.human_rca ≡ some (strip text))))
  reject_local_withdraws key text now w t e h1 h2 h3 h4 =
      let del = J.delete_comment key (or_empty t.auto_comment_id) w.site in
      elim (Bool-cases (is_returned del.0)) [
        | inl ok ↦
            let (a, b, c, row) = reject_local-withdrawn key text now w t e h1 h2 h3 h4 ok in
            (a, ground arith, ground arith, inr (ok, row))
        | inr no_delete ↦
            let (a, b, c) = reject_local-refused key text now w t e h1 h2 h3 h4 no_delete in
            (a, ground arith, ground arith, inl (no_delete, c))
      ]

  after_post-row :
      (key : String) (now : ℕ) (o : Outcome (Option String)) (w : World Site) (t : Row)
      → get_ticket key w.reviews ≡ some t
      → At (after_post J key now o w).reviews key λ s.
        (s.status ≡ (if is_returned o then accepted else t.status))
        × (s.job_status ≡ (if is_returned o then some done else some broken))
        × (s.comment_id ≡ comment_after o t.comment_id)
  unfolding after_post
  after_post-row key now (returned id) w t e = (
    _,
    get-finish_job key _ _ (get-mark_accepted key w.reviews t e (posted_id id) now)
        (some (comment_posted id)) now,
    (refl, refl, refl),
  )
  after_post-row key now (raised name text) w t e =
      (_, get-fail_job key w.reviews t e (error_text name text) now, (refl, refl, refl))

  accept_background-eq :
      (parse : String → String → V) (key : String) (now : ℕ) (w : World Site) (t : Row)
      (json : String)
      → get_ticket key w.reviews ≡ some t
      → t.bot_rca_json ≡ some json
      → let post = J.post_verdict key (parse json key) w.site in
        accept_background J parse key now w
        ≡ after_post J key now post.0 (record w { site = post.1 })
  unfolding accept_background
  accept_background-eq parse key now w t json e h = ground arith

  site-after_post :
      (key : String) (now : ℕ) (o : Outcome (Option String)) (w : World Site)
      → (after_post J key now o w).site ≡ w.site
  unfolding after_post
  site-after_post key now o w = ground arith

  -- The thread that posts an accepted RCA, on a ticket with a verdict: Jira gets one post of it. If
  -- that returns, the row is accepted with the comment's id and the job is done; if it raises, the
  -- job is broken, and the status and the comment id are as they were.
  pub accept_background-outcome :
      (parse : String → String → V) (key : String) (now : ℕ) (w : World Site) (t : Row)
      (json : String)
      → get_ticket key w.reviews ≡ some t
      → t.bot_rca_json ≡ some json
      → let post = J.post_verdict key (parse json key) w.site in
        let out = accept_background J parse key now w in
        (out.site ≡ post.1)
        × At out.reviews key λ s.
          (s.status ≡ (if is_returned post.0 then accepted else t.status))
          × (s.job_status ≡ (if is_returned post.0 then some done else some broken))
          × (s.comment_id ≡ comment_after post.0 t.comment_id)
  accept_background-outcome parse key now w t json e h =
      let post = J.post_verdict key (parse json key) w.site in
      let w1 : World Site = record w { site = post.1 } in
      rw (accept_background-eq parse key now w t json e h)
        (site-after_post key now post.0 w1, after_post-row key now post.0 w1 t e)
