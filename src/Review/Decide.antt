-- ===== src/Review/Decide.antt =====
-- webapp/app.py: the endpoints by which a reviewer decides on an RCA, drafts one, starts a run or a
-- fix, discards a fix, and resets a ticket. Each runs with no other writer in between.
use rca_claude_agent.Review.World.{
  reject_task, accept_task, fix_task, rca_task, start, pure, modify, claim_by, with_rca, found,
  read, ◌>>◌, ◌>>=◌, refuse_if, Handler,
}
use rca_claude_agent.Prelude.{
  ◌=ℕ◌, truthy, ◌=ℕ◌, if◌then◌else◌, dedupe, length, ◌==◌, ◌==◌, ltb, contains, not, keep, ◌&&◌,
  ◌&&◌, none, false, true, [], ◌∷◌, ℕ, some, Bool, ◌∷◌, strip, Option, List, String,
}
use rca_claude_agent.Store.Row.{fix, manual, reject_post, accept_post, is_decided, JobKind, Row}
use rca_claude_agent.Store.Jobs.{mark_unclear, mark_accepted, start_job, claim_running, job_active}
use rca_claude_agent.Store.Reviews.{save_human_rca_draft, clear_fix}

-- The texts of UNCLEAR_REASONS of webapp/db.py, by their ids.
abbrev pub unclear_reason_ids : List String
unclear_reason_ids =
    "too_technical" ∷ "too_long" ∷ "no_clear_answer" ∷ "next_step_unclear" ∷ "contradictory"
    ∷ "wrong_area" ∷ []

-- `job_status == "running" and job_kind in ("accept_post", "reject")`
abbrev pub posts : Option JobKind → Bool
posts (some accept_post) = true
posts (some reject_post) = true
posts _ = false

abbrev pub is_posting : Row → Bool
is_posting t = job_active t && posts t.job_kind

-- `x or ""`
abbrev pub or_empty : Option String → String
or_empty none = ""
or_empty (some s) = s

-- `ticket and ticket["status"] in DECIDED_STATUSES`
abbrev pub decided_row : Option Row → Bool
decided_row none = false
decided_row (some t) = is_decided t.status

module _ {S : Type 0} where
  unfoldable pub refuse_if_posting : Row → Handler S (Unit {0})
  refuse_if_posting t =
      refuse_if (is_posting t) 409 "A Jira post for this ticket is still running — wait for it"

  abbrev refuse_if_decided : Row → String → Handler S (Unit {0})
  refuse_if_decided t detail = refuse_if (is_decided t.status) 400 detail

  -- POST /api/tickets/{key}/rca
  unfoldable pub run_rca : String → ℕ → Handler S String
  run_rca key now = do
    ticket ← read key
    _ ← found ticket
    claimed ← claim_by (claim_running key manual now)
    if not claimed then pure "already_running" else do start (rca_task key); pure "started"

  -- POST /api/tickets/{key}/suggest_fix
  unfoldable pub suggest_fix : String → ℕ → Handler S String
  suggest_fix key now = do
    ticket ← read key
    _ ← with_rca ticket
    claimed ← claim_by (start_job key fix now)
    if not claimed then pure "already_running" else do start (fix_task key); pure "started"

  -- POST /api/tickets/{key}/reject_fix
  unfoldable pub reject_fix : String → ℕ → Handler S String
  reject_fix key now = do
    ticket ← read key
    _ ← found ticket
    modify (clear_fix key now)
    pure "cleared"

  -- POST /api/tickets/{key}/save_human_rca
  unfoldable pub save_human_rca : String → String → ℕ → Handler S String
  save_human_rca key text now = do
    ticket ← read key
    t ← found ticket
    refuse_if_decided t "Already reviewed — nothing to draft"
    modify (save_human_rca_draft key text now)
    pure "saved"

  -- POST /api/tickets/{key}/accept
  unfoldable pub accept : String → ℕ → Handler S String
  unfolding refuse_if_posting
  accept key now = do
    ticket ← read key
    t ← with_rca ticket
    refuse_if_decided t "Already reviewed"
    refuse_if_posting t
    modify (mark_accepted key (or_empty t.auto_comment_id) now)
    pure "accepted"

  -- POST /api/tickets/{key}/unclear; the 400 for unknown reasons leaves out their list
  unfoldable pub unclear : String → String → List String → ℕ → Handler S String
  unfolding refuse_if_posting strip
  unclear key body_note body_reasons now = do
    let note = strip body_note
    let bad = keep (λ r. not (contains unclear_reason_ids r)) body_reasons
    refuse_if (ltb 0 (length bad)) 400 "Unknown reason(s)"
    let reasons = dedupe body_reasons
    refuse_if ((note == "") && (length reasons =ℕ 0)) 400
        "Tick at least one reason or write what was unclear"
    ticket ← read key
    t ← with_rca ticket
    refuse_if_decided t "Already reviewed"
    refuse_if_posting t
    modify (mark_unclear key note reasons now)
    pure "unclear"

  -- the RCA is on Jira already: do not post it twice
  unfoldable pub adopt_comment : String → Row → ℕ → Handler S String
  unfolding refuse_if_posting
  adopt_comment key t now = do
    refuse_if_posting t
    modify (mark_accepted key (or_empty t.auto_comment_id) now)
    pure "accepted"

  unfoldable pub post_in_background : String → ℕ → Handler S String
  post_in_background key now = do
    claimed ← claim_by (start_job key accept_post now)
    if not claimed then pure "already_running" else do start (accept_task key); pure "started"

  -- POST /api/tickets/{key}/accept_and_post
  unfoldable pub accept_and_post : String → ℕ → Handler S String
  unfolding adopt_comment post_in_background
  accept_and_post key now = do
    ticket ← read key
    t ← with_rca ticket
    refuse_if_decided t "Already reviewed"
    if truthy t.auto_comment_id then adopt_comment key t now else post_in_background key now

  -- POST /api/tickets/{key}/reject
  unfoldable pub reject : String → String → ℕ → Handler S String
  unfolding strip
  reject key human_rca now = do
    refuse_if (strip human_rca == "") 400 "Human RCA cannot be empty"
    ticket ← read key
    refuse_if (decided_row ticket) 400 "Already reviewed"
    claimed ← claim_by (start_job key reject_post now)
    if not claimed
        then pure "already_running"
        else do start (reject_task key human_rca); pure "started"
