-- ===== src/Review/Tests.antt =====
-- The endpoints on a site in memory, and the theorems of Review at the sample rows.
use rca_claude_agent.Store.Row.{JobStatus, Status}
use rca_claude_agent.Review.Decide.{accept}
use rca_claude_agent.Review.Samples.{Memory, up, unreachable, memory}
use rca_claude_agent.Prelude.{strip, none, ◌⊎◌, refl, false, [], some, true, ◌∷◌, ◌≡◌, String}
use rca_claude_agent.Review.Decide.{run_rca}
use rca_claude_agent.Review.Requests.{is_reply, accept_here, reject_here, handle, is_http}
use rca_claude_agent.Review.Guards.{posting_guarded, decided_refused, status_at}
use rca_claude_agent.Review.Withdraw.{reset_rca, reject_local}
use rca_claude_agent.Review.Background.{reject_background, accept_background}
use rca_claude_agent.Review.World.{rca_task, reply, World}
use rca_claude_agent.Store.Table.{count_where, get_ticket}
use rca_claude_agent.Store.Jobs.{claim_running}
use rca_claude_agent.Review.Posting.{
  reject_local_withdraws, accept_background-outcome, is_returned, At,
}
use rca_claude_agent.Review.Races.{accept-lost_to_rerun, reset_rca-second_run}
use rca_claude_agent.Store.Samples.{
  posted_here, posted, posting_here, posting, rerunning_here, table-UniqueKeys, closed_here,
  rerunning, closed_row,
}
use rca_claude_agent.Store.Reviews.{save_rca}
use rca_claude_agent.Review.HumanRca.{reject_background-removed, reject_background-no_removal}

second_click : (run_rca "AUT-3" 200 up).0 ≡ reply "already_running"
unfolding run_rca get_ticket claim_running count_where
second_click = refl

decided_refused_example :
    (is_http 400 (handle memory (reject_here "not so") "AUT-4" 200 up).0 ≡ true)
    × ((handle memory (reject_here "not so") "AUT-4" 200 up).1 ≡ up)
decided_refused_example =
    decided_refused memory (reject_here "not so") "AUT-4" 200 up closed_row closed_here refl

posting_guarded_example :
    (status_at "AUT-5" (handle memory accept_here "AUT-5" 200 up).1.reviews ≡ some Status.rca_ready)
    × ((handle memory accept_here "AUT-5" 200 up).1.site ≡ up.site)
    × ((handle memory accept_here "AUT-5" 200 up).1.started ≡ [])
posting_guarded_example =
    posting_guarded memory accept_here "AUT-5" 200 up posting table-UniqueKeys posting_here refl

reject_local_withdraws_example :
    let del = memory.delete_comment "AUT-2" "c7" up.site in
    let out = reject_local memory "AUT-2" "the tax table" 200 up in
    (out.1.site ≡ del.1)
    × (is_reply out.0 ≡ true)
    × (is_http 502 out.0 ≡ false)
    × (((is_returned del.0 ≡ false) × (out.1.reviews ≡ up.reviews))
        ⊎ ((is_returned del.0 ≡ true)
            × At out.1.reviews "AUT-2" λ s.
              (s.status ≡ Status.rejected)
              × (s.auto_comment_id ≡ none)
              × (s.human_rca ≡ some (strip "the tax table"))))
reject_local_withdraws_example =
    reject_local_withdraws memory "AUT-2" "the tax table" 200 up posted posted_here refl refl refl
      refl

abbrev as_stored : String → String → String
as_stored json key = json

accept_background-outcome_example :
    let out = accept_background memory as_stored "AUT-2" 200 unreachable in
    (out.site ≡ unreachable.site)
    × At out.reviews "AUT-2" λ s.
      (s.status ≡ Status.rca_ready) × (s.job_status ≡ some JobStatus.broken) × (s.comment_id ≡ none)
accept_background-outcome_example =
    accept_background-outcome memory as_stored "AUT-2" 200 unreachable posted "{}" posted_here refl

reject_background-no_removal_example :
    let out = reject_background memory "AUT-2" "the tax table" 200 unreachable in
    (out.site ≡ unreachable.site)
    × At out.reviews "AUT-2" λ s.
      (s.status ≡ Status.rca_ready)
      × (s.human_rca_draft ≡ none)
      × (s.auto_comment_id ≡ some "c7")
      × (s.job_status ≡ some JobStatus.broken)
reject_background-no_removal_example =
    reject_background-no_removal memory "AUT-2" "the tax table" "HTTPError" "503" 200 unreachable
      posted posted_here refl refl

reject_background-removed_example :
    let out = reject_background memory "AUT-2" "the tax table" 200 up in
    (out.site ≡ record { comments = ("c9", "the tax table") ∷ []; down = false })
    × At out.reviews "AUT-2" λ s.
      (s.status ≡ Status.rejected)
      × (s.human_rca ≡ some "the tax table")
      × (s.human_rca_draft ≡ none)
      × (s.job_status ≡ some JobStatus.done)
      × (s.auto_comment_id ≡ none)
reject_background-removed_example =
    reject_background-removed memory "AUT-2" "the tax table" 200 up posted posted_here refl refl

abbrev reset_world : World Memory
reset_world = (reset_rca memory "AUT-3" up).1

reset_rca-second_run_example :
    ((run_rca "AUT-3" 200 up).0 ≡ reply "already_running")
    × ((run_rca "AUT-3" 200 reset_world).0 ≡ reply "started")
    × ((run_rca "AUT-3" 200 reset_world).1.started ≡ rca_task "AUT-3" ∷ [])
reset_rca-second_run_example =
    reset_rca-second_run memory "AUT-3" 200 up rerunning table-UniqueKeys rerunning_here refl refl

abbrev accepted_world : World Memory
accepted_world = (accept "AUT-3" 200 up).1

accept-lost_to_rerun_example :
    ((accept "AUT-3" 200 up).0 ≡ reply "accepted")
    × (status_at "AUT-3" accepted_world.reviews ≡ some Status.accepted)
    × (status_at "AUT-3" (save_rca "AUT-3" "{}" (some 9) 300 accepted_world.reviews)
        ≡ some Status.rca_ready)
accept-lost_to_rerun_example =
    accept-lost_to_rerun memory "AUT-3" "{}" (some 9) 200 300 up rerunning rerunning_here refl refl
      refl
