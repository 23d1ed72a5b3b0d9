-- ===== src/Review/RunTests.antt =====
-- The end of an investigation on a site in memory.
use rca_claude_agent.Store.Row.{JobResult, JobStatus, Row, Source, Status}
use rca_claude_agent.Review.Samples.{up, put, Memory}
use rca_claude_agent.Review.World.{returned, World, Jira}
use rca_claude_agent.Verdict.Schema.{Verdict}
use rca_claude_agent.Store.Table.{get_ticket}
use rca_claude_agent.Review.Run.{timed_out, finished, rca_background}
use rca_claude_agent.Review.Guards.{status_at}
use rca_claude_agent.Prelude.{false, refl, ◌∷◌, [], true, some, ◌≡◌, String}
use rca_claude_agent.Verdict.Samples.{fault, gitlab}
use rca_claude_agent.Store.Samples.{
  posted_here, posted, table, rerunning_here, table-UniqueKeys, rerunning,
}
use rca_claude_agent.Review.RunEnds.{rca_background-status, manual_run-no_post}
use rca_claude_agent.Store.JobSlot.{job_running}
use rca_claude_agent.Review.Jobs.{
  get_job, suggest_fix_background-frees, suggested, suggest_fix_background,
}

abbrev verdict_site : Jira Verdict
verdict_site = record {
  Site = Memory;
  post_verdict = λ key v m. put v.headline m;
  delete_comment = λ key id m. (returned tt, m);
  add_comment = λ key text m. put text m;
}

abbrev to_text : Verdict → String
to_text v = v.headline

abbrev by_hand : World Memory
by_hand = record up { reviews = record rerunning { trigger_source = some Source.manual } ∷ [] }

by_hand_here :
    get_ticket "AUT-3" by_hand.reviews
    ≡ some (record rerunning { trigger_source = some Source.manual })
unfolding get_ticket
by_hand_here = refl

manual_run-no_post_example :
    (rca_background verdict_site
      (gitlab true)
      to_text
      true
      900
      "AUT-3"
      300
      (finished fault 9 [])
      by_hand).site
    ≡ by_hand.site
manual_run-no_post_example =
    manual_run-no_post verdict_site (gitlab true) to_text true 900 "AUT-3" 300 (finished fault 9 [])
      by_hand (record rerunning { trigger_source = some Source.manual }) by_hand_here refl

rca_background-status_example :
    status_at "AUT-3"
      (rca_background verdict_site (gitlab true) to_text true 900 "AUT-3" 300 timed_out up).reviews
    ≡ some Status.rca_ready
rca_background-status_example =
    rca_background-status verdict_site (gitlab true) to_text true 900 "AUT-3" 300 timed_out up
      rerunning table-UniqueKeys rerunning_here

suggest_fix_background-frees_example :
    let after = suggest_fix_background "AUT-2" 300 (suggested "{}") table in
    (s : Row) × (get_ticket "AUT-2" after ≡ some s)
    × (s.bot_fix_json ≡ some "{}")
    × (s.status ≡ posted.status)
    × (get_job "AUT-2" after
        ≡ some (record {
          kind = posted.job_kind;
          status = some JobStatus.done;
          error = posted.job_error;
          result = some (JobResult.fix_suggested "{}");
        }))
    × (job_running "AUT-2" after ≡ false)
suggest_fix_background-frees_example =
    suggest_fix_background-frees "AUT-2" 300 (suggested "{}") table posted posted_here
