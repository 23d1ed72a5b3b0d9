-- ===== src/Agent/Tests.antt =====
-- The agent's run, its verdict and the investigation at concrete inputs, and the theorems of Agent at
-- them.
use rca_claude_agent.Review.World.{Outcome, returned, raised}
use rca_claude_agent.Verdict.Schema.{Confidence, Verdict}
use rca_claude_agent.Verdict.Schema.{code as code_cause}
use rca_claude_agent.Verdict.Samples.{fault}
use rca_claude_agent.Agent.Trace.{confirm_slice, confirmed_by, confirm_frame, Tools}
use rca_claude_agent.Prelude.{
  rstrip, lstrip, strip, refl, true, ◌≡◌, List, false, some, none, Option, [], Bool, ◌∷◌, String,
}
use rca_claude_agent.Agent.Run.{
  final_verdict, with_mrs, with_blame, with_file, at_site, routed_to, from_crash, investigate,
}
use rca_claude_agent.Agent.Sure.{investigate-IsHonest, is_high, IsHonest}
use rca_claude_agent.Agent.Parse.{has_cause}
use rca_claude_agent.Agent.Loop.{
  tool_use, looks_like_verdict, conclude, read_block, read_blocks, result_message, read_message,
  text_block, consume, answer, run_agent, Stream,
}
use rca_claude_agent.Agent.Outcomes.{run_agent-fails, is_agent_error}
use rca_claude_agent.Trace.Frames.{
  dedupe_loop, dedupe_frames, slashes, is_source, crash_site, parse_stack_trace, Matches,
}
use rca_claude_agent.Agent.Verdicts.{outermost, to_dict, verdict_of}
use rca_claude_agent.Agent.RoundTrip.{verdict_of-to_dict}
use rca_claude_agent.Fix.Answer.{to_brace, from_brace}
use rca_claude_agent.Agent.Investigate.{of_change, synthesize}
use rca_claude_agent.Agent.Daemon.{should_post}

abbrev one_frame : String → Matches
one_frame text = record {
  python =
      record { path = "tax.py"; line = 2; symbol = some "total"; raw = "File tax.py, line 2" } ∷ [];
  java = [];
  js = [];
  generic = [];
  looks_like_trace = true;
}

-- a project whose file has the function of the trace
abbrev tools : Tools
tools = record {
  matches = one_frame;
  route_repo = λ text. record { project = "acme/billing"; score = "2"; matched = "tax" ∷ [] } ∷ [];
  load_repo_graph = λ project. raised "FileNotFoundError" "no graph";
  get_file_lines = λ project ref path start end_. returned (record {
    path = path;
    ref = ref;
    start_line = 1;
    end_line = 2;
    numbered_lines = (1, "def total(a):") ∷ (2, "  return a + tax") ∷ [];
  });
  blame_line = λ project ref path line. returned (
      some (record {
        id = "c1";
        short_id = "c1";
        title = "Move tax";
        author_name = "Ann";
        authored_date = "2026-01-02T03:04";
        message = "Move tax";
      }));
  merge_requests_for_commit = λ project sha. returned (
      record {
        iid = 12;
        title = "Tax";
        author = "ann";
        web_url = "mr-12";
        merged_at = none;
        state = "merged";
      }
      ∷ []);
  gitlab_url = "https://git";
  context_lines = 5;
}

abbrev confidence_in : Outcome Verdict → Bool
confidence_in (returned v) = is_high v.confidence
confidence_in (raised type text) = false

sure_of_it : confidence_in (investigate tools "AUT-1" "trace" "" "main") ≡ true
unfolding investigate parse_stack_trace is_source slashes dedupe_frames dedupe_loop crash_site
    from_crash routed_to at_site confirm_frame confirmed_by confirm_slice strip lstrip rstrip
    with_file with_blame with_mrs final_verdict synthesize of_change
sure_of_it = refl

investigate-IsHonest_example :
    IsHonest tools "main"
      (crash_site (parse_stack_trace (tools.matches "trace")))
      (investigate tools "AUT-1" "trace" "" "main")
investigate-IsHonest_example = investigate-IsHonest tools "AUT-1" "trace" "" "main"

verdict_of-to_dict_example :
    verdict_of (to_dict (record fault { blast_radius = "pay" ∷ [] })) "AUT-1" ≡ fault
unfolding has_cause
verdict_of-to_dict_example =
    verdict_of-to_dict (record fault { blast_radius = "pay" ∷ [] }) code_cause [] "AUT-1" refl refl

-- the text of an answer, and then a failure
abbrev overloaded : Stream
overloaded =
    (answer (text_block "{\"confidence\": \"low\"}" ∷ []), false)
    ∷ (result_message (some "error_during_execution") "overloaded" true, false)
    ∷ []

abbrev keys : String → Option (List String)
keys s = some ("confidence" ∷ [])

run_agent-fails_example : is_agent_error (run_agent keys overloaded none) ≡ true
run_agent-fails_example = run_agent-fails keys overloaded none refl

-- without the failure the text is a verdict
answered :
    run_agent keys ((answer (text_block "{}" ∷ tool_use "blame" ∷ []), false) ∷ []) none
    ≡ returned ("{}", (1, "blame" ∷ []))
unfolding run_agent consume read_message read_blocks read_block conclude looks_like_verdict
    outermost from_brace to_brace
answered = refl

-- the gated mode posts as the open one does
gated_posts : should_post (record fault { confidence = Confidence.low }) "gated" ≡ true
unfolding should_post
gated_posts = refl
