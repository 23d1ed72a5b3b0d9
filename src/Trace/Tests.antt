-- ===== src/Trace/Tests.antt =====
-- A recursive trace.
use rca_claude_agent.Trace.Frames.{
  slashes, dedupe_loop, dedupe_frames, crash_site, parse_stack_trace, Frame,
}
use rca_claude_agent.Prelude.{refl, some, true, ◌≡◌, ◌++◌, [], none, ◌∷◌, ℕ, List, String}
use rca_claude_agent.Trace.CrashSite.{crash_site-dedupe_frames}

abbrev frame : String → ℕ → Frame
frame path line = record { path = path; line = line; symbol = none; raw = "" }

abbrev around : List Frame
around = frame "main.py" 1 ∷ frame "walk.py" 10 ∷ frame "visit.py" 5 ∷ []

-- the trace ends at walk.py:10, which is dropped
recursive_site :
    crash_site (
      parse_stack_trace (record {
        python = around ++ frame "walk.py" 10 ∷ [];
        java = [];
        js = [];
        generic = [];
        looks_like_trace = true;
      }))
    ≡ some (frame "visit.py" 5)
unfolding parse_stack_trace dedupe_frames dedupe_loop crash_site slashes
recursive_site = refl

crash_site-dedupe_frames_example :
    crash_site (dedupe_frames (around ++ frame "walk.py" 10 ∷ []))
    ≡ crash_site (dedupe_frames around)
crash_site-dedupe_frames_example = crash_site-dedupe_frames around (frame "walk.py" 10)
