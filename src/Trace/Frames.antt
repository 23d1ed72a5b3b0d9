-- ===== src/Trace/Frames.antt =====
-- rca_agent/stack_trace.py: frames, `_dedupe`, `parse_stack_trace` and `crash_site`.
use Prim.Native.Char.{Char, code}
use rca_claude_agent.Prelude.{
  some, ◌=ℕ◌, length, keep, ◌||◌, ◌++◌, none, ◌&&◌, if◌then◌else◌, not, map, [], ◌∷◌, any, ◌==◌,
  Option, List, Bool, ℕ, String,
}

pub record Frame : Type 0 where
  pub path : String
  pub line : ℕ
  pub symbol : Option String
  pub raw : String

-- the same key `(f.path, f.line)`
abbrev pub same_place : Frame → Frame → Bool
same_place f g = (f.path == g.path) && (f.line =ℕ g.line)

abbrev pub has_place : Frame → List Frame → Bool
has_place f seen = any (same_place f) seen

-- the loop of `_dedupe`, with the frames that it has seen
unfoldable pub dedupe_loop : List Frame → List Frame → List Frame
dedupe_loop seen [] = []
dedupe_loop seen (f ∷ fs) =
    let rest = dedupe_loop seen fs in
    let fresh = f ∷ dedupe_loop (f ∷ seen) fs in if has_place f seen then rest else fresh

-- `_dedupe`
unfoldable pub dedupe_frames : List Frame → List Frame
unfolding dedupe_loop
dedupe_frames fs = dedupe_loop [] fs

-- `frames[-1] if frames else None`
unfoldable pub crash_site : List Frame → Option Frame
crash_site [] = none
crash_site (f ∷ []) = some f
crash_site (f ∷ (g ∷ gs)) = crash_site (g ∷ gs)

abbrev pub reversed : List Frame → List Frame
reversed [] = []
reversed (f ∷ fs) = reversed fs ++ f ∷ []

abbrev slash_code : Char → Char
slash_code c = if code c =ℕ 92 then "/" else c

-- `path.replace("\\", "/")`
unfoldable pub slashes : String → String
slashes String.[] = String.[]
slashes (String.◌∷◌ c s) = String.◌∷◌ (slash_code c) (slashes s)

-- `s.endswith(suffix)`
abbrev pub ends_with : String → String → Bool
ends_with String.[] suffix = suffix == String.[]
ends_with (String.◌∷◌ c s) suffix = (String.◌∷◌ c s == suffix) || ends_with s suffix

-- `_SOURCE_EXT`
abbrev pub source_extensions : List String
source_extensions =
    ".py" ∷ ".java" ∷ ".js" ∷ ".ts" ∷ ".tsx" ∷ ".jsx" ∷ ".go" ∷ ".rb" ∷ ".php" ∷ ".cs" ∷ ".cpp"
    ∷ ".c" ∷ ".kt" ∷ ".scala" ∷ ".rs" ∷ []

unfoldable pub is_source : Frame → Bool
is_source f = any (ends_with f.path) source_extensions

abbrev slashed : Frame → Frame
slashed f = record f { path = slashes f.path }

-- What the regular expressions find in the text, in its order: the frames as matched, for each of
-- the four patterns (a match of the third has its path, or the empty one), and whether the text
-- looks like a trace. All are empty for an empty text.
pub record Matches : Type 0 where
  pub python : List Frame
  pub java : List Frame
  pub js : List Frame
  pub generic : List Frame
  pub looks_like_trace : Bool

abbrev js_frames : Matches → List Frame
js_frames m = map slashed (keep is_source m.js)

abbrev filled : List Frame → Bool
filled fs = not (length fs =ℕ 0)

unfoldable pub parse_stack_trace : Matches → List Frame
unfolding dedupe_frames is_source slashes
parse_stack_trace m =
    if filled m.python
    then dedupe_frames (map slashed m.python)
    else if filled m.java
    then dedupe_frames (reversed m.java)
    else if filled (js_frames m)
    then dedupe_frames (reversed (js_frames m))
    else if m.looks_like_trace
    then dedupe_frames (map slashed (keep is_source m.generic))
    else []
