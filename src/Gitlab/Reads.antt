-- ===== src/Gitlab/Reads.antt =====
-- rca_agent/gitlab_client.py, `RestGitLabClient`: files, branches, commits and merge requests.
use Prim.Native.Char.{Char, code}
use rca_claude_agent.Gitlab.Server.{http_error, Reply, FileSlice, get_json, pid, Server}
use rca_claude_agent.Review.World.{Outcome, returned, raised}
use rca_claude_agent.Prelude.{
  ◌+◌, length, starts_with, ◌||◌, ◌==◌, min, ◌=ℕ◌, ◌&&◌, zero, max, ◌-◌, if◌then◌else◌, leb, some,
  none, ◌<>◌, suc, [], Bool, ◌∷◌, Option, cut, List, String, ℕ,
}

-- a value that a call gives, changed
abbrev pub then_give : {A B : Type 0} → Outcome A → (A → B) → Outcome B
then_give (raised type text) f = raised type text
then_give (returned a) f = returned (f a)

-- the characters at which `str.splitlines` breaks
abbrev is_break : ℕ → Bool
is_break c =
    (leb 10 c && leb c 13) || (leb 28 c && leb c 30) || (c =ℕ 133) || (c =ℕ 8232) || (c =ℕ 8233)

abbrev pub onto_first : Char → List String → List String
onto_first c [] = String.◌∷◌ c String.[] ∷ []
onto_first c (l ∷ ls) = String.◌∷◌ c l ∷ ls

-- `s.splitlines()`; a carriage return and a line feed break once
unfoldable pub split_lines : String → List String
split_lines String.[] = []
split_lines (String.◌∷◌ c s) =
    let rest = split_lines s in
    if (code c =ℕ 13) && starts_with s "\n"
    then rest
    else if is_break (code c)
    then "" ∷ rest
    else onto_first c rest

-- `lines[i]`; the loop asks for no line out of range
abbrev pub line_at : List String → ℕ → String
line_at [] i = ""
line_at (l ∷ ls) zero = l
line_at (l ∷ ls) (suc i) = line_at ls i

-- `[(i, lines[i - 1]) for i in range(start, start + n)]`
unfoldable pub numbered : List String → ℕ → ℕ → List (ℕ × String)
numbered lines zero start = []
numbered lines (suc n) start = (start, line_at lines (start - 1)) ∷ numbered lines n (suc start)

-- the lines of a text from one number to another, and the slice; a negative start is given as 0,
-- which the code treats alike
unfoldable pub slice_of : (path ref : String) → (start end_ : ℕ) → List String → FileSlice
unfolding numbered
slice_of path ref start end_ lines =
    let first = max 1 start in
    let last = min (length lines) end_ in
    record {
      path = path;
      ref = ref;
      start_line = first;
      end_line = last;
      numbered_lines = numbered lines (last + 1 - first) first;
    }

abbrev raw_path : Server → (project path : String) → String
unfolding pid
raw_path S project path =
    "/projects/" <> pid S project <> "/repository/files/" <> S.quote path <> "/raw"

-- the text of the response, or the error that `get_file` and `get_file_lines` raise
unfoldable pub file_text : (missing path : String) → Outcome (Reply (Unit {0})) → Outcome String
unfolding cut
file_text missing path (raised type text) = raised type text
file_text missing path (returned r) =
    if r.status_code =ℕ 404
    then raised "GitLabError" ("file not found: " <> missing)
    else if leb 400 r.status_code
    then raised "GitLabError"
        (http_error r.status_code ("fetching " <> path <> ": " <> cut 200 r.text))
    else returned r.text

-- `get_file`
unfoldable pub get_file : Server → (project ref path : String) → Outcome String
unfolding file_text raw_path
get_file S project ref path =
    file_text (path <> "@" <> ref) path (S.raw_file (raw_path S project path) ref)

-- `get_file_lines`
unfoldable pub get_file_lines :
    Server → (project ref path : String) → (start end_ : ℕ) → Outcome FileSlice
unfolding get_file slice_of split_lines
get_file_lines S project ref path start end_ =
    then_give (get_file S project ref path)
      (λ text. slice_of path ref start end_ (split_lines text))

-- the cache of default branches, the last one first
abbrev pub RefCache : Type 0
RefCache = List (String × String)

abbrev pub cached : String → RefCache → Option String
cached project [] = none
cached project ((p, ref) ∷ rest) = if p == project then some ref else cached project rest

-- `(info or {}).get("default_branch") or "main"`
abbrev pub branch_or_main : Option (Option String) → String
branch_or_main (some (some ref)) = if ref == "" then "main" else ref
branch_or_main _ = "main"

abbrev pub keep_ref :
    String → Outcome (Option (Option String)) → RefCache → Outcome String × RefCache
keep_ref project (raised type text) cache = (raised type text, cache)
keep_ref project (returned info) cache =
    (returned (branch_or_main info), (project, branch_or_main info) ∷ cache)

abbrev pub from_cache : Server → String → Option String → RefCache → Outcome String × RefCache
unfolding get_json pid
from_cache S project (some ref) cache = (returned ref, cache)
from_cache S project none cache =
    let path = "/projects/" <> pid S project in
    keep_ref project (get_json path (S.project path)) cache

-- `default_ref`, with the cache that it leaves
unfoldable pub default_ref : Server → String → RefCache → Outcome String × RefCache
unfolding from_cache
default_ref S project cache = from_cache S project (cached project cache) cache

-- `PROD_BRANCHES`
abbrev pub prod_branches : RefCache
prod_branches =
    ("mastersindia/arap-auth-service", "master")
    ∷ ("mastersindia/background-processes", "master")
    ∷ ("mastersindia/gst-enterprise-service", "master")
    ∷ ("mastersindia/gst-prefect-app", "master")
    ∷ []

abbrev pub prod_or_default : Server → String → Option String → RefCache → Outcome String × RefCache
unfolding default_ref
prod_or_default S project (some ref) cache = (returned ref, cache)
prod_or_default S project none cache = default_ref S project cache

-- `prod_ref`
unfoldable pub prod_ref : Server → String → RefCache → Outcome String × RefCache
unfolding prod_or_default
prod_ref S project cache = prod_or_default S project (cached project prod_branches) cache
