-- ===== src/Gitlab/Fixtures.antt =====
-- rca_agent/gitlab_client.py: `MockGitLabClient`, the client over recorded fixtures.
use rca_claude_agent.Gitlab.Server.{FileSlice, or_else, Commit, MergeRequest}
use rca_claude_agent.Review.World.{Outcome, returned, raised}
use mathlib.Core.Option.{map as map_option}
use rca_claude_agent.Prelude.{
  ◌||◌, not, Bool, ltb, ◌&&◌, strip, length, leb, lower, any, map, find, ◌++◌, ◌+◌, ◌=ℕ◌, max, suc,
  keep, ◌==◌, some, cut, take, ◌∷◌, if◌then◌else◌, [], ◌<>◌, none, List, Option, ℕ, String,
}
use rca_claude_agent.Gitlab.Pages.{sort_texts}
use rca_claude_agent.Gitlab.Reads.{slice_of, split_lines, then_give}
use rca_claude_agent.Fix.Answer.{is_cons}
use rca_claude_agent.Graph.Search.{occurs_in}
use rca_claude_agent.Trace.Frames.{ends_with}

-- a commit of a fixture, whose first keys are required
pub record CommitFixture : Type 0 where
  pub id : String
  pub short_id : Option String
  pub title : String
  pub author_name : String
  pub authored_date : String
  pub message : Option String

pub record MrFixture : Type 0 where
  pub iid : ℕ
  pub title : String
  pub author : String
  pub web_url : String
  pub merged_at : Option String
  pub state : Option String

-- a span of a recorded blame: its commit, its `count`, and how many `lines` it has
pub record BlameSpan : Type 0 where
  pub commit : String
  pub count : Option ℕ
  pub lines : ℕ

-- what a project's `meta.json` holds
pub record Meta : Type 0 where
  pub ref : Option String
  pub branches : List String
  pub blame : List (String × List BlameSpan)
  pub commits : List (String × CommitFixture)
  pub commit_mrs : List (String × List MrFixture)

-- The fixtures on the disk: the meta data of a project, and its readable files in the order of their
-- paths, with their texts; `none` where there is no such directory.
pub record Fixtures : Type 0 where
  pub meta_of : String → Option Meta
  pub files_of : String → Option (List (String × String))

abbrev pub lookup {ℓ} : {A : Type ℓ} → String → List (String × A) → Option A
lookup k [] = none
lookup k ((j, a) ∷ rest) = if j == k then some a else lookup k rest

-- `_meta`; its cache is left out, and the path that its message names
unfoldable pub meta : Fixtures → String → Outcome Meta
meta F project = with_meta (F.meta_of project)
  where
    with_meta : Option Meta → Outcome Meta
    with_meta none = raised "GitLabError" ("no fixture for project '" <> project <> "'")
    with_meta (some m) = returned m

abbrev pub text_or : String → Option String → Outcome String
text_or path none = raised "GitLabError" ("file not found in fixture: " <> path)
text_or path (some t) = returned t

abbrev pub all_files : Option (List (String × String)) → List (String × String)
all_files none = []
all_files (some fs) = fs

-- `get_file`
unfoldable pub fixture_file : Fixtures → (project path : String) → Outcome String
fixture_file F project path = text_or path (lookup path (all_files (F.files_of project)))

-- `get_file_lines`: no end, or 0, is the last line
unfoldable pub fixture_lines :
    Fixtures → (project ref path : String) → (start end_ : ℕ) → Outcome FileSlice
fixture_lines F project ref path start end_ = then_give (fixture_file F project path) (λ text.
    let lines = split_lines text in
    slice_of path ref start (if end_ =ℕ 0 then length lines else end_) lines)

abbrev pub ref_or_main : Outcome Meta → String
ref_or_main (raised type text) = "main"
ref_or_main (returned m) = if or_else m.ref "" == "" then "main" else or_else m.ref ""

-- `default_ref`
unfoldable pub fixture_ref : Fixtures → String → String
fixture_ref F project = ref_or_main (meta F project)

abbrev pub recorded_branches : Outcome Meta → List String
recorded_branches (raised type text) = []
recorded_branches (returned m) = m.branches

-- `list_branches`
unfoldable pub fixture_branches : Fixtures → (project search : String) → (limit : ℕ) → List String
fixture_branches F project search limit =
    let recorded = recorded_branches (meta F project) in
    let names = if is_cons recorded then recorded else fixture_ref F project ∷ [] in
    take limit
      (if search == "" then names else keep (λ b. occurs_in (lower search) (lower b)) names)

-- `fp.suffix == e`: a name that is the suffix alone has none
abbrev pub has_suffix : String → String → Bool
has_suffix p e = ends_with p e && not ((p == e) || ends_with p ("/" <> e))

-- `list_source_files`, of the suffixes; directories with a suffix are left out
unfoldable pub fixture_sources : Fixtures → (project : String) → List String → List String
fixture_sources F project exts = sort_texts (
    keep (λ p. any (has_suffix p) exts)
      (map (λ (f : String × String). f.0) (all_files (F.files_of project))))

-- the hits of one file, by number
abbrev pub hits_in : (rel q : String) → ℕ → List String → List (String × (ℕ × String))
hits_in rel q i [] = []
hits_in rel q i (t ∷ ts) =
    let rest = hits_in rel q (suc i) ts in
    if occurs_in q (lower t) then (rel, (i, strip t)) ∷ rest else rest

abbrev pub all_hits : String → List (String × String) → List (String × (ℕ × String))
all_hits q [] = []
all_hits q ((rel, text) ∷ fs) = hits_in rel q 1 (split_lines text) ++ all_hits q fs

-- `search_blobs`: the path, the number and the text of each hit; a limit of 0 gives one, as the loop
-- looks at the limit once it has added a hit
unfoldable pub fixture_search :
    Fixtures → (project query : String) → (limit : ℕ) → List (String × (ℕ × String))
fixture_search F project query limit =
    take (max 1 limit) (all_hits (lower query) (all_files (F.files_of project)))

-- `span.get("count") or len(span.get("lines", []))`
abbrev pub span_size : BlameSpan → ℕ
span_size s = if or_else s.count 0 =ℕ 0 then s.lines else or_else s.count 0

-- the loop of `blame_line`
unfoldable pub fixture_span : ℕ → ℕ → List BlameSpan → Option String
fixture_span cursor line [] = none
fixture_span cursor line (s ∷ spans) =
    let rest = fixture_span (cursor + span_size s) line spans in
    if leb cursor line && ltb line (cursor + span_size s) then some s.commit else rest

abbrev pub recorded_commit : CommitFixture → Commit
recorded_commit c = record {
  id = c.id;
  short_id = or_else c.short_id (cut 8 c.id);
  title = c.title;
  author_name = c.author_name;
  authored_date = c.authored_date;
  message = or_else c.message c.title;
}

-- `get_commit`
unfoldable pub fixture_commit : Fixtures → (project sha : String) → Outcome (Option Commit)
fixture_commit F project sha =
    then_give (meta F project) (λ m. map_option recorded_commit (lookup sha m.commits))

abbrev pub commit_at : Fixtures → (project : String) → Option String → Outcome (Option Commit)
commit_at F project none = returned none
commit_at F project (some sha) = fixture_commit F project sha

abbrev pub blame_in :
    Fixtures → (project path : String) → ℕ → Outcome Meta → Outcome (Option Commit)
blame_in F project path line (raised type text) = raised type text
blame_in F project path line (returned m) =
    commit_at F project (fixture_span 1 line (or_else (lookup path m.blame) []))

-- `blame_line`
unfoldable pub fixture_blame : Fixtures → (project path : String) → ℕ → Outcome (Option Commit)
fixture_blame F project path line = blame_in F project path line (meta F project)

abbrev pub recorded_mr : MrFixture → MergeRequest
recorded_mr m = record {
  iid = m.iid;
  title = m.title;
  author = m.author;
  web_url = m.web_url;
  merged_at = m.merged_at;
  state = or_else m.state "merged";
}

-- `merge_requests_for_commit`
unfoldable pub fixture_mrs : Fixtures → (project sha : String) → Outcome (List MergeRequest)
fixture_mrs F project sha =
    then_give (meta F project) (λ m. map recorded_mr (or_else (lookup sha m.commit_mrs) []))

abbrev pub every_mr : List (String × List MrFixture) → List MrFixture
every_mr [] = []
every_mr ((sha, ms) ∷ rest) = ms ++ every_mr rest

-- `get_merge_request`
unfoldable pub fixture_mr : Fixtures → (project : String) → ℕ → Outcome (Option MergeRequest)
fixture_mr F project iid =
    then_give (meta F project)
      (λ m. map_option recorded_mr (find (λ (r : MrFixture). r.iid =ℕ iid) (every_mr m.commit_mrs)))
