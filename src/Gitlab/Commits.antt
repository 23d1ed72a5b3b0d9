-- ===== src/Gitlab/Commits.antt =====
-- rca_agent/gitlab_client.py, `RestGitLabClient`: blame, commits and merge requests; `build_client`.
use rca_claude_agent.Gitlab.Server.{
  Hit, Project, or_else, MergeRequest, pid, CommitJson, Commit, MrJson, get_json, Server, Span,
}
use rca_claude_agent.Review.World.{Outcome, returned, raised}
use mathlib.Core.Option.{map as map_option}
use rca_claude_agent.Prelude.{
  take, min, ◌||◌, strip, ltb, ◌&&◌, leb, map, ◌+◌, ◌==◌, ◌∷◌, if◌then◌else◌, none, decimal, [],
  ◌<>◌, some, List, cut, String, ℕ, Option,
}
use rca_claude_agent.Gitlab.Reads.{then_give}

-- the commit of a JSON object
abbrev pub commit_of : CommitJson → Commit
unfolding cut
commit_of c = record {
  id = c.id;
  short_id = or_else c.short_id (cut 8 c.id);
  title = or_else c.title "";
  author_name = or_else c.author_name "";
  authored_date = or_else c.authored_date "";
  message = or_else c.message (or_else c.title "");
}

-- `get_commit`
unfoldable pub get_commit : Server → (project sha : String) → Outcome (Option Commit)
unfolding get_json pid commit_of
get_commit S project sha =
    let path = "/projects/" <> pid S project <> "/repository/commits/" <> sha in
    then_give (get_json path (S.commit path)) (map_option commit_of)

abbrev pub mr_of : MrJson → MergeRequest
mr_of m = record {
  iid = m.iid;
  title = or_else m.title "";
  author = or_else m.username "";
  web_url = or_else m.web_url "";
  merged_at = m.merged_at;
  state = or_else m.state "";
}

abbrev pub rows_of : {A : Type 0} → Option (List A) → List A
rows_of none = []
rows_of (some xs) = xs

-- `merge_requests_for_commit`
unfoldable pub merge_requests_for_commit :
    Server → (project sha : String) → Outcome (List MergeRequest)
unfolding get_json pid
merge_requests_for_commit S project sha =
    let path =
      "/projects/" <> pid S project <> "/repository/commits/" <> sha <> "/merge_requests" in
    then_give (get_json path (S.commit_mrs path)) (λ rows. map mr_of (rows_of rows))

-- `get_merge_request`
unfoldable pub get_merge_request : Server → String → ℕ → Outcome (Option MergeRequest)
unfolding get_json pid decimal
get_merge_request S project iid =
    let path = "/projects/" <> pid S project <> "/merge_requests/" <> decimal iid in
    then_give (get_json path (S.merge_request path)) (map_option mr_of)

-- the loop of `blame_line` over the spans, from the line at which the next one begins: the commit of
-- the span that holds the line
unfoldable pub span_at : ℕ → ℕ → List Span → Option CommitJson
span_at cursor line [] = none
span_at cursor line (s ∷ spans) =
    let rest = span_at (cursor + s.lines) line spans in
    if leb cursor line && ltb line (cursor + s.lines) then some s.commit else rest

abbrev pub full_or : Commit → Outcome (Option Commit) → Outcome (Option Commit)
full_or c (raised type text) = raised type text
full_or c (returned none) = returned (some c)
full_or c (returned (some full)) = returned (some full)

-- a commit without a title is asked for again
abbrev pub enriched : Server → String → Option CommitJson → Outcome (Option Commit)
unfolding get_commit commit_of
enriched S project none = returned none
enriched S project (some c) =
    if (commit_of c).title == ""
    then full_or (commit_of c) (get_commit S project c.id)
    else returned (some (commit_of c))

unfoldable pub blamed : Server → String → ℕ → Outcome (Option (List Span)) → Outcome (Option Commit)
unfolding span_at enriched
blamed S project line (raised type text) = raised type text
blamed S project line (returned spans) = enriched S project (span_at 1 line (rows_of spans))

-- the endpoint of a file's blame
abbrev pub blame_path : Server → (project path : String) → String
blame_path S project path =
    "/projects/" <> pid S project <> "/repository/files/" <> S.quote path <> "/blame"

-- `blame_line`
unfoldable pub blame_line : Server → (project ref path : String) → ℕ → Outcome (Option Commit)
unfolding get_json blamed
blame_line S project ref path line =
    blamed S project line
      (get_json (blame_path S project path) (S.blame (blame_path S project path) ref))

-- `search_blobs`: the text of each hit stripped and cut
unfoldable pub search_blobs :
    Server → (project ref query : String) → (limit : ℕ) → Outcome (List Hit)
unfolding get_json pid strip cut
search_blobs S project ref query limit =
    let ep = "/projects/" <> pid S project <> "/search" in
    then_give (get_json ep (S.search ep query ref)) (λ rows.
      map (λ (h : Hit). record h { text = some (cut 200 (strip (or_else h.text ""))) })
        (take limit (rows_of rows)))

-- `list_projects`: the description of each project cut
unfoldable pub list_projects : Server → (search : String) → (limit : ℕ) → Outcome (List Project)
unfolding get_json cut
list_projects S search limit =
    then_give (get_json "/projects" (S.projects search (min limit 100))) (λ rows.
      map (λ (p : Project). record p { description = some (cut 120 (or_else p.description "")) })
        (take limit (rows_of rows)))

-- the clients of `build_client`
pub data ClientKind : Type 0 where
  mock_client : ClientKind
  rest_client : (url token : String) → ClientKind

-- `build_client`, of the settings
unfoldable pub build_client : (backend gitlab_url gitlab_token : String) → Outcome ClientKind
build_client backend gitlab_url gitlab_token =
    if backend == "live"
    then (if (gitlab_url == "") || (gitlab_token == "")
        then raised "GitLabError" "live backend needs GITLAB_URL and GITLAB_TOKEN"
        else returned (rest_client gitlab_url gitlab_token))
    else returned mock_client
