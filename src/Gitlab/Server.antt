-- ===== src/Gitlab/Server.antt =====
-- rca_agent/gitlab_client.py: the value types, the web links, and what the REST client asks of the
-- server.
use rca_claude_agent.Review.World.{Outcome, returned, raised}
use rca_claude_agent.Prelude.{
  leb, none, ◌==◌, ◌=ℕ◌, ◌<>◌, Bool, if◌then◌else◌, some, List, cut, decimal, Option, ℕ, String,
}
use rca_claude_agent.Fix.Raise.{strip_slashes}
use rca_claude_agent.Graph.Search.{occurs_in}

pub record FileSlice : Type 0 where
  pub path : String
  pub ref : String
  pub start_line : ℕ
  pub end_line : ℕ
  pub numbered_lines : List (ℕ × String)

pub record Commit : Type 0 where
  pub id : String
  pub short_id : String
  pub title : String
  pub author_name : String
  pub authored_date : String
  pub message : String

pub record MergeRequest : Type 0 where
  pub iid : ℕ
  pub title : String
  pub author : String
  pub web_url : String
  pub merged_at : Option String
  pub state : String

-- `d.get(key, default)`
abbrev pub or_else {ℓ} : {A : Type ℓ} → Option A → A → A
or_else none d = d
or_else (some a) d = a

-- `f"#L{line}" if line else ""`
abbrev line_anchor : Option ℕ → String
unfolding decimal
line_anchor none = ""
line_anchor (some n) = if n =ℕ 0 then "" else "#L" <> decimal n

-- `web_blob_url`
unfoldable pub web_blob_url : (base_url project ref path : String) → Option ℕ → String
unfolding line_anchor strip_slashes
web_blob_url base_url project ref path line =
    if base_url == ""
    then ""
    else strip_slashes base_url
      <> "/"
      <> project
      <> "/-/blob/"
      <> ref
      <> "/"
      <> path
      <> line_anchor line

-- `web_commit_url`
unfoldable pub web_commit_url : (base_url project sha : String) → String
unfolding strip_slashes
web_commit_url base_url project sha =
    if base_url == "" then "" else strip_slashes base_url <> "/" <> project <> "/-/commit/" <> sha

-- a response: its status, its text, and its JSON, `none` where that is null or empty
pub record Reply (A : Type 0) : Type 0 where
  pub status_code : ℕ
  pub text : String
  pub body : Option A

-- a page of a list, with the number in its header `x-next-page`, if it has one
pub record Page (A : Type 0) : Type 0 where
  pub status_code : ℕ
  pub text : String
  pub rows : List A
  pub next_page : Option ℕ

pub record CommitJson : Type 0 where
  pub id : String
  pub short_id : Option String
  pub title : Option String
  pub author_name : Option String
  pub authored_date : Option String
  pub message : Option String

-- a span of a blame: its commit and how many lines it has
pub record Span : Type 0 where
  pub commit : CommitJson
  pub lines : ℕ

pub record MrJson : Type 0 where
  pub iid : ℕ
  pub title : Option String
  pub username : Option String
  pub web_url : Option String
  pub merged_at : Option String
  pub state : Option String

pub record TreeEntry : Type 0 where
  pub type : Option String
  pub path : String

pub record Branch : Type 0 where
  pub name : String
  pub is_default : Bool

-- a hit of a search: `text` is its `data`
pub record Hit : Type 0 where
  pub path : Option String
  pub startline : Option ℕ
  pub text : Option String

-- a project of a list
pub record Project : Type 0 where
  pub path_with_namespace : Option String
  pub name : Option String
  pub description : Option String

-- What the client asks of the server: the GET of each endpoint, by its path and parameters, which
-- may raise an exception; and the quoting of a project or of a file in a path.
pub record Server : Type 0 where
  pub quote : String → String
  pub project : String → Outcome (Reply (Option String))
  pub raw_file : String → (ref : String) → Outcome (Reply (Unit {0}))
  pub commit : String → Outcome (Reply CommitJson)
  pub blame : String → (ref : String) → Outcome (Reply (List Span))
  pub commit_mrs : String → Outcome (Reply (List MrJson))
  pub merge_request : String → Outcome (Reply MrJson)
  pub search : String → (query ref : String) → Outcome (Reply (List Hit))
  pub projects : (search : String) → (per_page : ℕ) → Outcome (Reply (List Project))
  pub tree : String → (ref : String) → (page : ℕ) → Outcome (Page TreeEntry)
  pub branches : String → (search : String) → (page : ℕ) → Outcome (Page Branch)

-- `_pid`
unfoldable pub pid : Server → String → String
pid S project = if occurs_in "/" project then S.quote project else project

abbrev pub http_error : ℕ → String → String
unfolding decimal
http_error status rest = "GitLab " <> decimal status <> " " <> rest

-- `_get`, of the path and its response
unfoldable pub get_json : {A : Type 0} → String → Outcome (Reply A) → Outcome (Option A)
unfolding cut
get_json path (raised type text) = raised type text
get_json path (returned r) =
    if r.status_code =ℕ 404
    then returned none
    else if leb 400 r.status_code
    then raised "GitLabError" (http_error r.status_code ("on " <> path <> ": " <> cut 200 r.text))
    else returned r.body
