-- ===== src/Fix/Raise.antt =====
-- rca_agent/fix_mr.py: `_write_cfg`, and of `raise_mr` the requests to GitLab and what they hold.
use Prim.Native.Char.{code}
use rca_claude_agent.Review.World.{Outcome, returned, raised}
use rca_claude_agent.Prelude.{
  none, keep, some, ◌=ℕ◌, [], map, ◌==◌, ◌&&◌, not, ◌<>◌, ◌∷◌, Bool, if◌then◌else◌, Option, cut,
  strip, List, ℕ, String,
}
use rca_claude_agent.Fix.Build.{add_to, FileFix}
use rca_claude_agent.Fix.Edits.{Edit, reapply}
use rca_claude_agent.Verdict.Render.{join_lines}
use rca_claude_agent.Fix.Answer.{is_cons}
use rca_claude_agent.Fix.Review.{is_applied}

-- one file update of a commit
pub record Action : Type 0 where
  pub file_path : String
  pub content : String

-- the POSTs of the bot: to `repository/branches`, `repository/commits` and `merge_requests`; the
-- quoting of the project in the path is left out
pub data Request : Type 0 where
  create_branch : (project branch ref : String) → Request
  commit_files : (project branch message : String) (actions : List Action) → Request
  open_mr : (project source target title description : String) → Request

-- a response, with the fields of its JSON that are read
pub record Response : Type 0 where
  pub status_code : ℕ
  pub text : String
  pub web_url : Option String
  pub iid : Option ℕ

-- the requests sent so far, the last one first
abbrev pub Sent : Type 0
Sent = List Request

-- GitLab and the read client: what a POST answers, after any requests, or the exception that it
-- raises; the default branch of a project and the text of a file, or the exception.
pub record Remote : Type 0 where
  pub post : Sent → Request → Outcome Response
  pub default_ref : String → Outcome String
  pub get_file : String → String → String → Outcome String

-- one dict of `results`
pub data RaiseResult : Type 0 where
  not_raised : (project error : String) → RaiseResult
  mr_raised :
      (project branch target : String) → Option String → Option ℕ → List String → RaiseResult

-- `url.rstrip("/")`
unfoldable pub strip_slashes : String → String
strip_slashes String.[] = String.[]
strip_slashes (String.◌∷◌ c s) =
    let rest = strip_slashes s in
    if (code c =ℕ 47) && (rest == String.[]) then String.[] else String.◌∷◌ c rest

-- `_write_cfg`, of GITLAB_FIX_TOKEN and the setting
unfoldable pub write_cfg : String → String → Option (String × String)
unfolding strip strip_slashes
write_cfg fix_token gitlab_url =
    let token = strip fix_token in
    let url = strip_slashes gitlab_url in
    if not (token == "") && not (url == "") then some (url, token) else none

-- a file of a project, with its applied edits
abbrev pub FileEdits : Type 0
FileEdits = String × List Edit

-- whether the file has applied edits and a path
abbrev pub to_commit : FileFix → Bool
to_commit f = is_cons (keep is_applied f.edits) && not (f.file == "")

abbrev pub has_no_repo : FileFix → Bool
has_no_repo f = to_commit f && (f.project == "")

-- the loop that groups the applied edits by project
unfoldable pub group_files :
    List (String × List FileEdits) → List FileFix → List (String × List FileEdits)
group_files groups [] = groups
group_files groups (f ∷ fs) =
    let added = add_to (λ a b. a == b) f.project (f.file, keep is_applied f.edits) groups in
    group_files (if to_commit f && not (f.project == "") then added else groups) fs

-- what each project's merge request is made of
pub record Push : Type 0 where
  pub ticket_key : String
  pub rationale : String
  pub base : String
  pub branch : String
  pub project : String
  pub target : String
  pub files : List FileEdits

abbrev first_error : List String → String
first_error [] = "no net change"
first_error (e ∷ es) = e

-- one file of the loop: its update, or why it is skipped
abbrev pub Prepared : Type 0
Prepared = List Action × List String

unfoldable pub prepare_file : String → List Edit → Outcome String → Prepared → Prepared
unfolding reapply cut
prepare_file path edits (raised type text) rest =
    (rest.0, (path <> ": could not fetch (" <> cut 60 text <> ")") ∷ rest.1)
prepare_file path edits (returned raw) rest =
    let new = reapply raw edits in
    if new.0 == raw
    then (rest.0, (path <> ": " <> first_error new.1) ∷ rest.1)
    else (record { file_path = path; content = new.0 } ∷ rest.0, rest.1)

-- the loop over the files of a project
unfoldable pub prepare : Remote → String → String → List FileEdits → Prepared
unfolding prepare_file
prepare R project target [] = ([], [])
prepare R project target ((path, edits) ∷ fs) =
    prepare_file path edits (R.get_file project target path) (prepare R project target fs)

abbrev pub or_text : String → String → String
or_text a b = if a == "" then b else a

abbrev file_link : Push → FileEdits → String
file_link p f =
    "- [" <> f.0 <> "](" <> p.base <> "/" <> p.project <> "/-/blob/" <> p.branch <> "/" <> f.0
    <> ")"

unfoldable pub description : Push → String
unfolding join_lines
description p =
    "**AI-suggested fix for "
    <> p.ticket_key
    <> "** — review before merging; do NOT merge without verifying.\n\n"
    <> p.rationale
    <> "\n\n**Target branch:** `"
    <> p.target
    <> "`\n\n**Files changed** (click to view on the fix branch):\n"
    <> join_lines (map (file_link p) p.files)
    <> "\n\n_Generated by the Triage dev-agent (Phase 1b, draft). A human must mark ready and merge._"

-- the three requests for a project
unfoldable pub branch_request : Push → Request
branch_request p = create_branch p.project p.branch p.target

unfoldable pub commit_request : Push → List Action → Request
unfolding cut
commit_request p actions =
    commit_files p.project p.branch
      ("[AI fix] " <> p.ticket_key <> ": " <> or_text (cut 80 p.rationale) "suggested fix") actions

unfoldable pub mr_request : Push → Request
unfolding description cut
mr_request p =
    open_mr p.project p.branch p.target
      ("Draft: "
        <> "[AI fix] "
        <> p.ticket_key
        <> " — "
        <> or_text (cut 60 p.rationale) "suggested fix")
      (description p)
