-- ===== src/Fix/Push.antt =====
-- rca_agent/fix_mr.py: `raise_mr`, from the POST of a branch on.
use rca_claude_agent.Review.World.{Outcome, returned, raised}
use rca_claude_agent.Prelude.{
  none, any, some, ◌&&◌, [], false, ◌==◌, not, leb, true, Option, ◌∷◌, ◌<>◌, if◌then◌else◌, cut,
  Bool, List, strip, lower, decimal, String,
}
use rca_claude_agent.Fix.Raise.{
  or_text, has_no_repo, mr_raised, not_raised, FileEdits, Prepared, Response, Sent, group_files,
  Remote, prepare, branch_request, commit_request, mr_request, Push, RaiseResult,
}
use rca_claude_agent.Verdict.Adf.{join_semicolons}
use rca_claude_agent.Fix.Build.{FixSuggestion}
use rca_claude_agent.Graph.Search.{occurs_in}

-- the error of a response of 400 or more
abbrev pub failed : String → Response → String
unfolding decimal cut
failed what r = what <> " failed: " <> decimal r.status_code <> " " <> cut 120 r.text

abbrev pub Step : Type 0
Step = Outcome RaiseResult × Sent

-- after the POST of the merge request
unfoldable pub after_mr : Push → List String → Outcome Response → Outcome RaiseResult
after_mr p skipped (raised type text) = raised type text
after_mr p skipped (returned r) =
    if leb 400 r.status_code
    then returned (not_raised p.project (failed "open MR" r))
    else returned (mr_raised p.project p.branch p.target r.web_url r.iid skipped)

-- after the POST of the commit
unfoldable pub after_commit : Remote → Push → List String → Outcome Response → Sent → Step
unfolding after_mr mr_request
after_commit R p skipped (raised type text) sent = (raised type text, sent)
after_commit R p skipped (returned r) sent =
    if leb 400 r.status_code
    then (returned (not_raised p.project (failed "commit" r)), sent)
    else (after_mr p skipped (R.post sent (mr_request p)), mr_request p ∷ sent)

-- whether the branch can be committed to: it was made, or it already exists
unfoldable pub has_branch : Response → Bool
unfolding lower
has_branch r = not (leb 400 r.status_code && not (occurs_in "already exists" (lower r.text)))

-- after the POST of the branch
unfoldable pub after_branch : Remote → Push → Prepared → Outcome Response → Sent → Step
unfolding after_commit has_branch commit_request
after_branch R p files (raised type text) sent = (raised type text, sent)
after_branch R p (actions, skipped) (returned r) sent =
    let q = commit_request p actions in
    if not (has_branch r)
    then (returned (not_raised p.project (failed "create branch" r)), sent)
    else after_commit R p skipped (R.post sent q) (q ∷ sent)

-- `(targets.get(project) or "").strip() or client.default_ref(project)`; the targets are "" where the
-- map has none
unfoldable pub target_of : Remote → (String → String) → String → Outcome String
unfolding strip
target_of R targets project =
    let chosen = strip (targets project) in
    if chosen == "" then R.default_ref project else returned chosen

-- What the request of a merge request is for: the ticket, the rationale, the base URL, the targets.
pub record Order : Type 0 where
  pub ticket_key : String
  pub rationale : String
  pub base : String
  pub targets : String → String

unfoldable pub fix_branch : String → String
unfolding lower
fix_branch ticket_key = "feature/ai-fix-" <> lower ticket_key

unfoldable pub push_of : Order → String → String → List FileEdits → Push
unfolding fix_branch
push_of o project target files = record {
  ticket_key = o.ticket_key;
  rationale = o.rationale;
  base = o.base;
  branch = fix_branch o.ticket_key;
  project = project;
  target = target;
  files = files;
}

-- with the updates that the files gave
unfoldable pub push_files : Remote → Push → Prepared → Sent → Step
unfolding after_branch branch_request join_semicolons
push_files R p ([], skipped) sent =
    (returned (not_raised p.project (or_text (join_semicolons skipped) "nothing to commit")), sent)
push_files R p (a ∷ rest, skipped) sent =
    let q = branch_request p in after_branch R p (a ∷ rest, skipped) (R.post sent q) (q ∷ sent)

-- one project of the loop
unfoldable pub raise_project :
    Remote → Order → String → List FileEdits → Outcome String → Sent → Step
unfolding push_files prepare push_of
raise_project R o project files (raised type text) sent = (raised type text, sent)
raise_project R o project files (returned target) sent =
    push_files R (push_of o project target files) (prepare R project target files) sent

abbrev pub Raised : Type 0
Raised = Outcome (List RaiseResult) × Sent

abbrev pub add_result : RaiseResult → Outcome (List RaiseResult) → Outcome (List RaiseResult)
add_result r (raised type text) = raised type text
add_result r (returned rs) = returned (r ∷ rs)

-- what follows a project: an exception ends the loop
abbrev pub go_on : Step → (Sent → Raised) → Raised
go_on (raised type text, sent) more = (raised type text, sent)
go_on (returned r, sent) more = (add_result r (more sent).0, (more sent).1)

-- the loop over the projects
unfoldable pub raise_all : Remote → Order → List (String × List FileEdits) → Sent → Raised
unfolding raise_project target_of
raise_all R o [] sent = (returned [], sent)
raise_all R o ((project, files) ∷ rest) sent =
    go_on (raise_project R o project files (target_of R o.targets project) sent)
      (raise_all R o rest)

-- what `raise_mr` returns: its `error`, or its `results`
pub data RaiseAnswer : Type 0 where
  mr_error : String → RaiseAnswer
  mr_results : List RaiseResult → RaiseAnswer

abbrev pub answer_of : Outcome (List RaiseResult) → Outcome RaiseAnswer
answer_of (raised type text) = raised type text
answer_of (returned rs) = returned (mr_results rs)

abbrev pub no_commit : Bool → String
no_commit true =
    "this fix has no repository attached to its files — it's likely a stale suggestion from before the multi-repo change. Re-run the dev agent, then raise the MR."
no_commit false = "no applied edits to commit"

-- `raise_mr`, after the configuration
unfoldable pub raise_groups :
    Remote → Order → Bool → List (String × List FileEdits) → Sent → Outcome RaiseAnswer × Sent
unfolding raise_all
raise_groups R o stale [] sent = (returned (mr_error (no_commit stale)), sent)
raise_groups R o stale (g ∷ gs) sent =
    let done = raise_all R o (g ∷ gs) sent in (answer_of done.0, done.1)

-- `raise_mr`, with the configuration of `_write_cfg`
unfoldable pub raise_mr :
    Remote
    → Option (String × String)
    → String
    → FixSuggestion
    → (String → String)
    → Sent
    → Outcome RaiseAnswer × Sent
unfolding raise_groups group_files strip
raise_mr R none ticket_key fix targets sent = (
  returned (
      mr_error
        "write access not configured — set GITLAB_FIX_TOKEN (a Developer-role GitLab bot token) in .env to enable raising MRs"),
  sent,
)
raise_mr R (some (base, token)) ticket_key fix targets sent =
    if not fix.fixable
    then (returned (mr_error "this suggestion is not fixable — nothing to raise"), sent)
    else raise_groups R
        (record {
          ticket_key = ticket_key;
          rationale = strip fix.rationale;
          base = base;
          targets = targets;
        })
        (any has_no_repo fix.files) (group_files [] fix.files) sent
