-- ===== src/Fix/Careful.antt =====
-- rca_agent/fix_mr.py: what `raise_mr` sends to GitLab.
use rca_claude_agent.Review.World.{Outcome, returned, raised}
use rca_claude_agent.Prelude.{
  inr, inl, Bool-cases, ◌<>◌, ◌==◌, refl, true, keep, ◌∷◌, leb, ◌≡◌, Each, not, Has, List, [],
  false, Bool, String,
}
use rca_claude_agent.Fix.Build.{FixSuggestion}
use rca_claude_agent.Fix.Raise.{
  branch_request, Push, commit_request, mr_request, open_mr, commit_files, Prepared, create_branch,
  Action, FileEdits, prepare, prepare_file, Sent, Response, Remote,
}
use rca_claude_agent.Fix.Push.{
  target_of, go_on, push_of, Raised, Order, raise_all, Step, raise_project, push_files,
  after_branch, after_commit, has_branch,
}
use rca_claude_agent.Fix.Edits.{reapply, Edit}
use rca_claude_agent.Fix.Review.{is_applied}

-- The file with these edits is one of the project's in the fix, and the edits are its applied ones.
abbrev pub IsOfFix : FixSuggestion → String → FileEdits → Type 0
IsOfFix fix project fe =
    Has (λ f. (f.project ≡ project) × ((f.file ≡ fe.0) × (keep is_applied f.edits ≡ fe.1)))
      fix.files

-- The update of a file: its text at the ref, with the applied edits of the fix replayed, and changed.
abbrev pub IsReviewed : Remote → FixSuggestion → (project ref : String) → Action → Type 0
IsReviewed R fix project ref a =
    (raw : String) × ((edits : List Edit) × (IsOfFix fix project (a.file_path, edits)
        × ((R.get_file project ref a.file_path ≡ returned raw)
            × ((a.content ≡ (reapply raw edits).0) × ((a.content == raw) ≡ false)))))

abbrev pub accepts : Outcome Response → Bool
accepts (raised type text) = false
accepts (returned r) = not (leb 400 r.status_code)

abbrev pub makes_branch : Outcome Response → Bool
unfolding has_branch
makes_branch (raised type text) = false
makes_branch (returned r) = has_branch r

-- The requests that a careful bot sends, the last one first. It asks for a branch, to be made from a
-- ref; if GitLab makes it, or answers that it exists already, it commits to it one or more updates,
-- each the replay of the reviewed edits on the text at that ref; and after a commit that GitLab
-- accepted, it opens a draft merge request of that branch into that ref.
pub data IsCareful (R : Remote) (fix : FixSuggestion) : Sent → Type 0 where
  nothing : IsCareful R fix []
  makes :
      {sent : Sent} (project branch ref : String)
      → IsCareful R fix sent
      → IsCareful R fix (create_branch project branch ref ∷ sent)
  commits :
      {sent : Sent} (project branch ref message : String) (a : Action) (rest : List Action)
      → IsCareful R fix (create_branch project branch ref ∷ sent)
      → makes_branch (R.post sent (create_branch project branch ref)) ≡ true
      → Each (IsReviewed R fix project ref) (a ∷ rest)
      → IsCareful R fix
          (commit_files project branch message (a ∷ rest) ∷ create_branch project branch ref ∷ sent)
  opens :
      {sent : Sent} (project branch ref message : String) (actions : List Action)
      (title text : String)
      → IsCareful R fix
          (commit_files project branch message actions ∷ create_branch project branch ref ∷ sent)
      → accepts (
          R.post
            (create_branch project branch ref ∷ sent)
            (commit_files project branch message actions))
        ≡ true
      → IsCareful R fix (
          open_mr project branch ref ("Draft: " <> title) text
          ∷ commit_files project branch message actions
          ∷ create_branch project branch ref
          ∷ sent)

module _ (R : Remote) (fix : FixSuggestion) where
  -- the updates of a project's files
  prepare_file-IsReviewed :
      (project ref path : String) (edits : List Edit) (o : Outcome String) (rest : Prepared)
      → IsOfFix fix project (path, edits)
      → R.get_file project ref path ≡ o
      → Each (IsReviewed R fix project ref) rest.0
      → Each (IsReviewed R fix project ref) (prepare_file path edits o rest).0
  unfolding prepare_file
  prepare_file-IsReviewed project ref path edits (raised type text) rest m g h = h
  prepare_file-IsReviewed project ref path edits (returned raw) rest m g h =
      elim (Bool-cases ((reapply raw edits).0 == raw)) [
        | inl e ↦ rw e h
        | inr e ↦ rw e ((raw, (edits, (m, (g, (refl, e))))), h)
      ]

  prepare-IsReviewed :
      (project ref : String) (files : List FileEdits)
      → Each (IsOfFix fix project) files
      → Each (IsReviewed R fix project ref) (prepare R project ref files).0
  unfolding prepare
  prepare-IsReviewed project ref [] h = tt
  prepare-IsReviewed project ref ((path, edits) ∷ files) (m, h) =
      prepare_file-IsReviewed project ref path edits (R.get_file project ref path) _ m refl
        (prepare-IsReviewed project ref files h)

  mr_request-IsCareful :
      (p : Push) (actions : List Action) {sent : Sent}
      → IsCareful R fix (commit_request p actions ∷ branch_request p ∷ sent)
      → accepts (R.post (branch_request p ∷ sent) (commit_request p actions)) ≡ true
      → IsCareful R fix (mr_request p ∷ commit_request p actions ∷ branch_request p ∷ sent)
  unfolding mr_request commit_request branch_request
  mr_request-IsCareful p actions h ok = opens _ _ _ _ _ _ _ h ok

  after_commit-IsCareful :
      (p : Push) (actions : List Action) (skipped : List String) (o : Outcome Response)
      {sent : Sent}
      → R.post (branch_request p ∷ sent) (commit_request p actions) ≡ o
      → IsCareful R fix (commit_request p actions ∷ branch_request p ∷ sent)
      → IsCareful R fix
          (after_commit R p skipped o (commit_request p actions ∷ branch_request p ∷ sent)).1
  unfolding after_commit
  after_commit-IsCareful p actions skipped (raised type text) e h = h
  after_commit-IsCareful p actions skipped (returned r) e h =
      elim (Bool-cases (leb 400 r.status_code)) [
        | inl refused ↦ rw refused h
        | inr ok ↦ rw ok (mr_request-IsCareful p actions h (rw e (rw ok refl)))
      ]

  after_branch-IsCareful :
      (p : Push) (a : Action) (rest : List Action) (skipped : List String) (o : Outcome Response)
      {sent : Sent}
      → R.post sent (branch_request p) ≡ o
      → Each (IsReviewed R fix p.project p.target) (a ∷ rest)
      → IsCareful R fix sent
      → IsCareful R fix (after_branch R p (a ∷ rest, skipped) o (branch_request p ∷ sent)).1
  unfolding after_branch branch_request commit_request
  after_branch-IsCareful p a rest skipped (raised type text) e h c = makes _ _ _ c
  after_branch-IsCareful p a rest skipped (returned r) e h c = elim (Bool-cases (has_branch r)) [
    | inr refused ↦ rw refused (makes _ _ _ c)
    | inl ok ↦ rw ok (
        after_commit-IsCareful p (a ∷ rest) skipped _ refl
          (commits _ _ _ _ a rest (makes _ _ _ c) (rw e ok) h))
  ]

  push_files-IsCareful :
      (p : Push) (files : Prepared) (sent : Sent)
      → Each (IsReviewed R fix p.project p.target) files.0
      → IsCareful R fix sent
      → IsCareful R fix (push_files R p files sent).1
  unfolding push_files
  push_files-IsCareful p ([], skipped) sent h c = c
  push_files-IsCareful p (a ∷ rest, skipped) sent h c =
      after_branch-IsCareful p a rest skipped (R.post sent (branch_request p)) refl h c

  raise_project-IsCareful :
      (o : Order) (project : String) (files : List FileEdits) (t : Outcome String) (sent : Sent)
      → Each (IsOfFix fix project) files
      → IsCareful R fix sent
      → IsCareful R fix (raise_project R o project files t sent).1
  unfolding raise_project push_of
  raise_project-IsCareful o project files (raised type text) sent h c = c
  raise_project-IsCareful o project files (returned target) sent h c =
      push_files-IsCareful (push_of o project target files) (prepare R project target files) sent
        (prepare-IsReviewed project target files h) c

  go_on-IsCareful :
      (s : Step) (more : Sent → Raised)
      → ((sent : Sent) → IsCareful R fix sent → IsCareful R fix (more sent).1)
      → IsCareful R fix s.1
      → IsCareful R fix (go_on s more).1
  go_on-IsCareful (raised type text, sent) more ih c = c
  go_on-IsCareful (returned r, sent) more ih c = ih sent c

  pub raise_all-IsCareful :
      (o : Order) (groups : List (String × List FileEdits)) (sent : Sent)
      → Each (λ g. Each (IsOfFix fix g.0) g.1) groups
      → IsCareful R fix sent
      → IsCareful R fix (raise_all R o groups sent).1
  unfolding raise_all
  raise_all-IsCareful o [] sent h c = c
  raise_all-IsCareful o ((project, files) ∷ groups) sent (h, hs) c =
      go_on-IsCareful _ (raise_all R o groups) (λ now. raise_all-IsCareful o groups now hs)
        (raise_project-IsCareful o project files (target_of R o.targets project) sent h c)
