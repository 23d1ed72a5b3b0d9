-- ===== src/Fix/Requests.antt =====
-- rca_agent/fix_mr.py: the files of a fix, as they are grouped by project, and the whole of `raise_mr`.
use rca_claude_agent.Fix.Careful.{nothing, IsCareful, IsOfFix, raise_all-IsCareful}
use rca_claude_agent.Fix.Build.{add_to, FileFix, FixSuggestion}
use rca_claude_agent.Prelude.{
  any, strip, refl, none, not, some, ◌&&◌, false, true, ap, Option, if◌then◌else◌, keep, Bool, inr,
  eq_iff, inl, Bool-cases, [], ◌==◌, ◌∷◌, ◌≡◌, ◌++◌, Has, Each, List, String,
}
use rca_claude_agent.Fix.Raise.{has_no_repo, Sent, to_commit, Remote, FileEdits, group_files}
use rca_claude_agent.Fix.Push.{Order, raise_groups, raise_mr}
use rca_claude_agent.Fix.Review.{is_applied}

module _ (fix : FixSuggestion) where
  -- the groups hold files of the fix only
  abbrev AreOfFix : List (String × List FileEdits) → Type 0
  AreOfFix groups = Each (λ g. Each (IsOfFix fix g.0) g.1) groups

  Each-append :
      (project : String) (fe : FileEdits) (fs : List FileEdits)
      → Each (IsOfFix fix project) fs
      → IsOfFix fix project fe
      → Each (IsOfFix fix project) (fs ++ fe ∷ [])
  Each-append project fe [] h m = (m, tt)
  Each-append project fe (f ∷ fs) (e, h) m = (e, Each-append project fe fs h m)

  add_to-AreOfFix :
      (project : String) (fe : FileEdits) (groups : List (String × List FileEdits))
      → IsOfFix fix project fe
      → AreOfFix groups
      → AreOfFix (add_to (λ a b. a == b) project fe groups)
  add_to-AreOfFix project fe [] m h = ((m, tt), tt)
  add_to-AreOfFix project fe ((p, fs) ∷ groups) m (e, h) = elim (Bool-cases (p == project)) [
    | inl same ↦ rw same (Each-append p fe fs e (rw ((eq_iff p project).0 same) m), h)
    | inr other ↦ rw other (e, add_to-AreOfFix project fe groups m h)
  ]

  Has-mono :
      (P Q : FileFix → Type 0) (fs : List FileFix)
      → ((f : FileFix) → P f → Q f)
      → Has P fs
      → Has Q fs
  Has-mono P Q [] g none_has = absurd none_has
  Has-mono P Q (f ∷ fs) g (inl e) = inl (g f e)
  Has-mono P Q (f ∷ fs) g (inr m) = inr (Has-mono P Q fs g m)

  if-AreOfFix :
      (b : Bool) (x y : List (String × List FileEdits))
      → AreOfFix x
      → AreOfFix y
      → AreOfFix (if b then x else y)
  if-AreOfFix true x y hx hy = hx
  if-AreOfFix false x y hx hy = hy

  group_files-AreOfFix :
      (fs : List FileFix) (groups : List (String × List FileEdits))
      → ((f : FileFix) → Has (λ x. x ≡ f) fs → Has (λ x. x ≡ f) fix.files)
      → AreOfFix groups
      → AreOfFix (group_files groups fs)
  unfolding group_files
  group_files-AreOfFix [] groups sub h = h
  group_files-AreOfFix (f ∷ fs) groups sub h =
      let of_fix : IsOfFix fix f.project (f.file, keep is_applied f.edits) =
        Has-mono _ _ fix.files
          (λ x e. (
            ap (λ (y : FileFix). y.project) e,
            (ap (λ (y : FileFix). y.file) e, ap (λ (y : FileFix). keep is_applied y.edits) e),
          ))
          (sub f (inl refl)) in
      group_files-AreOfFix fs _ (λ g m. sub g (inr m))
        (if-AreOfFix (to_commit f && not (f.project == "")) _ groups
          (add_to-AreOfFix f.project (f.file, keep is_applied f.edits) groups of_fix h) h)

module _ (R : Remote) (fix : FixSuggestion) where
  raise_groups-IsCareful :
      (o : Order) (stale : Bool) (groups : List (String × List FileEdits)) (sent : Sent)
      → Each (λ g. Each (IsOfFix fix g.0) g.1) groups
      → IsCareful R fix sent
      → IsCareful R fix (raise_groups R o stale groups sent).1
  unfolding raise_groups
  raise_groups-IsCareful o stale [] sent h c = c
  raise_groups-IsCareful o stale (g ∷ gs) sent h c = raise_all-IsCareful R fix o (g ∷ gs) sent h c

-- Whatever GitLab answers, all that `raise_mr` sends is careful: it commits only to a branch that
-- GitLab has just made for it from a ref, or that GitLab said exists already, and only updates that
-- replay the edits applied at the review, of a file of that project in the fix, on the text at that
-- ref, and that change it; it opens a merge request only right after a commit to its source branch
-- that was accepted, into the ref named in that request for the branch, and as a draft. What an
-- existing branch was made from is not covered.
pub raise_mr-IsCareful :
    (R : Remote) (cfg : Option (String × String)) (ticket_key : String) (fix : FixSuggestion)
    (targets : String → String)
    → IsCareful R fix (raise_mr R cfg ticket_key fix targets []).1
unfolding raise_mr
raise_mr-IsCareful R none ticket_key fix targets = nothing
raise_mr-IsCareful R (some (base, token)) ticket_key fix targets =
    let order : Order = record {
      ticket_key = ticket_key;
      rationale = strip fix.rationale;
      base = base;
      targets = targets;
    } in
    let raised_all =
      raise_groups-IsCareful R fix order (any has_no_repo fix.files) (group_files [] fix.files) []
        (group_files-AreOfFix fix fix.files [] (λ f m. m) tt) nothing in
    elim (Bool-cases fix.fixable) [ inr e ↦ simp e nothing | inl e ↦ simp e raised_all ]
