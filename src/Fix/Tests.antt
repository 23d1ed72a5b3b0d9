-- ===== src/Fix/Tests.antt =====
-- The fix suggester and the merge request at concrete inputs, and the theorems of Fix at them.
use rca_claude_agent.Fix.Samples.{pinned, edit, tax_file, fix_world, answering, tax_fix}
use rca_claude_agent.Fix.Edits.{
  found_in, reapply, replace_first, apply_one, occurrences, apply_edits,
}
use rca_claude_agent.Prelude.{
  ◌⊎◌, ◌==◌, length, lower, rstrip, lstrip, strip, false, true, ◌∷◌, [], map, refl, some, String,
  ◌≡◌, Each, Option,
}
use rca_claude_agent.Fix.Push.{
  has_branch, after_mr, after_commit, after_branch, target_of, push_of, push_files, raise_project,
  raise_all, raise_groups, raise_mr,
}
use rca_claude_agent.Fix.Careful.{IsCareful}
use rca_claude_agent.Fix.Suggest.{fetch_files, with_project, places, from_answer, explore, suggest}
use rca_claude_agent.Fix.Fresh.{suggest-reapply, files_of, IsFresh}
use rca_claude_agent.Fix.Raise.{prepare_file, prepare, group_files}
use rca_claude_agent.Fix.Build.{check_file, build_file, group_edits, build_files}
use rca_claude_agent.Fix.Answer.{
  caveats, strip_ticks, before_mark, to_brace, from_brace, unfence, parse_json, candidate_projects,
}
use rca_claude_agent.Fix.Requests.{raise_mr-IsCareful}
use rca_claude_agent.Fix.Prompt.{fix_prompt}
use rca_claude_agent.Fix.Splice.{apply_one_splits, IsReplaced}

-- the edits of a text: one applies, one is missing, and one is found twice
three_edits :
    map
      (λ e. e.applied)
      (apply_edits tax_file (edit "t + tax" "t" ∷ edit "missing" "x" ∷ edit "t = " "s = " ∷ [])).1
    ≡ true ∷ false ∷ false ∷ []
unfolding apply_edits apply_one occurrences replace_first
three_edits = refl

edited : (apply_edits tax_file (edit "t + tax" "t" ∷ [])).0 ≡ "t = a + b\nt = t\nreturn t\n"
unfolding apply_edits apply_one occurrences replace_first
edited = refl

overlapping : occurrences "aa" 0 "aaaaa" ≡ 2
unfolding occurrences
overlapping = refl

-- "aba" stands at two places of "ababa", is counted once, and so the edit is applied.
overlap_counts_once : occurrences "aba" 0 "ababa" ≡ 1
unfolding occurrences
overlap_counts_once = refl

overlap_is_applied : apply_one "ababa" "aba" "x" ≡ ("xba", "")
unfolding apply_one occurrences replace_first
overlap_is_applied = refl

abbrev cfg : Option (String × String)
cfg = some ("https://git", "token")

raised_once : length (raise_mr (answering 201) cfg "AUT-1" tax_fix (λ project. "") []).1 ≡ 3
unfolding raise_mr raise_groups group_files raise_all raise_project push_files push_of target_of
    strip lstrip rstrip prepare prepare_file reapply replace_first occurrences after_branch
    after_commit after_mr has_branch lower
raised_once = refl

existing_branch : length (raise_mr (answering 400) cfg "AUT-1" tax_fix (λ project. "") []).1 ≡ 2
unfolding raise_mr raise_groups group_files raise_all raise_project push_files push_of target_of
    strip lstrip rstrip prepare prepare_file reapply replace_first occurrences after_branch
    after_commit after_mr has_branch lower
existing_branch = refl

raise_mr-IsCareful_example :
    IsCareful
      (answering 201)
      tax_fix
      (raise_mr
        (answering 201)
        (some ("https://git", "token"))
        "AUT-1"
        tax_fix
        (λ project. "")
        []).1
raise_mr-IsCareful_example =
    raise_mr-IsCareful (answering 201) (some ("https://git", "token")) "AUT-1" tax_fix
      (λ project. "")

suggest-reapply_example : Each (IsFresh fix_world) (files_of (suggest fix_world pinned))
suggest-reapply_example = suggest-reapply fix_world pinned

suggested : map (λ f. f.diff) (files_of (suggest fix_world pinned)) ≡ "a/tax.py,b/tax.py" ∷ []
unfolding suggest explore from_answer build_files group_edits build_file apply_edits apply_one
    occurrences replace_first candidate_projects places with_project fetch_files parse_json strip
    lstrip rstrip unfence from_brace to_brace before_mark strip_ticks check_file fix_prompt caveats
suggested = refl

apply_one_splits_example :
    let result = apply_one tax_file "t + tax" "t" in
    (((result.1 == "") ≡ false) × (result.0 ≡ tax_file))
    ⊎ ((found_in tax_file "t + tax" ≡ 1) × IsReplaced tax_file "t + tax" "t" result.0)
apply_one_splits_example = apply_one_splits tax_file "t + tax" "t"
