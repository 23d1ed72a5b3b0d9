-- ===== src/Fix/Review.antt =====
-- rca_agent/fix_agent.py and rca_agent/fix_mr.py: the edits that a reviewer saw applied are those
-- that are committed.
use rca_claude_agent.Prelude.{
  sym, ap, some, if◌then◌else◌, ltb, ◌=ℕ◌, false≢true, false, inl, inr, Bool-cases, arith, refl,
  ◌∷◌, [], keep, List, true, ◌≡◌, Bool, ◌==◌, String,
}
use rca_claude_agent.Fix.Edits.{
  occurrences, replace_first, Proposed, found_in, apply_edits, reapply, Edit, apply_one,
}
use rca_claude_agent.Fix.Build.{checked, Place, Python, build_file}

abbrev pub is_applied : Edit → Bool
is_applied e = e.applied

-- the outcome of an edit, by the three tests of `_apply_one`
abbrev outcome : String → String → Bool → Bool → Bool → String × String
outcome raw new a b c =
    if a
    then (raw, "model returned an empty 'before' snippet")
    else if b
    then (raw, "does not match the current code (it may have drifted) — not applied")
    else if c
    then (raw, "'before' snippet is not unique in the file — not applied")
    else (new, "")

outcome-passes :
    (raw new : String) (a b c : Bool)
    → ((outcome raw new a b c).1 == "") ≡ true
    → (a ≡ false) × (b ≡ false) × (c ≡ false)
outcome-passes raw new true b c h = absurd (false≢true h)
outcome-passes raw new false true c h = absurd (false≢true h)
outcome-passes raw new false false true h = absurd (false≢true h)
outcome-passes raw new false false false h = (refl, refl, refl)

outcome-refused :
    (raw new : String) (a b c : Bool)
    → ((outcome raw new a b c).1 == "") ≡ false
    → (outcome raw new a b c).0 ≡ raw
outcome-refused raw new true b c h = refl
outcome-refused raw new false true c h = refl
outcome-refused raw new false false true h = refl
outcome-refused raw new false false false h = absurd (false≢true (sym h))

-- an edit with an error leaves the text
pub apply_one_refused :
    (raw before after : String)
    → ((apply_one raw before after).1 == "") ≡ false
    → (apply_one raw before after).0 ≡ raw
unfolding apply_one
apply_one_refused raw before after h =
    outcome-refused raw (replace_first before after raw) (before == "")
      (occurrences before 0 raw =ℕ 0) (ltb 1 (occurrences before 0 raw)) h

-- an edit with no error was found once, and replaced where it was found
pub apply_one_lem :
    (raw before after : String)
    → ((apply_one raw before after).1 == "") ≡ true
    → (found_in raw before ≡ 1)
      × (apply_one raw before after ≡ (replace_first before after raw, ""))
unfolding apply_one
apply_one_lem raw before after h =
    let (given, found, once) =
      outcome-passes raw (replace_first before after raw) (before == "")
        (occurrences before 0 raw =ℕ 0) (ltb 1 (occurrences before 0 raw)) h in
    (ground (arith, given, found, once), simp (given, found, once))

-- The replay.
reapply-apply_edits :
    (raw : String) (es : List Proposed)
    → reapply raw (keep is_applied (apply_edits raw es).1) ≡ ((apply_edits raw es).0, [])
unfolding reapply apply_edits
reapply-apply_edits raw [] = refl
reapply-apply_edits raw (e ∷ es) = elim (Bool-cases ((apply_one raw e.before e.after).1 == "")) [
  | inr no_match ↦ ground (arith, reapply-apply_edits raw es)
  | inl match ↦ ground (
    arith,
    apply_one_lem raw e.before e.after match,
    reapply-apply_edits (replace_first e.before e.after raw) es,
  )
]

-- Round trip: the diff that the reviewer sees of a file, and the check of its syntax, are of the text
-- that raising the merge request commits. Replaying the edits that are marked as applied on the text
-- that the review fetched meets no error, and the diff and the check are those of what it gives.
pub build_file-reapply :
    (python : Python) (place : Place) (ref raw : String) (edits : List Proposed)
    → let f = build_file python place (some (ref, raw)) edits in
      let replayed = reapply raw (keep is_applied f.edits) in
      (replayed.1 ≡ [])
      × ((f.diff, (f.syntax_ok, f.syntax_note)) ≡ checked python place.1 raw replayed.0)
unfolding build_file
build_file-reapply python (project, path) ref raw edits =
    let e = reapply-apply_edits raw edits in
    (ap (λ p. p.1) e, ap (λ p. checked python path raw p.0) (sym e))
