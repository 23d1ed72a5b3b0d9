-- ===== src/Fix/Edits.antt =====
-- rca_agent/fix_agent.py: `_apply_one`, and the loop of `_build_files` over the edits of a file;
-- rca_agent/fix_mr.py: `_reapply`.
use rca_claude_agent.Prelude.{
  [], ltb, ◌-◌, zero, ◌=ℕ◌, ◌∷◌, ◌==◌, starts_with, size, ◌<>◌, List, Bool, if◌then◌else◌, suc,
  String, ℕ,
}

-- `s[n:]`
abbrev pub drop_chars : ℕ → String → String
drop_chars zero s = s
drop_chars (suc n) String.[] = String.[]
drop_chars (suc n) (String.◌∷◌ c s) = drop_chars n s

-- `s.count(t)` of a text t that is not empty, with the characters of the last match still to skip:
-- matches do not overlap
unfoldable pub occurrences : String → ℕ → String → ℕ
occurrences t skip String.[] = 0
occurrences t (suc skip) (String.◌∷◌ c s) = occurrences t skip s
occurrences t zero (String.◌∷◌ c s) =
    let next = occurrences t (size t - 1) s in
    let rest = occurrences t 0 s in if starts_with (String.◌∷◌ c s) t then suc next else rest

-- `s.replace(before, after, 1)` of a text before that is not empty
unfoldable pub replace_first : String → String → String → String
replace_first before after String.[] = String.[]
replace_first before after (String.◌∷◌ c s) =
    let rest = String.◌∷◌ c (replace_first before after s) in
    if starts_with (String.◌∷◌ c s) before
    then after <> drop_chars (size before) (String.◌∷◌ c s)
    else rest

-- one edit of the model's answer; a missing key is the empty text, as the code reads it
pub record Proposed : Type 0 where
  pub project : String
  pub file : String
  pub before : String
  pub after : String

-- an edit with what became of it: a dict of `FileFix.edits`
pub record Edit : Type 0 where
  pub before : String
  pub after : String
  pub applied : Bool
  pub error : String

-- `_apply_one`: the text, and the error, empty if the edit was applied
unfoldable pub apply_one : String → String → String → String × String
unfolding occurrences replace_first
apply_one raw before after =
    if before == ""
    then (raw, "model returned an empty 'before' snippet")
    else if occurrences before 0 raw =ℕ 0
    then (raw, "does not match the current code (it may have drifted) — not applied")
    else if ltb 1 (occurrences before 0 raw)
    then (raw, "'before' snippet is not unique in the file — not applied")
    else (replace_first before after raw, "")

-- the loop over the edits of one file: the text that they leave, and what became of each
unfoldable pub apply_edits : String → List Proposed → String × List Edit
unfolding apply_one
apply_edits cur [] = (cur, [])
apply_edits cur (e ∷ es) =
    let result = apply_one cur e.before e.after in
    let applied = result.1 == "" in
    let next = apply_edits (if applied then result.0 else cur) es in
    (
      next.0,
      record { before = e.before; after = e.after; applied = applied; error = result.1 } ∷ next.1,
    )

-- the message of `_reapply`, by how often the snippet was found
abbrev pub refusal : ℕ → String
refusal n =
    "a snippet no longer matches the current file ("
    <> (if n =ℕ 0 then "missing" else "ambiguous")
    <> ") — skipped"

-- `cur.count(before) if before else 0`
abbrev pub found_in : String → String → ℕ
found_in cur before = if before == "" then 0 else occurrences before 0 cur

-- `_reapply`: the text, and the errors of the edits that no longer match
unfoldable pub reapply : String → List Edit → String × List String
unfolding replace_first
reapply cur [] = (cur, [])
reapply cur (e ∷ es) =
    let applied = reapply (replace_first e.before e.after cur) es in
    let refused = reapply cur es in
    if found_in cur e.before =ℕ 1
    then applied
    else (refused.0, refusal (found_in cur e.before) ∷ refused.1)
