-- ===== src/Fix/Prompt.antt =====
-- rca_agent/fix_agent.py: `_evidence_block` and the prompt of `_explore_and_generate`.
use rca_claude_agent.Verdict.Schema.{shows_code, EvidenceLink, Verdict}
use rca_claude_agent.Prelude.{
  ◌++◌, ◌||◌, none, map, not, ◌==◌, [], keep, Bool, if◌then◌else◌, ◌<>◌, ◌∷◌, some, List, strip,
  Option, String,
}
use rca_claude_agent.Verdict.Render.{join_lines}
use rca_claude_agent.Fix.Answer.{is_cons, project_of}

-- `f"[{proj}] " if proj else ""`
abbrev prefix : Option String → String
prefix none = ""
prefix (some p) = if p == "" then "" else "[" <> p <> "] "

-- the line of one piece of evidence
evidence_line : (String → Option (String × String × String)) → EvidenceLink → String
unfolding strip
evidence_line parse_blob_url e =
    let detail = strip e.detail in
    "- "
    <> prefix (project_of parse_blob_url e)
    <> strip e.ref
    <> (if detail == "" then "" else " — " <> detail)

abbrev has_ref : EvidenceLink → Bool
unfolding strip
has_ref e = not (strip e.ref == "")

abbrev code_or_none : List String → List String
code_or_none [] = "- (none — the RCA pinned no direct code location)" ∷ []
code_or_none (x ∷ xs) = x ∷ xs

-- the part of the block on what is not code
abbrev context_lines : List String → List String
context_lines [] = []
context_lines (x ∷ xs) =
    "\n# Related change context (what introduced/surrounds the bug — not necessarily where you edit):"
    ∷ x ∷ xs

-- `_evidence_block`
unfoldable pub evidence_block :
    (String → Option (String × String × String)) → List EvidenceLink → String
unfolding evidence_line join_lines
evidence_block parse_blob_url chain =
    let usable = keep has_ref chain in
    let code = map (evidence_line parse_blob_url) (keep shows_code usable) in
    let context = map (evidence_line parse_blob_url) (keep (λ e. not (shows_code e)) usable) in
    if is_cons code || is_cons context
    then join_lines (
        "\n# Code the RCA already pinned (READ THESE FIRST with fetch_file_lines — each is a path:line-range on this branch; do not re-discover them):"
          ∷ code_or_none code
        ++ context_lines context)
      <> "\n"
    else ""

-- `", ".join(xs)`
unfoldable pub join_commas : List String → String
join_commas [] = ""
join_commas (x ∷ []) = x
join_commas (x ∷ (y ∷ ys)) = x <> ", " <> join_commas (y ∷ ys)

-- the prompt of `_explore_and_generate`
unfoldable pub fix_prompt :
    (String → Option (String × String × String)) → Verdict → List String → String
unfolding evidence_block join_commas
fix_prompt parse_blob_url v candidates =
    "# RCA\nRoot cause: "
    <> v.probable_root_cause
    <> "\nHeadline: "
    <> v.headline
    <> "\nSuggested action: "
    <> v.suggested_next_action
    <> "\n\nRepos the RCA implicates (START here; the tools handle each repo's branch for you — just pass project/path/query, never a ref). You MAY explore other repos via list_repos if the fix lives elsewhere: "
    <> (if is_cons candidates then join_commas candidates else "(none pinned — use list_repos)")
    <> "\n"
    <> evidence_block parse_blob_url v.evidence_chain
    <> "\nRead the pinned code first, then trace out to any OTHER code the fix must change (in any repo). Emit the final JSON — tag each edit with the `project` it belongs to."
