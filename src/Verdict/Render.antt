-- ===== src/Verdict/Render.antt =====
-- rca_agent/schema.py: `render_verdict`, the text of a verdict.
use rca_claude_agent.Prelude.{
  ◌-◌, length, ltb, none, ◌+◌, map, [], ◌==◌, ℕ, ◌++◌, ◌<>◌, some, if◌then◌else◌, ◌∷◌, Bool,
  decimal, Option, List, String,
}
use rca_claude_agent.Verdict.Schema.{
  low, medium, high, key_links, EvidenceLink, plain_status, Confidence, Verdict,
}

-- `"\n".join(lines)`
unfoldable pub join_lines : List String → String
join_lines [] = ""
join_lines (x ∷ []) = x
join_lines (x ∷ (y ∷ ys)) = x <> "\n" <> join_lines (y ∷ ys)

-- `lines += xs` if the text is not empty
abbrev when_text : String → List String → List String
when_text s xs = if s == "" then [] else xs

-- `lines += xs` if the list is not empty
abbrev when_any {ℓ} : {A : Type ℓ} → List A → List String → List String
when_any [] xs = []
when_any (a ∷ rest) xs = xs

abbrev upper_confidence : Confidence → String
upper_confidence high = "HIGH"
upper_confidence medium = "MEDIUM"
upper_confidence low = "LOW"

abbrev introduced_by : Option String → String
introduced_by none = ""
introduced_by (some mr) = if mr == "" then "" else " (" <> mr <> ")"

unfoldable pub head_lines : Verdict → List String
unfolding plain_status
head_lines v =
    (("=== RCA: " <> v.ticket <> " ===") ∷ [])
    ++ when_text v.headline (v.headline ∷ [])
    ++ ("Confidence "
        <> upper_confidence v.confidence
        <> " · "
        <> plain_status v
        <> introduced_by v.introducing_mr)
      ∷ []

abbrev key_line : EvidenceLink → String
key_line e = "  - " <> e.ref <> (if e.url == "" then "" else "  " <> e.url)

unfoldable pub brief_lines : Verdict → List String
unfolding head_lines key_links decimal
brief_lines v =
    let keys = key_links v in
    head_lines v
    ++ when_text v.plain_summary ("" ∷ ("In plain terms: " <> v.plain_summary) ∷ [])
    ++ when_any keys ("" ∷ "Key links:" ∷ map key_line keys)
    ++ (if ltb (length keys) (length v.evidence_chain)
        then ("  (+ "
            <> decimal (length v.evidence_chain - length keys)
            <> " more — see full trail)")
          ∷ []
        else [])
    ++ when_text v.suggested_next_action ("" ∷ ("Next: " <> v.suggested_next_action) ∷ [])

-- the trail, numbered from `i`
unfoldable pub trail_lines : ℕ → List EvidenceLink → List String
unfolding decimal
trail_lines i [] = []
trail_lines i (e ∷ es) =
    ("  " <> decimal i <> ". [" <> e.kind <> "] " <> e.ref)
      ∷ ("       " <> e.detail)
      ∷ when_text e.url (("       open: " <> e.url) ∷ [])
    ++ trail_lines (i + 1) es

abbrev trail : List EvidenceLink → List String
trail [] = "  (none — insufficient evidence)" ∷ []
trail (e ∷ es) = trail_lines 1 (e ∷ es)

unfoldable pub full_lines : Verdict → List String
unfolding head_lines trail_lines
full_lines v =
    head_lines v
    ++ when_text v.plain_summary ("" ∷ "In plain terms:" ∷ ("  " <> v.plain_summary) ∷ [])
    ++ ""
      ∷ "Probable root cause:"
      ∷ ("  " <> v.probable_root_cause)
      ∷ ""
      ∷ "Where it comes from (follow the trail — click to open):"
      ∷ []
    ++ trail v.evidence_chain
    ++ when_any v.candidates
        ("" ∷ "Candidates (need a human):" ∷ map (λ c. "  - " <> c) v.candidates)
    ++ when_any v.blast_radius
        ("" ∷ "Blast radius (retest these callers):" ∷ map (λ b. "  - " <> b) v.blast_radius)
    ++ "" ∷ ("Suggested next action:\n  " <> v.suggested_next_action) ∷ []
    ++ when_text v.notes ("" ∷ ("Notes: " <> v.notes) ∷ [])

unfoldable pub render_verdict : Verdict → Bool → String
unfolding join_lines brief_lines full_lines
render_verdict v brief = if brief then join_lines (brief_lines v) else join_lines (full_lines v)
