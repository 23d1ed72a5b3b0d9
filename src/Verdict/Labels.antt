-- ===== src/Verdict/Labels.antt =====
-- rca_agent/schema.py: what the label and the key links of a verdict promise.
use rca_claude_agent.Verdict.Schema.{
  is_theirs, is_ours, is_low, shows_mr, is_insufficient, shows_code, found_links, verdict_label,
  key_links, EvidenceLink, Verdict,
}
use rca_claude_agent.Prelude.{
  refl, true, any, [], eq_iff, false, length-append, ◌∷◌, arith, ◌+◌, find, ◌↔◌, ◌≤◌, ◌≡◌, length,
  count, Bool, List,
}

find-count :
    (p : EvidenceLink → Bool) (es : List EvidenceLink)
    → length (found_links (find p es)) ≤ count p es
find-count p [] = omega arith
find-count p (e ∷ es) = ground (arith, find-count p es)

mr_is_no_code : (e : EvidenceLink) → shows_mr e ≡ true → shows_code e ≡ false
mr_is_no_code e h = rw ((eq_iff e.kind "merge_request").0 h) refl

counts-disjoint : (es : List EvidenceLink) → count shows_code es + count shows_mr es ≤ length es
counts-disjoint [] = omega arith
counts-disjoint (e ∷ es) = ground (arith, counts-disjoint es, mr_is_no_code e)

-- The key links of a verdict are at most as many as its evidence, so the brief text counts the
-- links that it leaves out without going below none.
key_links-length : (v : Verdict) → length (key_links v) ≤ length v.evidence_chain
unfolding key_links
key_links-length v = ground (
  arith,
  length-append (found_links (find shows_code v.evidence_chain))
      (found_links (find shows_mr v.evidence_chain)),
  find-count shows_code v.evidence_chain,
  find-count shows_mr v.evidence_chain,
  counts-disjoint v.evidence_chain,
)

-- A verdict says "Not a BUG" exactly if its evidence suffices, its confidence is not low, none of
-- its causes is ours, and one of them is a customer's, a vendor's or the design's.
not_a_bug_iff :
    (v : Verdict)
    → (verdict_label v ≡ "Not a BUG") ↔ (
        (is_insufficient v.triage ≡ false)
        × (is_low v.confidence ≡ false)
        × (any is_ours v.cause_categories ≡ false)
        × (any is_theirs v.cause_categories ≡ true))
unfolding verdict_label
not_a_bug_iff v = (
  λ h. ground (arith, eq_iff "Needs review" "Not a BUG", eq_iff "Issue Accepted" "Not a BUG"),
  λ h. ground arith,
)
