-- ===== src/Agent/RoundTrip.antt =====
-- rca_agent/agent.py and rca_agent/schema.py: what a verdict keeps when it is read from its own dict.
use rca_claude_agent.Verdict.Schema.{
  Verdict, EvidenceLink, Confidence, high, medium, low, Triage, real_bug, config, environment,
  likely_duplicate, insufficient_evidence, CauseCategory, data_cause, infrastructure, third_party,
  user_side, ux, unknown,
}
use rca_claude_agent.Verdict.Schema.{code as code_cause}
use rca_claude_agent.Prelude.{
  append_assoc, ◌∙◌, false, arith, ◌||◌, ◌==◌, append-nil, ◌&&◌, refl, [], sym, ap, ◌++◌, not, some,
  ◌∷◌, String, all, ◌≡◌, true, map, Bool, List,
}
use rca_claude_agent.Agent.Parse.{
  or_unknown, parse_cause_categories, has_cause, triage_value, confidence_value, add_cause,
  cause_value, triage_of, confidence_of, add_causes, parse_links, cause_of, read_triage,
  read_confidence,
}
use rca_claude_agent.Agent.Verdicts.{link_dict, to_dict, verdict_of}

abbrev pub differs : CauseCategory → CauseCategory → Bool
differs c d = not (cause_value c == cause_value d)

-- no cause stands twice
abbrev pub are_distinct : List CauseCategory → Bool
are_distinct [] = true
are_distinct (c ∷ cs) = all (differs c) cs && are_distinct cs

read-confidence_value : (c : Confidence) → read_confidence (some (confidence_value c)) ≡ c
unfolding read_confidence confidence_of confidence_value
read-confidence_value high = refl
read-confidence_value medium = refl
read-confidence_value low = refl

read-triage_value : (t : Triage) → read_triage (some (triage_value t)) ≡ t
unfolding read_triage triage_of triage_value
read-triage_value real_bug = refl
read-triage_value config = refl
read-triage_value environment = refl
read-triage_value likely_duplicate = refl
read-triage_value insufficient_evidence = refl

cause_of-cause_value : (c : CauseCategory) → cause_of (cause_value c) ≡ some c
unfolding cause_of cause_value
cause_of-cause_value code_cause = refl
cause_of-cause_value data_cause = refl
cause_of-cause_value infrastructure = refl
cause_of-cause_value third_party = refl
cause_of-cause_value user_side = refl
cause_of-cause_value ux = refl
cause_of-cause_value unknown = refl

parse_links-link_dict : (es : List EvidenceLink) → parse_links (map link_dict es) ≡ es
unfolding parse_links
parse_links-link_dict [] = refl
parse_links-link_dict (e ∷ es) = ap (λ rest. e ∷ rest) (parse_links-link_dict es)

-- none of the causes to come was seen
abbrev are_new : List CauseCategory → List CauseCategory → Bool
are_new out cs = all (λ c. not (has_cause c out)) cs

has_cause-append :
    (x c : CauseCategory) (out : List CauseCategory)
    → has_cause x (out ++ c ∷ []) ≡ has_cause x out || (cause_value c == cause_value x)
unfolding has_cause
has_cause-append x c [] = ground arith
has_cause-append x c (d ∷ out) = ground (arith, has_cause-append x c out)

are_new_append :
    (c : CauseCategory) (out cs : List CauseCategory)
    → are_new out cs ≡ true
    → all (differs c) cs ≡ true
    → are_new (out ++ c ∷ []) cs ≡ true
are_new_append c out [] h k = refl
are_new_append c out (x ∷ cs) h k =
    ground (arith, has_cause-append x c out, are_new_append c out cs)

add_cause-fresh :
    (c : CauseCategory) (out : List CauseCategory)
    → has_cause c out ≡ false
    → add_cause out (cause_of (cause_value c)) ≡ out ++ c ∷ []
unfolding add_cause
add_cause-fresh c out h = rw cause_of-cause_value (rw h refl)

add_causes-distinct :
    (cs out : List CauseCategory)
    → are_new out cs ≡ true
    → are_distinct cs ≡ true
    → add_causes out (map cause_value cs) ≡ out ++ cs
unfolding add_causes
add_causes-distinct [] out new distinct = sym (append-nil out)
add_causes-distinct (c ∷ cs) out new distinct =
    let added : add_cause out (cause_of (cause_value c)) ≡ out ++ c ∷ [] =
      add_cause-fresh c out (ground arith) in
    ap (λ o. add_causes o (map cause_value cs)) added
    ∙ (add_causes-distinct cs (out ++ c ∷ [])
          (are_new_append c out cs (ground arith) (ground arith)) (ground arith)
        ∙ append_assoc out (c ∷ []) cs)

are_new_empty : (cs : List CauseCategory) → are_new [] cs ≡ true
unfolding has_cause
are_new_empty [] = refl
are_new_empty (c ∷ cs) = are_new_empty cs

-- Round trip: A verdict with at least one cause, and none twice, is read back from its own dict as it
-- was, save its blast radius, which `parse_verdict` drops.
pub verdict_of-to_dict :
    (v : Verdict) (c : CauseCategory) (cs : List CauseCategory) (ticket_key : String)
    → v.cause_categories ≡ c ∷ cs
    → are_distinct (c ∷ cs) ≡ true
    → verdict_of (to_dict v) ticket_key ≡ record v { blast_radius = [] }
unfolding verdict_of to_dict parse_cause_categories
verdict_of-to_dict v c cs ticket_key h distinct =
    let causes : parse_cause_categories (to_dict v) ≡ v.cause_categories =
      ap or_unknown (
        add_causes-distinct v.cause_categories [] (are_new_empty v.cause_categories)
          (rw h distinct))
      ∙ rw h refl in
    cc (
      causes,
      parse_links-link_dict v.evidence_chain,
      read-triage_value v.triage,
      read-confidence_value v.confidence,
    )
