-- ===== src/Fix/Splice.antt =====
-- rca_agent/fix_agent.py: what an edit does to a text.
use Prim.Native.Char.{Char}
use Prim.Native.String
use text.Mathlib.TextEquality.{starts_with_iff}
use rca_claude_agent.Fix.Edits.{found_in, replace_first, drop_chars, occurrences, apply_one}
use rca_claude_agent.Prelude.{
  inr, inl, ◌∙◌, Bool-cases, sym, suc, ◌⊎◌, arith, ap, false, ◌<◌, ◌<>◌, true, size, ◌==◌, ◌≡◌,
  starts_with, String,
}
use rca_claude_agent.Fix.Review.{apply_one_lem, apply_one_refused}

drop_chars-append : (t u : String) → drop_chars (size t) (t <> u) ≡ u
drop_chars-append String.[] u = Prim.Native.String.append.nil u
drop_chars-append (String.◌∷◌ c t) u =
    ap (drop_chars (suc (size t))) (Prim.Native.String.append.cons c t u) ∙ drop_chars-append t u

-- a text that starts with t is t and the rest
starts_with-splits : (s t : String) → starts_with s t ≡ true → t <> drop_chars (size t) s ≡ s
starts_with-splits s t h =
    let (u, e) = (starts_with_iff s t).0 h in
    ap (λ v. t <> v) (ap (drop_chars (size t)) (sym e) ∙ drop_chars-append t u) ∙ e

-- The new text is the old one with one occurrence of `before` replaced.
abbrev pub IsReplaced : (raw before after new : String) → Type 0
IsReplaced raw before after new =
    (pre : String) × ((post : String) × ((raw ≡ pre <> (before <> post))
        × (new ≡ pre <> (after <> post))))

IsReplaced-cons :
    (c : Char) (raw before after new : String)
    → IsReplaced raw before after new
    → IsReplaced (String.◌∷◌ c raw) before after (String.◌∷◌ c new)
IsReplaced-cons c raw before after new (pre, (post, (e, f))) = (
  String.◌∷◌ c pre,
  (
    post,
    (
      ap (λ s. String.◌∷◌ c s) e ∙ sym (Prim.Native.String.append.cons c pre (before <> post)),
      ap (λ s. String.◌∷◌ c s) f ∙ sym (Prim.Native.String.append.cons c pre (after <> post)),
    ),
  ),
)

replace_first_lem :
    (raw before after : String)
    → 0 < occurrences before 0 raw
    → IsReplaced raw before after (replace_first before after raw)
unfolding occurrences replace_first
replace_first_lem String.[] before after h = absurd (omega arith)
replace_first_lem (String.◌∷◌ c s) before after h =
    elim (Bool-cases (starts_with (String.◌∷◌ c s) before)) [
      | inl e ↦ rw e (
        String.[],
        (
          drop_chars (size before) (String.◌∷◌ c s),
          (
            sym (starts_with-splits (String.◌∷◌ c s) before e)
                ∙ sym (Prim.Native.String.append.nil _),
            sym (Prim.Native.String.append.nil _),
          ),
        ),
      )
      | inr e ↦
          rw e (IsReplaced-cons c s before after _ (replace_first_lem s before after (rw e at h)))
    ]

found_lem : (raw before : String) → found_in raw before ≡ 1 → 0 < occurrences before 0 raw
found_lem raw before h = ground arith

-- An edit is refused with an error and the text stays, or it is applied: the count of the snippet's
-- occurrences that do not overlap, the one Python's `count` gives, is one, and the new text is the old
-- one with one occurrence replaced, the text before and after it kept. A snippet that overlaps
-- itself may stand at a second place and is still counted once.
pub apply_one_splits :
    (raw before after : String)
    → let result = apply_one raw before after in
      (((result.1 == "") ≡ false) × (result.0 ≡ raw))
      ⊎ ((found_in raw before ≡ 1) × IsReplaced raw before after result.0)
apply_one_splits raw before after = elim (Bool-cases ((apply_one raw before after).1 == "")) [
  | inr e ↦ inl (e, apply_one_refused raw before after e)
  | inl e ↦
      let (once, new) = apply_one_lem raw before after e in
      inr (once, rw new (replace_first_lem raw before after (found_lem raw before once)))
]
