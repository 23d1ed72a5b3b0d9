-- ===== src/Autorun/Eligible.antt =====
-- webapp/autorun.py: what `is_eligible` decides, said without its tests.
use rca_claude_agent.Prelude.{
  false≢true, eq_iff, Has, ◌≢◌, ◌==◌, Bool-cases, sym, ap, ◌∙◌, ◌≤◌, refl, inr, inl, ◌⊎◌, arith,
  starts_with, truthy, ◌↔◌, none, ◌≡◌, [], contains, some, true, ◌∷◌, false, Option, List, String,
  ℕ,
}
use rca_claude_agent.Store.Row.{is_pending, Row, Status}
use rca_claude_agent.Autorun.Settings.{Settings}
use rca_claude_agent.Autorun.Rules.{
  is_eligible, eligible, row_bars, from_watermark, is_closed, one_of, Issue,
}

-- What makes a ticket eligible. Of the ticket itself: it is of the project AUT, of an allowed type, and
-- not closed.
abbrev pub IsOpenTicket : Issue → List String → Type 0
IsOpenTicket i allowed =
    (starts_with i.key "AUT-" ≡ true)
    × ((t : String) × (i.issue_type ≡ some t) × Has (λ a. a ≡ t) allowed)
    × (i.status_category ≢ some "done")

-- Of its time: the watermark and the time are known, and the time is not before the watermark.
abbrev pub IsFrom : Option ℕ → Option ℕ → Type 0
IsFrom watermark created = (e : ℕ) × (c : ℕ) × (watermark ≡ some e) × (created ≡ some c) × (e ≤ c)

-- Of the store: it has no row, or one that never had an automatic run, holds no verdict and is pending.
abbrev pub IsUntouched : Option Row → Type 0
IsUntouched row =
    (row ≡ none)
    ⊎ ((r : Row) × (row ≡ some r)
        × (r.auto_run_at ≡ none)
        × ((r.bot_rca_json ≡ none) ⊎ (r.bot_rca_json ≡ some ""))
        × (r.status ≡ Status.pending))

contains-Has :
    (names : List String) (t : String) → (contains names t ≡ true) ↔ Has (λ a. a ≡ t) names
contains-Has [] t = (λ h. ground arith, λ h. absurd h)
contains-Has (x ∷ xs) t =
    let rest = contains-Has xs t in
    (
      λ h. elim (Bool-cases (x == t)) [
        | inl e ↦ inl ((eq_iff x t).0 e)
        | inr e ↦ inr (rest.0 (ground arith))
      ],
      λ h. elim h [ inl e ↦ ground (arith, eq_iff x t) | inr m ↦ let k = rest.1 m in ground arith ],
    )

one_of_iff :
    (names : List String) (o : Option String)
    → (one_of names o ≡ true) ↔ ((t : String) × (o ≡ some t) × Has (λ a. a ≡ t) names)
one_of_iff names none = (λ h. ground arith, λ (t, e, m). ground arith)
one_of_iff names (some s) = (
  λ h. (s, refl, (contains-Has names s).0 h),
  λ (t, e, m). let k = (contains-Has names t).1 m in ground arith,
)

is_closed_iff : (i : Issue) → (is_closed i ≡ false) ↔ (i.status_category ≢ some "done")
is_closed_iff i = (
  λ h e.
      let k = (one_of_iff ("done" ∷ []) i.status_category).1 ("done", e, inl refl) in ground arith,
  λ h. elim (Bool-cases (is_closed i)) [
    | inl e ↦
        let (t, q, m) = (one_of_iff ("done" ∷ []) i.status_category).0 e in
        elim m [ inl d ↦ absurd (h (q ∙ ap some (sym d))) | inr n ↦ absurd n ]
    | inr e ↦ e
  ],
)

from_watermark_iff :
    (watermark created : Option ℕ)
    → (from_watermark watermark created ≡ true) ↔ IsFrom watermark created
from_watermark_iff none created = (λ h. ground arith, λ (e, c, p, q, le). ground arith)
from_watermark_iff (some e) none = (λ h. ground arith, λ (e, c, p, q, le). ground arith)
from_watermark_iff (some e) (some c) =
    (λ h. (e, c, refl, refl, ground arith), λ (e', c', p, q, le). ground arith)

not_truthy_iff : (o : Option String) → (truthy o ≡ false) ↔ ((o ≡ none) ⊎ (o ≡ some ""))
not_truthy_iff none = (λ h. inl refl, λ h. refl)
not_truthy_iff (some s) = (
  λ h. inr (ap some ((eq_iff s "").0 (ground arith))),
  λ h. elim h [ inl e ↦ ground arith | inr e ↦ ground (arith, eq_iff s "") ],
)

is_pending_lem : (s : Status) → is_pending s ≡ true → s ≡ Status.pending
is_pending_lem Status.pending h = refl
is_pending_lem _ h = absurd (false≢true h)

row_bars_iff : (row : Option Row) → (row_bars row ≡ false) ↔ IsUntouched row
unfolding row_bars
row_bars_iff none = (λ h. inl refl, λ h. refl)
row_bars_iff (some r) = (
  λ h. inr (
    r,
    refl,
    ground arith,
    (not_truthy_iff r.bot_rca_json).0 (ground arith),
    is_pending_lem r.status (ground arith),
  ),
  λ h. elim h [
    | inl e ↦ ground arith
    | inr (r', q, stamp, verdict, status) ↦
        let v = (not_truthy_iff r'.bot_rca_json).1 verdict in ground arith
  ],
)

module _ (is_qa_env : Issue → Settings → Option String) where
  is_eligible_tests :
      (i : Issue) (s : Settings) (row : Option Row)
      → (is_eligible is_qa_env i s row ≡ eligible) ↔ (
          (starts_with i.key "AUT-" ≡ true)
          × (one_of s.allowed_types i.issue_type ≡ true)
          × (is_closed i ≡ false)
          × (from_watermark s.enabled_at i.created ≡ true)
          × (row_bars row ≡ false)
          × (is_qa_env i s ≡ none))
  unfolding is_eligible
  is_eligible_tests i s row = elim (is_qa_env i s) [
    | none ↦ (λ h. ground arith, λ h. ground arith)
    | some w ↦ (λ h. ground arith, λ h. ground arith)
  ]

  -- A ticket is eligible exactly if all of these hold: its key starts with "AUT-"; it has a type, one
  -- of the allowed types; its status category is not "done"; the switch has a watermark and the
  -- ticket a creation time, not before it; the store has no row for it, or one without the stamp of
  -- an automatic run, with no verdict or an empty one, whose status is pending; and the test for
  -- the environment finds no sign of a test environment.
  pub is_eligible_iff :
      (i : Issue) (s : Settings) (row : Option Row)
      → (is_eligible is_qa_env i s row ≡ eligible) ↔ (
          IsOpenTicket i s.allowed_types
          × IsFrom s.enabled_at i.created
          × IsUntouched row
          × (is_qa_env i s ≡ none))
  is_eligible_iff i s row =
      let ty = one_of_iff s.allowed_types i.issue_type in
      let unclosed = is_closed_iff i in
      let date = from_watermark_iff s.enabled_at i.created in
      let stored = row_bars_iff row in
      let tests = is_eligible_tests i s row in
      (
        λ h.
            let (k, t, c, d, r, q) = tests.0 h in
            ((k, ty.0 t, unclosed.0 c), date.0 d, stored.0 r, q),
        λ ((k, t, c), d, r, q). tests.1 (k, ty.1 t, unclosed.1 c, date.1 d, stored.1 r, q),
      )
