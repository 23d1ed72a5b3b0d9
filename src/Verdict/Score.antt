-- ===== src/Verdict/Score.antt =====
-- rca_agent/verify.py: `VerificationResult.downgraded_confidence`, by the numbers of checks that passed
-- and that failed.
use rca_claude_agent.Prelude.{
  ◌+◌, ltb, suc, ◌∷◌, refl, count, [], ℕ, arith, if◌then◌else◌, length, ◌≡◌,
}
use rca_claude_agent.Verdict.Verify.{
  step_down, passed_count, mostly_passed, downgraded_confidence, has_passed, Checks,
}
use rca_claude_agent.Verdict.Asked.{some_check}
use rca_claude_agent.Verdict.Schema.{high, medium, low, Confidence}

-- how many checks passed, and how many did not
abbrev pub passes : Checks → ℕ
passes [] = 0
passes (c ∷ cs) = if c.1.passed then suc (passes cs) else passes cs

abbrev pub failures : Checks → ℕ
failures [] = 0
failures (c ∷ cs) = if c.1.passed then failures cs else suc (failures cs)

-- the confidence below
abbrev pub lowered : Confidence → Confidence
lowered high = medium
lowered medium = low
lowered low = low

counts_lem :
    (cs : Checks) → (count has_passed cs ≡ passes cs) × (passes cs + failures cs ≡ length cs)
counts_lem [] = (refl, refl)
counts_lem (c ∷ cs) = let (p, n) = counts_lem cs in (ground arith, ground arith)

step_down_lem : (c : Confidence) → step_down c ≡ lowered c
unfolding step_down
step_down_lem high = refl
step_down_lem medium = refl
step_down_lem low = refl

pub downgraded_confidence_lem :
    (checks : Checks) (c : Confidence)
    → downgraded_confidence checks c
      ≡ (if ltb (passes checks) (failures checks) then lowered c else c)
unfolding downgraded_confidence mostly_passed passed_count
downgraded_confidence_lem checks c =
    let (p, n) = counts_lem checks in ground (arith, step_down_lem c)

pub lowered_by :
    (cs : Checks) (c : Confidence)
    → count has_passed cs ≡ 0
    → (if ltb (passes cs) (failures cs) then lowered c else c)
      ≡ (if some_check cs then lowered c else c)
lowered_by [] c h = refl
lowered_by (x ∷ cs) c h = let (p, n) = counts_lem (x ∷ cs) in ground arith
