-- ===== src/Verdict/Tests.antt =====
-- The verification and the texts of a verdict, and the theorems of Verdict at it.
use rca_claude_agent.Verdict.Samples.{fault, gitlab}
use rca_claude_agent.Verdict.Verify.{
  Checks, CheckResult, record_check, check_introducing, check_mr, check_commit, check_file,
  check_link, found_title, check_links, downgraded_confidence, found_file, verify_verdict,
}
use rca_claude_agent.Verdict.Render.{head_lines, brief_lines, join_lines, render_verdict}
use rca_claude_agent.Prelude.{
  ltb, String, [], map, ◌∷◌, cut, decimal, refl, if◌then◌else◌, ◌≡◌, false, true, length,
}
use rca_claude_agent.Verdict.Schema.{
  regression_str, triage_words, plain_status, Confidence, key_links,
}
use rca_claude_agent.Verdict.Trust.{confidence_lost, AllAnswer, FindsNothing}
use rca_claude_agent.Verdict.Score.{passes, failures, lowered}
use rca_claude_agent.Verdict.Adf.{verdict_to_adf}

outage_checks :
    map (λ (c : String × CheckResult). c.0) (verify_verdict (gitlab false) fault) ≡ "!12" ∷ []
unfolding verify_verdict check_links check_link check_file check_commit check_mr check_introducing
    record_check found_title decimal cut
outage_checks = refl

brief_text :
    render_verdict fault true
    ≡ "=== RCA: AUT-1 ===\nThe invoice total counts tax twice since !12\nConfidence HIGH · Real bug · Started after a recent change: yes (!12)\n\nKey links:\n  - tax.py:8\n  - !12  mr-12"
unfolding render_verdict join_lines brief_lines head_lines plain_status triage_words regression_str
    key_links
brief_text = refl

all_found : AllAnswer true (gitlab true)
unfolding found_file found_title
all_found =
    (refl, λ proj ref path. refl, λ what missing proj sha. refl, λ what missing proj iid. refl)

none_found : FindsNothing (gitlab false)
none_found = (refl, λ project ref path. tt, λ project sha. tt, λ project iid. tt)

confidence_lost_example :
    ((checks : Checks) (c : Confidence)
      → downgraded_confidence checks c
        ≡ (if ltb (passes checks) (failures checks) then lowered c else c))
    × (downgraded_confidence (verify_verdict (gitlab false) fault) Confidence.high
        ≡ Confidence.medium)
confidence_lost_example = confidence_lost (gitlab false) fault none_found

-- the first paragraph is the disclaimer, and the trail is collapsed
adf_length : length (verdict_to_adf fault) ≡ 6
unfolding verdict_to_adf
adf_length = refl
