-- ===== src/Verdict/Trust.antt =====
-- rca_agent/verify.py: what the verification does to the confidence of a verdict.
use rca_claude_agent.Prelude.{
  ◌∙◌, ap, ltb, ◌∷◌, decimal, none, ◌<>◌, refl, some, false, count, List, Option, [], ℕ, not, arith,
  true, if◌then◌else◌, length, ◌≡◌, all, is_none, Bool, String,
}
use rca_claude_agent.Verdict.Verify.{
  passed_count, mostly_passed, parsed, check_blob, downgraded_confidence, verify_verdict,
  check_links, check_introducing, found_title, found_file, has_passed, check_mr, check_commit,
  check_file, CheckResult, Checks, check_link, record_check, Sources,
}
use rca_claude_agent.Verdict.Asked.{is_asked, verify_verdict-some_check}
use rca_claude_agent.Verdict.Score.{
  passes, failures, lowered, downgraded_confidence_lem, lowered_by,
}
use rca_claude_agent.Review.World.{raised, returned, Outcome}
use rca_claude_agent.Verdict.Schema.{Confidence, Verdict, EvidenceLink}

-- every result of the checks is `b`
abbrev all_are : Bool → Checks → Bool
all_are b cs = all (λ c. if b then has_passed c else not (has_passed c)) cs

record_check-all_are :
    (b : Bool) (ref : String) (r : CheckResult) (cs : Checks)
    → r.passed ≡ b
    → all_are b cs ≡ true
    → all_are b (record_check ref r cs) ≡ true
unfolding record_check
record_check-all_are b ref r [] e h = ground arith
record_check-all_are b ref r (c ∷ cs) e h = ground (arith, record_check-all_are b ref r cs e)

-- The sources answer every question alike: a clone, if there is one, has every file and GitLab
-- finds everything, or there is no clone and GitLab finds nothing.
abbrev pub AllAnswer : Bool → Sources → Type 0
AllAnswer b W =
    (is_none W.repos ≡ true)
    × ((proj ref path : String) → (found_file (W.get_file_lines proj ref path)).passed ≡ b)
    × ((what missing proj sha : String)
        → (found_title what missing (W.get_commit proj sha)).passed ≡ b)
    × ((what missing proj : String) (iid : ℕ)
        → (found_title what missing (W.get_merge_request proj iid)).passed ≡ b)

module _ (W : Sources) (b : Bool) (h : AllAnswer b W) where
  check_blob-all_are :
      (path : String) (parsed_url : Option (String × String × String)) (cs : Checks)
      → all_are b cs ≡ true
      → all_are b (check_blob W path parsed_url cs) ≡ true
  check_blob-all_are path none cs e = ground (arith, h)
  check_blob-all_are path (some (proj, ref, fpath)) cs e =
      record_check-all_are b path (found_file (W.get_file_lines proj ref fpath)) cs
        (h.1 proj ref fpath) e

  check_file-all_are :
      (ev : EvidenceLink) (cs : Checks) (seen : List ℕ)
      → all_are b cs ≡ true
      → all_are b (check_file W ev (cs, seen)).0 ≡ true
  unfolding check_file
  check_file-all_are ev cs seen e =
      ground (
        arith,
        h.0,
        check_blob-all_are (W.strip_line ev.ref) (parsed W W.parse_blob_url ev.url) cs e,
      )

  check_commit-all_are :
      (named : Option (String × String)) (cs : Checks) (seen : List ℕ)
      → all_are b cs ≡ true
      → all_are b (check_commit W named (cs, seen)).0 ≡ true
  unfolding check_commit
  check_commit-all_are none cs seen e = e
  check_commit-all_are (some (project, sha)) cs seen e =
      record_check-all_are b _ _ cs (h.2 _ _ project sha) e

  check_mr-all_are :
      (named : Option (String × ℕ)) (cs : Checks) (seen : List ℕ)
      → all_are b cs ≡ true
      → all_are b (check_mr W named (cs, seen)).0 ≡ true
  unfolding check_mr
  check_mr-all_are none cs seen e = e
  check_mr-all_are (some (project, iid)) cs seen e =
      record_check-all_are b _ _ cs (h.3 _ _ project iid) e

  check_introducing-all_are :
      (named : Option (String × ℕ)) (cs : Checks) (seen : List ℕ)
      → all_are b cs ≡ true
      → all_are b (check_introducing W named (cs, seen)) ≡ true
  unfolding check_introducing
  check_introducing-all_are none cs seen e = e
  check_introducing-all_are (some (project, iid)) cs seen e = ground (
    arith,
    record_check-all_are b ("!" <> decimal iid <> "(introducing)")
        (found_title "MR" "MR not found in GitLab" (W.get_merge_request project iid)) cs
        (h.3 _ _ project iid) e,
  )

  check_links-all_are :
      (evs : List EvidenceLink) (cs : Checks) (seen : List ℕ)
      → all_are b cs ≡ true
      → all_are b (check_links W evs (cs, seen)).0 ≡ true
  unfolding check_links check_link
  check_links-all_are [] cs seen e = e
  check_links-all_are (ev ∷ evs) cs seen e =
      let next = check_link W ev (cs, seen) in
      check_links-all_are evs next.0 next.1 (
        ground (
          arith,
          check_file-all_are ev cs seen e,
          check_commit-all_are (parsed W W.parse_commit_url ev.url) cs seen e,
          check_mr-all_are (parsed W W.parse_mr_url ev.url) cs seen e,
        ))

  verify_verdict-all_are : (v : Verdict) → all_are b (verify_verdict W v) ≡ true
  unfolding verify_verdict
  verify_verdict-all_are v =
      let st = check_links W v.evidence_chain ([], []) in
      check_introducing-all_are _ st.0 st.1 (check_links-all_are v.evidence_chain [] [] refl)

count-all_passed : (cs : Checks) → all_are true cs ≡ true → count has_passed cs ≡ length cs
count-all_passed [] h = refl
count-all_passed (c ∷ cs) h = ground (arith, count-all_passed cs)

count-none_passed : (cs : Checks) → all_are false cs ≡ true → count has_passed cs ≡ 0
count-none_passed [] h = refl
count-none_passed (c ∷ cs) h = ground (arith, count-none_passed cs)

-- If there is no clone and GitLab finds whatever it is asked for, the verification leaves the
-- confidence of every verdict as it is.
confidence_kept :
    (W : Sources) (v : Verdict)
    → AllAnswer true W
    → downgraded_confidence (verify_verdict W v) v.confidence ≡ v.confidence
unfolding downgraded_confidence mostly_passed passed_count
confidence_kept W v h =
    ground (arith, count-all_passed (verify_verdict W v) (verify_verdict-all_are W true h v))

-- GitLab gives no title: it finds nothing, or the call raises.
abbrev pub GivesNone : Outcome (Option String) → Type 0
GivesNone (returned none) = Unit
GivesNone (returned (some title)) = ⊥
GivesNone (raised type text) = Unit

abbrev pub Raises : Outcome (Unit {0}) → Type 0
Raises (returned u) = ⊥
Raises (raised type text) = Unit

-- There is no clone, and GitLab finds nothing.
abbrev pub FindsNothing : Sources → Type 0
FindsNothing W =
    (is_none W.repos ≡ true)
    × ((project ref path : String) → Raises (W.get_file_lines project ref path))
    × ((project sha : String) → GivesNone (W.get_commit project sha))
    × ((project : String) (iid : ℕ) → GivesNone (W.get_merge_request project iid))

GivesNone_lem :
    (what missing : String) (o : Outcome (Option String))
    → GivesNone o
    → (found_title what missing o).passed ≡ false
unfolding found_title
GivesNone_lem what missing (returned none) h = refl
GivesNone_lem what missing (returned (some title)) h = absurd h
GivesNone_lem what missing (raised type text) h = refl

Raises_lem : (o : Outcome (Unit {0})) → Raises o → (found_file o).passed ≡ false
unfolding found_file
Raises_lem (returned u) h = absurd h
Raises_lem (raised type text) h = refl

FindsNothing-AllAnswer : (W : Sources) → FindsNothing W → AllAnswer false W
FindsNothing-AllAnswer W (clone, file, commit, mr) = (
  clone,
  λ project ref path. Raises_lem _ (file project ref path),
  λ what missing project sha. GivesNone_lem what missing _ (commit project sha),
  λ what missing project iid. GivesNone_lem what missing _ (mr project iid),
)

-- The verification lowers a confidence exactly if more of its checks failed than passed: high to
-- medium, medium to low, and low stays. And if there is no clone and GitLab finds nothing or cannot
-- be reached, it lowers the confidence of exactly the verdicts with a claim that GitLab is asked
-- about: evidence whose address names a file, a commit or a merge request, as its kind says, or an
-- introducing merge request that is given by its address.
pub confidence_lost :
    (W : Sources) (v : Verdict)
    → FindsNothing W
    → ((checks : Checks) (c : Confidence)
        → downgraded_confidence checks c
          ≡ (if ltb (passes checks) (failures checks) then lowered c else c))
      × (downgraded_confidence (verify_verdict W v) v.confidence
          ≡ (if is_asked W v then lowered v.confidence else v.confidence))
confidence_lost W v h = (
  downgraded_confidence_lem,
  let cs = verify_verdict W v in
      let none_passed =
        count-none_passed cs (verify_verdict-all_are W false (FindsNothing-AllAnswer W h) v) in
      downgraded_confidence_lem cs v.confidence
      ∙ lowered_by cs v.confidence none_passed
      ∙ ap (λ b. if b then lowered v.confidence else v.confidence)
          (verify_verdict-some_check W v h.0),
)
