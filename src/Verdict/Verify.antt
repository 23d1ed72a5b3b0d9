-- ===== src/Verdict/Verify.antt =====
-- rca_agent/verify.py: the verification of a verdict's claims against the repositories and GitLab.
use rca_claude_agent.Prelude.{
  codes, ◌||◌, none, is_some, true, ◌=ℕ◌, map, ◌*◌, ◌==◌, some, any, false, length, leb, count,
  if◌then◌else◌, [], decimal, cut, Option, ◌<>◌, ℕ, ◌∷◌, List, Bool, String,
}
use rca_claude_agent.Verdict.Schema.{high, low, medium, EvidenceLink, Confidence, Verdict}
use rca_claude_agent.Review.World.{raised, returned, Outcome}
use rca_claude_agent.Verdict.Render.{join_lines}

pub record CheckResult : Type 0 where
  pub passed : Bool
  pub reason : String

-- `VerificationResult.checks`, a dict in the order of its keys
abbrev pub Checks : Type 0
Checks = List (String × CheckResult)

-- `checks[ref] = r`
unfoldable pub record_check : String → CheckResult → Checks → Checks
record_check ref r [] = (ref, r) ∷ []
record_check ref r (c ∷ cs) = if c.0 == ref then (ref, r) ∷ cs else c ∷ record_check ref r cs

-- `VerificationResult.passed` and `total`
abbrev pub has_passed : String × CheckResult → Bool
has_passed c = c.1.passed

unfoldable pub passed_count : Checks → ℕ
passed_count checks = count has_passed checks

-- `self.total == 0 or self.score >= 0.5`, without the division
unfoldable pub mostly_passed : Checks → Bool
unfolding passed_count
mostly_passed checks = leb (length checks) (2 * passed_count checks)

-- one step down `[HIGH, MEDIUM, LOW]`
unfoldable pub step_down : Confidence → Confidence
step_down high = medium
step_down medium = low
step_down low = low

-- `VerificationResult.downgraded_confidence`
unfoldable pub downgraded_confidence : Checks → Confidence → Confidence
unfolding mostly_passed step_down
downgraded_confidence checks c = if mostly_passed checks then c else step_down c

abbrev note_line : String × CheckResult → String
note_line c = "  " <> (if c.1.passed then "+" else "x") <> " " <> c.0 <> ": " <> c.1.reason

-- `VerificationResult.as_note`
unfoldable pub as_note : Checks → String
unfolding join_lines decimal passed_count
as_note [] = ""
as_note (c ∷ cs) = join_lines (
    ("[auto-verify] "
      <> decimal (passed_count (c ∷ cs))
      <> "/"
      <> decimal (length (c ∷ cs))
      <> " claims checked out")
    ∷ map note_line (c ∷ cs))

-- What the verification asks of the world: the file test in the clones, if REPOS_DIR names a
-- directory; the calls of the GitLab client, with the title of what they find; and what the regular
-- expressions of `_parse_commit_url`, `_parse_mr_url`, `_parse_blob_url` and `_strip_line` find.
pub record Sources : Type 0 where
  pub repos : Option (String → Bool)
  pub get_file_lines : String → String → String → Outcome (Unit {0})
  pub get_commit : String → String → Outcome (Option String)
  pub get_merge_request : String → ℕ → Outcome (Option String)
  pub parse_commit_url : String → Option (String × String)
  pub parse_mr_url : String → Option (String × ℕ)
  pub parse_blob_url : String → Option (String × String × String)
  pub strip_line : String → String

-- the checks, and the iids of the merge requests that were asked for
abbrev pub State : Type 0
State = Checks × List ℕ

abbrev pub asked : List ℕ → ℕ → Bool
asked [] n = false
asked (x ∷ xs) n = (x =ℕ n) || asked xs n

-- `"/" in mr`
abbrev pub has_slash : String → Bool
has_slash mr = any (λ c. c =ℕ 47) (codes mr)

-- the result of a lookup that finds a title, nothing, or raises
unfoldable pub found_title : String → String → Outcome (Option String) → CheckResult
unfolding cut
found_title what missing (returned (some title)) = record {
  passed = true;
  reason = what <> " found: " <> cut 60 title;
}
found_title what missing (returned none) = record { passed = false; reason = missing }
found_title what missing (raised name text) = record { passed = false; reason = cut 80 text }

unfoldable pub found_file : Outcome (Unit {0}) → CheckResult
unfolding cut
found_file (returned _) = record { passed = true; reason = "file exists in GitLab" }
found_file (raised name text) = record {
  passed = false;
  reason = "file not found in GitLab: " <> cut 60 text;
}

module _ (W : Sources) where
  -- `repos_dir and _file_exists_in_repos(path, repos_dir)`
  abbrev pub in_clone : String → Bool
  in_clone path = elim W.repos [ none ↦ false | some exists_in ↦ exists_in path ]

  -- `parse(ev.url) if ev.url else None`
  abbrev pub parsed {ℓ} : {A : Type ℓ} → (String → Option A) → String → Option A
  parsed parse url = if url == "" then none else parse url

  abbrev pub check_blob : String → Option (String × String × String) → Checks → Checks
  check_blob path (some (proj, ref, fpath)) cs =
      record_check path (found_file (W.get_file_lines proj ref fpath)) cs
  check_blob path none cs =
      if is_some W.repos
      then record_check path (record { passed = false; reason = "not found in any cloned repo" }) cs
      else cs

  unfoldable pub check_file : EvidenceLink → State → State
  unfolding record_check
  check_file ev (cs, seen) =
      let path = W.strip_line ev.ref in
      if in_clone path
      then (record_check path (record { passed = true; reason = "found in cloned repos" }) cs, seen)
      else (check_blob path (parsed W.parse_blob_url ev.url) cs, seen)

  unfoldable pub check_commit : Option (String × String) → State → State
  unfolding record_check found_title cut
  check_commit none st = st
  check_commit (some (project, sha)) (cs, seen) = (
    record_check (cut 8 sha)
        (found_title "commit" "commit SHA not found in GitLab" (W.get_commit project sha)) cs,
    seen,
  )

  unfoldable pub check_mr : Option (String × ℕ) → State → State
  unfolding record_check found_title decimal
  check_mr none st = st
  check_mr (some (project, iid)) (cs, seen) = (
    record_check ("!" <> decimal iid)
        (found_title "MR" "MR not found in GitLab" (W.get_merge_request project iid)) cs,
    iid ∷ seen,
  )

  -- one round of the loop over the evidence
  unfoldable pub check_link : EvidenceLink → State → State
  unfolding check_file check_commit check_mr
  check_link ev st =
      if (ev.kind == "file_content") || (ev.kind == "stack_frame")
      then check_file ev st
      else if (ev.kind == "commit") || (ev.kind == "blame")
      then check_commit (parsed W.parse_commit_url ev.url) st
      else if ev.kind == "merge_request"
      then check_mr (parsed W.parse_mr_url ev.url) st
      else st

  unfoldable pub check_links : List EvidenceLink → State → State
  unfolding check_link
  check_links [] st = st
  check_links (ev ∷ evs) st = check_links evs (check_link ev st)

  -- the introducing merge request, unless its iid was asked for
  unfoldable pub check_introducing : Option (String × ℕ) → State → Checks
  unfolding record_check found_title decimal
  check_introducing none st = st.0
  check_introducing (some (project, iid)) (cs, seen) =
      if asked seen iid
      then cs
      else record_check ("!" <> decimal iid <> "(introducing)")
          (found_title "MR" "MR not found in GitLab" (W.get_merge_request project iid)) cs

  -- `_parse_mr_url(mr)` if it names one and has a slash
  abbrev pub introducing : Option String → Option (String × ℕ)
  introducing none = none
  introducing (some mr) = if has_slash mr then W.parse_mr_url mr else none

  unfoldable pub verify_verdict : Verdict → Checks
  unfolding check_links check_introducing
  verify_verdict v =
      check_introducing (introducing v.introducing_mr) (check_links v.evidence_chain ([], []))
