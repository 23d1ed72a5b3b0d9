-- ===== src/Verdict/Asked.antt =====
-- rca_agent/verify.py: which verdicts have a claim that the verification asks GitLab about, said of the
-- verdict and not of the checks.
use rca_claude_agent.Prelude.{
  codes, ◌||◌, ◌&&◌, none, is_some, is_none, true, false, ◌=ℕ◌, ◌==◌, some, any, not, arith,
  Bool-cases, inl, inr, if◌then◌else◌, [], decimal, Option, ◌<>◌, ℕ, ◌∷◌, List, Bool, String, ◌≡◌,
  refl,
}
use rca_claude_agent.Verdict.Schema.{EvidenceLink, Verdict}
use rca_claude_agent.Verdict.Verify.{
  Sources, Checks, CheckResult, State, record_check, check_file, check_commit, check_mr, check_link,
  check_links, check_introducing, verify_verdict, introducing, parsed, found_file, found_title,
  check_blob,
}

-- an address that is given, and that names something
abbrev names {ℓ} : {A : Type ℓ} → (String → Option A) → String → Bool
names parse url = not (url == "") && is_some (parse url)

-- a piece of evidence names a file, a commit or a merge request of GitLab, according to its kind
abbrev asks : Sources → EvidenceLink → Bool
asks W ev =
    if (ev.kind == "file_content") || (ev.kind == "stack_frame")
    then names W.parse_blob_url ev.url
    else if (ev.kind == "commit") || (ev.kind == "blame")
    then names W.parse_commit_url ev.url
    else if ev.kind == "merge_request"
    then names W.parse_mr_url ev.url
    else false

abbrev asks_any : Sources → List EvidenceLink → Bool
asks_any W [] = false
asks_any W (ev ∷ evs) = asks W ev || asks_any W evs

-- the introducing merge request is given by its address
abbrev names_mr : Sources → Option String → Bool
names_mr W none = false
names_mr W (some mr) = any (λ c. c =ℕ b'/') (codes mr) && is_some (W.parse_mr_url mr)

-- the verdict has a claim to ask GitLab about
abbrev pub is_asked : Sources → Verdict → Bool
is_asked W v = asks_any W v.evidence_chain || names_mr W v.introducing_mr

-- there is a check
abbrev pub some_check : Checks → Bool
some_check [] = false
some_check (c ∷ cs) = true

abbrev is_nil : List ℕ → Bool
is_nil [] = true
is_nil (n ∷ ns) = false

-- a merge request that was asked for has a check
abbrev covers : State → Bool
covers (cs, seen) = some_check cs || is_nil seen

record_check-some_check :
    (ref : String) (r : CheckResult) (cs : Checks) → some_check (record_check ref r cs) ≡ true
unfolding record_check
record_check-some_check ref r [] = refl
record_check-some_check ref r (c ∷ cs) = ground arith

-- a round that makes a check if `b`, and keeps those that were made
abbrev IsRound : State → Bool → State → Type 0
IsRound st b st' =
    (some_check st'.0 ≡ (some_check st.0 || b)) × (covers st ≡ true → covers st' ≡ true)

recorded-IsRound :
    (ref : String) (r : CheckResult) (cs : Checks) (seen seen' : List ℕ)
    → IsRound (cs, seen) true (record_check ref r cs, seen')
recorded-IsRound ref r cs seen seen' =
    let e = record_check-some_check ref r cs in (ground arith, λ c. ground arith)

skipped-IsRound : (st : State) → IsRound st false st
skipped-IsRound st = (ground arith, λ c. c)

if-IsRound :
    (b x y : Bool) (st stx sty : State)
    → IsRound st x stx
    → IsRound st y sty
    → IsRound st (if b then x else y) (if b then stx else sty)
if-IsRound true x y st stx sty hx hy = hx
if-IsRound false x y st stx sty hx hy = hy

module _ (W : Sources) where
  names_lem :
      {A : Type 0} (parse : String → Option A) (url : String)
      → is_some (parsed W parse url) ≡ names parse url
  names_lem parse url = elim (Bool-cases (url == "")) [ inl e ↦ rw e refl | inr e ↦ rw e refl ]

  file-IsRound :
      (path : String) (o : Option (String × String × String)) (cs : Checks) (seen : List ℕ)
      → is_none W.repos ≡ true
      → IsRound (cs, seen) (is_some o) (check_blob W path o cs, seen)
  file-IsRound path none cs seen h = (ground arith, λ c. ground arith)
  file-IsRound path (some (proj, ref, fpath)) cs seen h =
      let e = record_check-some_check path (found_file (W.get_file_lines proj ref fpath)) cs in
      (ground arith, λ c. ground arith)

  check_file-IsRound :
      (ev : EvidenceLink) (st : State)
      → is_none W.repos ≡ true
      → IsRound st (is_some (parsed W W.parse_blob_url ev.url)) (check_file W ev st)
  unfolding check_file
  check_file-IsRound ev (cs, seen) h =
      let r = file-IsRound (W.strip_line ev.ref) (parsed W W.parse_blob_url ev.url) cs seen h in
      (ground arith, λ c. let k = r.1 c in ground arith)

  check_commit-IsRound :
      (o : Option (String × String)) (st : State) → IsRound st (is_some o) (check_commit W o st)
  unfolding check_commit
  check_commit-IsRound none st = (ground arith, λ c. c)
  check_commit-IsRound (some (project, sha)) (cs, seen) = recorded-IsRound _ _ cs _ _

  check_mr-IsRound :
      (o : Option (String × ℕ)) (st : State) → IsRound st (is_some o) (check_mr W o st)
  unfolding check_mr
  check_mr-IsRound none st = (ground arith, λ c. c)
  check_mr-IsRound (some (project, iid)) (cs, seen) = recorded-IsRound _ _ cs seen (iid ∷ seen)

  check_link-IsRound :
      (ev : EvidenceLink) (st : State)
      → is_none W.repos ≡ true
      → IsRound st (asks W ev) (check_link W ev st)
  unfolding check_link
  check_link-IsRound ev st h =
      let file : IsRound st (names W.parse_blob_url ev.url) (check_file W ev st) =
        rw (← names_lem W.parse_blob_url ev.url) (check_file-IsRound ev st h) in
      let commit : IsRound st (names W.parse_commit_url ev.url)
          (check_commit W (parsed W W.parse_commit_url ev.url) st) =
        rw (← names_lem W.parse_commit_url ev.url) (check_commit-IsRound _ st) in
      let mr : IsRound st (names W.parse_mr_url ev.url)
          (check_mr W (parsed W W.parse_mr_url ev.url) st) =
        rw (← names_lem W.parse_mr_url ev.url) (check_mr-IsRound _ st) in
      if-IsRound ((ev.kind == "file_content") || (ev.kind == "stack_frame")) _ _ st _ _ file (
        if-IsRound ((ev.kind == "commit") || (ev.kind == "blame")) _ _ st _ _ commit
          (if-IsRound (ev.kind == "merge_request") _ _ st _ _ mr (skipped-IsRound st)))

  check_links-IsRound :
      (evs : List EvidenceLink) (st : State)
      → is_none W.repos ≡ true
      → IsRound st (asks_any W evs) (check_links W evs st)
  unfolding check_links
  check_links-IsRound [] st h = skipped-IsRound st
  check_links-IsRound (ev ∷ evs) st h =
      let (a, b) = check_link-IsRound ev st h in
      let (c, d) = check_links-IsRound evs (check_link W ev st) h in (ground arith, λ k. d (b k))

  introducing_lem : (o : Option String) → is_some (introducing W o) ≡ names_mr W o
  introducing_lem none = refl
  introducing_lem (some mr) = ground arith

  check_introducing-some_check :
      (o : Option (String × ℕ)) (st : State)
      → covers st ≡ true
      → some_check (check_introducing W o st) ≡ (some_check st.0 || is_some o)
  unfolding check_introducing
  check_introducing-some_check none st h = ground arith
  check_introducing-some_check (some (project, iid)) (cs, []) h = (recorded-IsRound _ _ cs [] []).0
  check_introducing-some_check (some (project, iid)) (cs, n ∷ seen) h = ground (
    arith,
    record_check-some_check ("!" <> decimal iid <> "(introducing)")
        (found_title "MR" "MR not found in GitLab" (W.get_merge_request project iid)) cs,
  )

  -- without a clone there is a check exactly for a verdict with a claim to ask about
  pub verify_verdict-some_check :
      (v : Verdict) → is_none W.repos ≡ true → some_check (verify_verdict W v) ≡ is_asked W v
  unfolding verify_verdict
  verify_verdict-some_check v h =
      let (a, b) = check_links-IsRound v.evidence_chain ([], []) h in
      let last =
        check_introducing-some_check (introducing W v.introducing_mr)
          (check_links W v.evidence_chain ([], [])) (b refl) in
      ground (arith, introducing_lem v.introducing_mr)
