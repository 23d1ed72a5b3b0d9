-- ===== src/Fix/Fresh.antt =====
-- rca_agent/fix_agent.py: the files of a suggestion against what GitLab has.
use rca_claude_agent.Verdict.Schema.{Verdict}
use rca_claude_agent.Review.World.{Outcome, returned, raised}
use rca_claude_agent.Fix.Answer.{is_cons, caveats, candidate_projects, parse_json}
use rca_claude_agent.Prelude.{
  eq_iff, if◌then◌else◌, take, arith, Bool, ◌&&◌, ◌==◌, refl, inr, Bool-cases, none, ◌∷◌, true,
  false,
}
use rca_claude_agent.Fix.Suggest.{
  no_fix, explore, places, max_edit_files, explored_answer, with_project, or_no_edits, read_at,
  keep_text, from_answer, fetch_files, suggest, FixWorld,
}
use rca_claude_agent.Fix.Build.{
  group_edits, not_fetched, checked, fetched_at, Fetched, build_files, build_file, FileFix, Place,
  FixSuggestion,
}
use rca_claude_agent.Prelude.{inl, ◌⊎◌, some, ◌≡◌, map, Option, [], keep, String, Each, List}
use rca_claude_agent.Fix.Edits.{reapply, Proposed}
use rca_claude_agent.Fix.Answer.{FixAnswer}
use rca_claude_agent.Fix.Review.{build_file-reapply, is_applied}
use rca_claude_agent.Fix.Prompt.{fix_prompt}

-- The text and its ref are what GitLab gives for the place, at the project's default ref.
abbrev pub IsCurrent : FixWorld → Place → String → String → Type 0
IsCurrent W k ref raw = (W.default_ref k.0 ≡ returned ref) × (W.get_file k.0 ref k.1 ≡ returned raw)

-- Either no edit of the file is marked as applied, or its ref and what the reviewer sees of it are of
-- a text that GitLab has, and its applied edits can be replayed on that text with no error and with
-- the result whose diff and syntax the reviewer sees.
abbrev pub IsFresh : FixWorld → FileFix → Type 0
IsFresh W f =
    (keep is_applied f.edits ≡ [])
    ⊎ ((ref : String) × ((raw : String) × (IsCurrent W (f.project, f.file) ref raw
            × ((f.ref ≡ ref)
                × (((reapply raw (keep is_applied f.edits)).1 ≡ [])
                    × ((f.diff, (f.syntax_ok, f.syntax_note))
                        ≡ checked W.python f.file raw
                            (reapply raw (keep is_applied f.edits)).0))))))

-- the files of what is returned; a raised exception has none
abbrev pub files_of : Outcome FixSuggestion → List FileFix
files_of (returned s) = s.files
files_of (raised type text) = []

not_fetched-none : (es : List Proposed) → keep is_applied (map not_fetched es) ≡ []
not_fetched-none [] = refl
not_fetched-none (e ∷ es) = not_fetched-none es

module _ (W : FixWorld) where
  keep_text_lem :
      (j k : Place) (at ref raw : String) (o : Outcome String) (rest : Fetched)
      → W.default_ref j.0 ≡ returned at
      → W.get_file j.0 at j.1 ≡ o
      → (fetched_at k rest ≡ some (ref, raw) → IsCurrent W k ref raw)
      → fetched_at k (keep_text j at o rest) ≡ some (ref, raw)
      → IsCurrent W k ref raw
  keep_text_lem j k at ref raw (raised type text) rest d g ih h = ih h
  keep_text_lem (jp, jf) (kp, kf) at ref raw (returned t) rest d g ih h =
      elim (Bool-cases ((jp == kp) && (jf == kf))) [
        | inr e ↦ ih (simp e at h)
        | inl e ↦ grind (arith, eq_iff jp kp, eq_iff jf kf)
      ]

  read_at_lem :
      (j k : Place) (ref raw : String) (o : Outcome String) (rest : Fetched)
      → W.default_ref j.0 ≡ o
      → (fetched_at k rest ≡ some (ref, raw) → IsCurrent W k ref raw)
      → fetched_at k (read_at W j o rest) ≡ some (ref, raw)
      → IsCurrent W k ref raw
  read_at_lem j k ref raw (raised type text) rest d ih h = ih h
  read_at_lem j k ref raw (returned at) rest d ih h =
      keep_text_lem j k at ref raw (W.get_file j.0 at j.1) rest d refl ih h

  fetch_files_lem :
      (ks : List Place) (k : Place) (ref raw : String)
      → fetched_at k (fetch_files W ks) ≡ some (ref, raw)
      → IsCurrent W k ref raw
  unfolding fetch_files
  fetch_files_lem [] k ref raw h = cc
  fetch_files_lem (j ∷ ks) k ref raw h = elim (Bool-cases (j.0 == "")) [
    | inl e ↦ fetch_files_lem ks k ref raw (simp e at h)
    | inr e ↦
        read_at_lem j k ref raw (W.default_ref j.0) (fetch_files W ks) refl
          (fetch_files_lem ks k ref raw) (simp e at h)
  ]

  build_file-IsFresh :
      (k : Place) (es : List Proposed) (o : Option (String × String))
      → ((ref raw : String) → o ≡ some (ref, raw) → IsCurrent W k ref raw)
      → IsFresh W (build_file W.python k o es)
  unfolding build_file
  build_file-IsFresh (project, path) es none h = inl (not_fetched-none es)
  build_file-IsFresh (project, path) es (some (ref, raw)) h =
      let replay = build_file-reapply W.python (project, path) ref raw es in
      inr (ref, (raw, (h ref raw refl, (refl, replay))))

  groups-IsFresh :
      (ks : List Place) (groups : List (Place × List Proposed))
      → Each
          (IsFresh W)
          (map (λ g. build_file W.python g.0 (fetched_at g.0 (fetch_files W ks)) g.1) groups)
  groups-IsFresh ks [] = tt
  groups-IsFresh ks ((k, es) ∷ groups) = (
    build_file-IsFresh k es (fetched_at k (fetch_files W ks)) (fetch_files_lem ks k),
    groups-IsFresh ks groups,
  )

  or_no_edits-IsFresh :
      (answer : FixAnswer) (cs : List String) (fs : List FileFix)
      → Each (IsFresh W) fs
      → Each (IsFresh W) (or_no_edits answer cs fs).files
  or_no_edits-IsFresh answer cs [] h = tt
  or_no_edits-IsFresh answer cs (f ∷ fs) h = h

  from_answer-IsFresh :
      (candidates cs : List String) (o : Option FixAnswer)
      → Each (IsFresh W) (from_answer W candidates cs o).files
  unfolding from_answer build_files
  from_answer-IsFresh candidates cs none = tt
  from_answer-IsFresh candidates cs (some answer) =
      elim answer.fixable
        as (λ b.
          Each (IsFresh W)
            (from_answer W candidates cs (some (record answer { fixable = b }))).files) [
              | true ↦
                  let edits = map (with_project candidates) answer.edits in
                  or_no_edits-IsFresh answer cs _
                    (groups-IsFresh (take max_edit_files (places [] edits)) (group_edits [] edits))
              | false ↦ tt
            ]

  explored_answer-IsFresh :
      (candidates cs : List String) (o : Outcome String)
      → Each (IsFresh W) (files_of (explored_answer W candidates cs o))
  unfolding from_answer parse_json
  explored_answer-IsFresh candidates cs (raised type text) = tt
  explored_answer-IsFresh candidates cs (returned text) =
      from_answer-IsFresh candidates cs (parse_json W.loads text)

  if_files :
      (b : Bool) (x y : Outcome FixSuggestion)
      → Each (IsFresh W) (files_of x)
      → Each (IsFresh W) (files_of y)
      → Each (IsFresh W) (files_of (if b then x else y))
  if_files true x y hx hy = hx
  if_files false x y hx hy = hy

-- Round trip: Whatever the model answers, each file that `suggest_fix` returns has no edit marked as
-- applied, or can be committed as it was reviewed: its ref is the project's default, GitLab has a
-- text for it there, and replaying the applied edits on that text meets no error and gives the
-- very text whose diff and syntax check the reviewer sees.
pub suggest-reapply : (W : FixWorld) (v : Verdict) → Each (IsFresh W) (files_of (suggest W v))
unfolding suggest
suggest-reapply W v =
    let found = candidate_projects W.parse_blob_url [] v.evidence_chain in
    let run = explore "" (W.messages (fix_prompt W.parse_blob_url v found)) in
    if_files W (is_cons found) (explored_answer W found (caveats v true) run)
      (returned (no_fix _ _)) (explored_answer-IsFresh W found (caveats v true) run) tt
