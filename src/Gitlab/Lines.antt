-- ===== src/Gitlab/Lines.antt =====
-- rca_agent/gitlab_client.py: the lines of `get_file_lines` and of `blame_line`.
use rca_claude_agent.Gitlab.Server.{get_json, CommitJson, Server, Span}
use rca_claude_agent.Review.World.{returned}
use rca_claude_agent.Prelude.{
  map, sym, false, inr, inl, true, ◌∙◌, Bool-cases, ltb, ap, refl, Each, arith, zero, ◌+◌, min, ◌-◌,
  some, max, ◌≡◌, length, ◌++◌, ◌∷◌, suc, none, String, ◌≤◌, ◌<◌, [], Option, List, ℕ,
}
use rca_claude_agent.Gitlab.Commits.{rows_of, enriched, blame_path, blamed, blame_line, span_at}
use rca_claude_agent.Gitlab.Reads.{
  split_lines, get_file, slice_of, get_file_lines, line_at, numbered,
}

-- `xs[i]`, if there is one
abbrev pub get_elem? {ℓ} : {A : Type ℓ} → List A → ℕ → Option A
get_elem? [] i = none
get_elem? (x ∷ xs) zero = some x
get_elem? (x ∷ xs) (suc i) = get_elem? xs i

abbrev pub repeated {ℓ} : {A : Type ℓ} → ℕ → A → List A
repeated zero x = []
repeated (suc n) x = x ∷ repeated n x

-- the commit of each line of the file, from the first
abbrev pub owners : List Span → List CommitJson
owners [] = []
owners (s ∷ spans) = repeated s.lines s.commit ++ owners spans

module _ {A : Type 0} where
  get_elem?-in_repeated :
      (n i : ℕ) (x : A) (xs : List A) → i < n → get_elem? (repeated n x ++ xs) i ≡ some x
  get_elem?-in_repeated zero i x xs h = absurd (omega arith)
  get_elem?-in_repeated (suc n) zero x xs h = refl
  get_elem?-in_repeated (suc n) (suc i) x xs h = get_elem?-in_repeated n i x xs (omega arith)

  get_elem?-past_repeated :
      (n i : ℕ) (x : A) (xs : List A)
      → n ≤ i
      → get_elem? (repeated n x ++ xs) i ≡ get_elem? xs (i - n)
  get_elem?-past_repeated zero i x xs h = ap (get_elem? xs) (omega arith)
  get_elem?-past_repeated (suc n) zero x xs h = absurd (omega arith)
  get_elem?-past_repeated (suc n) (suc i) x xs h =
      get_elem?-past_repeated n i x xs (omega arith) ∙ ap (get_elem? xs) (omega arith)

get_elem?-line_at :
    (xs : List String) (i : ℕ) → i < length xs → get_elem? xs i ≡ some (line_at xs i)
get_elem?-line_at [] i h = absurd (omega arith)
get_elem?-line_at (x ∷ xs) zero h = refl
get_elem?-line_at (x ∷ xs) (suc i) h = get_elem?-line_at xs i (omega arith)

ltb_lem : (a b : ℕ) → ltb a b ≡ true → a < b
ltb_lem a b h = ground arith

ltb-false_lem : (a b : ℕ) → ltb a b ≡ false → b ≤ a
ltb-false_lem a b h = ground arith

span_at_lem :
    (spans : List Span) (cursor line : ℕ)
    → cursor ≤ line
    → span_at cursor line spans ≡ get_elem? (owners spans) (line - cursor)
unfolding span_at
span_at_lem [] cursor line h = refl
span_at_lem (s ∷ spans) cursor line h = elim (Bool-cases (ltb line (cursor + s.lines))) [
  | inl within ↦ ground (
    arith,
    get_elem?-in_repeated s.lines (line - cursor) s.commit (owners spans)
        (omega (arith, ltb_lem line (cursor + s.lines) within)),
  )
  | inr past ↦
      let beyond = ltb-false_lem line (cursor + s.lines) past in
      let tail : span_at (cursor + s.lines) line spans
          ≡ get_elem? (repeated s.lines s.commit ++ owners spans) (line - cursor) =
        span_at_lem spans (cursor + s.lines) line beyond
        ∙ ap (get_elem? (owners spans)) (omega arith)
        ∙ sym (
            get_elem?-past_repeated s.lines (line - cursor) s.commit (owners spans)
              (omega arith)) in
      ground (arith, tail)
]

-- The spans of a blame are in the order of the file's lines: for a line of the file, `blame_line`
-- gives the commit of the span that owns it, as its response or the commit itself describes it.
pub blame_line_owner :
    (S : Server) (project ref path : String) (line : ℕ) (spans : Option (List Span))
    → get_json (blame_path S project path) (S.blame (blame_path S project path) ref)
      ≡ returned spans
    → 0 < line
    → blame_line S project ref path line
      ≡ enriched S project (get_elem? (owners (rows_of spans)) (line - 1))
unfolding blame_line blamed
blame_line_owner S project ref path line spans h pos =
    rw h (ap (enriched S project) (span_at_lem (rows_of spans) 1 line (omega arith)))

-- the line of a text, within the lines that were asked for
abbrev pub IsLine : List String → (start end_ : ℕ) → ℕ × String → Type 0
IsLine lines start end_ (i, text) =
    (max 1 start ≤ i) × ((i ≤ min (length lines) end_) × (get_elem? lines (i - 1) ≡ some text))

-- the n numbers from `first` on
abbrev pub upward : (first n : ℕ) → List ℕ
upward first zero = []
upward first (suc n) = first ∷ upward (suc first) n

numbered_lem :
    (lines : List String) (start end_ n first : ℕ)
    → max 1 start ≤ first
    → n ≤ min (length lines) end_ + 1 - first
    → Each (IsLine lines start end_) (numbered lines n first)
      × (map (λ p. p.0) (numbered lines n first) ≡ upward first n)
unfolding numbered
numbered_lem lines start end_ zero first h k = (tt, refl)
numbered_lem lines start end_ (suc n) first h k =
    let (rest, count) = numbered_lem lines start end_ n (suc first) (omega arith) (omega arith) in
    (
      ((h, (omega arith, get_elem?-line_at lines (first - 1) (omega arith))), rest),
      ap (λ is. first ∷ is) count,
    )

-- What `get_file_lines` returns of a file that can be read: each numbered line is the line of the text
-- with that number and one that was asked for and that the file has; and the numbers count up from the
-- first line asked for, or 1, to the last one that the file has, each of them once. The slice says so,
-- by its first and its last line.
pub get_file_lines_lem :
    (S : Server) (project ref path text : String) (start end_ : ℕ)
    → get_file S project ref path ≡ returned text
    → let lines = split_lines text in
      let slice = slice_of path ref start end_ lines in
      (get_file_lines S project ref path start end_ ≡ returned slice)
      × (slice.start_line ≡ max 1 start)
      × (slice.end_line ≡ min (length lines) end_)
      × Each (IsLine lines start end_) slice.numbered_lines
      × (map (λ p. p.0) slice.numbered_lines
          ≡ upward slice.start_line (slice.end_line + 1 - slice.start_line))
unfolding get_file_lines slice_of
get_file_lines_lem S project ref path text start end_ h =
    let (each, count) =
      numbered_lem (split_lines text) start end_
        (min (length (split_lines text)) end_ + 1 - max 1 start) (max 1 start) (omega arith)
        (omega arith) in
    (rw h refl, refl, refl, each, count)
