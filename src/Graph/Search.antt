-- ===== src/Graph/Search.antt =====
-- rca_agent/graph.py: `search_symbols` and `dependents_of`.
use Prim.Native.Char.{Char, code}
use Prim.Native.Nat.{Ordering}
use Prim.Native.String.{compare as compare_text}
use rca_claude_agent.Prelude.{
  false, true, ◌+◌, take, leb, ◌*◌, any, not, ◌&&◌, count, [], keep, ◌||◌, ◌<>◌, starts_with, map,
  ◌=ℕ◌, ◌∷◌, ltb, ◌==◌, if◌then◌else◌, List, ℕ, lower, Bool, String,
}
use rca_claude_agent.Graph.Model.{SymbolNode, RepoGraph}
use rca_claude_agent.Trace.Frames.{ends_with}

-- `t in s` of two texts
abbrev pub occurs_in : String → String → Bool
occurs_in t String.[] = t == String.[]
occurs_in t (String.◌∷◌ c s) = starts_with (String.◌∷◌ c s) t || occurs_in t s

-- twice the score: application code gets a half point more than tests
unfoldable pub score : List String → SymbolNode → ℕ
unfolding lower
score terms n =
    let hay = lower (n.qualname <> " " <> n.file) in
    let file = lower n.file in
    let hits = count (λ t. occurs_in t hay) terms in
    if hits =ℕ 0
    then 0
    else if occurs_in "/test" file || occurs_in "test_" file
    then 2 * hits
    else 2 * hits + 1

abbrev Scored : Type 0
Scored = ℕ × SymbolNode

abbrev is_before : String → String → Bool
is_before a b = elim (compare_text a b) [ Ordering.lt ↦ true | _ ↦ false ]

-- `-score`, then `file`, then `line`
abbrev goes_first : Scored → Scored → Bool
goes_first a b =
    ltb b.0 a.0
    || ((a.0 =ℕ b.0)
        && (is_before a.1.file b.1.file || ((a.1.file == b.1.file) && leb a.1.line b.1.line)))

abbrev insert_scored : Scored → List Scored → List Scored
insert_scored a [] = a ∷ []
insert_scored a (b ∷ bs) =
    let rest = insert_scored a bs in if goes_first a b then a ∷ b ∷ bs else b ∷ rest

abbrev sort_scored : List Scored → List Scored
sort_scored [] = []
sort_scored (a ∷ as_) = insert_scored a (sort_scored as_)

unfoldable pub search_symbols : RepoGraph → List String → ℕ → List SymbolNode
unfolding score
search_symbols g terms limit =
    let wanted = keep (λ t. not (t == "")) terms in
    let scored = keep (λ a. ltb 0 a.0) (map (λ n. (score wanted n, n)) g.nodes) in
    take limit (map (λ a. a.1) (sort_scored scored))

abbrev dotted : Char → Char
dotted c = if (code c =ℕ 92) || (code c =ℕ 47) then "." else c

unfoldable pub dots : String → String
dots String.[] = String.[]
dots (String.◌∷◌ c s) = String.◌∷◌ (dotted c) (dots s)

-- `s.removesuffix(".py")`
unfoldable pub without_py : String → String
without_py String.[] = String.[]
without_py (String.◌∷◌ c s) =
    let rest = without_py s in if String.◌∷◌ c s == ".py" then String.[] else String.◌∷◌ c rest

-- `norm`
unfoldable pub norm : String → String
unfolding dots without_py
norm s = without_py (dots s)

-- `s.split(".")[-1]`, with what stands behind the last dot so far
unfoldable pub last_part : String → String → String
last_part current String.[] = current
last_part current (String.◌∷◌ c s) = if code c =ℕ 46 then last_part s s else last_part current s

-- `dependents_of`, for the dict `imports` as a list
unfoldable pub dependents_of : List (String × List String) → String → List String
unfolding norm last_part
dependents_of imports module_or_file =
    let key = norm module_or_file in
    let stem = last_part key key in
    map (λ i. i.0)
      (keep
        (λ i.
          any
            (λ m.
              (norm m == key)
              || ends_with (norm m) ("." <> stem)
              || (last_part (norm m) (norm m) == stem))
            i.1)
        imports)
