-- ===== src/Gitlab/Pages.antt =====
-- rca_agent/gitlab_client.py, `RestGitLabClient`: `list_branches` and `list_source_files`, whose loops
-- go on while the server names a next page. They have fuel here, and `none` is a loop that did not
-- end with it; Gitlab/Paging says what fuel is enough.
use Prim.Native.Nat.{Ordering}
use Prim.Native.String.{compare as compare_text}
use rca_claude_agent.Gitlab.Server.{http_error, TreeEntry, Branch, Page, pid, Server}
use rca_claude_agent.Review.World.{Outcome, returned, raised}
use rca_claude_agent.Prelude.{
  zero, any, contains, ◌&&◌, length, ◌==◌, suc, [], ◌++◌, true, map, false, ltb, not, keep, none,
  leb, ◌∷◌, ◌<>◌, take, if◌then◌else◌, Bool, some, Option, List, cut, ℕ, String,
}
use rca_claude_agent.Gitlab.Reads.{then_give}
use rca_claude_agent.Trace.Frames.{ends_with}

-- an error ends the loop
abbrev pub unless_fault : {X : Type 0} → Option X → Option X → Option X
unless_fault (some o) rest = some o
unless_fault none rest = rest

module _ {A X : Type 0} where
  -- `raise GitLabError(…)` of a response, if it is an error
  unfoldable pub fault_of : String → Page A → Option (Outcome X)
  unfolding cut
  fault_of what r =
      if leb 400 r.status_code
      then some (raised "GitLabError" (http_error r.status_code (what <> ": " <> cut 200 r.text)))
      else none

  -- the loop after a page with these rows: one without rows, or without a next page, is the last
  abbrev pub after_rows :
      (X → List A → X) → X → List A → Option ℕ → (X → ℕ → Option (Outcome X)) → Option (Outcome X)
  after_rows add x [] next more = some (returned x)
  after_rows add x (r ∷ rs) none more = some (returned (add x (r ∷ rs)))
  after_rows add x (r ∷ rs) (some page) more = more (add x (r ∷ rs)) page

  unfoldable pub after_page :
      String
      → (X → List A → X)
      → X
      → Outcome (Page A)
      → (X → ℕ → Option (Outcome X))
      → Option (Outcome X)
  unfolding fault_of
  after_page what add x (raised type text) more = some (raised type text)
  after_page what add x (returned r) more =
      unless_fault (fault_of what r) (after_rows add x r.rows r.next_page more)

  -- the loop, from a page, while the test holds
  unfoldable pub paged :
      ℕ
      → String
      → (X → Bool)
      → (X → List A → X)
      → (ℕ → Outcome (Page A))
      → X
      → ℕ
      → Option (Outcome X)
  unfolding after_page
  paged zero what test add get x page = none
  paged (suc fuel) what test add get x page = elim (test x) [
    | true ↦ after_page what add x (get page) (paged fuel what test add get)
    | false ↦ some (returned x)
  ]

-- the names of a page; a branch without one is skipped
abbrev pub named : List Branch → List String
named rows = keep (λ n. not (n == "")) (map (λ (b : Branch). b.name) rows)

-- the default branch so far, and those of a page
abbrev pub default_in : String → List Branch → String
default_in d [] = d
default_in d (b ∷ bs) = default_in (if not (b.name == "") && b.is_default then b.name else d) bs

-- `out` and `default`, "" if none was seen
abbrev pub Found : Type 0
Found = List String × String

abbrev pub add_branches : Found → List Branch → Found
add_branches found rows = (found.0 ++ named rows, default_in found.1 rows)

-- the default branch first
abbrev pub float_default : String → List String → List String
float_default d out =
    if not (d == "") && contains out d then d ∷ keep (λ b. not (b == d)) out else out

-- what is returned of the branches that the loop found
unfoldable pub branches_of : ℕ → Found → List String
branches_of limit found = float_default found.1 (take limit found.0)

abbrev pub give : {X Y : Type 0} → (X → Y) → Option (Outcome X) → Option (Outcome Y)
give f none = none
give f (some o) = some (then_give o f)

-- `list_branches`
unfoldable pub list_branches :
    ℕ → Server → (project search : String) → (limit : ℕ) → Option (Outcome (List String))
unfolding paged branches_of pid
list_branches fuel S project search limit =
    let ep = "/projects/" <> pid S project <> "/repository/branches" in
    give (branches_of limit) (
      paged fuel "listing branches" (λ found. ltb (length found.0) limit) add_branches
        (S.branches ep search) ([], "") 1)

-- `e.get("type") == "blob"`
abbrev is_blob : Option String → Bool
is_blob none = false
is_blob (some t) = t == "blob"

-- the files of a page with one of the extensions
abbrev pub sources_in : List String → List TreeEntry → List String
sources_in exts rows =
    map (λ (e : TreeEntry). e.path) (keep (λ e. is_blob e.type && any (ends_with e.path) exts) rows)

-- `sorted(out)`
abbrev goes_before : String → String → Bool
goes_before a b = elim (compare_text a b) [ Ordering.gt ↦ false | _ ↦ true ]

abbrev insert_text : String → List String → List String
insert_text x [] = x ∷ []
insert_text x (y ∷ ys) =
    let rest = insert_text x ys in if goes_before x y then x ∷ y ∷ ys else y ∷ rest

unfoldable pub sort_texts : List String → List String
sort_texts [] = []
sort_texts (x ∷ xs) = insert_text x (sort_texts xs)

-- `list_source_files`
unfoldable pub list_source_files :
    ℕ → Server → (project ref : String) → List String → Option (Outcome (List String))
unfolding paged sort_texts pid
list_source_files fuel S project ref exts =
    let ep = "/projects/" <> pid S project <> "/repository/tree" in
    give sort_texts (
      paged fuel "listing tree" (λ out. true) (λ out rows. out ++ sources_in exts rows)
        (S.tree ep ref) [] 1)
