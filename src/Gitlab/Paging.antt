-- ===== src/Gitlab/Paging.antt =====
-- rca_agent/gitlab_client.py: the loops over the pages of a list end.
use rca_claude_agent.Gitlab.Server.{pid, Server, Page}
use rca_claude_agent.Review.World.{raised, Outcome, returned}
use rca_claude_agent.Prelude.{
  false, zero, false≢true, length-keep, ◌==◌, suc, ◌<>◌, arith, not, take, ◌+◌, contains, count,
  length, Bool, true, String, is_some, refl, [], ◌∷◌, List, ◌≤◌, ◌<◌, none, ◌≡◌, some, Option, ℕ,
}
use rca_claude_agent.Gitlab.Pages.{
  add_branches, give, fault_of, unless_fault, list_branches, Found, branches_of, paged, after_page,
  after_rows,
}

-- The next page that the server names is a later one, and no later than the last.
abbrev pub IsPaged : {A : Type 0} → (total : ℕ) → (ℕ → Outcome (Page A)) → Type 0
IsPaged total get =
    (page n : ℕ) (r : Page _)
    → get page ≡ returned r
    → r.next_page ≡ some n
    → (page < n) × (n ≤ total)

unless_fault-is_some :
    {X : Type 0} (o rest : Option X) → is_some rest ≡ true → is_some (unless_fault o rest) ≡ true
unless_fault-is_some (some o) rest h = refl
unless_fault-is_some none rest h = h

module _ {A X : Type 0} where
  after_rows-is_some :
      (add : X → List A → X) (x : X) (rows : List A) (next : Option ℕ)
      (more : X → ℕ → Option (Outcome X))
      → ((y : X) (n : ℕ) → next ≡ some n → is_some (more y n) ≡ true)
      → is_some (after_rows add x rows next more) ≡ true
  after_rows-is_some add x [] next more h = refl
  after_rows-is_some add x (r ∷ rs) none more h = refl
  after_rows-is_some add x (r ∷ rs) (some n) more h = h (add x (r ∷ rs)) n refl

  after_page-is_some :
      (what : String) (add : X → List A → X) (x : X) (o : Outcome (Page A))
      (more : X → ℕ → Option (Outcome X))
      → ((y : X) (n : ℕ) (r : Page A)
          → o ≡ returned r
          → r.next_page ≡ some n
          → is_some (more y n) ≡ true)
      → is_some (after_page what add x o more) ≡ true
  unfolding after_page
  after_page-is_some what add x (raised type text) more h = refl
  after_page-is_some what add x (returned r) more h =
      unless_fault-is_some (fault_of what r) _
        (after_rows-is_some add x r.rows r.next_page more (λ y n e. h y n r refl e))

  -- fuel for the pages from this one to the last is enough
  paged-is_some :
      (total fuel : ℕ) (what : String) (test : X → Bool) (add : X → List A → X)
      (get : ℕ → Outcome (Page A)) (x : X) (page : ℕ)
      → IsPaged total get
      → 0 < fuel
      → total < fuel + page
      → is_some (paged fuel what test add get x page) ≡ true
  unfolding paged
  paged-is_some total zero what test add get x page h pos enough = absurd (omega arith)
  paged-is_some total (suc fuel) what test add get x page h pos enough =
      elim (test x)
        as (λ b.
          is_some (elim b [
            | true ↦ after_page what add x (get page) (paged fuel what test add get)
            | false ↦ some (returned x)
          ])
          ≡ true) [
            | false ↦ refl
            | true ↦
                after_page-is_some what add x (get page) (paged fuel what test add get)
                  (λ y n r e next.
                    let (later, within) = h page n r e next in
                    paged-is_some total fuel what test add get y n h (omega arith) (omega arith))
          ]

-- at most `limit` names are returned
abbrev pub IsWithin : ℕ → Option (Outcome (List String)) → Type 0
IsWithin limit none = ⊥
IsWithin limit (some (raised type text)) = Unit
IsWithin limit (some (returned names)) = length names ≤ limit

length-take : (n : ℕ) (xs : List String) → length (take n xs) ≤ n
length-take zero xs = omega arith
length-take (suc n) [] = omega arith
length-take (suc n) (x ∷ xs) = omega (arith, length-take n xs)

count-others : (d : String) (xs : List String) → count (λ b. not (b == d)) xs ≤ length xs
count-others d [] = omega arith
count-others d (x ∷ xs) = ground (arith, count-others d xs)

others-less :
    (d : String) (xs : List String)
    → contains xs d ≡ true
    → count (λ b. not (b == d)) xs < length xs
others-less d [] h = absurd (false≢true h)
others-less d (x ∷ xs) h = ground (arith, others-less d xs, count-others d xs)

branches_of-length : (limit : ℕ) (found : Found) → length (branches_of limit found) ≤ limit
unfolding branches_of
branches_of-length limit (names, d) = ground (
  arith,
  length-take limit names,
  length-keep (λ b. not (b == d)) (take limit names),
  others-less d (take limit names),
)

give-IsWithin :
    (limit : ℕ) (o : Option (Outcome Found))
    → is_some o ≡ true
    → IsWithin limit (give (branches_of limit) o)
give-IsWithin limit none h = absurd (false≢true h)
give-IsWithin limit (some (raised type text)) h = tt
give-IsWithin limit (some (returned found)) h = branches_of-length limit found

-- Termination: If each next page that the server names is a later one, and none is later than the
-- last, the loop of `list_branches` ends within as many rounds as there are pages, whatever the
-- responses hold, and the names that it returns are at most `limit`.
pub list_branches_ends :
    (total fuel : ℕ) (S : Server) (project search : String) (limit : ℕ)
    → IsPaged total (S.branches ("/projects/" <> pid S project <> "/repository/branches") search)
    → 0 < fuel
    → total ≤ fuel
    → IsWithin limit (list_branches fuel S project search limit)
unfolding list_branches
list_branches_ends total fuel S project search limit h pos enough =
    give-IsWithin limit _
      (paged-is_some total fuel "listing branches" _ add_branches _ ([], "") 1 h pos (omega arith))
