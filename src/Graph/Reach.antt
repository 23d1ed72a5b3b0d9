-- ===== src/Graph/Reach.antt =====
-- rca_agent/graph.py: reachability in the call graph, step by step, against which the search of
-- `transitive_callers` is checked.
use rca_claude_agent.Prelude.{
  refl, [], not, zero, arith, ◌&&◌, ◌∷◌, true, suc, ◌==◌, false, ◌≡◌, ℕ, ◌||◌, any, Bool, List,
  String,
}
use rca_claude_agent.Graph.Model.{CallEdge}

-- whether the id calls a member of the set
abbrev pub calls : List CallEdge → (String → Bool) → String → Bool
calls es S x = any (λ e. (e.src == x) && S e.dst) es

-- the set, and those that call a member of it
abbrev pub and_callers : List CallEdge → (String → Bool) → String → Bool
and_callers es S x = S x || calls es S x

-- whether a chain of at most `n` calls leads from the id into the set
abbrev pub reaches : List CallEdge → (String → Bool) → ℕ → String → Bool
reaches es S zero x = S x
reaches es S (suc n) x = reaches es (and_callers es S) n x

infix 4 ◌⊆◌
abbrev pub ◌⊆◌ : (String → Bool) → (String → Bool) → Type 0
S ⊆ T = (x : String) → S x ≡ true → T x ≡ true

pub calls_mono : (es : List CallEdge) (S T : String → Bool) → S ⊆ T → calls es S ⊆ calls es T
calls_mono [] S T h x e = e
calls_mono (c ∷ es) S T h x e = ground (arith, h c.dst, calls_mono es S T h x)

pub calls_split :
    (es : List CallEdge) (S F : String → Bool) (x : String)
    → calls es S x ≡ true
    → (calls es F x || calls es (λ y. S y && not (F y)) x) ≡ true
calls_split [] S F x e = absurd (ground arith)
calls_split (c ∷ es) S F x e = ground (arith, calls_split es S F x)

pub calls_empty : (es : List CallEdge) (x : String) → calls es (λ y. false) x ≡ false
calls_empty [] x = refl
calls_empty (c ∷ es) x = ground (arith, calls_empty es x)

and_callers_mono :
    (es : List CallEdge) (S T : String → Bool) → S ⊆ T → and_callers es S ⊆ and_callers es T
and_callers_mono es S T h x e = ground (arith, h x, calls_mono es S T h x)

pub reaches_mono :
    (es : List CallEdge) (n : ℕ) (S T : String → Bool) → S ⊆ T → reaches es S n ⊆ reaches es T n
reaches_mono es zero S T h x e = h x e
reaches_mono es (suc n) S T h x e =
    reaches_mono es n (and_callers es S) (and_callers es T) (and_callers_mono es S T h) x e

pub reaches_start : (es : List CallEdge) (n : ℕ) (S : String → Bool) → S ⊆ reaches es S n
reaches_start es zero S x e = e
reaches_start es (suc n) S x e = reaches_start es n (and_callers es S) x (ground arith)

-- a set that its callers stay in is not left
pub reaches_closed :
    (es : List CallEdge) (n : ℕ) (S : String → Bool) → calls es S ⊆ S → reaches es S n ⊆ S
reaches_closed es zero S h x e = e
reaches_closed es (suc n) S h x e =
    reaches_closed es n S h x
      (reaches_mono es n (and_callers es S) S (λ y f. ground (arith, h y)) x e)
