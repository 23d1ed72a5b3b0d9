-- ===== src/Graph/Model.antt =====
-- rca_agent/graph.py: `RepoGraph` and its queries. A set of ids is a list with none of them twice.
use rca_claude_agent.Prelude.{
  zero, ◌<>◌, ◌=ℕ◌, ◌&&◌, none, length, not, ◌++◌, contains, ◌||◌, any, if◌then◌else◌, [], suc,
  keep, ◌∷◌, dedupe, map, some, find, ◌==◌, Option, Bool, List, ℕ, String,
}

pub record SymbolNode : Type 0 where
  pub id : String
  pub name : String
  pub qualname : String
  pub kind : String
  pub file : String
  pub line : ℕ

pub record CallEdge : Type 0 where
  pub src : String
  pub dst : String
  pub provenance : String

-- The dict `nodes`, in the order of its keys, each node under its id; and `edges`.
pub record RepoGraph : Type 0 where
  pub nodes : List SymbolNode
  pub edges : List CallEdge

abbrev pub has_id : String → SymbolNode → Bool
has_id i n = n.id == i

-- `self.nodes.get(i)`
unfoldable pub node_at : RepoGraph → String → Option SymbolNode
node_at g i = find (has_id i) g.nodes

abbrev pub is_named : String → SymbolNode → Bool
is_named symbol n = (n.name == symbol) || (n.qualname == symbol)

-- `resolve`, with an index of names that is up to date
unfoldable pub resolve : RepoGraph → String → List SymbolNode
unfolding node_at
resolve g symbol = elim (node_at g symbol) [
  | some n ↦ n ∷ []
  | none ↦ keep (is_named symbol) g.nodes
]

abbrev pub ids : List SymbolNode → List String
ids ns = map (λ n. n.id) ns

-- `{n.id for n in self.resolve(symbol)}`
unfoldable pub roots : RepoGraph → String → List String
unfolding resolve
roots g symbol = dedupe (ids (resolve g symbol))

-- the nodes at the chosen ends of edges, with the edges' provenance
unfoldable pub far_ends :
    RepoGraph → (CallEdge → String) → List CallEdge → List (SymbolNode × String)
unfolding node_at
far_ends g far [] = []
far_ends g far (e ∷ es) =
    let rest = far_ends g far es in
    elim (node_at g (far e)) [ none ↦ rest | some n ↦ (n, e.provenance) ∷ rest ]

unfoldable pub callers_of : RepoGraph → String → List (SymbolNode × String)
unfolding far_ends roots
callers_of g symbol = far_ends g (λ e. e.src) (keep (λ e. contains (roots g symbol) e.dst) g.edges)

unfoldable pub callees_of : RepoGraph → String → List (SymbolNode × String)
unfolding far_ends roots
callees_of g symbol = far_ends g (λ e. e.dst) (keep (λ e. contains (roots g symbol) e.src) g.edges)

abbrev pub usable : Bool → RepoGraph → List CallEdge
usable include_ambiguous g =
    keep (λ e. include_ambiguous || not (e.provenance == "ambiguous")) g.edges

-- the callers of the frontier that are neither seen nor in it
unfoldable pub new_callers : List CallEdge → List String → List String → List String
new_callers es seen frontier = dedupe (
    map (λ e. e.src)
      (keep
        (λ e. contains frontier e.dst && not (contains seen e.src) && not (contains frontier e.src))
        es))

-- the loop of `transitive_callers`, with the rounds that are left
unfoldable pub search_callers : ℕ → List CallEdge → List String → List String → List String
unfolding new_callers
search_callers zero es seen frontier = seen
search_callers (suc rounds) es seen frontier =
    let next = new_callers es seen frontier in
    let rest = search_callers rounds es (next ++ seen) next in
    if length frontier =ℕ 0 then seen else rest

-- the nodes of the graph among the ids
unfoldable pub nodes_at : RepoGraph → List String → List SymbolNode
unfolding node_at
nodes_at g [] = []
nodes_at g (i ∷ is) =
    let rest = nodes_at g is in elim (node_at g i) [ none ↦ rest | some n ↦ n ∷ rest ]

unfoldable pub transitive_callers : RepoGraph → String → ℕ → Bool → List SymbolNode
unfolding search_callers nodes_at roots
transitive_callers g symbol max_depth include_ambiguous =
    nodes_at g (search_callers max_depth (usable include_ambiguous g) [] (roots g symbol))

-- the ends behind one step of `get_subgraph` from the frontier
unfoldable pub neighbours : List CallEdge → List String → List String
neighbours [] frontier = []
neighbours (e ∷ es) frontier =
    (if contains frontier e.src then e.dst ∷ [] else [])
    ++ (if contains frontier e.dst then e.src ∷ [] else [])
    ++ neighbours es frontier

-- the loop of `get_subgraph`
unfoldable pub grow : ℕ → List CallEdge → List String → List String → List String
unfolding neighbours
grow zero es kept frontier = kept
grow (suc rounds) es kept frontier =
    let next = keep (λ i. not (contains kept i)) (dedupe (neighbours es frontier)) in
    let rest = grow rounds es (next ++ kept) next in if length next =ℕ 0 then kept else rest

pub record Subgraph : Type 0 where
  pub nodes : List SymbolNode
  pub edges : List CallEdge
  pub note : Option String

unfoldable pub get_subgraph : RepoGraph → String → ℕ → Subgraph
unfolding grow nodes_at roots
get_subgraph g symbol depth =
    let start = roots g symbol in
    let kept = grow depth g.edges start start in
    if length start =ℕ 0
    then record { nodes = []; edges = []; note = some ("symbol '" <> symbol <> "' not in graph") }
    else record {
      nodes = nodes_at g kept;
      edges = keep (λ e. contains kept e.src && contains kept e.dst) g.edges;
      note = none;
    }

unfoldable pub has_edge : RepoGraph → String → String → Bool
unfolding roots
has_edge g src_symbol dst_symbol =
    any (λ e. contains (roots g src_symbol) e.src && contains (roots g dst_symbol) e.dst) g.edges
