-- ===== src/Graph/Edges.antt =====
-- rca_agent/graph.py: the edges that `build_graph_from_sources` makes.
use rca_claude_agent.Graph.Build.{joins, resolve_call, resolve_calls, add_edges, add_edge, RawCall}
use rca_claude_agent.Graph.Model.{RepoGraph, CallEdge}
use rca_claude_agent.Prelude.{
  refl, eq_iff, ◌≤◌, false, count-append, ◌≡◌, arith, count, any, [], ◌∷◌, String, Bool, List,
}

count-none_join : (p : CallEdge → Bool) (es : List CallEdge) → any p es ≡ false → count p es ≡ 0
count-none_join p [] h = refl
count-none_join p (e ∷ es) h = ground (arith, count-none_join p es)

-- no pair of ids has two edges
abbrev pub IsSimple : List CallEdge → Type 0
IsSimple edges = (s d : String) → count (joins s d) edges ≤ 1

add_edge-IsSimple :
    (caller provenance target : String) (edges : List CallEdge)
    → IsSimple edges
    → IsSimple (add_edge caller provenance target edges)
unfolding add_edge
add_edge-IsSimple caller provenance target edges h s d = ground (
  arith,
  h s d,
  count-append (joins s d) edges
      (record { src = caller; dst = target; provenance = provenance } ∷ []),
  count-none_join (joins caller target) edges,
  eq_iff caller s,
  eq_iff target d,
)

add_edges-IsSimple :
    (caller provenance : String) (targets : List String) (edges : List CallEdge)
    → IsSimple edges
    → IsSimple (add_edges caller provenance targets edges)
unfolding add_edges
add_edges-IsSimple caller provenance [] edges h = h
add_edges-IsSimple caller provenance (t ∷ ts) edges h =
    add_edges-IsSimple caller provenance ts (add_edge caller provenance t edges)
      (add_edge-IsSimple caller provenance t edges h)

resolve_calls-IsSimple :
    (g : RepoGraph) (cs : List RawCall) (edges : List CallEdge)
    → IsSimple edges
    → IsSimple (resolve_calls g cs edges)
unfolding resolve_calls
resolve_calls-IsSimple g [] edges h = h
resolve_calls-IsSimple g (c ∷ cs) edges h =
    let (targets, provenance) = resolve_call g c in
    resolve_calls-IsSimple g cs (add_edges c.caller provenance targets edges)
      (add_edges-IsSimple c.caller provenance targets edges h)

-- However often a call occurs in the sources, a caller and a callee are joined by one edge at most.
pub edges-IsSimple : (g : RepoGraph) (cs : List RawCall) → IsSimple (resolve_calls g cs [])
edges-IsSimple g cs = resolve_calls-IsSimple g cs [] (λ s d. omega arith)
