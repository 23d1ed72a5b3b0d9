-- ===== src/Graph/Tests.antt =====
-- A small call graph.
use rca_claude_agent.Graph.Model.{
  nodes_at, node_at, new_callers, ids, resolve, search_callers, CallEdge, SymbolNode, roots,
  transitive_callers, RepoGraph,
}
use rca_claude_agent.Prelude.{lower, List, refl, ◌≡◌, false, [], ◌∷◌, String}
use rca_claude_agent.Graph.Build.{
  self_candidates, name_candidates, add_edge, add_edges, resolve_call, RawCall, resolve_calls,
}
use rca_claude_agent.Graph.Edges.{edges-IsSimple, IsSimple}
use rca_claude_agent.Graph.Search.{
  last_part, without_py, dots, norm, score, dependents_of, search_symbols,
}

abbrev function_node : String → String → SymbolNode
function_node id name = record {
  id = id;
  name = name;
  qualname = name;
  kind = "function";
  file = "tax.py";
  line = 1;
}

abbrev called : String → String → CallEdge
called a b = record { src = a; dst = b; provenance = "extracted" }

abbrev small : RepoGraph
small = record {
  nodes =
      function_node "tax.py::total" "total"
      ∷ function_node "tax.py::invoice" "invoice"
      ∷ function_node "tax.py::view" "view"
      ∷ [];
  edges =
      called "tax.py::invoice" "tax.py::total"
      ∷ called "tax.py::view" "tax.py::invoice"
      ∷ called "tax.py::total" "tax.py::total"
      ∷ [];
}

blast_radius :
    ids (transitive_callers small "total" 4 false) ≡ "tax.py::view" ∷ "tax.py::invoice" ∷ []
unfolding transitive_callers search_callers new_callers nodes_at node_at roots resolve
blast_radius = refl

abbrev repeated : List RawCall
repeated =
    record { file = "tax.py"; caller = "tax.py::view"; name = "invoice"; is_self = false }
    ∷ record { file = "tax.py"; caller = "tax.py::view"; name = "invoice"; is_self = false }
    ∷ []

repeated_edges : resolve_calls small repeated [] ≡ called "tax.py::view" "tax.py::invoice" ∷ []
unfolding resolve_calls resolve_call add_edges add_edge name_candidates self_candidates resolve
    node_at
repeated_edges = refl

edges-IsSimple_example : IsSimple (resolve_calls small repeated [])
edges-IsSimple_example = edges-IsSimple small repeated

found_symbols :
    ids (search_symbols small ("invoice" ∷ "" ∷ "tax" ∷ []) 2)
    ≡ "tax.py::invoice" ∷ "tax.py::total" ∷ []
unfolding search_symbols score lower
found_symbols = refl

importers :
    dependents_of (("app.py", "billing.tax" ∷ []) ∷ ("cli.py", "os" ∷ []) ∷ []) "billing/tax.py"
    ≡ "app.py" ∷ []
unfolding dependents_of norm dots without_py last_part
importers = refl
