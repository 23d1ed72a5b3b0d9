-- ===== src/Graph/BlastRadius.antt =====
-- rca_agent/graph.py: `transitive_callers` finds what reaches the symbol, and nothing else.
use rca_claude_agent.Prelude.{◌||◌, Bool, contains, List, String}
use rca_claude_agent.Graph.Model.{CallEdge}

module _ (es : List CallEdge) (start : List String) where
  abbrev found_set : List String → String → Bool
  found_set seen x = contains start x || contains seen x
