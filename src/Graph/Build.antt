-- ===== src/Graph/Build.antt =====
-- rca_agent/graph.py: the part of `build_graph_from_sources` that resolves the calls that were found in the
-- sources into edges between the nodes.
use Prim.Native.Char.{code}
use rca_claude_agent.Prelude.{
  ◌<>◌, ◌++◌, leb, not, [], some, ◌&&◌, ◌∷◌, any, ◌==◌, length, keep, none, ◌=ℕ◌, ℕ, List, Option,
  if◌then◌else◌, Bool, String,
}
use rca_claude_agent.Graph.Model.{ids, CallEdge, resolve, RepoGraph}

-- A call that the visitor of a file found: its file, the id of the caller, the name that is called,
-- and whether it is called on `self`.
pub record RawCall : Type 0 where
  pub file : String
  pub caller : String
  pub name : String
  pub is_self : Bool

-- `s.split("::", 1)[1]`
unfoldable pub after_colons : String → String
after_colons String.[] = String.[]
after_colons (String.◌∷◌ c String.[]) = String.[]
after_colons (String.◌∷◌ c (String.◌∷◌ d s)) =
    let rest = after_colons (String.◌∷◌ d s) in if (code c =ℕ 58) && (code d =ℕ 58) then s else rest

-- `s.rsplit(".", 1)[0]` if the text has a dot
unfoldable pub before_last_dot : String → Option String
before_last_dot String.[] = none
before_last_dot (String.◌∷◌ c s) = elim (before_last_dot s) [
  | some p ↦ some (String.◌∷◌ c p)
  | none ↦ if code c =ℕ 46 then some String.[] else none
]

-- the methods of the caller's own class, in its file
unfoldable pub self_candidates : RepoGraph → RawCall → List String
unfolding after_colons before_last_dot
self_candidates g c = elim (before_last_dot (after_colons c.caller)) [
  | none ↦ []
  | some cls ↦ ids (
      keep (λ n. (n.file == c.file) && (n.kind == "method") && (n.qualname == cls <> "." <> c.name))
        g.nodes)
]

-- the nodes of the name, without the caller
unfoldable pub name_candidates : RepoGraph → RawCall → List String
unfolding resolve
name_candidates g c = keep (λ i. not (i == c.caller)) (ids (resolve g c.name))

-- `_AMBIGUOUS_FANOUT_CAP`
abbrev pub ambiguous_fanout_cap : ℕ
ambiguous_fanout_cap = 3

-- the candidates with their provenance; too many of one name are none
unfoldable pub resolve_call : RepoGraph → RawCall → List String × String
unfolding self_candidates name_candidates
resolve_call g c =
    let own = self_candidates g c in
    let named = name_candidates g c in
    if c.is_self
    then (own, if length own =ℕ 1 then "extracted" else "inferred")
    else if length named =ℕ 1
    then (named, "extracted")
    else if leb 2 (length named) && leb (length named) ambiguous_fanout_cap
    then (named, "ambiguous")
    else ([], "inferred")

abbrev pub joins : String → String → CallEdge → Bool
joins s d e = (e.src == s) && (e.dst == d)

-- an edge is added unless the pair has one
unfoldable pub add_edge : String → String → String → List CallEdge → List CallEdge
add_edge caller provenance target edges =
    if any (joins caller target) edges
    then edges
    else edges ++ record { src = caller; dst = target; provenance = provenance } ∷ []

unfoldable pub add_edges : String → String → List String → List CallEdge → List CallEdge
unfolding add_edge
add_edges caller provenance [] edges = edges
add_edges caller provenance (t ∷ ts) edges =
    add_edges caller provenance ts (add_edge caller provenance t edges)

-- the loop over the calls
unfoldable pub resolve_calls : RepoGraph → List RawCall → List CallEdge → List CallEdge
unfolding resolve_call add_edges
resolve_calls g [] edges = edges
resolve_calls g (c ∷ cs) edges =
    let (targets, provenance) = resolve_call g c in
    resolve_calls g cs (add_edges c.caller provenance targets edges)
