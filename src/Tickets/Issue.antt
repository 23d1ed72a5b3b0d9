-- ===== src/Tickets/Issue.antt =====
-- rca_agent/tickets.py: `flatten_adf`, `normalize_jira_issue` and `normalize_jira_response`.
use rca_claude_agent.Prelude.{
  false, refl, ap, inr, inl, Bool-cases, keep, map, lower, ◌≡◌, ◌&&◌, rstrip, contains, [], true,
  not, any, ◌==◌, ◌∷◌, ◌<>◌, Bool, if◌then◌else◌, List, String,
}
use rca_claude_agent.Verdict.Render.{join_lines}
use rca_claude_agent.Graph.Search.{occurs_in}

-- A node of the Atlassian Document Format: none, a plain text, or a dict with its type, its text ("" where
-- a key is missing) and its content.
mutual
  pub data AdfNode : Type 0 where
    no_node : AdfNode
    plain : String → AdfNode
    node : (type text : String) → AdfNodes → AdfNode

  pub data AdfNodes : Type 0 where
    no_nodes : AdfNodes
    then_node : AdfNode → AdfNodes → AdfNodes

-- `_ADF_BLOCKS`
abbrev pub adf_blocks : List String
adf_blocks =
    "paragraph" ∷ "heading" ∷ "codeBlock" ∷ "blockquote" ∷ "listItem" ∷ "panel" ∷ "rule"
    ∷ "tableRow" ∷ []

-- `flatten_adf`
unfoldable mutual
  pub flatten_adf : AdfNode → String
  flatten_adf no_node = ""
  flatten_adf (plain s) = s
  flatten_adf (node type text content) =
      let body = flatten_content content in
      if type == "text"
      then text
      else if type == "hardBreak"
      then "\n"
      else if contains adf_blocks type
      then body <> "\n"
      else body

  pub flatten_content : AdfNodes → String
  flatten_content no_nodes = ""
  flatten_content (then_node n ns) = flatten_adf n <> flatten_content ns

-- `_name` of a dict, by its two keys, or of a text
pub data Name : Type 0 where
  name_dict : (name display_name : String) → Name
  name_text : String → Name

abbrev pub name_of : Name → String
name_of (name_dict name display_name) = if name == "" then display_name else name
name_of (name_text s) = s

pub record Comment : Type 0 where
  pub author : Name
  pub body : AdfNode

-- An issue: its key and id, "" where missing, and its fields; of the comments, those of the field
-- `comment` if it is a dict, and else those of `comments`.
pub record Issue : Type 0 where
  pub key : String
  pub id : String
  pub summary : String
  pub status : Name
  pub priority : Name
  pub description : AdfNode
  pub comments : List Comment

-- `_RCA_COMMENT_MARKERS`
abbrev pub rca_comment_markers : List String
rca_comment_markers = "automated rca" ∷ "verify before acting" ∷ "verified against code" ∷ []

-- whether a comment is an RCA that was posted before
unfoldable pub is_rca_comment : String → Bool
is_rca_comment text = any (λ m. occurs_in m (lower text)) rca_comment_markers

abbrev pub comment_text : Comment → String
comment_text c =
    "\n--- comment by "
    <> (if name_of c.author == "" then "?" else name_of c.author)
    <> " ---\n"
    <> rstrip (flatten_adf c.body)

-- the loop over the comments
unfoldable pub comment_parts : (drop_rca_comments : Bool) → List Comment → List String
comment_parts drop_rca_comments [] = []
comment_parts drop_rca_comments (c ∷ cs) =
    let rest = comment_parts drop_rca_comments cs in
    if drop_rca_comments && is_rca_comment (flatten_adf c.body) then rest else comment_text c ∷ rest

abbrev pub issue_key : Issue → String
issue_key i = if not (i.key == "") then i.key else if not (i.id == "") then i.id else "UNKNOWN"

-- `normalize_jira_issue`: the key and the text
unfoldable pub normalize_jira_issue :
    (drop_rca_comments drop_all_comments : Bool) → Issue → String × String
normalize_jira_issue drop_rca_comments drop_all_comments i = (
  issue_key i,
  join_lines (
      ("[" <> issue_key i <> "] " <> i.summary)
      ∷ ("Status: " <> name_of i.status <> "  Priority: " <> name_of i.priority)
      ∷ ""
      ∷ rstrip (flatten_adf i.description)
      ∷ (if drop_all_comments then [] else comment_parts drop_rca_comments i.comments)),
)

-- `normalize_jira_response`: the first issue of the envelope's nodes, if it has any, and else the
-- response itself as an issue
unfoldable pub normalize_jira_response : (nodes : List Issue) (bare : Issue) → String × String
normalize_jira_response [] bare = normalize_jira_issue false false bare
normalize_jira_response (i ∷ is) bare = normalize_jira_issue false false i

is_shown : Comment → Bool
is_shown c = not (is_rca_comment (flatten_adf c.body))

-- With `drop_rca_comments` the comments are those that are no RCA posted before, in their order.
comment_parts_lem :
    (cs : List Comment) → comment_parts true cs ≡ map comment_text (keep is_shown cs)
unfolding comment_parts is_shown
comment_parts_lem [] = refl
comment_parts_lem (c ∷ cs) = elim (Bool-cases (is_rca_comment (flatten_adf c.body))) [
  | inl e ↦ rw e (comment_parts_lem cs)
  | inr e ↦ rw e (ap (λ rest. comment_text c ∷ rest) (comment_parts_lem cs))
]
