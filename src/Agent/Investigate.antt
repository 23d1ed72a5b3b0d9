-- ===== src/Agent/Investigate.antt =====
-- rca_agent/investigation.py: `investigate`.
use rca_claude_agent.Review.World.{Outcome, returned, raised}
use rca_claude_agent.Verdict.Schema.{
  EvidenceLink, Confidence, high, medium, low, Triage, real_bug, insufficient_evidence,
}
use rca_claude_agent.Gitlab.Server.{web_commit_url, Commit, MergeRequest}
use rca_claude_agent.Agent.Trace.{node_line, frame_ref, Tools}
use rca_claude_agent.Prelude.{
  false, map, none, ◌==◌, ◌<>◌, [], ◌∷◌, some, if◌then◌else◌, Bool, cut, List, decimal, Option,
  String,
}
use rca_claude_agent.Graph.Model.{RepoGraph, transitive_callers}
use rca_claude_agent.Trace.Frames.{Frame}
use rca_claude_agent.Gitlab.Reads.{split_lines}

-- the change of the crash line: its commit, and the first merge request of it
pub record Change : Type 0 where
  pub commit : Commit
  pub mr : Option MergeRequest

-- `mr.web_url or f"!{mr.iid}"`
unfoldable pub mr_name : MergeRequest → String
unfolding decimal
mr_name m = if m.web_url == "" then "!" <> decimal m.iid else m.web_url

abbrev pub name_of : Option MergeRequest → Option String
name_of none = none
name_of (some m) = some (mr_name m)

-- `introducing_mr` and `is_regression`
abbrev pub introducing : Option Change → Option String
introducing none = none
introducing (some c) = name_of c.mr

abbrev pub merged_state : Option MergeRequest → Option Bool
merged_state none = none
merged_state (some m) = some (m.state == "merged")

abbrev pub regression : Option Change → Option Bool
regression none = none
regression (some c) = merged_state c.mr

abbrev pub first_line : List String → String
first_line [] = ""
first_line (l ∷ ls) = l

unfoldable pub merged_note : Option String → String
unfolding cut
merged_note none = ""
merged_note (some d) = if d == "" then "" else ", merged " <> cut 10 d

unfoldable pub mr_links : Option MergeRequest → List EvidenceLink
unfolding mr_name merged_note decimal
mr_links none = []
mr_links (some m) =
    record {
      kind = "merge_request";
      ref = mr_name m;
      detail =
          "!"
          <> decimal m.iid
          <> " \""
          <> m.title
          <> "\" by "
          <> m.author
          <> merged_note m.merged_at;
      url = m.web_url;
    }
    ∷ []

-- the evidence of a change
unfoldable pub change_links :
    (base project crash_url : String) → Frame → Option Change → List EvidenceLink
unfolding frame_ref cut split_lines web_commit_url mr_links
change_links base project crash_url crash none = []
change_links base project crash_url crash (some c) =
    record {
      kind = "blame";
      ref = frame_ref crash <> " @ " <> c.commit.short_id;
      detail =
          "Line last changed by "
          <> c.commit.short_id
          <> " \""
          <> c.commit.title
          <> "\" ("
          <> c.commit.author_name
          <> ", "
          <> cut 10 c.commit.authored_date
          <> ").";
      url = crash_url;
    }
    ∷ record {
      kind = "commit";
      ref = c.commit.short_id;
      detail = c.commit.title <> " - " <> first_line (split_lines c.commit.message);
      url = web_commit_url base project c.commit.id;
    }
    ∷ mr_links c.mr

-- the blast radius, by the graph of the project
unfoldable pub radius_in : String → Outcome RepoGraph → List String
unfolding transitive_callers node_line
radius_in symbol (raised type text) = []
radius_in symbol (returned g) = map node_line (transitive_callers g symbol 4 false)

unfoldable pub blast_radius_of : Tools → String → Option String → List String
unfolding radius_in
blast_radius_of T project none = []
blast_radius_of T project (some s) = if s == "" then [] else radius_in s (T.load_repo_graph project)

-- the confidence, the triage, the root cause and the action
abbrev pub Synthesis : Type 0
Synthesis = Confidence × (Triage × (String × String))

unfoldable pub of_change : Frame → Commit → Option String → Synthesis
unfolding frame_ref
of_change crash c (some mr) = (
  high,
  (
    real_bug,
    (
      "Regression at "
          <> frame_ref crash
          <> ": the line last changed in "
          <> c.short_id
          <> " (\""
          <> c.title
          <> "\"). The suspect value used on this line is not guaranteed non-null after that change, producing the observed exception.",
      "Reassign to the author of " <> mr <> " (" <> c.author_name
          <> ") for a fix; the change that introduced the line is identified.",
    ),
  ),
)
of_change crash c none = (
  medium,
  (
    real_bug,
    (
      "Suspect line "
          <> frame_ref crash
          <> " confirmed; last changed in "
          <> c.short_id
          <> " but no merge request links to that commit.",
      "Inspect the commit directly; confirm whether it shipped to prod.",
    ),
  ),
)

unfoldable pub incomplete : Frame → Synthesis
unfolding frame_ref
incomplete crash = (
  low,
  (
    insufficient_evidence,
    (
      "Suspect line " <> frame_ref crash <> " located but blame/MR chain incomplete.",
      "Run blame manually on the suspect line; check deploy history.",
    ),
  ),
)

unfoldable pub synthesize : Bool → Frame → Option Change → Synthesis
unfolding of_change incomplete
synthesize confirmed crash none = incomplete crash
synthesize confirmed crash (some c) =
    if confirmed then of_change crash c.commit (introducing (some c)) else incomplete crash

abbrev pub in_symbol : (before after : String) → Option String → String
in_symbol before after none = ""
in_symbol before after (some s) = if s == "" then "" else before <> s <> after

-- `headline`
unfoldable pub headline_of : Frame → Option Change → Option String → String
unfolding frame_ref
headline_of crash none mr =
    frame_ref crash
    <> in_symbol " in " "" crash.symbol
    <> " is the suspect line; introducing change not confirmed."
headline_of crash (some c) none =
    frame_ref crash
    <> in_symbol " in " "" crash.symbol
    <> " is the suspect line; last changed in "
    <> c.commit.short_id
    <> "."
headline_of crash (some c) (some mr) =
    frame_ref crash
    <> in_symbol " in " "" crash.symbol
    <> " is the suspect line; last changed by "
    <> mr
    <> " — likely the cause."

abbrev pub where_of : Frame → String
where_of crash = crash.path <> in_symbol " (the " " function)" crash.symbol

-- `plain`
unfoldable pub plain_of : Frame → Option Change → Option String → String
unfolding decimal cut
plain_of crash none mr =
    "The error points at "
    <> where_of crash
    <> ", line "
    <> decimal crash.line
    <> ", but we could not trace which change introduced it — a human should check the history."
plain_of crash (some c) none =
    "The error traces to "
    <> where_of crash
    <> ", line "
    <> decimal crash.line
    <> ", last changed in commit "
    <> c.commit.short_id
    <> ". Open the links below to see the code."
plain_of crash (some c) (some mr) =
    "The error traces to "
    <> where_of crash
    <> ", line "
    <> decimal crash.line
    <> ". That line was last changed by merge request "
    <> mr
    <> " ("
    <> cut 10 c.commit.authored_date
    <> "), which is the likely source of the problem. Open the links below to see the exact code and the change that introduced it."
