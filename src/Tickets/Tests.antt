-- ===== src/Tickets/Tests.antt =====
-- An issue with a trace in a code block, and a comment that is an RCA.
use rca_claude_agent.Tickets.Issue.{
  no_nodes, is_rca_comment, plain, then_node, comment_parts, name_text, node, normalize_jira_issue,
  flatten_adf, name_dict, AdfNode, Issue,
}
use rca_claude_agent.Prelude.{false, true, lower, [], rstrip, ◌∷◌, refl, ◌≡◌}
use rca_claude_agent.Verdict.Render.{join_lines}

abbrev trace : AdfNode
trace = node "doc" "" (
    then_node (node "paragraph" "" (then_node (node "text" "Totals are wrong" no_nodes) no_nodes)) (
      then_node (node "codeBlock" "" (then_node (node "text" "File tax.py" no_nodes) no_nodes))
        no_nodes))

abbrev issue : Issue
issue = record {
  key = "AUT-1";
  id = "7";
  summary = "Totals";
  status = name_dict "Open" "";
  priority = name_text "P1";
  description = trace;
  comments =
      record { author = name_dict "" "Ann"; body = plain "Seen again" }
      ∷ record { author = name_text ""; body = plain "Automated RCA: tax" }
      ∷ [];
}

flattened : flatten_adf trace ≡ "Totals are wrong\nFile tax.py\n"
unfolding flatten_adf
flattened = refl

without_rca :
    (normalize_jira_issue true false issue).1
    ≡ "[AUT-1] Totals\nStatus: Open  Priority: P1\n\nTotals are wrong\nFile tax.py\n\n--- comment by Ann ---\nSeen again"
unfolding normalize_jira_issue flatten_adf comment_parts is_rca_comment rstrip lower join_lines
without_rca = refl
