-- ===== src/Agent/Loop.antt =====
-- rca_agent/agent.py: the loop of `run_agent` over the model's messages, and `_looks_like_verdict`.
use rca_claude_agent.Fix.Suggest.{quoted_subtype, is_success}
use rca_claude_agent.Review.World.{Outcome, returned, raised}
use rca_claude_agent.Prelude.{
  ◌||◌, ◌++◌, none, any, true, ◌==◌, not, contains, [], ◌<>◌, false, some, ◌∷◌, if◌then◌else◌, ℕ,
  ◌+◌, Option, cut, Bool, List, String,
}
use rca_claude_agent.Agent.Verdicts.{outermost}

-- a block of an answer, as the loop reads it
pub data Block : Type 0 where
  text_block : String → Block
  tool_use : String → Block
  other_block : Block

-- a message of the SDK; a result has its subtype, its text and `is_error`
pub data AgentMessage : Type 0 where
  answer : List Block → AgentMessage
  result_message : Option String → String → Bool → AgentMessage
  unread_message : AgentMessage

-- a message, and whether the time budget is over once it is processed
abbrev pub Timed : Type 0
Timed = AgentMessage × Bool

-- the variables of the loop; `tools_used` is a set, here in the order of its first uses
pub record Progress : Type 0 where
  pub final_text : String
  pub turns_used : ℕ
  pub tools_used : List String
  pub budget_hit : Bool

abbrev pub add_tool : String → List String → List String
add_tool t ts = if contains ts t then ts else ts ++ t ∷ []

-- one block
unfoldable pub read_block : Progress → Block → Progress
read_block p (text_block t) = record p { final_text = t }
read_block p (tool_use t) = record p { tools_used = add_tool t p.tools_used }
read_block p other_block = p

unfoldable pub read_blocks : Progress → List Block → Progress
unfolding read_block
read_blocks p [] = p
read_blocks p (b ∷ bs) = read_blocks (read_block p b) bs

-- the failure of a result, if it is one
unfoldable pub run_failure : Option String → String → Bool → Option String
unfolding cut
run_failure subtype text is_error =
    if not (is_success subtype) || is_error
    then some ("agent run failed (" <> quoted_subtype subtype <> "): " <> cut 200 text)
    else none

abbrev pub with_failure : Option String → Progress → Outcome Progress
with_failure (some e) p = raised "AgentRunError" e
with_failure none p = returned p

-- one message
unfoldable pub read_message : Progress → AgentMessage → Outcome Progress
unfolding read_blocks run_failure
read_message p (answer bs) = returned (read_blocks (record p { turns_used = p.turns_used + 1 }) bs)
read_message p (result_message subtype text is_error) =
    with_failure (run_failure subtype text is_error)
      (if text == "" then p else record p { final_text = text })
read_message p unread_message = returned p

abbrev pub Stream : Type 0
Stream = List Timed

-- an exception of the stream keeps what there is, if there is a text
abbrev pub stream_end : Option (String × String) → Progress → Outcome Progress
stream_end none p = returned p
stream_end (some (type, text)) p = if p.final_text == "" then raised type text else returned p

-- after a message: an infrastructure failure is raised, and the loop stops once the budget is over
abbrev pub go_further : Bool → (Progress → Outcome Progress) → Outcome Progress → Outcome Progress
go_further over more (raised type text) = raised type text
go_further over more (returned p) =
    if over then returned (record p { budget_hit = true }) else more p

-- the loop, over a stream that ends as it does
unfoldable pub consume : Stream → Option (String × String) → Progress → Outcome Progress
unfolding read_message
consume [] end_ p = stream_end end_ p
consume ((m, over) ∷ ms) end_ p = go_further over (consume ms end_) (read_message p m)

-- `_looks_like_verdict`; the parameter gives the keys of the dict that `json.loads` makes of a text,
-- `none` where it raises or makes no dict
abbrev pub has_verdict_key : Option (List String) → Bool
has_verdict_key none = false
has_verdict_key (some ks) = any (contains ks) ("confidence" ∷ "probable_root_cause" ∷ "triage" ∷ [])

abbrev pub loaded_keys : (String → Option (List String)) → Option String → Option (List String)
loaded_keys keys none = none
loaded_keys keys (some s) = keys s

unfoldable pub looks_like_verdict : (String → Option (List String)) → String → Bool
looks_like_verdict keys text = has_verdict_key (loaded_keys keys (outermost text))

abbrev pub no_verdict : Progress → String
unfolding cut
no_verdict p =
    "agent did not emit a verdict ("
    <> (if p.budget_hit
        then "hit the time budget mid-compose"
        else "likely hit max_turns mid-compose")
    <> "): "
    <> (if p.final_text == "" then "no output" else cut 150 p.final_text)

abbrev pub RunResult : Type 0
RunResult = String × (ℕ × List String)

-- what follows the loop
unfoldable pub conclude : (String → Option (List String)) → Outcome Progress → Outcome RunResult
unfolding looks_like_verdict no_verdict
conclude keys (raised type text) = raised type text
conclude keys (returned p) =
    if not (looks_like_verdict keys p.final_text)
    then raised "AgentRunError" (no_verdict p)
    else returned (p.final_text, (p.turns_used, p.tools_used))

-- the variables before the loop
abbrev pub at_start : Progress
at_start = record { final_text = ""; turns_used = 0; tools_used = []; budget_hit = false }

-- `run_agent`, from the stream on
unfoldable pub run_agent :
    (String → Option (List String)) → Stream → Option (String × String) → Outcome RunResult
unfolding conclude consume
run_agent keys stream end_ = conclude keys (consume stream end_ at_start)
