-- ===== src/Agent/Outcomes.antt =====
-- rca_agent/agent.py: how a run of the agent ends.
use rca_claude_agent.Fix.Suggest.{is_success}
use rca_claude_agent.Review.World.{Outcome, returned, raised}
use rca_claude_agent.Prelude.{
  none, some, ◌&&◌, true, false, [], ◌∷◌, refl, inr, inl, Bool-cases, ◌||◌, false≢true, true, ◌≡◌,
  List, not, Option, ◌==◌, false, Bool, String,
}
use rca_claude_agent.Agent.Loop.{
  unread_message, run_failure, at_start, read_message, answer, looks_like_verdict, RunResult,
  Progress, conclude, result_message, run_agent, consume, Stream, AgentMessage,
}

-- a result that is no success: its subtype is another than "success", or it is marked as an error
abbrev pub is_failure : AgentMessage → Bool
is_failure (result_message none text is_error) = is_error
is_failure (result_message (some subtype) text is_error) = not (subtype == "success") || is_error
is_failure _ = false

is_failure_lem :
    (subtype : Option String) (text : String) (is_error : Bool)
    → is_failure (result_message subtype text is_error) ≡ (not (is_success subtype) || is_error)
is_failure_lem none text is_error = refl
is_failure_lem (some subtype) text is_error = refl

-- a failure comes before the budget is over
abbrev pub fails_in_time : Stream → Bool
fails_in_time [] = false
fails_in_time ((m, over) ∷ ms) = is_failure m || (not over && fails_in_time ms)

abbrev pub is_agent_error : {A : Type 0} → Outcome A → Bool
is_agent_error (raised type text) = type == "AgentRunError"
is_agent_error (returned a) = false

consume-fails :
    (ms : Stream) (end_ : Option (String × String)) (p : Progress)
    → fails_in_time ms ≡ true
    → is_agent_error (consume ms end_ p) ≡ true
unfolding consume read_message run_failure
consume-fails [] end_ p h = absurd (false≢true h)
consume-fails ((answer bs, true) ∷ ms) end_ p h = absurd (false≢true h)
consume-fails ((answer bs, false) ∷ ms) end_ p h = consume-fails ms end_ _ h
consume-fails ((unread_message, true) ∷ ms) end_ p h = absurd (false≢true h)
consume-fails ((unread_message, false) ∷ ms) end_ p h = consume-fails ms end_ p h
consume-fails ((result_message subtype text is_error, true) ∷ ms) end_ p h =
    elim (Bool-cases (not (is_success subtype) || is_error)) [
      | inl failed ↦ rw failed refl
      | inr fine ↦ absurd (false≢true (rw (is_failure_lem subtype text is_error, fine) at h))
    ]
consume-fails ((result_message subtype text is_error, false) ∷ ms) end_ p h =
    elim (Bool-cases (not (is_success subtype) || is_error)) [
      | inl failed ↦ rw failed refl
      | inr fine ↦
          rw fine (consume-fails ms end_ _ (rw (is_failure_lem subtype text is_error, fine) at h))
    ]

-- what a run returned: a text that looks like a verdict
abbrev pub IsVerdict : (String → Option (List String)) → Outcome RunResult → Type 0
IsVerdict keys (raised type text) = Unit
IsVerdict keys (returned r) = looks_like_verdict keys r.0 ≡ true

conclude_error :
    (keys : String → Option (List String)) (o : Outcome Progress)
    → is_agent_error o ≡ true
    → is_agent_error (conclude keys o) ≡ true
unfolding conclude
conclude_error keys (raised type text) h = h
conclude_error keys (returned p) h = absurd (false≢true h)

conclude-IsVerdict :
    (keys : String → Option (List String)) (o : Outcome Progress) → IsVerdict keys (conclude keys o)
unfolding conclude
conclude-IsVerdict keys (raised type text) = tt
conclude-IsVerdict keys (returned p) = elim (Bool-cases (looks_like_verdict keys p.final_text)) [
  | inl e ↦ rw (e, e) refl
  | inr e ↦ rw e tt
]

-- A result message that is no success is never passed on as a verdict: if one, that the turns ran
-- out included, comes before the time budget is over, the run raises an AgentRunError, whatever
-- text came before it, even a whole verdict, and however the stream ends. An exception of the
-- stream itself is not covered.
pub run_agent-fails :
    (keys : String → Option (List String)) (stream : Stream) (end_ : Option (String × String))
    → fails_in_time stream ≡ true
    → is_agent_error (run_agent keys stream end_) ≡ true
unfolding run_agent conclude
run_agent-fails keys stream end_ h =
    conclude_error keys (consume stream end_ at_start) (consume-fails stream end_ at_start h)

-- What a run returns holds a JSON object with a key of a verdict.
run_agent-IsVerdict :
    (keys : String → Option (List String)) (stream : Stream) (end_ : Option (String × String))
    → IsVerdict keys (run_agent keys stream end_)
unfolding run_agent
run_agent-IsVerdict keys stream end_ = conclude-IsVerdict keys _
