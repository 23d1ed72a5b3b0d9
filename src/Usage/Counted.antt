-- ===== src/Usage/Counted.antt =====
-- rca_agent/usage.py: a message is counted once.
use rca_claude_agent.Usage.Meter.{
  result, assistant, observe, observe_all, Message, RunUsage, Tokens, other,
}
use rca_claude_agent.Prelude.{
  [], ◌∷◌, refl, eq_refl, none, ◌==◌, arith, true, some, ◌≡◌, false, Bool, ◌||◌, contains, List,
  Option, String,
}

-- a message with this id is counted, or the run's result came and none is any more
is_counted : String → RunUsage → Bool
is_counted id u = u.final || contains u.seen id

observe-is_counted :
    (id : String) (m : Message) (u : RunUsage)
    → is_counted id u ≡ true
    → is_counted id (observe m u) ≡ true
unfolding observe is_counted
observe-is_counted id (assistant model none i) u h = ground arith
observe-is_counted id (assistant model (some t) none) u h = ground arith
observe-is_counted id (assistant model (some t) (some i)) u h = ground arith
observe-is_counted id (result usage models cost turns duration) u h = refl
observe-is_counted id other u h = h

observe_all-is_counted :
    (id : String) (ms : List Message) (u : RunUsage)
    → is_counted id u ≡ true
    → is_counted id (observe_all ms u) ≡ true
unfolding observe_all
observe_all-is_counted id [] u h = h
observe_all-is_counted id (m ∷ ms) u h =
    observe_all-is_counted id ms (observe m u) (observe-is_counted id m u h)

first-is_counted :
    (id : String) (model : Option String) (t : Tokens) (u : RunUsage)
    → (id == "") ≡ false
    → is_counted id (observe (assistant model (some t) (some id)) u) ≡ true
unfolding observe is_counted
first-is_counted id model t u h = ground (arith, eq_refl id)

-- the meters count alike: all is equal but the name of the model
abbrev pub CountsAlike : RunUsage → RunUsage → Type 0
CountsAlike u v =
    (u.tokens ≡ v.tokens)
    × (u.num_turns ≡ v.num_turns)
    × (u.seen ≡ v.seen)
    × (u.cost_usd ≡ v.cost_usd)
    × (u.cost_source ≡ v.cost_source)
    × (u.duration_ms ≡ v.duration_ms)
    × (u.final ≡ v.final)

counted-CountsAlike :
    (id : String) (model : Option String) (usage : Option Tokens) (u : RunUsage)
    → (id == "") ≡ false
    → is_counted id u ≡ true
    → CountsAlike (observe (assistant model usage (some id)) u) u
unfolding observe is_counted
counted-CountsAlike id model none u n h = (
  ground arith,
  ground arith,
  ground arith,
  ground arith,
  ground arith,
  ground arith,
  ground arith,
)
counted-CountsAlike id model (some t) u n h = (
  ground arith,
  ground arith,
  ground arith,
  ground arith,
  ground arith,
  ground arith,
  ground arith,
)

-- The parts of one answer of the assistant count once: after a message with a usage and an id that
-- is not empty was fed to the meter, and any messages after it, another message of the assistant
-- with that id, whatever its model and its usage, leaves the tokens, the turns, the ids seen, the
-- cost, the time and whether the run is over as they are. The name of the model may change.
pub observe_again :
    (id : String) (model model' : Option String) (t : Tokens) (usage : Option Tokens)
    (between : List Message) (u : RunUsage)
    → (id == "") ≡ false
    → let later = observe_all between (observe (assistant model (some t) (some id)) u) in
      CountsAlike (observe (assistant model' usage (some id)) later) later
observe_again id model model' t usage between u n =
    counted-CountsAlike id model' usage _ n
      (observe_all-is_counted id between _ (first-is_counted id model t u n))
