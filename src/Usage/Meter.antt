-- ===== src/Usage/Meter.antt =====
-- rca_agent/usage.py: `RunUsage`, the meter that every message of a run is fed to.
use rca_claude_agent.Prelude.{
  contains, ◌||◌, not, ◌*◌, none, ◌&&◌, ltb, false, ◌==◌, starts_with, [], is_none, true, ◌=ℕ◌,
  some, find, ◌∷◌, Bool, if◌then◌else◌, ◌+◌, List, Option, ℕ, String,
}

-- The four token counts of a message's `usage`; a count that is left out is 0.
pub record Tokens : Type 0 where
  pub input : ℕ
  pub output : ℕ
  pub cache_read : ℕ
  pub cache_write : ℕ

-- A message of the SDK's stream: `AssistantMessage`, `ResultMessage`, or any other. `model_usage`
-- has the output tokens of each model. Costs are in hundredths of a millionth of a dollar.
pub data Message : Type 0 where
  assistant : Option String → Option Tokens → Option String → Message
  result : Option Tokens → List (String × ℕ) → Option ℕ → ℕ → ℕ → Message
  other : Message

pub data CostSource : Type 0 where
  unobserved sdk estimated : CostSource

pub record RunUsage : Type 0 where
  pub model : String
  pub tokens : Tokens
  pub cost_usd : Option ℕ
  pub cost_source : CostSource
  pub num_turns : ℕ
  pub duration_ms : ℕ
  pub seen : List String
  pub final : Bool

-- `PRICES`, in cents for a million tokens, by the prefix of the model's id, the longest first
abbrev pub prices : List (String × (ℕ × ℕ × ℕ × ℕ))
prices =
    ("claude-opus-5-5", (400, 2000, 20, 500))
    ∷ ("claude-sonnet-5", (200, 1000, 20, 250))
    ∷ ("claude-fable-5", (1000, 5000, 25, 1250))
    ∷ ("claude-sonnet", (300, 1500, 30, 375))
    ∷ ("claude-haiku", (100, 500, 10, 125))
    ∷ ("claude-opus", (500, 2500, 50, 625))
    ∷ []

-- `_price`
unfoldable pub price : String → Option (ℕ × ℕ × ℕ × ℕ)
price model = elim (find (λ p. starts_with model p.0) prices) [ none ↦ none | some p ↦ some p.1 ]

unfoldable pub estimate_cost : String → Tokens → Option ℕ
unfolding price
estimate_cost model t = elim (price model) [
  | none ↦ none
  | some (a, b, c, d) ↦ some (t.input * a + t.output * b + t.cache_read * c + t.cache_write * d)
]

abbrev add_tokens : Tokens → Tokens → Tokens
add_tokens a b = record {
  input = a.input + b.input;
  output = a.output + b.output;
  cache_read = a.cache_read + b.cache_read;
  cache_write = a.cache_write + b.cache_write;
}

-- `x or y` of a text and of a number
abbrev or_text : Option String → String → String
or_text none old = old
or_text (some s) old = if s == "" then old else s

abbrev or_number : ℕ → ℕ → ℕ
or_number n old = if n =ℕ 0 then old else n

-- the message is counted already
abbrev is_seen : RunUsage → Option String → Bool
is_seen u none = false
is_seen u (some id) = not (id == "") && contains u.seen id

abbrev mark_seen : Option String → List String → List String
mark_seen none seen = seen
mark_seen (some id) seen = if id == "" then seen else id ∷ seen

abbrev count_tokens : Option Tokens → Option String → RunUsage → RunUsage
count_tokens none id u = u
count_tokens (some t) id u = if is_seen u id then u else record u {
  tokens = add_tokens u.tokens t;
  num_turns = u.num_turns + 1;
  seen = mark_seen id u.seen;
}

-- `max(model_usage, key=…)`: the first of the largest
abbrev main_model : String × ℕ → List (String × ℕ) → String
main_model best [] = best.0
main_model best (m ∷ ms) =
    let a = main_model m ms in let b = main_model best ms in if ltb best.1 m.1 then a else b

abbrev run_model : List (String × ℕ) → String → String
run_model [] old = old
run_model (m ∷ ms) old = main_model m ms

abbrev sdk_source : Option ℕ → CostSource → CostSource
sdk_source none old = old
sdk_source (some c) old = sdk

abbrev or_else {ℓ} : {A : Type ℓ} → Option A → A → A
or_else none old = old
or_else (some a) old = a

abbrev or_cost : Option ℕ → Option ℕ → Option ℕ
or_cost none old = old
or_cost (some c) old = some c

-- `_observe`
unfoldable pub observe : Message → RunUsage → RunUsage
observe (assistant model usage id) u =
    if u.final then u else count_tokens usage id (record u { model = or_text model u.model })
observe (result usage models cost turns duration) u = record u {
  tokens = or_else usage u.tokens;
  model = run_model models u.model;
  cost_usd = or_cost cost u.cost_usd;
  cost_source = sdk_source cost u.cost_source;
  num_turns = or_number turns u.num_turns;
  duration_ms = or_number duration u.duration_ms;
  final = true;
}
observe other u = u

unfoldable pub observe_all : List Message → RunUsage → RunUsage
observe_all [] u = u
observe_all (m ∷ ms) u = observe_all ms (observe m u)

-- `finish`, with the milliseconds since the start
unfoldable pub finish : ℕ → RunUsage → RunUsage
unfolding estimate_cost
finish elapsed u =
    let timed : RunUsage = record u { duration_ms = or_number u.duration_ms elapsed } in
    if is_none u.cost_usd && (ltb 0 u.tokens.input || ltb 0 u.tokens.output)
    then elim (estimate_cost u.model u.tokens) [
      | none ↦ timed
      | some c ↦ record timed { cost_usd = some c; cost_source = estimated }
    ]
    else timed
