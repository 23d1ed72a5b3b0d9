-- ===== src/Usage/Tests.antt =====
-- A run of two answers, the first in two parts.
use rca_claude_agent.Usage.Meter.{
  price, estimate_cost, observe_all, Message, CostSource, observe, finish, RunUsage,
}
use rca_claude_agent.Prelude.{refl, false, ◌∷◌, some, [], ◌≡◌, none, String}
use rca_claude_agent.Usage.Counted.{observe_again, CountsAlike}

abbrev empty_meter : RunUsage
empty_meter = record {
  model = "";
  tokens = record { input = 0; output = 0; cache_read = 0; cache_write = 0 };
  cost_usd = none;
  cost_source = CostSource.unobserved;
  num_turns = 0;
  duration_ms = 0;
  seen = [];
  final = false;
}

abbrev answer : String → Message
answer id =
    Message.assistant (some "claude-haiku-4")
      (some (record { input = 10; output = 5; cache_read = 2; cache_write = 1 })) (some id)

abbrev metered : RunUsage
metered = finish 900 (observe_all (answer "m1" ∷ answer "m1" ∷ answer "m2" ∷ []) empty_meter)

metered_cost : metered.cost_usd ≡ some 7290
unfolding finish observe_all observe estimate_cost price
metered_cost = refl

abbrev before_again : RunUsage
before_again = observe_all (answer "m2" ∷ []) (observe (answer "m1") empty_meter)

observe_again_example :
    CountsAlike
      (observe
        (Message.assistant
          (some "claude-opus-5")
          (some (record { input = 900; output = 5; cache_read = 2; cache_write = 1 }))
          (some "m1"))
        before_again)
      before_again
observe_again_example =
    observe_again "m1" (some "claude-haiku-4") (some "claude-opus-5")
      (record { input = 10; output = 5; cache_read = 2; cache_write = 1 })
      (some (record { input = 900; output = 5; cache_read = 2; cache_write = 1 }))
      (answer "m2" ∷ []) empty_meter refl
