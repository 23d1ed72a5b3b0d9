-- ===== src/Review/Samples.antt =====
-- A Jira site in memory, for the tests.
use rca_claude_agent.Prelude.{
  some, true, false, [], ◌==◌, if◌then◌else◌, Option, ◌∷◌, Bool, List, String,
}
use rca_claude_agent.Store.Samples.{table}
use rca_claude_agent.Review.World.{returned, raised, World, Jira, Outcome}

-- the comments that the site holds, and whether it is down
pub record Memory : Type 0 where
  pub comments : List (String × String)
  pub down : Bool

abbrev pub drop_comment : String → List (String × String) → List (String × String)
drop_comment id [] = []
drop_comment id (c ∷ cs) = let rest = drop_comment id cs in if c.0 == id then rest else c ∷ rest

abbrev pub put : String → Memory → Outcome (Option String) × Memory
put text m =
    if m.down
    then (raised "HTTPError" "503", m)
    else (returned (some "c9"), record m { comments = ("c9", text) ∷ m.comments })

abbrev pub memory : Jira String
memory = record {
  Site = Memory;
  post_verdict = λ key v m. put v m;
  delete_comment = λ key id m.
      if m.down
      then (raised "HTTPError" "503", m)
      else (returned tt, record m { comments = drop_comment id m.comments });
  add_comment = λ key text m. put text m;
}

abbrev pub up : World Memory
up = record {
  reviews = table;
  site = record { comments = ("c7", "the RCA") ∷ []; down = false };
  started = [];
}

abbrev pub unreachable : World Memory
unreachable = record up { site = record { comments = ("c7", "the RCA") ∷ []; down = true } }
