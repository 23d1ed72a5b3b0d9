-- ===== src/Agent/Daemon.antt =====
-- rca_agent/daemon.py: one sweep of the daemon. Its log is left out.
use rca_claude_agent.Review.World.{Outcome, returned, raised}
use rca_claude_agent.Verdict.Schema.{Verdict}
use rca_claude_agent.Verdict.Verify.{
  downgraded_confidence, verify_verdict, as_note, Checks, Sources,
}
use rca_claude_agent.Prelude.{
  ◌<>◌, [], strip, refl, ◌∙◌, keep, suc, lower, take, ◌∷◌, true, ◌==◌, ◌≡◌, ℕ, false, if◌then◌else◌,
  Option, not, any, List, Bool, String,
}
use rca_claude_agent.Tickets.Issue.{flatten_adf, AdfNode}
use rca_claude_agent.Graph.Search.{occurs_in}
use rca_claude_agent.Agent.Parse.{VerdictDict}
use rca_claude_agent.Fix.Answer.{is_cons}
use rca_claude_agent.Agent.Verdicts.{parse_verdict}

-- an issue of a search: its key and the bodies of its comments
pub record FoundIssue : Type 0 where
  pub key : String
  pub bodies : List AdfNode

-- `already_processed`
unfoldable pub already_processed : FoundIssue → Bool
already_processed i = any (λ b. occurs_in "automated rca" (lower (flatten_adf b))) i.bodies

-- `_should_post`; the modes are "dry", "gated" and "all"
unfoldable pub should_post : (v : Verdict) (post_mode : String) → Bool
should_post v post_mode = not (post_mode == "dry")

-- What a sweep asks of the world, over any state of the Jira site: the search, the text of a ticket
-- without the RCAs posted before, the agent's run, `json.loads`, what a verification asks, and the
-- post of a verdict.
pub record Daemon (S : Type 0) : Type 0 where
  pub has_jira : Bool
  pub search : String → Outcome (List FoundIssue)
  pub get : String → Outcome (String × String)
  pub run : (ticket_key ticket_text : String) → Outcome String
  pub loads : String → Option VerdictDict
  pub sources : Sources
  pub post_verdict : String → Verdict → S → Outcome (Unit {0}) × S

-- the verdict with the note of its verification, and its confidence
unfoldable pub noted : Checks → Verdict → Verdict
noted checks v =
    if is_cons checks
    then record v {
      notes = if v.notes == "" then as_note checks else strip (v.notes <> "\n\n" <> as_note checks);
      confidence = downgraded_confidence checks v.confidence;
    }
    else v

module _ {S : Type 0} where
  abbrev pub posted : Outcome (Unit {0}) × S → Bool × S
  posted (raised type text, site) = (false, site)
  posted (returned u, site) = (true, site)

  -- from the agent's output on: whether the ticket counts as done
  unfoldable pub finish_ticket :
      Daemon S → (post_mode key ticket_key : String) → Outcome String → S → Bool × S
  finish_ticket D post_mode key ticket_key (raised type text) site = (false, site)
  finish_ticket D post_mode key ticket_key (returned raw) site =
      let v = parse_verdict D.loads raw ticket_key in
      let checked = noted (verify_verdict D.sources v) v in
      if should_post checked post_mode
      then posted (D.post_verdict key checked site)
      else (true, site)

  unfoldable pub with_ticket :
      Daemon S → (post_mode key : String) → Outcome (String × String) → S → Bool × S
  with_ticket D post_mode key (raised type text) site = (false, site)
  with_ticket D post_mode key (returned (ticket_key, ticket_text)) site =
      finish_ticket D post_mode key ticket_key (D.run ticket_key ticket_text) site

  -- the loop over the tickets: an exception ends its ticket only
  unfoldable pub process : Daemon S → (post_mode : String) → List FoundIssue → S → ℕ × S
  process D post_mode [] site = (0, site)
  process D post_mode (i ∷ is) site =
      let one = with_ticket D post_mode i.key (D.get i.key) site in
      let rest = process D post_mode is one.1 in ((if one.0 then suc rest.0 else rest.0), rest.1)

  abbrev pub swept :
      Daemon S → (post_mode : String) → ℕ → Outcome (List FoundIssue) → S → Outcome ℕ × S
  swept D post_mode max_tickets (raised type text) site = (raised type text, site)
  swept D post_mode max_tickets (returned issues) site =
      let todo = take max_tickets (keep (λ i. not (already_processed i)) issues) in
      let done = process D post_mode todo site in (returned done.0, done.1)

  -- `poll_once`
  unfoldable pub poll_once : Daemon S → (jql post_mode : String) → ℕ → S → Outcome ℕ × S
  poll_once D jql post_mode max_tickets site =
      if not D.has_jira
      then (returned 0, site)
      else swept D post_mode max_tickets (D.search jql) site

  with_ticket-dry :
      (D : Daemon S) (key : String) (o : Outcome (String × String)) (site : S)
      → (with_ticket D "dry" key o site).1 ≡ site
  unfolding with_ticket finish_ticket should_post
  with_ticket-dry D key (raised type text) site = refl
  with_ticket-dry D key (returned (k, t)) site = finish (D.run k t)
    where
      finish : (o : Outcome String) → (finish_ticket D "dry" key k o site).1 ≡ site
      finish (raised type text) = refl
      finish (returned raw) = refl

  -- A dry sweep leaves Jira as it is.
  process-dry :
      (D : Daemon S) (is : List FoundIssue) (site : S) → (process D "dry" is site).1 ≡ site
  unfolding process
  process-dry D [] site = refl
  process-dry D (i ∷ is) site = process-dry D is _ ∙ with_ticket-dry D i.key (D.get i.key) site
