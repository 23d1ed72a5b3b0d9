-- ===== src/Lib.antt =====
-- A model of the core of rca-claude-agent: the web application in which an automatic root cause
-- analysis (RCA) of a Jira ticket is run, reviewed and posted.
--
-- Parts, and where they are modelled:
--  * Store (Store/*.antt) is rca_agent/webapp/db.py: the table `reviews`, one row for each ticket,
--    and every function that writes it. A function of the file keeps its name here; `claim_running`,
--    `claim_auto_run` and `start_job` give back the table and whether they changed a row. Store/Row
--    holds the columns, Store/Table the SQL that the functions use, Store/Reviews and Store/Jobs the
--    functions. Store/History names each of them by an operation, runs lists of operations, and
--    states the specification: the function of one row that each implements.
--  * Review (Review/*.antt) is rca_agent/webapp/app.py: the endpoints that start, decide, draft, post,
--    withdraw and reset, which are handlers over the table, the Jira site and the threads that they
--    start, and which may raise an HTTPException; and the threads that post to Jira.
--  * Autorun (Autorun/*.antt) is rca_agent/webapp/autorun.py: the settings and their update, the
--    eligibility of a ticket (Autorun/Rules; Autorun/Eligible says what makes a ticket eligible without
--    the code's tests), and one poll, `Poller.tick`.
--  * Review/Run is the thread `_run_rca_background` of app.py, from the end of the agent's run, and
--    Review/Jobs the thread of a fix suggestion and the endpoints that poll.
--  * Verdict (Verdict/*.antt) is rca_agent/schema.py, the verdict with its label and its text, and
--    rca_agent/verify.py, the verification of its claims, which may lower its confidence
--    (Verdict/Verify; Verdict/Asked says which verdicts have a claim to ask GitLab about).
--  * Graph (Graph/*.antt) is the queries of `RepoGraph` in rca_agent/graph.py, and the edges that
--    `build_graph_from_sources` makes of the calls it found. Graph/Reach says what it
--    is to reach a symbol by a chain of calls.
--  * Trace (Trace/*.antt) is rca_agent/stack_trace.py, and Usage (Usage/*.antt) rca_agent/usage.py.
--  * Fix (Fix/*.antt) is rca_agent/fix_agent.py and rca_agent/fix_mr.py: the prompt of the fix agent,
--    the parse of its answer, the edits applied for the review (Fix/Edits, Fix/Build, Fix/Suggest), and
--    the requests by which `raise_mr` commits them and opens merge requests (Fix/Raise, Fix/Push), with
--    its endpoint in app.py (Fix/Endpoint).
--  * Gitlab (Gitlab/*.antt) is `RestGitLabClient` in rca_agent/gitlab_client.py: the reads of files,
--    blames, commits and merge requests, the loops over pages, and the default branches; and
--    `MockGitLabClient`, which reads recorded fixtures (Gitlab/Fixtures).
--  * AppData (AppData/*.antt) is rca_agent/app_db.py and rca_agent/app_mongo.py: the masks, the guards,
--    and the queries of the application's Postgres and MongoDB.
--  * Tickets (Tickets/*.antt) is rca_agent/tickets.py: an issue and its comments as a text.
--  * Agent (Agent/*.antt) is rca_agent/agent.py, from the model's messages to the verdict that is read
--    from its output (Agent/Loop, Agent/Verdicts), and rca_agent/investigation.py, the investigation
--    without a model (Agent/Trace, Agent/Investigate, Agent/Run); and rca_agent/daemon.py, one sweep of
--    the daemon (Agent/Daemon).
--
-- The parts share the table: the endpoints and the poller claim a ticket by an UPDATE whose rowcount
-- says who won, and the threads write their outcome back. The order of the operations of different
-- threads is a list of operations, in any order.
--
-- What the model takes as given: each function of db.py is one committed transaction; a handler of
-- Review runs with no other writer between its calls of the store; times are ticks of one clock; the
-- columns that hold JSON are its text, save the two whose value the code reads; and a text that
-- SQLite stores for an integer flag is a Bool. The Jira client is a parameter (Review/World): any
-- state of a site and any outcome of its three calls. In Review, `parse_verdict` and `is_qa_env` are
-- parameters, and so are the clones and the GitLab client that a verification asks, the JSON text of
-- a verdict, and what regular expressions find. The GitLab of Fix is a function of the requests sent
-- before and of the request, that of Gitlab a function for each endpoint; the model's messages,
-- `json.loads`, `compile` and `difflib` are parameters of Fix, and the drivers, `json.loads` and the
-- replacements of the regular expressions those of AppData. The score of a verification is compared
-- without a division, and a cost is a whole number of hundredths of a millionth of a dollar.
-- `decimal` has fuel for twenty digits, more than the numbers that it writes have: limits, counts,
-- minutes, iids, and statuses. The loops over the pages of a list in Gitlab/Pages run as long as the
-- server names a next page, so they have fuel: the number of pages is enough (Gitlab/Paging). No
-- other function needs fuel: the loops run over lists, or as many rounds as the source bounds them
-- by. Where a message of the source quotes a Python value (a list, or a text by its `repr`), the
-- message here leaves that value out. The poller's displayed state and its log are left out, and so
-- is a negative limit of `query_mongo`, for which the code takes 1.
--
-- Not modelled: the options and the prompt that the agent is started with, its tools, the Jira and
-- New Relic clients, the visitor that finds the nodes and the calls of the code graph, the ledger
-- and the cost statistics, the evaluation harness, and the scripts.
pub mod Prelude
pub mod Agent
pub mod AppData
pub mod Autorun
pub mod Fix
pub mod Gitlab
pub mod Graph
pub mod Review
pub mod Store
pub mod Tickets
pub mod Trace
pub mod Usage
pub mod Verdict
