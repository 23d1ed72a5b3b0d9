-- ===== src/AppData/Mongo.antt =====
-- rca_agent/app_mongo.py: `query_mongo`.
use rca_claude_agent.AppData.Mask.{Masks}
use rca_claude_agent.AppData.Documents.{check_filter, Document, object, no_fields, mask_doc}
use rca_claude_agent.Review.World.{Outcome, returned, raised}
use rca_claude_agent.Prelude.{
  ◌=ℕ◌, map, not, min, length, ◌==◌, false, ◌<>◌, max, if◌then◌else◌, none, true, List, strip, some,
  cut, Bool, Option, ℕ, String,
}
use rca_claude_agent.Gitlab.Reads.{then_give}

-- the `find` that is run on the database
pub record Find : Type 0 where
  pub database : String
  pub collection : String
  pub filter : Document
  pub projection : Option Document
  pub limit : ℕ

-- What the query asks of the world: the environment's two variables; `json.loads`; whether pymongo
-- can be imported; the client's connection, with the name of its default database; and its `find`.
pub record Mongo : Type 0 where
  pub app_mongo_uri : String
  pub app_mongo_db : String
  pub loads : String → Outcome Document
  pub has_pymongo : Bool
  pub connect : Outcome (Unit {0})
  pub default_database : Outcome (Option String)
  pub find : Find → Outcome (List Document)

pub data MongoAnswer : Type 0 where
  mongo_error : String → MongoAnswer
  documents : (collection : String) (count : ℕ) → List Document → MongoAnswer

-- an answer, with the `find` that was run for it, if one was
abbrev pub Ran : Type 0
Ran = MongoAnswer × Option Find

-- `_DOC_CAP`
abbrev pub doc_cap : ℕ
doc_cap = 50

abbrev pub is_object : Document → Bool
is_object (object fs) = true
is_object _ = false

abbrev pub fails : String → Ran
fails e = (mongo_error e, none)

-- the error of an exception of pymongo
abbrev pub mongo_failure : String → String → String
unfolding cut
mongo_failure type text =
    if type == "ExecutionTimeout"
    then "query exceeded the time limit — the filter is too broad for this collection. Narrow it with an indexed field (e.g. gstin + ret_period, or reference_id) and retry."
    else "Mongo query failed: " <> type <> ": " <> cut 200 text

-- the documents that are found, masked
unfoldable pub found_documents : Masks → String → Outcome (List Document) → MongoAnswer
unfolding mask_doc mongo_failure
found_documents M collection (raised type text) = mongo_error (mongo_failure type text)
found_documents M collection (returned ds) = documents collection (length ds) (map (mask_doc M) ds)

unfoldable pub run_find : Masks → Mongo → Find → Ran
unfolding found_documents
run_find M W f = (found_documents M f.collection (W.find f), some f)

-- the database's name, or that of the client's default
abbrev pub named_database : Mongo → String → Outcome (Option String)
named_database W name = if name == "" then W.default_database else returned (some name)

-- with the connection and the database
unfoldable pub in_database :
    Masks → Mongo → (String → Find) → Outcome (Unit {0}) → Outcome (Option String) → Ran
unfolding run_find mongo_failure
in_database M W find (raised type text) db = fails (mongo_failure type text)
in_database M W find (returned u) (raised type text) = fails (mongo_failure type text)
in_database M W find (returned u) (returned none) =
    fails "no database specified — set APP_MONGO_DB or pass database"
in_database M W find (returned u) (returned (some db)) = run_find M W (find db)

-- `max(1, min(int(limit or 20), _DOC_CAP))`, of a limit that is not negative: for a negative one the
-- code gives 1
abbrev pub capped : ℕ → ℕ
capped limit = max 1 (min (if limit =ℕ 0 then 20 else limit) doc_cap)

-- what `_check_filter` says
unfoldable pub checked_filter :
    Masks
    → Mongo
    → (collection database : String) → ℕ
    → Document
    → Option Document
    → Option String
    → Ran
unfolding in_database strip
checked_filter M W collection database limit filter projection (some op) =
    fails ("rejected: operator " <> op <> " is not allowed")
checked_filter M W collection database limit filter projection none =
    let name = strip (if database == "" then W.app_mongo_db else database) in
    if not W.has_pymongo
    then fails "pymongo not installed (pip install pymongo)"
    else in_database M W
        (λ db. record {
          database = db;
          collection = collection;
          filter = filter;
          projection = projection;
          limit = capped limit;
        })
        W.connect (named_database W name)

-- with the filter and the projection
unfoldable pub with_filter :
    Masks
    → Mongo
    → (collection database : String) → ℕ
    → Outcome Document
    → Outcome (Option Document)
    → Ran
unfolding checked_filter check_filter
with_filter M W collection database limit (raised type e) projection =
    fails ("invalid JSON in filter/projection: " <> e)
with_filter M W collection database limit (returned filter) (raised type e) =
    fails ("invalid JSON in filter/projection: " <> e)
with_filter M W collection database limit (returned filter) (returned projection) =
    if not (is_object filter)
    then fails "filter must be a JSON object"
    else checked_filter M W collection database limit filter projection (check_filter filter)

unfoldable pub load_filter : Mongo → String → Outcome Document
unfolding strip
load_filter W s = if strip s == "" then returned (object no_fields) else W.loads s

unfoldable pub load_projection : Mongo → String → Outcome (Option Document)
unfolding strip
load_projection W s = if strip s == "" then returned none else then_give (W.loads s) some

-- `_not_configured`
abbrev pub not_configured : String
not_configured = "MongoDB not configured — set APP_MONGO_URI in .env (point it at a READ-ONLY user)"

-- `query_mongo`
unfoldable pub query_mongo :
    Masks
    → Mongo
    → (collection filter_str projection_str : String) → (limit : ℕ) → (database : String) → Ran
unfolding with_filter load_filter load_projection strip
query_mongo M W collection filter_str projection_str limit database =
    if strip W.app_mongo_uri == ""
    then fails not_configured
    else with_filter M W collection database limit (load_filter W filter_str)
        (load_projection W projection_str)
