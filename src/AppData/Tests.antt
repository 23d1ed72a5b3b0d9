-- ===== src/AppData/Tests.antt =====
-- The queries at concrete databases, and the theorems of AppData at them.
use rca_claude_agent.AppData.Documents.{
  mask_doc, no_items, item, no_fields, array, str, field, object, check_filter, Document,
}
use rca_claude_agent.AppData.Mask.{mask_value, is_pii_column, Masks}
use rca_claude_agent.Review.World.{returned}
use rca_claude_agent.Prelude.{
  ◌&&◌, ◌==◌, if◌then◌else◌, Bool, rstrip, lstrip, strip, some, ◌∷◌, none, inl, refl, inr, false,
  true, ◌≡◌, lower, String, [],
}
use rca_claude_agent.AppData.Mongo.{
  documents, found_documents, run_find, in_database, checked_filter, with_filter, load_projection,
  load_filter, Mongo, query_mongo,
}
use rca_claude_agent.AppData.Queries.{query_mongo-IsGuarded, IsGuarded}
use rca_claude_agent.AppData.Secrecy.{query_mongo-secret, AlikeFound, Alike}

-- no regular expression matches
abbrev masks : Masks
masks = record {
  extra = [];
  sub_gstin = λ f s. s;
  sub_pan = λ f s. s;
  sub_aadhaar = λ f s. s;
  sub_phone = λ f s. s;
  sub_email = λ f s. s;
  sub_ipv4 = λ f s. s;
}

-- a user of an organisation
abbrev user : String → Document
user email = object (
    field "status" (str "open")
      (field "owner" (object (field "email" (str email) no_fields)) no_fields))

-- `{"status": "open"}`
abbrev asks_open : Document → Bool
asks_open (object (field k (str s) no_fields)) = (k == "status") && (s == "open")
asks_open _ = false

abbrev mongo : String → Mongo
mongo email = record {
  app_mongo_uri = "mongodb://ro";
  app_mongo_db = "app";
  loads = λ s. returned (object (field "status" (str "open") no_fields));
  has_pymongo = true;
  connect = returned tt;
  default_database = returned none;
  find =
      λ f. returned (if f.collection == "users" && asks_open f.filter then user email ∷ [] else []);
}

masked_email :
    (query_mongo masks (mongo "a@b.in") "users" "{..}" "" 0 "").0
    ≡ documents "users" 1 (user "<present>" ∷ [])
unfolding query_mongo load_filter load_projection with_filter checked_filter check_filter
    in_database run_find found_documents mask_doc mask_value is_pii_column strip lstrip rstrip lower
masked_email = refl

refused_operator :
    check_filter (
      object
        (field "a" (array (item (object (field "$where" (str "1") no_fields)) no_items)) no_fields))
    ≡ some "$where"
unfolding check_filter
refused_operator = refl

query_mongo-IsGuarded_example :
    IsGuarded (query_mongo masks (mongo "a@b.in") "users" "{..}" "" 0 "").1
query_mongo-IsGuarded_example = query_mongo-IsGuarded masks (mongo "a@b.in") "users" "{..}" "" 0 ""

email_is_pii : is_pii_column masks "email" ≡ true
unfolding is_pii_column lower
email_is_pii = refl

owner_is_not : is_pii_column masks "owner" ≡ false
unfolding is_pii_column lower
owner_is_not = refl

status_is_not : is_pii_column masks "status" ≡ false
unfolding is_pii_column lower
status_is_not = refl

user-Alike : Alike masks (user "a@b.in") (user "c@d.in")
unfolding Alike
user-Alike = (
  refl,
  (
    inr (status_is_not, refl),
    (refl, (inr (owner_is_not, (refl, (inl (email_is_pii, refl), tt))), tt)),
  ),
)

found-AlikeFound :
    (b : Bool)
    → AlikeFound masks
        (returned (if b then user "a@b.in" ∷ [] else []))
        (returned (if b then user "c@d.in" ∷ [] else []))
found-AlikeFound true = (user-Alike, tt)
found-AlikeFound false = tt

query_mongo-secret_example :
    query_mongo masks (mongo "a@b.in") "users" "{..}" "" 5 ""
    ≡ query_mongo masks (mongo "c@d.in") "users" "{..}" "" 5 ""
query_mongo-secret_example =
    query_mongo-secret masks (mongo "a@b.in") ((mongo "c@d.in").find) "users" "{..}" "" 5 ""
      (λ f e. found-AlikeFound _)
