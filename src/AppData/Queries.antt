-- ===== src/AppData/Queries.antt =====
-- rca_agent/app_mongo.py: what `query_mongo` runs, and what it lets through.
use rca_claude_agent.AppData.Mask.{Masks}
use rca_claude_agent.AppData.Documents.{
  check_fields, check_items, or_in, forbidden_ops, check_filter, Document, Items, Fields, null, str,
  atom, array, object, no_items, item, no_fields, field,
}
use rca_claude_agent.Review.World.{Outcome, returned, raised}
use rca_claude_agent.Prelude.{
  arith, ◌==◌, true, strip, not, is_some, ℕ, if◌then◌else◌, ap, sym, Bool, inr, false≢true, inl,
  Bool-cases, refl, ◌≤◌, ◌≢◌, some, none, false, find, ◌≡◌, String, Option, contains,
}
use rca_claude_agent.AppData.Mongo.{
  load_projection, load_filter, is_object, fails, Mongo, run_find, Ran, query_mongo, with_filter,
  checked_filter, in_database, Find,
}

-- no operator of the list stands anywhere in the document, at any depth
unfoldable mutual
  pub IsAllowed : Document → Type 0
  IsAllowed null = Unit
  IsAllowed (str s) = Unit
  IsAllowed (atom s) = Unit
  IsAllowed (array xs) = AllowedItems xs
  IsAllowed (object fs) = AllowedFields fs

  pub AllowedItems : Items → Type 0
  AllowedItems no_items = Unit
  AllowedItems (item x xs) = IsAllowed x × AllowedItems xs

  pub AllowedFields : Fields → Type 0
  AllowedFields no_fields = Unit
  AllowedFields (field k v fs) =
      (contains forbidden_ops k ≡ false) × (IsAllowed v × AllowedFields fs)

some-no_none : (k : String) → some k ≢ none
some-no_none k h = false≢true (sym (ap is_some h))

or_in-none : (a b : Option String) → or_in a b ≡ none → (a ≡ none) × (b ≡ none)
or_in-none none b h = (refl, h)
or_in-none (some k) b h = absurd (some-no_none k h)

mutual
  unfolding check_filter IsAllowed

  check_filter-IsAllowed : (d : Document) → check_filter d ≡ none → IsAllowed d
  check_filter-IsAllowed null h = tt
  check_filter-IsAllowed (str s) h = tt
  check_filter-IsAllowed (atom s) h = tt
  check_filter-IsAllowed (array xs) h = check_items-IsAllowed xs h
  check_filter-IsAllowed (object fs) h = check_fields-IsAllowed fs h

  check_items-IsAllowed : (xs : Items) → check_items xs ≡ none → AllowedItems xs
  check_items-IsAllowed no_items h = tt
  check_items-IsAllowed (item x xs) h =
      let (e, es) = or_in-none (check_filter x) (check_items xs) h in
      (check_filter-IsAllowed x e, check_items-IsAllowed xs es)

  check_fields-IsAllowed : (fs : Fields) → check_fields fs ≡ none → AllowedFields fs
  check_fields-IsAllowed no_fields h = tt
  check_fields-IsAllowed (field k v fs) h = elim (Bool-cases (contains forbidden_ops k)) [
    | inl bad ↦ absurd (some-no_none k (rw bad at h))
    | inr fine ↦
        let (e, es) = or_in-none (check_filter v) (check_fields fs) (rw fine at h) in
        (fine, (check_filter-IsAllowed v e, check_fields-IsAllowed fs es))
  ]

-- a `find` with an allowed filter and a limit within the cap
abbrev pub IsGuarded : Option Find → Type 0
IsGuarded none = Unit
IsGuarded (some f) = IsAllowed f.filter × ((1 ≤ f.limit) × (f.limit ≤ 50))

if-IsGuarded :
    (b : Bool) (x y : Ran) → IsGuarded x.1 → IsGuarded y.1 → IsGuarded (if b then x else y).1
if-IsGuarded true x y hx hy = hx
if-IsGuarded false x y hx hy = hy

in_database-IsGuarded :
    (M : Masks) (W : Mongo) (find : String → Find) (c : Outcome (Unit {0}))
    (db : Outcome (Option String))
    → ((name : String) → IsGuarded (some (find name)))
    → IsGuarded (in_database M W find c db).1
unfolding in_database run_find
in_database-IsGuarded M W find (raised type text) db h = tt
in_database-IsGuarded M W find (returned u) (raised type text) h = tt
in_database-IsGuarded M W find (returned u) (returned none) h = tt
in_database-IsGuarded M W find (returned u) (returned (some db)) h = h db

checked_filter-IsGuarded :
    (M : Masks) (W : Mongo) (collection database : String) (limit : ℕ) (filter : Document)
    (projection : Option Document) (o : Option String)
    → check_filter filter ≡ o
    → IsGuarded (checked_filter M W collection database limit filter projection o).1
unfolding checked_filter
checked_filter-IsGuarded M W collection database limit filter projection (some op) h = tt
checked_filter-IsGuarded M W collection database limit filter projection none h =
    if-IsGuarded (not W.has_pymongo) (fails _) _ tt (
      in_database-IsGuarded M W _ W.connect _
        (λ name. (check_filter-IsAllowed filter h, (ground arith, ground arith))))

with_filter-IsGuarded :
    (M : Masks) (W : Mongo) (collection database : String) (limit : ℕ) (f : Outcome Document)
    (p : Outcome (Option Document))
    → IsGuarded (with_filter M W collection database limit f p).1
unfolding with_filter
with_filter-IsGuarded M W collection database limit (raised type e) p = tt
with_filter-IsGuarded M W collection database limit (returned f) (raised type e) = tt
with_filter-IsGuarded M W collection database limit (returned f) (returned p) =
    if-IsGuarded (not (is_object f)) (fails _) _ tt
      (checked_filter-IsGuarded M W collection database limit f p (check_filter f) refl)

-- Whatever `query_mongo` is called with, a `find` that it runs has no operator of `_FORBIDDEN_OPS` in
-- its filter, at any depth, and asks for at least one document and at most fifty.
pub query_mongo-IsGuarded :
    (M : Masks) (W : Mongo) (collection filter_str projection_str : String) (limit : ℕ)
    (database : String)
    → IsGuarded (query_mongo M W collection filter_str projection_str limit database).1
unfolding query_mongo
query_mongo-IsGuarded M W collection filter_str projection_str limit database =
    if-IsGuarded (strip W.app_mongo_uri == "") (fails _) _ tt (
      with_filter-IsGuarded M W collection database limit (load_filter W filter_str)
        (load_projection W projection_str))
