-- ===== src/AppData/Secrecy.antt =====
-- rca_agent/app_mongo.py: what the mask of a document lets through.
use rca_claude_agent.Review.World.{Outcome, returned, raised}
use rca_claude_agent.AppData.Mask.{mask_value, is_pii_column, Masks}
use rca_claude_agent.AppData.Documents.{
  check_filter, mask_doc, mask_items, mask_fields, presence, Document, Items, Fields, null, str,
  atom, array, object, no_items, item, no_fields, field,
}
use rca_claude_agent.Prelude.{
  Bool, sym, ◌∙◌, Bool-cases, not, [], ◌∷◌, suc, none, some, none, ◌==◌, strip, some, if◌then◌else◌,
  Option, ℕ, map, String, length, List, refl, inr, false, inl, ◌⊎◌, true, ap, ◌≡◌,
}
use rca_claude_agent.AppData.Mongo.{
  is_object, not_configured, load_projection, load_filter, fails, checked_filter, run_find,
  query_mongo, with_filter, Ran, capped, named_database, in_database, Find, Mongo, found_documents,
}

-- what may be told of a value under a PII name
pub data Told : Type 0 where
  absent blank present : Told

abbrev pub told : Document → Told
told null = absent
told (str s) = if s == "" then blank else present
told (atom s) = present
told (array no_items) = blank
told (array (item x xs)) = present
told (object no_fields) = blank
told (object (field k v fs)) = present

shown : Told → Document
shown absent = null
shown blank = str "<empty>"
shown present = str "<present>"

presence_lem : (d : Document) → presence d ≡ shown (told d)
unfolding shown
presence_lem null = refl
presence_lem (str s) = elim (Bool-cases (s == "")) [ inl e ↦ rw e refl | inr e ↦ rw e refl ]
presence_lem (atom s) = refl
presence_lem (array no_items) = refl
presence_lem (array (item x xs)) = refl
presence_lem (object no_fields) = refl
presence_lem (object (field k v fs)) = refl

presence-told : (v w : Document) → told v ≡ told w → presence v ≡ presence w
presence-told v w h = presence_lem v ∙ ap shown h ∙ sym (presence_lem w)

-- Two documents alike but for their PII: the same shape, names and other values, and under a PII name,
-- at any depth, values that are both null, both blank, or both present.
unfoldable mutual
  pub Alike : Masks → Document → Document → Type 0
  Alike M null null = Unit
  Alike M (str s) (str t) = s ≡ t
  Alike M (atom s) (atom t) = s ≡ t
  Alike M (array xs) (array ys) = AlikeItems M xs ys
  Alike M (object fs) (object gs) = AlikeFields M fs gs
  Alike M _ _ = ⊥

  pub AlikeItems : Masks → Items → Items → Type 0
  AlikeItems M no_items no_items = Unit
  AlikeItems M (item x xs) (item y ys) = Alike M x y × AlikeItems M xs ys
  AlikeItems M _ _ = ⊥

  pub AlikeFields : Masks → Fields → Fields → Type 0
  AlikeFields M no_fields no_fields = Unit
  AlikeFields M (field j v fs) (field k w gs) =
      (j ≡ k)
      × ((((is_pii_column M j ≡ true) × (told v ≡ told w))
            ⊎ ((is_pii_column M j ≡ false) × Alike M v w))
          × AlikeFields M fs gs)
  AlikeFields M _ _ = ⊥

mutual
  unfolding mask_doc Alike

  mask_doc-secret : (M : Masks) (d e : Document) → Alike M d e → mask_doc M d ≡ mask_doc M e
  mask_doc-secret M null null h = refl
  mask_doc-secret M (str s) (str t) h = ap (λ u. str (mask_value M u)) h
  mask_doc-secret M (atom s) (atom t) h = ap atom h
  mask_doc-secret M (array xs) (array ys) h = ap array (mask_items-secret M xs ys h)
  mask_doc-secret M (object fs) (object gs) h = ap object (mask_fields-secret M fs gs h)
  mask_doc-secret M _ _ h = absurd h

  mask_items-secret :
      (M : Masks) (xs ys : Items) → AlikeItems M xs ys → mask_items M xs ≡ mask_items M ys
  mask_items-secret M no_items no_items h = refl
  mask_items-secret M (item x xs) (item y ys) (h, hs) =
      cc (mask_doc-secret M x y h, mask_items-secret M xs ys hs)
  mask_items-secret M _ _ h = absurd h

  mask_fields-secret :
      (M : Masks) (fs gs : Fields) → AlikeFields M fs gs → mask_fields M fs ≡ mask_fields M gs
  mask_fields-secret M no_fields no_fields h = refl
  mask_fields-secret M (field j v fs) (field k w gs) (e, (inl (p, t), hs)) =
      let q = presence-told v w t in
      let rest = mask_fields-secret M fs gs hs in rw (← e, p) (cc (q, rest))
  mask_fields-secret M (field j v fs) (field k w gs) (e, (inr (p, h), hs)) =
      let rest = mask_fields-secret M fs gs hs in
      let value = mask_doc-secret M v w h in rw (← e, p) (cc (value, rest))
  mask_fields-secret M _ _ h = absurd h

-- lists of documents that are alike, one by one
abbrev pub AlikeAll : Masks → List Document → List Document → Type 0
AlikeAll M [] [] = Unit
AlikeAll M (d ∷ ds) (e ∷ es) = Alike M d e × AlikeAll M ds es
AlikeAll M _ _ = ⊥

-- two outcomes of a `find` that differ in the PII of the documents at most
abbrev pub AlikeFound : Masks → Outcome (List Document) → Outcome (List Document) → Type 0
AlikeFound M (raised type text) (raised type' text') = (type ≡ type') × (text ≡ text')
AlikeFound M (returned ds) (returned es) = AlikeAll M ds es
AlikeFound M _ _ = ⊥

map-mask_doc-secret :
    (M : Masks) (ds es : List Document)
    → AlikeAll M ds es
    → (length ds ≡ length es) × (map (mask_doc M) ds ≡ map (mask_doc M) es)
map-mask_doc-secret M [] [] h = (refl, refl)
map-mask_doc-secret M (d ∷ ds) (e ∷ es) (h, hs) =
    let (n, rest) = map-mask_doc-secret M ds es hs in
    let first = mask_doc-secret M d e h in (ap suc n, cc (first, rest))
map-mask_doc-secret M [] (e ∷ es) h = absurd h
map-mask_doc-secret M (d ∷ ds) [] h = absurd h

found_documents-secret :
    (M : Masks) (collection : String) (a b : Outcome (List Document))
    → AlikeFound M a b
    → found_documents M collection a ≡ found_documents M collection b
unfolding found_documents
found_documents-secret M c (raised t s) (raised t' s') (e, f) = cc (e, f)
found_documents-secret M c (returned ds) (returned es) h =
    let (n, rest) = map-mask_doc-secret M ds es h in cc (n, rest)
found_documents-secret M c (raised t s) (returned es) h = absurd h
found_documents-secret M c (returned ds) (raised t s) h = absurd h

module _ (M : Masks) (W : Mongo) (other : Find → Outcome (List Document)) where
  abbrev there : Mongo
  there = record W { find = other }

  -- if a `find` is run for the answer, the other database answers it alike
  abbrev pub AlikeRun : Ran → Type 0
  AlikeRun r = (f : Find) → r.1 ≡ some f → AlikeFound M (W.find f) (other f)

  in_database-secret :
      (q : String → Find) (c : Outcome (Unit {0})) (db : Outcome (Option String))
      → AlikeRun (in_database M W q c db)
      → in_database M W q c db ≡ in_database M there q c db
  unfolding in_database run_find
  in_database-secret q (raised type text) db alike = refl
  in_database-secret q (returned u) (raised type text) alike = refl
  in_database-secret q (returned u) (returned none) alike = refl
  in_database-secret q (returned u) (returned (some db)) alike =
      ap (λ a. (a, some (q db))) (found_documents-secret M _ _ _ (alike (q db) refl))

  -- both sides of a guard
  guard-secret :
      (b : Bool) (x : Ran) (y z : Ran)
      → (AlikeRun y → y ≡ z)
      → AlikeRun (if b then x else y)
      → (if b then x else y) ≡ (if b then x else z)
  guard-secret true x y z h alike = refl
  guard-secret false x y z h alike = h alike

  checked_filter-secret :
      (collection database : String) (limit : ℕ) (f : Document) (p : Option Document)
      (o : Option String)
      → AlikeRun (checked_filter M W collection database limit f p o)
      → checked_filter M W collection database limit f p o
        ≡ checked_filter M there collection database limit f p o
  unfolding checked_filter
  checked_filter-secret c database limit f p (some op) alike = refl
  checked_filter-secret c database limit f p none alike =
      let q : String → Find = λ db. record {
        database = db;
        collection = c;
        filter = f;
        projection = p;
        limit = capped limit;
      } in
      let name = strip (if database == "" then W.app_mongo_db else database) in
      guard-secret (not W.has_pymongo) (fails "pymongo not installed (pip install pymongo)") _ _
        (in_database-secret q W.connect (named_database W name)) alike

  with_filter-secret :
      (collection database : String) (limit : ℕ) (f : Outcome Document)
      (p : Outcome (Option Document))
      → AlikeRun (with_filter M W collection database limit f p)
      → with_filter M W collection database limit f p
        ≡ with_filter M there collection database limit f p
  unfolding with_filter
  with_filter-secret c database limit (raised type e) p alike = refl
  with_filter-secret c database limit (returned f) (raised type e) alike = refl
  with_filter-secret c database limit (returned f) (returned p) alike =
      guard-secret (not (is_object f)) (fails "filter must be a JSON object") _ _
        (checked_filter-secret c database limit f p (check_filter f)) alike

  -- If the one `find` that a query runs, on one database and on another, raises the same exception
  -- or gives documents that are alike but for values under PII names, at any depth, and alike in
  -- which of those are null or blank, then `query_mongo` gives the agent equal answers: of the
  -- documents found it tells no more of such a value than whether it is null or blank. A query
  -- whose filter or projection makes the `find` itself tell PII values apart is not covered.
  pub query_mongo-secret :
      (collection filter_str projection_str : String) (limit : ℕ) (database : String)
      → AlikeRun (query_mongo M W collection filter_str projection_str limit database)
      → query_mongo M W collection filter_str projection_str limit database
        ≡ query_mongo M there collection filter_str projection_str limit database
  unfolding query_mongo load_filter load_projection
  query_mongo-secret collection filter_str projection_str limit database alike =
      guard-secret (strip W.app_mongo_uri == "") (fails not_configured) _ _
        (with_filter-secret collection database limit (load_filter W filter_str)
          (load_projection W projection_str))
        alike
