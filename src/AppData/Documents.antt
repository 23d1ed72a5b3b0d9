-- ===== src/AppData/Documents.antt =====
-- rca_agent/app_mongo.py: documents, `_check_filter` and `_mask_doc`.
use rca_claude_agent.AppData.Mask.{is_pii_column, mask_value, Masks}
use rca_claude_agent.Prelude.{
  false, true, contains, [], if◌then◌else◌, ◌==◌, none, some, ◌∷◌, Bool, Option, List, String,
}

-- A document: a dict's keys are in its order; `atom` is a value that is no text and holds none, such
-- as a number, by a text for it.
mutual
  pub data Document : Type 0 where
    null : Document
    str : String → Document
    atom : String → Document
    array : Items → Document
    object : Fields → Document

  pub data Items : Type 0 where
    no_items : Items
    item : Document → Items → Items

  pub data Fields : Type 0 where
    no_fields : Fields
    field : String → Document → Fields → Fields

-- `_FORBIDDEN_OPS`
abbrev pub forbidden_ops : List String
forbidden_ops = "$where" ∷ "$function" ∷ "$accumulator" ∷ "$out" ∷ "$merge" ∷ "$expr" ∷ []

-- what is found in one place, or else in another
abbrev pub or_in : Option String → Option String → Option String
or_in none rest = rest
or_in (some k) rest = some k

-- `_check_filter`: the operator that it rejects
unfoldable mutual
  pub check_filter : Document → Option String
  check_filter null = none
  check_filter (str s) = none
  check_filter (atom s) = none
  check_filter (array xs) = check_items xs
  check_filter (object fs) = check_fields fs

  pub check_items : Items → Option String
  check_items no_items = none
  check_items (item x xs) = or_in (check_filter x) (check_items xs)

  pub check_fields : Fields → Option String
  check_fields no_fields = none
  check_fields (field k v fs) =
      if contains forbidden_ops k then some k else or_in (check_filter v) (check_fields fs)

-- whether a value is `""`, `{}` or `[]`
abbrev pub is_blank : Document → Bool
is_blank (str s) = s == ""
is_blank (array no_items) = true
is_blank (object no_fields) = true
is_blank _ = false

-- what is left of a value under a PII name
abbrev pub presence : Document → Document
presence null = null
presence d = if is_blank d then str "<empty>" else str "<present>"

-- `_mask_doc`
unfoldable mutual
  pub mask_doc : Masks → Document → Document
  mask_doc M null = null
  mask_doc M (str s) = str (mask_value M s)
  mask_doc M (atom s) = atom s
  mask_doc M (array xs) = array (mask_items M xs)
  mask_doc M (object fs) = object (mask_fields M fs)

  pub mask_items : Masks → Items → Items
  mask_items M no_items = no_items
  mask_items M (item x xs) = item (mask_doc M x) (mask_items M xs)

  pub mask_fields : Masks → Fields → Fields
  mask_fields M no_fields = no_fields
  mask_fields M (field k v fs) =
      let masked = mask_doc M v in
      field k (if is_pii_column M k then presence v else masked) (mask_fields M fs)
