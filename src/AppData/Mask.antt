-- ===== src/AppData/Mask.antt =====
-- rca_agent/app_db.py: the masking of columns and of values.
use Prim.Native.Char.{code}
use rca_claude_agent.Prelude.{
  ◌++◌, any, ◌&&◌, ◌-◌, contains, ◌=ℕ◌, zero, size, not, keep, [], ◌<>◌, ltb, ◌==◌, suc, Bool, map,
  ◌∷◌, cut, if◌then◌else◌, ℕ, lower, strip, List, String,
}
use rca_claude_agent.Gitlab.Reads.{onto_first}
use rca_claude_agent.Graph.Search.{occurs_in}

-- `_SAFE_COLUMNS`
abbrev pub safe_columns : List String
safe_columns =
    "table_name" ∷ "column_name" ∷ "table_schema" ∷ "schema_name" ∷ "data_type" ∷ "udt_name"
    ∷ "constraint_name" ∷ "sequence_name" ∷ "index_name" ∷ "table_type" ∷ "is_nullable"
    ∷ "ordinal_position" ∷ "column_default" ∷ "character_maximum_length" ∷ "relname" ∷ "attname"
    ∷ "typname" ∷ "indexname" ∷ "tablename" ∷ "schemaname" ∷ []

-- `_PII_COLUMN_FRAGMENTS`
abbrev pub pii_fragments : List String
pii_fragments =
    "name" ∷ "email" ∷ "phone" ∷ "mobile" ∷ "contact" ∷ "address" ∷ "gstin" ∷ "gstn" ∷ "gst_no"
    ∷ "pan" ∷ "aadhaar" ∷ "aadhar" ∷ "dob" ∷ "birth" ∷ "password" ∷ "passwd" ∷ "secret" ∷ "token"
    ∷ "api_key" ∷ "apikey" ∷ "otp" ∷ "bank" ∷ "account_no" ∷ "ifsc" ∷ "card" ∷ "username"
    ∷ "vat_number" ∷ "cin" ∷ "client_id" ∷ "sign" ∷ "whitelist" ∷ "turnover" ∷ "identity"
    ∷ "user_ref" ∷ "pincode" ∷ "zipcode" ∷ "key" ∷ "sek" ∷ "encrypt" ∷ "cipher" ∷ "salt" ∷ "nonce"
    ∷ "credential" ∷ "session" ∷ []

-- `raw.split(",")`
split_commas : String → List String
split_commas String.[] = "" ∷ []
split_commas (String.◌∷◌ c s) =
    let rest = split_commas s in if code c =ℕ 44 then "" ∷ rest else onto_first c rest

-- `_extra_pii_columns`, of the variable's value
unfoldable pub extra_pii_columns : String → List String
unfolding split_commas strip lower
extra_pii_columns raw =
    map (λ f. lower (strip f)) (keep (λ f. not (strip f == "")) (split_commas raw))

-- What the masks are made with: the extra fragments, and for each regular expression its `sub`, of
-- what replaces a match.
pub record Masks : Type 0 where
  pub extra : List String
  pub sub_gstin : (String → String) → String → String
  pub sub_pan : (String → String) → String → String
  pub sub_aadhaar : (String → String) → String → String
  pub sub_phone : (String → String) → String → String
  pub sub_email : (String → String) → String → String
  pub sub_ipv4 : (String → String) → String → String

-- `_is_pii_column`
unfoldable pub is_pii_column : Masks → String → Bool
unfolding lower
is_pii_column M name =
    let low = lower name in
    not (contains safe_columns low) && any (λ frag. occurs_in frag low) (pii_fragments ++ M.extra)

-- `"*" * n`
abbrev stars : ℕ → String
stars zero = ""
stars (suc n) = "*" <> stars n

abbrev last_char : String → String
last_char String.[] = ""
last_char (String.◌∷◌ c s) = if s == "" then String.◌∷◌ c "" else last_char s

-- `_keep_ends`, of the match
abbrev keep_ends : String → String
unfolding cut
keep_ends s = if ltb 4 (size s) then cut 1 s <> stars (size s - 2) <> last_char s else "***"

-- `_mask_value`
unfoldable pub mask_value : Masks → String → String
unfolding keep_ends cut
mask_value M val =
    M.sub_ipv4 (λ m. "<ip>")
      (M.sub_email (λ m. cut 1 m <> "***@***")
        (M.sub_phone (λ m. "**********")
          (M.sub_aadhaar (λ m. "****-****-****")
            (M.sub_pan keep_ends (M.sub_gstin keep_ends val)))))
