-- ===== src/Dynamo/Items.antt =====
-- auth/storage/dynamodb/attribute-value.ts, keys.ts and item-codec.ts: items and their attributes. A
-- number stands for its decimal text, and the number is one that `Number.isSafeInteger` accepts.
use Prim.Native.String
use encore_mcp_base.Base.{
  ℕ, String, Bool, true, ◌&&◌, Option, none, some, List, [], ◌∷◌, ◌++◌, Result, ok, err, ◌>>=◌,
  ◌>>◌, throw_if, or_throw, not, Thrown, other, ◌==◌,
}
use encore_mcp_base.Base.Dict.{Dict, lookup}

pub data AttributeValue : Type 0 where
  string_value : String → AttributeValue
  number_value : ℕ → AttributeValue
  boolean_value : Bool → AttributeValue
  string_set : List String → AttributeValue

abbrev pub Item : Type 0
Item = Dict AttributeValue

abbrev missing : String → String → Thrown
missing kind name = other (String.◌++◌ "DynamoDB item missing " (String.◌++◌ kind name))

abbrev invalid : String → String → Thrown
invalid kind name = other (String.◌++◌ "DynamoDB item has invalid " (String.◌++◌ kind name))

unfoldable pub read_string : Item → String → Result String
read_string i name = elim (lookup name i) [
  | some (string_value value) ↦ ok value
  | value ↦ err (missing "string " name)
]

unfoldable pub read_number : Item → String → Result ℕ
read_number i name = elim (lookup name i) [
  | some (number_value value) ↦ ok value
  | value ↦ err (missing "number " name)
]

unfoldable pub read_optional_number : Item → String → Result (Option ℕ)
read_optional_number i name = elim (lookup name i) [
  | none ↦ ok none
  | some (number_value value) ↦ ok (some value)
  | some value ↦ err (invalid "number " name)
]

unfoldable pub read_string_set : Item → String → Result (List String)
read_string_set i name = elim (lookup name i) [
  | none ↦ ok []
  | some (string_set values) ↦ ok values
  | some value ↦ err (invalid "string set " name)
]

-- `{ pk, sk }`
pub record Key : Type 0 where
  pub pk : String
  pub sk : String

abbrev pub same_key : Key → Key → Bool
same_key k l = k.pk == l.pk && k.sk == l.sk

abbrev pub key_item : Key → Item
key_item key = ("pk", string_value key.pk) ∷ ("sk", string_value key.sk) ∷ []

abbrev pub authorization_code_key : String → Key
authorization_code_key hash = record { pk = String.◌++◌ "AUTH_CODE#" hash; sk = "STATE" }

abbrev pub upstream_state_key : String → Key
upstream_state_key hash = record { pk = String.◌++◌ "UPSTREAM_STATE#" hash; sk = "STATE" }

abbrev pub refresh_token_key : String → Key
refresh_token_key hash = record { pk = String.◌++◌ "REFRESH#" hash; sk = "TOKEN" }

abbrev pub refresh_family_key : String → Key
refresh_family_key family = record { pk = String.◌++◌ "REFRESH_FAMILY#" family; sk = "META" }

abbrev pub refresh_rotation_key : String → Key
refresh_rotation_key hash = record { pk = String.◌++◌ "REFRESH_ROTATED#" hash; sk = "MARKER" }

abbrev pub mcp_session_key : String → Key
mcp_session_key hash = record { pk = String.◌++◌ "MCP_SESSION#" hash; sk = "SESSION" }

-- `storedRecordItem`, with the record as its JSON text.
abbrev pub stored_record_item : Key → String → String → ℕ → Item → Item
stored_record_item key type_name json expires_at extra =
    key_item key
    ++ ("recordType", string_value type_name)
      ∷ ("record", string_value json)
      ∷ ("expiresAt", number_value expires_at)
      ∷ ("ttl", number_value expires_at)
      ∷ extra

abbrev pub meta_item : Key → String → ℕ → Item → Item
meta_item key type_name expires_at extra =
    key_item key
    ++ ("recordType", string_value type_name)
      ∷ ("expiresAt", number_value expires_at)
      ∷ ("ttl", number_value expires_at)
      ∷ extra

abbrev pub marker_item : Key → String → ℕ → ℕ → Item
marker_item key family created_at expires_at = meta_item key "refresh_rotation" expires_at (
    ("familyId", string_value family)
    ∷ ("createdAt", number_value created_at)
    ∷ ("rotated", boolean_value true)
    ∷ [])

abbrev pub unparsable_error : Thrown
unparsable_error = other "JSON text is malformed"

-- `parse` is `JSON.parse` at the type of the record, nothing where it throws.
unfoldable pub parse_stored_record {ℓ} :
    {A : Type ℓ} → (String → Option A) → Option Item → String → Result (Option A)
parse_stored_record parse none expected_type = ok none
parse_stored_record parse (some i) expected_type = do
  type_name ← read_string i "recordType"
  throw_if (not (type_name == expected_type))
      (other (String.◌++◌ "DynamoDB item has unexpected type " type_name))
  json ← read_string i "record"
  value ← or_throw (parse json) unparsable_error
  ok (some value)
