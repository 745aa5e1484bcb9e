-- ===== src/Mcp/Json.antt =====
-- JSON values as `JSON.parse` gives them, and shared/json.ts. A number is an integer that is safe
-- (below 2^53 in absolute value), a larger integer with its text, a number with a fraction, or one
-- that is too large to be finite.
use Prim.Native.String
use encore_mcp_base.Base.{
  ℕ, zero, suc, ◌/◌, ◌%◌, String, Bool, Option, none, some, List, [], ◌∷◌, Result, ok, err, ◌>>=◌,
  or_throw, bad_request_error, ℤ, pos, negsuc, truthy, is_some, nat_eq, ◌==◌, if◌then◌else◌,
}

pub data JsNumber : Type 0 where
  safe_integer : ℤ → JsNumber
  large_integer fraction : String → JsNumber
  infinite : JsNumber

-- An object is the list of its fields in order; no name stands twice.
mutual
  pub data Json : Type 0 where
    null : Json
    boolean : Bool → Json
    number : JsNumber → Json
    string : String → Json
    array : Items → Json
    object : Fields → Json

  pub data Items : Type 0 where
    no_items : Items
    item : Json → Items → Items

  pub data Fields : Type 0 where
    no_fields : Fields
    field : String → Json → Fields → Fields

-- `record[key]` of a parsed object, and `Object.hasOwn(record, key)`
abbrev pub get_field : String → Fields → Option Json
get_field key no_fields = none
get_field key (field k v rest) = if k == key then some v else get_field key rest

abbrev pub has_own : Fields → String → Bool
has_own record_ key = is_some (get_field key record_)

-- `Object.keys(record)`
abbrev pub names : Fields → List String
names no_fields = []
names (field k v rest) = k ∷ names rest

-- `typeof value !== "object" || value === null || Array.isArray(value)` fails
abbrev pub as_object : Json → Option Fields
as_object (object fields) = some fields
as_object other = none

abbrev pub as_string : Json → Option String
as_string (string s) = some s
as_string other = none

unfoldable pub as_record : Option Json → String → Result Fields
as_record none name = err (bad_request_error (String.◌++◌ name " must be an object"))
as_record (some value) name =
    or_throw (as_object value) (bad_request_error (String.◌++◌ name " must be an object"))

unfoldable pub optional_string : Fields → String → Result (Option String)
optional_string fields key = elim (get_field key fields) [
  | none ↦ ok none
  | some (string s) ↦ ok (some s)
  | some other ↦ err (bad_request_error (String.◌++◌ key " must be a string"))
]

unfoldable pub required_string : Fields → String → Result String
required_string fields key = do
  value ← optional_string fields key
  or_throw (truthy value) (bad_request_error (String.◌++◌ key " is required"))

-- The decimal text of a number, `String(n)`.
abbrev nth : List String → ℕ → String
nth [] n = ""
nth (x ∷ xs) zero = x
nth (x ∷ xs) (suc n) = nth xs n

abbrev digit : ℕ → String
digit n = nth ("0" ∷ "1" ∷ "2" ∷ "3" ∷ "4" ∷ "5" ∷ "6" ∷ "7" ∷ "8" ∷ "9" ∷ []) n

abbrev digits : ℕ → ℕ → String
digits zero n = ""
digits (suc fuel) n =
    let front = digits fuel (n / 10) in
    if nat_eq (n / 10) 0 then digit n else String.◌++◌ front (digit (n % 10))

-- A number has fewer digits than it counts, and one at least.
unfoldable pub decimal : ℕ → String
decimal n = digits (suc n) n

unfoldable pub integer_text : ℤ → String
unfolding decimal
integer_text (pos n) = decimal n
integer_text (negsuc n) = String.◌++◌ "-" (decimal (suc n))
