-- ===== src/OAuth/Parameters.antt =====
-- auth/oauth-parameters.ts: the parameters of a request. A `URLSearchParams` is the list of its
-- pairs in order.
pub mod Laws
use encore_mcp_base.Base.{
  ℕ, String, Bool, true, false, not, Option, none, some, List, [], ◌∷◌, Result, ok, err, ◌>>=◌,
  ◌>>◌, throw_if, or_throw, bad_request_error, Thrown, ltb, length, map, contains, is_some, truthy,
  ◌==◌, if◌then◌else◌,
}
use Prim.Native.String
use encore_mcp_base.Base.Split.{distinct}

abbrev pub Form : Type 0
Form = List (String × String)

-- `params.keys()`
abbrev pub keys : Form → List String
keys [] = []
keys ((k, v) ∷ ps) = k ∷ keys ps

-- `params.getAll(key)`
unfoldable pub get_all : Form → String → List String
get_all [] key = []
get_all ((k, v) ∷ ps) key = if k == key then v ∷ get_all ps key else get_all ps key

-- `params.get(key)`, with `undefined` for `null`
abbrev pub first : List String → Option String
first [] = none
first (v ∷ vs) = some v

abbrev pub get : Form → String → Option String
get params key = first (get_all params key)

-- `params.has(key)`
abbrev pub has : Form → String → Bool
has params key = is_some (get params key)

abbrev pub unsupported_error : Thrown
unsupported_error = bad_request_error "unsupported oauth parameter"

abbrev pub duplicate_error : Thrown
duplicate_error = bad_request_error "duplicate oauth parameter"

-- The loop over the set of the keys.
unfoldable pub check_keys : Form → List String → List String → Result (Unit {0})
check_keys params allowed [] = ok tt
check_keys params allowed (key ∷ ks) = do
  throw_if (not (contains allowed key)) unsupported_error
  throw_if (ltb 1 (length (get_all params key))) duplicate_error
  check_keys params allowed ks

unfoldable pub assert_allowed_parameters : Form → List String → Result (Unit {0})
assert_allowed_parameters params allowed = check_keys params allowed (distinct (keys params))

unfoldable pub optional_parameter : Form → String → Result (Option String)
optional_parameter params key = do
  throw_if (ltb 1 (length (get_all params key))) duplicate_error
  ok (first (get_all params key))

unfoldable pub required_parameter : Form → String → Result String
required_parameter params key = do
  value ← optional_parameter params key
  or_throw (truthy value) (bad_request_error (String.◌++◌ key " is required"))
