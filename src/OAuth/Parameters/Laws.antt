-- ===== src/OAuth/Parameters/Laws.antt =====
-- What auth/oauth-parameters.ts accepts.
use encore_mcp_base.Base.{
  String, ◌≡◌, refl, sym, ◌↔◌, true, false, some, List, [], ◌∷◌, ok, arith, ◌≤◌, length, contains,
  ◌==◌, eq_iff, eq_refl, Bool-cases, inl, inr, truthy,
}
use encore_mcp_base.Base.Split.{distinct, contains-distinct, AreDistinct}
use encore_mcp_base.OAuth.Parameters.{
  Form, keys, get_all, get, check_keys, assert_allowed_parameters, optional_parameter,
  required_parameter,
}

-- The key is allowed and stands once at most.
abbrev pub IsProper : Form → List String → String → Type 0
IsProper params allowed key = (contains allowed key ≡ true) × (length (get_all params key) ≤ 1)

check_keys_iff :
    (params : Form) (allowed ks : List String)
    → (check_keys params allowed ks ≡ ok tt)
      ↔ ((key : String) → contains ks key ≡ true → IsProper params allowed key)
unfolding check_keys
check_keys_iff params allowed [] = (λ h key m. cc, λ h. refl)
check_keys_iff params allowed (k ∷ ks) = (
  λ h key m. elim (Bool-cases (k == key)) [
    | inl same ↦ ground (arith, h, (eq_iff k key).0 same)
    | inr different ↦
        (check_keys_iff params allowed ks).0 (ground (arith, h)) key (ground (arith, m, different))
  ],
  λ h. ground (
    arith,
    h k (ground (arith, eq_refl k)),
    (check_keys_iff params allowed ks).1 (λ key m. h key (ground (arith, m))),
  ),
)

get_all-none : (ps : Form) (key : String) → contains (keys ps) key ≡ false → get_all ps key ≡ []
unfolding get_all
get_all-none [] key h = refl
get_all-none ((k, v) ∷ ps) key h = ground (arith, get_all-none ps key)

get_all-pos :
    (ps : Form) (key : String) → contains (keys ps) key ≡ true → 1 ≤ length (get_all ps key)
unfolding get_all
get_all-pos [] key h = cc
get_all-pos ((k, v) ∷ ps) key h = ground (arith, get_all-pos ps key)

get_all-shorter :
    (k v : String) (ps : Form) (key : String)
    → length (get_all ps key) ≤ length (get_all ((k, v) ∷ ps) key)
unfolding get_all
get_all-shorter k v ps key = ground arith

-- The keys are distinct when no key has two values.
pub keys-AreDistinct_iff :
    (ps : Form)
    → AreDistinct (keys ps)
      ↔ ((key : String) → contains (keys ps) key ≡ true → length (get_all ps key) ≤ 1)
unfolding get_all
keys-AreDistinct_iff [] = (λ d key h. cc, λ h. tt)
keys-AreDistinct_iff ((k, v) ∷ ps) = (
  λ d key h. elim (Bool-cases (k == key)) [
    | inl same ↦ ground (arith, get_all-none ps key, d.0, (eq_iff k key).0 same)
    | inr different ↦
        ground (arith, (keys-AreDistinct_iff ps).0 d.1 key (ground (arith, h, different)))
  ],
  λ h. (
    ground (arith, h k (ground (arith, eq_refl k)), get_all-pos ps k, eq_refl k),
    (keys-AreDistinct_iff ps).1
        (λ key m. omega (arith, h key (ground (arith, m)), get_all-shorter k v ps key)),
  ),
)

-- A request's parameters pass exactly when every key is an allowed one and no key is repeated.
pub assert_allowed_parameters_iff :
    (params : Form) (allowed : List String)
    → (assert_allowed_parameters params allowed ≡ ok tt) ↔ (
        ((key : String) → contains (keys params) key ≡ true → contains allowed key ≡ true)
        × AreDistinct (keys params))
unfolding assert_allowed_parameters
assert_allowed_parameters_iff params allowed = (
  λ h. (λ key m. (proper h key m).0, (keys-AreDistinct_iff params).1 (λ key m. (proper h key m).1)),
  λ h.
      (check_keys_iff params allowed (distinct (keys params))).1
        (λ key m. (h.0 key (listed key m), (keys-AreDistinct_iff params).0 h.1 key (listed key m))),
)
  where
    listed :
        (key : String)
        → contains (distinct (keys params)) key ≡ true
        → contains (keys params) key ≡ true
    listed key m = rw (sym (contains-distinct (keys params) key)) m

    proper :
        check_keys params allowed (distinct (keys params)) ≡ ok tt
        → (key : String) → contains (keys params) key ≡ true
        → IsProper params allowed key
    proper h key m =
        (check_keys_iff params allowed (distinct (keys params))).0 h key
          (rw (contains-distinct (keys params) key) m)

-- A form with distinct keys gives each of its parameters.
pub optional_parameter-distinct :
    (params : Form) (key : String)
    → AreDistinct (keys params)
    → optional_parameter params key ≡ ok (get params key)
unfolding optional_parameter
optional_parameter-distinct params key d = elim (Bool-cases (contains (keys params) key)) [
  | inl present ↦ ground (arith, (keys-AreDistinct_iff params).0 d key present)
  | inr absent ↦ ground (arith, get_all-none params key absent)
]

pub required_parameter-eq-ok :
    (params : Form) (key value : String)
    → required_parameter params key ≡ ok value
    → truthy (get params key) ≡ some value
unfolding required_parameter optional_parameter
required_parameter-eq-ok params key value h = ground arith
