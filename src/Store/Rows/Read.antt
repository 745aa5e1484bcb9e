-- ===== src/Store/Rows/Read.antt =====
-- What the readers of Store/Rows.antt find in a row that was made by `compact`.
use encore_mcp_base.Base.{
  ℕ, ◌≤◌, String, ◌≡◌, refl, arith, Bool, true, false, not, ◌&&◌, Option, none, some, List, [], ◌∷◌,
  ok, any, contains, Bool-cases, inl, inr, if◌then◌else◌, ◌==◌, eq_iff, eq_refl, All,
}
use encore_mcp_base.Mcp.Json.{Json, string, array, object, Fields, names, get_field}
use encore_mcp_base.Store.Records.{CodeChallengeMethod, s256}
use encore_mcp_base.OAuth.Pkce.{is_oidc_nonce}
use encore_mcp_base.Store.Rows.{
  matches_hash, has_text, row, text, optional_text, hash, optional_hash, nonce_text, optional_nonce,
  seconds, optional_seconds, auth_time, ordered_seconds, optional_ordered_seconds, method_s256,
  texts_of, array_of, texts_json, scopes, scopes_json, compact, string_field, number_of,
  number_field, method_field,
}

-- The value that a list of optional fields has for a key.
abbrev pub value_at : String → List (String × Option Json) → Option Json
value_at key [] = none
value_at key ((k, v) ∷ more) = if k == key then v else value_at key more

abbrev pub keys_of : List (String × Option Json) → List String
keys_of [] = []
keys_of ((k, v) ∷ more) = k ∷ keys_of more

-- No key stands twice.
abbrev pub apart : List (String × Option Json) → Bool
apart [] = true
apart ((k, v) ∷ more) = not (contains (keys_of more) k) && apart more

get_field-absent :
    (key : String) (l : List (String × Option Json))
    → contains (keys_of l) key ≡ false
    → get_field key (compact l) ≡ none
get_field-absent key [] h = refl
get_field-absent key ((k, none) ∷ more) h = get_field-absent key more (ground arith)
get_field-absent key ((k, some v) ∷ more) h = ground (arith, get_field-absent key more)

pub get_field-compact :
    (l : List (String × Option Json))
    → apart l ≡ true
    → (key : String) → get_field key (compact l) ≡ value_at key l
get_field-compact [] a key = refl
get_field-compact ((k, none) ∷ more) a key = elim (Bool-cases (k == key)) [
  | inl same ↦ rw same (get_field-absent key more (rw (← (eq_iff k key).0 same) (ground arith)))
  | inr other ↦ rw other (get_field-compact more (ground arith) key)
]
get_field-compact ((k, some v) ∷ more) a key =
    ground (arith, get_field-compact more (ground arith) key)

names-compact :
    (allowed : List String) (l : List (String × Option Json))
    → any (λ key. not (contains allowed key)) (keys_of l) ≡ false
    → any (λ key. not (contains allowed key)) (names (compact l)) ≡ false
names-compact allowed [] h = refl
names-compact allowed ((k, none) ∷ more) h = names-compact allowed more (ground arith)
names-compact allowed ((k, some v) ∷ more) h = ground (arith, names-compact allowed more)

pub row-compact :
    (allowed : List String) (l : List (String × Option Json))
    → any (λ key. not (contains allowed key)) (keys_of l) ≡ false
    → row (object (compact l)) allowed ≡ ok (compact l)
unfolding row
row-compact allowed l h = rw (names-compact allowed l h) refl

-- A condition on a value that may be absent.
abbrev pub IsNoneOr {ℓ} : {A : Type ℓ} → (A → Type 0) → Option A → Type 0
IsNoneOr P none = Unit {0}
IsNoneOr P (some a) = P a

module _ (f : Fields) (key : String) where
  pub text_read :
      (s : String) → get_field key f ≡ some (string s) → has_text s ≡ true → text f key ≡ ok s
  unfolding text
  text_read s there full = rw (there, full) refl

  pub hash_read :
      (s : String)
      → get_field key f ≡ some (string s)
      → has_text s ≡ true
      → matches_hash s ≡ true
      → hash f key ≡ ok s
  unfolding hash
  hash_read s there full matched = rw (text_read s there full, matched) refl

  pub nonce_read :
      (s : String)
      → get_field key f ≡ some (string s)
      → has_text s ≡ true
      → is_oidc_nonce s ≡ true
      → nonce_text f key ≡ ok s
  unfolding nonce_text
  nonce_read s there full matched = rw (text_read s there full, matched) refl

  pub optional_hash_read :
      (o : Option String)
      → get_field key f ≡ string_field o
      → IsNoneOr (λ s. (has_text s ≡ true) × (matches_hash s ≡ true)) o
      → optional_hash f key ≡ ok o
  unfolding optional_hash optional_text
  optional_hash_read none there h = ground (arith, there)
  optional_hash_read (some s) there h = ground (arith, there, h.0, h.1)

  pub optional_nonce_read :
      (o : Option String)
      → get_field key f ≡ string_field o
      → IsNoneOr (λ s. (has_text s ≡ true) × (is_oidc_nonce s ≡ true)) o
      → optional_nonce f key ≡ ok o
  unfolding optional_nonce optional_text
  optional_nonce_read none there h = ground (arith, there)
  optional_nonce_read (some s) there h = ground (arith, there, h.0, h.1)

  pub seconds_read : (n : ℕ) → get_field key f ≡ some (number_of n) → seconds f key ≡ ok n
  unfolding seconds
  seconds_read n there = rw there refl

  pub ordered_read :
      (n minimum : ℕ)
      → get_field key f ≡ some (number_of n)
      → minimum ≤ n
      → ordered_seconds f key minimum ≡ ok n
  unfolding ordered_seconds
  ordered_read n minimum there le = rw (seconds_read n there) (ground arith)

  pub optional_ordered_read :
      (o : Option ℕ) (minimum : ℕ)
      → get_field key f ≡ number_field o
      → IsNoneOr (λ n. minimum ≤ n) o
      → optional_ordered_seconds f key minimum ≡ ok o
  unfolding optional_ordered_seconds optional_seconds
  optional_ordered_read none minimum there h = ground (arith, there)
  optional_ordered_read (some n) minimum there h = ground (arith, there, h)

  pub method_read :
      (o : Option CodeChallengeMethod) → get_field key f ≡ method_field o → method_s256 f key ≡ ok o
  unfolding method_s256
  method_read none there = ground (arith, there)
  method_read (some s256) there = ground (arith, there, eq_refl "S256")

pub auth_time_read :
    (f : Fields) (n created_at : ℕ)
    → get_field "auth_time" f ≡ some (number_of n)
    → n ≤ created_at
    → auth_time f created_at ≡ ok n
unfolding auth_time
auth_time_read f n created_at there le = rw (seconds_read f "auth_time" n there) (ground arith)

pub texts_of-array_of :
    (test : String → Bool) (ss : List String)
    → All (λ s. test s ≡ true) ss
    → texts_of test (array_of ss) ≡ ok ss
unfolding texts_of
texts_of-array_of test [] h = refl
texts_of-array_of test (s ∷ ss) h = rw (h.0, texts_of-array_of test ss h.1) refl

pub scopes_read :
    (parse_json : String → Option Json) (stringify : Json → String) (f : Fields) (ss : List String)
    → get_field "scopes_json" f ≡ some (string (scopes_json stringify ss))
    → has_text (scopes_json stringify ss) ≡ true
    → parse_json (scopes_json stringify ss) ≡ some (array (array_of ss))
    → All (λ s. has_text s ≡ true) ss
    → scopes parse_json f ≡ ok ss
unfolding scopes texts_json
scopes_read parse_json stringify f ss there full parsed texts = ground (
  arith,
  text_read f "scopes_json" (scopes_json stringify ss) there full,
  parsed,
  texts_of-array_of has_text ss texts,
)
