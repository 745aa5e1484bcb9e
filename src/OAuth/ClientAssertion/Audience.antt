-- ===== src/OAuth/ClientAssertion/Audience.antt =====
-- What the readers of the claims of auth/client-assertion.ts accept.
use Prim.Native.String
use mathlib.Core.Path.{subst}
use mathlib.Core.Bool.{false≢true}
use encore_mcp_base.Base.{
  ◌⊎◌, inl, inr, sym, err, if◌then◌else◌, List, [], ◌∷◌, ◌==◌, contains, matches_class, Bool-cases,
  String, ◌≡◌, refl, arith, true, Option, none, some, ok, ok_inj, ap, ℤ, eq_iff,
}
use encore_mcp_base.Mcp.Json.{
  Json, Items, no_items, item, safe_integer, large_integer, fraction, infinite, null, boolean,
  number, string, array, object,
}
use encore_mcp_base.OAuth.Clients.{invalid_client_error}
use encore_mcp_base.OAuth.Jwt.{is_key_id_char}
use encore_mcp_base.OAuth.ClientAssertion.{
  accepts_item, safe_string, numeric_date, audience_matches,
}

-- An element of a JSON array.
abbrev pub HasItem : Json → Items → Type 0
HasItem value no_items = ⊥
HasItem value (item first rest) = (first ≡ value) ⊎ HasItem value rest

-- The audience is the service or its token endpoint, alone or among others in an array.
abbrev pub IsForService : String → Option Json → Type 0
IsForService issuer aud =
    (name : String) × ((name ≡ issuer) ⊎ (name ≡ String.◌++◌ issuer "/oauth/token"))
    × ((aud ≡ some (string name))
        ⊎ ((items : Items) × (aud ≡ some (array items)) × HasItem (string name) items))

listed-IsService :
    (issuer name : String)
    → contains (issuer ∷ String.◌++◌ issuer "/oauth/token" ∷ []) name ≡ true
    → (name ≡ issuer) ⊎ (name ≡ String.◌++◌ issuer "/oauth/token")
listed-IsService issuer name h = elim (Bool-cases (issuer == name)) [
  | inl same ↦ inl (sym ((eq_iff issuer name).0 same))
  | inr other ↦
      inr (sym ((eq_iff (String.◌++◌ issuer "/oauth/token") name).0 (ground (arith, other))))
]

abbrev HasAccepted : List String → Items → Type 0
HasAccepted accepted items =
    (name : String) × (contains accepted name ≡ true) × HasItem (string name) items

behind_first :
    (accepted : List String) (first : Json) (rest : Items)
    → HasAccepted accepted rest
    → HasAccepted accepted (item first rest)
behind_first accepted first rest (name, listed, there) = (name, listed, inr there)

accepts_item-HasItem :
    (accepted : List String) (items : Items)
    → accepts_item accepted items ≡ true
    → HasAccepted accepted items
accepts_item-HasItem accepted no_items h = absurd (false≢true h)
accepts_item-HasItem accepted (item null rest) h =
    behind_first accepted null rest (accepts_item-HasItem accepted rest h)
accepts_item-HasItem accepted (item (boolean b) rest) h =
    behind_first accepted (boolean b) rest (accepts_item-HasItem accepted rest h)
accepts_item-HasItem accepted (item (number n) rest) h =
    behind_first accepted (number n) rest (accepts_item-HasItem accepted rest h)
accepts_item-HasItem accepted (item (string s) rest) h = elim (Bool-cases (contains accepted s)) [
  | inl listed ↦ (s, listed, inl refl)
  | inr other ↦
      behind_first accepted (string s) rest
        (accepts_item-HasItem accepted rest (ground (arith, other)))
]
accepts_item-HasItem accepted (item (array items) rest) h =
    behind_first accepted (array items) rest (accepts_item-HasItem accepted rest h)
accepts_item-HasItem accepted (item (object f) rest) h =
    behind_first accepted (object f) rest (accepts_item-HasItem accepted rest h)

pub audience_matches-IsForService :
    (issuer : String) (aud : Option Json)
    → audience_matches issuer aud ≡ true
    → IsForService issuer aud
unfolding audience_matches
audience_matches-IsForService issuer none h = absurd (false≢true h)
audience_matches-IsForService issuer (some null) h = absurd (false≢true h)
audience_matches-IsForService issuer (some (boolean b)) h = absurd (false≢true h)
audience_matches-IsForService issuer (some (number n)) h = absurd (false≢true h)
audience_matches-IsForService issuer (some (string s)) h =
    (s, listed-IsService issuer s h, inl refl)
audience_matches-IsForService issuer (some (array items)) h =
    let (name, listed, there) =
      accepts_item-HasItem (issuer ∷ String.◌++◌ issuer "/oauth/token" ∷ []) items h in
    (name, listed-IsService issuer name listed, inr (items, refl, there))
audience_matches-IsForService issuer (some (object f)) h = absurd (false≢true h)

-- What the readers of the claims accept.
pub numeric_date-found :
    (value : Option Json) (date : ℤ)
    → numeric_date value ≡ ok date
    → value ≡ some (number (safe_integer date))
unfolding numeric_date
numeric_date-found none date h = absurd (ground arith)
numeric_date-found (some null) date h = absurd (ground arith)
numeric_date-found (some (boolean b)) date h = absurd (ground arith)
numeric_date-found (some (number (safe_integer n))) date h =
    ap (λ d. some (number (safe_integer d))) (ok_inj h)
numeric_date-found (some (number (large_integer m))) date h = absurd (ground arith)
numeric_date-found (some (number (fraction m))) date h = absurd (ground arith)
numeric_date-found (some (number infinite)) date h = absurd (ground arith)
numeric_date-found (some (string s)) date h = absurd (ground arith)
numeric_date-found (some (array items)) date h = absurd (ground arith)
numeric_date-found (some (object f)) date h = absurd (ground arith)

pub safe_string-found :
    (value : Option Json) (s : String)
    → safe_string value ≡ ok s
    → (value ≡ some (string s)) × (matches_class is_key_id_char 1 256 s ≡ true)
unfolding safe_string
safe_string-found none s h = absurd (ground arith)
safe_string-found (some null) s h = absurd (ground arith)
safe_string-found (some (boolean b)) s h = absurd (ground arith)
safe_string-found (some (number n)) s h = absurd (ground arith)
safe_string-found (some (string t)) s h = elim (Bool-cases (matches_class is_key_id_char 1 256 t)) [
  | inl safe ↦
      let same : t ≡ s =
        ok_inj (subst (λ b. (if b then ok t else err invalid_client_error) ≡ ok s) safe h) in
      (
        ap (λ x. some (string x)) same,
        subst (λ x. matches_class is_key_id_char 1 256 x ≡ true) same safe,
      )
  | inr unsafe ↦ absurd (ground (arith, unsafe))
]
safe_string-found (some (array items)) s h = absurd (ground arith)
safe_string-found (some (object f)) s h = absurd (ground arith)
