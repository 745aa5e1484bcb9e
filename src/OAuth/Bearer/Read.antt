-- ===== src/OAuth/Bearer/Read.antt =====
-- What the claims of a bearer token and its Authorization header are read from.
use encore_mcp_base.Base.{
  ℕ, Bool, Bool-cases, false, ◌==◌, or_throw, throw_if, not, truthy, negsuc, ok_inj, some_inj, sym,
  ◌∙◌, String, pos, some, refl, ap, ◌≡◌, true, Option, none, List, [], ◌∷◌, ok, arith, eq_iff,
  contains, all, bind-eq-ok, then-eq-ok, inl, inr,
}
use mathlib.Core.Path.{subst}
use mathlib.Core.Bool.{false≢true}
use encore_mcp_base.Mcp.Json.{
  Json, null, boolean, number, safe_integer, string, array, object, large_integer, fraction,
  infinite, Fields, get_field,
}
use encore_mcp_base.OAuth.Header.{
  trim, skip, start, is_token_char, is_blank, same_scheme, credentials_behind,
  authorization_credentials,
}
use encore_mcp_base.OAuth.Resource.Laws.{truthy-some, or_throw-eq-ok}
use encore_mcp_base.OAuth.Bearer.{
  VerifiedClaims, invalid_token_error, non_empty_string, numeric_date, text_of, required_claims,
  read_bearer, access_claims,
}

text_found :
    (value : Option Json) → non_empty_string value ≡ true → value ≡ some (string (text_of value))
text_found none h = absurd (false≢true h)
text_found (some null) h = absurd (false≢true h)
text_found (some (boolean b)) h = absurd (false≢true h)
text_found (some (number n)) h = absurd (false≢true h)
text_found (some (string s)) h = refl
text_found (some (array items)) h = absurd (false≢true h)
text_found (some (object record_)) h = absurd (false≢true h)

date_found :
    (value : Option Json) (n : ℕ)
    → or_throw (numeric_date value) invalid_token_error ≡ ok n
    → value ≡ some (number (safe_integer (pos n)))
date_found none n h = absurd (ground arith)
date_found (some null) n h = absurd (ground arith)
date_found (some (boolean b)) n h = absurd (ground arith)
date_found (some (number (safe_integer (pos m)))) n h =
    ap (λ d. some (number (safe_integer (pos d)))) (ok_inj h)
date_found (some (number (safe_integer (negsuc m)))) n h = absurd (ground arith)
date_found (some (number (large_integer m))) n h = absurd (ground arith)
date_found (some (number (fraction m))) n h = absurd (ground arith)
date_found (some (number infinite)) n h = absurd (ground arith)
date_found (some (string s)) n h = absurd (ground arith)
date_found (some (array items)) n h = absurd (ground arith)
date_found (some (object record_)) n h = absurd (ground arith)

all_at :
    (p : String → Bool) (keys : List String) (key : String)
    → all p keys ≡ true
    → contains keys key ≡ true
    → p key ≡ true
all_at p [] key h listed = absurd (false≢true listed)
all_at p (k ∷ keys) key h listed = elim (Bool-cases (k == key)) [
  | inl same ↦ rw (← (eq_iff k key).0 same) (ground arith)
  | inr other ↦ all_at p keys key (ground arith) (ground (arith, other))
]

required_found :
    (payload : Fields) (key : String)
    → throw_if
        (not (all (λ k. non_empty_string (get_field k payload)) required_claims))
        invalid_token_error
      ≡ ok tt
    → contains required_claims key ≡ true
    → get_field key payload ≡ some (string (text_of (get_field key payload)))
required_found payload key h listed =
    text_found (get_field key payload)
      (all_at (λ k. non_empty_string (get_field k payload)) required_claims key (passed _ h) listed)
  where
    passed : (test : Bool) → throw_if (not test) invalid_token_error ≡ ok tt → test ≡ true
    passed true h = refl
    passed false h = absurd (ground arith)

-- The claims are read from their payload.
pub record IsRead (claims : VerifiedClaims) : Type 0 where
  pub iss : get_field "iss" claims.payload ≡ some (string claims.iss)
  pub aud : get_field "aud" claims.payload ≡ some (string claims.aud)
  pub scope : get_field "scope" claims.payload ≡ some (string claims.scope)
  pub exp : get_field "exp" claims.payload ≡ some (number (safe_integer (pos claims.exp)))
  pub iat : get_field "iat" claims.payload ≡ some (number (safe_integer (pos claims.iat)))
  pub nbf : get_field "nbf" claims.payload ≡ some (number (safe_integer (pos claims.nbf)))

pub access_claims-IsRead :
    (payload : Fields) (claims : VerifiedClaims)
    → access_claims payload ≡ ok claims
    → (claims.payload ≡ payload) × IsRead claims
unfolding access_claims
access_claims-IsRead payload claims h =
    let (texts, h1) =
      then-eq-ok
        (throw_if (not (all (λ key. non_empty_string (get_field key payload)) required_claims))
          invalid_token_error)
        _ h in
    let (scoped, h2) = then-eq-ok _ _ h1 in
    let (verified, h3) = then-eq-ok _ _ h2 in
    let (exp, exp_read, h4) =
      bind-eq-ok (or_throw (numeric_date (get_field "exp" payload)) invalid_token_error) _ h3 in
    let (iat, iat_read, h5) =
      bind-eq-ok (or_throw (numeric_date (get_field "iat" payload)) invalid_token_error) _ h4 in
    let (nbf, nbf_read, returns) =
      bind-eq-ok (or_throw (numeric_date (get_field "nbf" payload)) invalid_token_error) _ h5 in
    subst (λ c. (c.payload ≡ payload) × IsRead c) (ok_inj returns)
      (
        refl,
        record {
          iss = required_found payload "iss" texts refl;
          aud = required_found payload "aud" texts refl;
          scope = required_found payload "scope" texts refl;
          exp = date_found (get_field "exp" payload) exp exp_read;
          iat = date_found (get_field "iat" payload) iat iat_read;
          nbf = date_found (get_field "nbf" payload) nbf nbf_read;
        },
      )

-- The header names the scheme "Bearer", in any case, and the token follows behind blanks.
abbrev pub IsBearer : Option String → String → Type 0
IsBearer header token =
    (h : String) × (header ≡ some h)
    × (same_scheme (start is_token_char h) "Bearer" ≡ true)
    × (token ≡ trim (skip is_blank (skip is_token_char h)))

behind_found :
    (rest token : String) → credentials_behind rest ≡ some token → token ≡ trim (skip is_blank rest)
unfolding credentials_behind
behind_found rest token h =
    sym (some_inj (truthy-some (some (trim (skip is_blank rest))) token (ground arith)))

credentials_found :
    (given scheme token : String)
    → truthy (some given) ≡ some given
    → authorization_credentials (some given) scheme ≡ some token
    → (same_scheme (start is_token_char given) scheme ≡ true)
      × (token ≡ trim (skip is_blank (skip is_token_char given)))
unfolding authorization_credentials
credentials_found given scheme token full h =
    (ground (arith, full), behind_found (skip is_token_char given) token (ground (arith, full)))

pub read_bearer-IsBearer :
    (header : Option String) (token : String)
    → read_bearer header ≡ ok token
    → IsBearer header token
unfolding read_bearer
read_bearer-IsBearer header token h =
    let (given, brought, h1) = bind-eq-ok (or_throw (truthy header) invalid_token_error) _ h in
    let full = or_throw-eq-ok (truthy header) invalid_token_error given brought in
    let found =
      or_throw-eq-ok (authorization_credentials (some given) "Bearer") invalid_token_error token
        h1 in
    let here = truthy-some header given full in
    let (scheme, follows) =
      credentials_found given "Bearer" token (ap truthy (sym here) ∙ full) found in
    (given, here, scheme, follows)
