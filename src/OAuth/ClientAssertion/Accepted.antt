-- ===== src/OAuth/ClientAssertion/Accepted.antt =====
-- What the claims of an assertion say when they pass the checks of auth/client-assertion.ts.
use mathlib.Core.Path.{subst}
use mathlib.Core.Bool.{false≢true}
use encore_mcp_base.Base.{
  pos, negsuc, suc, ◌≤◌, ◌↔◌, sym, ◌∙◌, ℕ, some_inj, matches_class, ◌+◌, String, ◌≡◌, refl, arith,
  Bool, true, false, not, ◌||◌, Option, none, some, Result, ok, ◌>>=◌, ◌>>◌, throw_if, bind-eq-ok,
  then-eq-ok, ok_inj, ap, ℤ, eq_iff,
}
use encore_mcp_base.Mcp.Json.{
  Json, safe_integer, null, boolean, number, string, array, object, Fields, get_field,
}
use encore_mcp_base.OAuth.Clients.{invalid_client_error}
use encore_mcp_base.OAuth.Jwt.{is_key_id_char, falls_by, is_text}
use encore_mcp_base.OAuth.ClientAssertion.Audience.{
  IsForService, audience_matches-IsForService, numeric_date-found, safe_string-found,
}
use encore_mcp_base.OAuth.ClientAssertion.{
  safe_string, numeric_date, audience_matches, validate_not_before, validate_issued_at,
  check_assertion_claims,
}

pub is_text→eq :
    (value : Option Json) (t : String) → is_text value t ≡ true → value ≡ some (string t)
is_text→eq none t h = cc
is_text→eq (some null) t h = cc
is_text→eq (some (boolean b)) t h = cc
is_text→eq (some (number n)) t h = cc
is_text→eq (some (string s)) t h = ground (arith, (eq_iff s t).0 h)
is_text→eq (some (array items)) t h = cc
is_text→eq (some (object record_)) t h = cc

-- A claim that is absent, or a date for which a test holds.
abbrev pub IsAbsentOr : (ℤ → Type 0) → Option Json → Type 0
IsAbsentOr P none = Unit {0}
IsAbsentOr P (some value) = (date : ℤ) × (value ≡ number (safe_integer date)) × P date

-- date + shift <= now, where the date may be negative.
abbrev pub IsBy : ℤ → ℕ → ℕ → Type 0
IsBy (pos n) shift now = n + shift ≤ now
IsBy (negsuc n) shift now = shift ≤ now + suc n

pub IsBy-iff : (date : ℤ) (shift now : ℕ) → (falls_by date shift now ≡ true) ↔ IsBy date shift now
IsBy-iff (pos n) shift now = ground arith
IsBy-iff (negsuc n) shift now = ground arith

not-IsBy : (date : ℤ) (shift now : ℕ) → falls_by date shift now ≡ false → ¬ IsBy date shift now
not-IsBy date shift now h = λ by. false≢true (sym h ∙ (IsBy-iff date shift now).1 by)

-- The bounds of a time of issue and of a not-before time.
abbrev IsBegun : ℕ → ℤ → Type 0
IsBegun now date = IsBy date 0 (now + 60)

abbrev IsRecent : ℕ → ℤ → Type 0
IsRecent now date = IsBy date 0 (now + 60) × (¬ IsBy date 361 now)

pub record IsAcceptable (issuer client_id : String) (claims : Fields) (now : ℕ) (jti : String)
    (exp : ℤ) : Type 0 where
  pub issued_by_client : get_field "iss" claims ≡ some (string client_id)
  pub about_client : get_field "sub" claims ≡ some (string client_id)
  pub audience : IsForService issuer (get_field "aud" claims)
  pub expires : get_field "exp" claims ≡ some (number (safe_integer exp))
  pub unexpired : ¬ IsBy exp 60 now
  pub short : IsBy exp 0 (now + 360)
  pub begun : IsAbsentOr (IsBegun now) (get_field "nbf" claims)
  pub recent : IsAbsentOr (IsRecent now) (get_field "iat" claims)
  pub identified : get_field "jti" claims ≡ some (string jti)
  pub safe : matches_class is_key_id_char 1 256 jti ≡ true

unless_thrown : (test : Bool) → throw_if test invalid_client_error ≡ ok tt → test ≡ false
unless_thrown true h = cc
unless_thrown false h = refl

not_before_ok :
    (value : Option Json) (now : ℕ)
    → validate_not_before value now ≡ ok tt
    → IsAbsentOr (IsBegun now) value
unfolding validate_not_before
not_before_ok none now h = tt
not_before_ok (some value) now h =
    let (nbf, read, rest) = bind-eq-ok (numeric_date (some value)) _ h in
    (
      nbf,
      some_inj (numeric_date-found (some value) nbf read),
      (IsBy-iff nbf 0 (now + 60)).0 (ground (arith, unless_thrown _ rest)),
    )

issued_at_ok :
    (value : Option Json) (now : ℕ)
    → validate_issued_at value now ≡ ok tt
    → IsAbsentOr (IsRecent now) value
unfolding validate_issued_at
issued_at_ok none now h = tt
issued_at_ok (some value) now h =
    let (iat, read, rest) = bind-eq-ok (numeric_date (some value)) _ h in
    (
      iat,
      some_inj (numeric_date-found (some value) iat read),
      (
        (IsBy-iff iat 0 (now + 60)).0 (ground (arith, unless_thrown _ rest)),
        not-IsBy iat 361 now (ground (arith, unless_thrown _ rest)),
      ),
    )

-- The checks behind that of the type of `exp`.
abbrev after_expiry : Fields → ℕ → ℤ → Result (String × ℤ)
after_expiry claims now exp =
    throw_if (falls_by exp 60 now || not (falls_by exp 0 (now + 300 + 60))) invalid_client_error
    >> (validate_not_before (get_field "nbf" claims) now
        >> (validate_issued_at (get_field "iat" claims) now
            >> (safe_string (get_field "jti" claims) >>= λ jti. ok (jti, exp))))

acceptable :
    (issuer client_id : String) (claims : Fields) (now : ℕ) (jti : String) (exp : ℤ)
    → (not (is_text (get_field "iss" claims) client_id)
        || not (is_text (get_field "sub" claims) client_id))
      ≡ false
    → not (audience_matches issuer (get_field "aud" claims)) ≡ false
    → numeric_date (get_field "exp" claims) ≡ ok exp
    → (falls_by exp 60 now || not (falls_by exp 0 (now + 300 + 60))) ≡ false
    → IsAbsentOr (IsBegun now) (get_field "nbf" claims)
    → IsAbsentOr (IsRecent now) (get_field "iat" claims)
    → safe_string (get_field "jti" claims) ≡ ok jti
    → IsAcceptable issuer client_id claims now jti exp
acceptable issuer client_id claims now jti exp named aimed read timely begun recent found = record {
  issued_by_client = is_text→eq (get_field "iss" claims) client_id (ground arith);
  about_client = is_text→eq (get_field "sub" claims) client_id (ground arith);
  audience = audience_matches-IsForService issuer (get_field "aud" claims) (ground arith);
  expires = numeric_date-found (get_field "exp" claims) exp read;
  unexpired = not-IsBy exp 60 now (ground arith);
  short = (IsBy-iff exp 0 (now + 360)).0 (ground arith);
  begun = begun;
  recent = recent;
  identified = (safe_string-found (get_field "jti" claims) jti found).0;
  safe = (safe_string-found (get_field "jti" claims) jti found).1;
}

-- Claims that pass name the client as issuer and subject, the service or its token endpoint as the
-- audience, alone or in an array, an expiry at most
-- 360 seconds ahead and less than 60 seconds past, and an identifier; a not-before time is at most 60
-- seconds ahead, a time of issue at most 60 seconds ahead and 360 seconds past.
pub check_assertion_claims-IsAcceptable :
    (issuer client_id : String) (claims : Fields) (now : ℕ) (jti : String) (exp : ℤ)
    → check_assertion_claims issuer client_id claims now ≡ ok (jti, exp)
    → IsAcceptable issuer client_id claims now jti exp
unfolding check_assertion_claims
check_assertion_claims-IsAcceptable issuer client_id claims now jti exp h =
    let (named, h1) = then-eq-ok _ _ h in
    let (aimed, h2) = then-eq-ok _ _ h1 in
    let (date, read, h3) =
      bind-eq-ok (numeric_date (get_field "exp" claims)) (after_expiry claims now) h2 in
    let (timely, h4) = then-eq-ok _ _ h3 in
    let (begun, h5) = then-eq-ok _ _ h4 in
    let (recent, h6) = then-eq-ok _ _ h5 in
    let (id, found, done) =
      bind-eq-ok (safe_string (get_field "jti" claims)) (λ jti'. ok (jti', date)) h6 in
    let same_id : id ≡ jti = ap (λ p. p.0) (ok_inj done) in
    let same_date : date ≡ exp = ap (λ p. p.1) (ok_inj done) in
    subst (λ d. IsAcceptable issuer client_id claims now jti d) same_date
      (subst (λ i. IsAcceptable issuer client_id claims now i date) same_id
        (acceptable issuer client_id claims now id date (unless_thrown _ named)
          (unless_thrown _ aimed) read (unless_thrown _ timely)
          (not_before_ok (get_field "nbf" claims) now begun)
          (issued_at_ok (get_field "iat" claims) now recent) found))
