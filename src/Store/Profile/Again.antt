-- ===== src/Store/Profile/Again.antt =====
-- A validated profile, validated again: what the store does when it writes and reads one.
use Prim.Native.String
use mathlib.Core.Path.{subst}
use encore_mcp_base.Base.{
  String, ◌≡◌, refl, ◌∙◌, arith, Bool, true, false, inl, inr, Option, none, some, ok, err, or_throw,
  or_else, bind-eq-ok, ok_inj, some_inj, Option-cases, Bool-cases, ltb, any, codes, utf16_length,
  truthy, if◌then◌else◌,
}
use encore_mcp_base.Mcp.Json.{
  Json, null, boolean, number, string, array, object, get_field, as_object,
}
use encore_mcp_base.OAuth.Header.{trim, is_white}
use encore_mcp_base.OAuth.Header.Trimmed.{
  trim_again, IsNonempty, append-IsNonempty, any-append, any-trim,
}
use encore_mcp_base.Store.Records.{UserProfile}
use encore_mcp_base.Store.Profile.{
  message, profile_error, is_line_break, trimmed_claim, optional_profile_claim,
  required_profile_claim, matches_email, email_claim, boolean_claim, full_name,
  validate_user_profile, profile_value,
}

-- A text that a claim may hold but for its length.
pub record IsLine (s : String) : Type 0 where
  pub trimmed : trim s ≡ s
  pub full : IsNonempty s
  pub unbroken : any is_line_break (codes s) ≡ false

pub record IsClaim (s : String) : Type 0 where
  pub line : IsLine s
  pub bounded : ltb 256 (utf16_length (codes s)) ≡ false

truthy-full : (s : String) → IsNonempty s → truthy (some s) ≡ some s
truthy-full String.[] h = absurd h
truthy-full (String.◌∷◌ c s) h = refl

truthy-some : (s t : String) → truthy (some s) ≡ some t → (s ≡ t) × IsNonempty t
truthy-some String.[] t h = absurd (ground arith)
truthy-some (String.◌∷◌ c s) t h = (some_inj h, subst IsNonempty (some_inj h) tt)

-- What a claim's text is after the check.
trimmed_claim-IsClaim : (s name t : String) → trimmed_claim s name ≡ ok (some t) → IsClaim t
unfolding trimmed_claim
trimmed_claim-IsClaim s name t h = elim (Option-cases (truthy (some (trim s)))) [
  | inl blank ↦ absurd (ground (arith, blank))
  | inr (u, there) ↦
      let (same, full) = truthy-some (trim s) u there in
      let same_text : u ≡ t = ground (arith, there) in
      subst IsClaim same_text (record {
        line = record {
          trimmed = rw (← same) (trim_again s);
          full = full;
          unbroken = ground (arith, there);
        };
        bounded = ground (arith, there);
      })
]

claim_again : (s name : String) → IsClaim s → trimmed_claim s name ≡ ok (some s)
unfolding trimmed_claim
claim_again s name h =
    ground (arith, h.line.trimmed, truthy-full s h.line.full, h.bounded, h.line.unbroken)

too_long :
    (s name : String)
    → IsLine s
    → ltb 256 (utf16_length (codes s)) ≡ true
    → trimmed_claim s name ≡ err (message name " must be at most 256 characters")
unfolding trimmed_claim
too_long s name h long = ground (arith, h.trimmed, truthy-full s h.full, long)

optional-IsClaim :
    (value : Option Json) (name t : String)
    → optional_profile_claim value name ≡ ok (some t)
    → IsClaim t
unfolding optional_profile_claim
optional-IsClaim none name t h = absurd (ground arith)
optional-IsClaim (some null) name t h = absurd (ground arith)
optional-IsClaim (some (boolean b)) name t h = absurd (ground arith)
optional-IsClaim (some (number n)) name t h = absurd (ground arith)
optional-IsClaim (some (string s)) name t h = trimmed_claim-IsClaim s name t h
optional-IsClaim (some (array items)) name t h = absurd (ground arith)
optional-IsClaim (some (object record_)) name t h = absurd (ground arith)

required-IsClaim :
    (value : Option Json) (name t : String) → required_profile_claim value name ≡ ok t → IsClaim t
unfolding required_profile_claim
required-IsClaim value name t h =
    let (parsed, read, rest) =
      bind-eq-ok (optional_profile_claim value name)
        (λ parsed. or_throw (truthy parsed) (message name " is required")) h in
    present parsed read rest
  where
    present :
        (parsed : Option String)
        → optional_profile_claim value name ≡ ok parsed
        → or_throw (truthy parsed) (message name " is required") ≡ ok t
        → IsClaim t
    present none read rest = absurd (ground arith)
    present (some s) read rest = elim (Option-cases (truthy (some s))) [
      | inl blank ↦ absurd (ground (arith, blank))
      | inr (u, there) ↦
          let same : u ≡ t = ground (arith, there) in
          subst IsClaim ((truthy-some s u there).0 ∙ same) (optional-IsClaim value name s read)
    ]

required_again :
    (s name : String) → IsClaim s → required_profile_claim (some (string s)) name ≡ ok s
unfolding required_profile_claim optional_profile_claim
required_again s name h = rw (claim_again s name h, truthy-full s h.line.full) refl

email-IsClaim :
    (value : Option Json) (email : String)
    → email_claim value ≡ ok email
    → IsClaim email × (matches_email email ≡ true)
unfolding email_claim
email-IsClaim value email h =
    let (found, read, rest) = bind-eq-ok (required_profile_claim value "email") _ h in
    let matched : matches_email found ≡ true = ground arith in
    let same : found ≡ email = ground arith in
    (subst IsClaim same (required-IsClaim value "email" found read), rw (← same) matched)

email_again :
    (s : String) → IsClaim s → matches_email s ≡ true → email_claim (some (string s)) ≡ ok s
unfolding email_claim
email_again s h matched = rw (required_again s "email" h, matched) refl

abbrev line : String → String → String
line first second = String.◌++◌ first (String.◌++◌ " " second)

full_name-IsLine :
    (first second : String) → IsLine first → IsLine second → IsLine (full_name first second)
full_name-IsLine first second f s = record {
  trimmed = trim_again (line first second);
  full = append-IsNonempty first (String.◌++◌ " " second) f.trimmed f.full;
  unbroken = any-trim is_line_break (line first second) (
      any-append is_line_break first (String.◌++◌ " " second) f.unbroken
        (any-append is_line_break " " second refl s.unbroken));
}

pub record IsProfile (u : UserProfile) : Type 0 where
  pub subject : IsClaim u.sub
  pub given : IsClaim u.given_name
  pub family : IsClaim u.family_name
  pub named : IsLine u.name
  pub username : IsClaim u.preferred_username
  pub email : IsClaim u.email
  pub address : matches_email u.email ≡ true

authenticated : IsClaim "Authenticated" × IsClaim "User"
unfolding trim is_white
authenticated = (
  record { line = record { trimmed = refl; full = tt; unbroken = refl }; bounded = refl },
  record { line = record { trimmed = refl; full = tt; unbroken = refl }; bounded = refl },
)

or_default :
    (value : Option Json) (name default : String) (found : Option String)
    → IsClaim default
    → optional_profile_claim value name ≡ ok found
    → IsClaim (or_else found default)
or_default value name default none h read = h
or_default value name default (some s) h read = optional-IsClaim value name s read

named_line :
    (value : Option Json) (first second : String) (found : Option String)
    → IsLine first
    → IsLine second
    → optional_profile_claim value "name" ≡ ok found
    → IsLine (or_else found (full_name first second))
named_line value first second none f s read = full_name-IsLine first second f s
named_line value first second (some t) f s read = (optional-IsClaim value "name" t read).line

-- The profile that the checked claims make.
abbrev made :
    Option String
    → Option String
    → String
    → String
    → Option String
    → Option String
    → Bool
    → UserProfile
made given family email sub name username verified = record {
  sub = sub;
  given_name = or_else given "Authenticated";
  family_name = or_else family "User";
  name = or_else name (full_name (or_else given "Authenticated") (or_else family "User"));
  preferred_username = or_else username email;
  email = email;
  email_verified = verified;
}

validated-IsProfile :
    (value : Json) (u : UserProfile) → validate_user_profile value ≡ ok u → IsProfile u
unfolding validate_user_profile
validated-IsProfile value u h =
    let (claims, is_object, h1) = bind-eq-ok (or_throw (as_object value) profile_error) _ h in
    let (given, read_given, h2) =
      bind-eq-ok (optional_profile_claim (get_field "given_name" claims) "given_name") _ h1 in
    let (family, read_family, h3) =
      bind-eq-ok (optional_profile_claim (get_field "family_name" claims) "family_name") _ h2 in
    let (email, read_email, h4) = bind-eq-ok (email_claim (get_field "email" claims)) _ h3 in
    let (sub, read_sub, h5) =
      bind-eq-ok (required_profile_claim (get_field "sub" claims) "sub") _ h4 in
    let (name, read_name, h6) =
      bind-eq-ok (optional_profile_claim (get_field "name" claims) "name") _ h5 in
    let (username, read_username, h7) =
      bind-eq-ok
        (optional_profile_claim (get_field "preferred_username" claims) "preferred_username") _
        h6 in
    let (verified, read_verified, h8) =
      bind-eq-ok (boolean_claim (get_field "email_verified" claims))
        (λ v. ok (made given family email sub name username v)) h7 in
    let first =
      or_default (get_field "given_name" claims) "given_name" "Authenticated" given authenticated.0
        read_given in
    let second =
      or_default (get_field "family_name" claims) "family_name" "User" family authenticated.1
        read_family in
    let (address, matched) = email-IsClaim (get_field "email" claims) email read_email in
    subst IsProfile (ok_inj h8) (record {
      subject = required-IsClaim (get_field "sub" claims) "sub" sub read_sub;
      given = first;
      family = second;
      named = named_line (get_field "name" claims) _ _ name first.line second.line read_name;
      username =
          or_default (get_field "preferred_username" claims) "preferred_username" email username
            address read_username;
      email = address;
      address = matched;
    })

optional_again :
    (s name : String) → IsClaim s → optional_profile_claim (some (string s)) name ≡ ok (some s)
unfolding optional_profile_claim
optional_again s name h = claim_again s name h

-- A profile that has been validated is validated again, as it is when the store writes it and when
-- it reads it back, if its name is not too long; a name that was put together from a given name and
-- a family name can be, and then the second validation refuses what the first one made.
pub validate_user_profile-again :
    (value : Json) (u : UserProfile)
    → validate_user_profile value ≡ ok u
    → validate_user_profile (profile_value u) ≡ (
        if ltb 256 (utf16_length (codes u.name))
        then err (message "name" " must be at most 256 characters")
        else ok u)
unfolding validate_user_profile boolean_claim
validate_user_profile-again value u h =
    let p = validated-IsProfile value u h in
    elim (Bool-cases (ltb 256 (utf16_length (codes u.name)))) [
      | inl long ↦
          rw
            (
              optional_again u.given_name "given_name" p.given,
              optional_again u.family_name "family_name" p.family,
              email_again u.email p.email p.address,
              required_again u.sub "sub" p.subject,
              optional_long u.name p.named long,
              long,
            )
            refl
      | inr short ↦
          rw
            (
              optional_again u.given_name "given_name" p.given,
              optional_again u.family_name "family_name" p.family,
              email_again u.email p.email p.address,
              required_again u.sub "sub" p.subject,
              optional_again u.name "name" (record { line = p.named; bounded = short }),
              optional_again u.preferred_username "preferred_username" p.username,
              short,
            )
            refl
    ]
  where
    optional_long :
        (s : String)
        → IsLine s
        → ltb 256 (utf16_length (codes s)) ≡ true
        → optional_profile_claim (some (string s)) "name"
          ≡ err (message "name" " must be at most 256 characters")
    optional_long s l long = unfold optional_profile_claim in too_long s "name" l long
