-- ===== src/Base/Errors.antt =====
-- shared/errors.ts and mcp/protocol-error.ts: thrown errors as values.
use Prim.Native.Nat.{ℕ, zero, suc}
use Prim.Native.String.{String}
use mathlib.Core.Logic.{◌⊎◌, inl, inr}
use mathlib.Core.Path.{◌≡◌, refl}
use mathlib.Core.Bool.{Bool, true, false}
use mathlib.Core.Option.{Option, none, some}
use mathlib.Core.List.{List}

pub data ErrorCode : Type 0 where
  bad_request unauthorized forbidden not_found invalid_grant invalid_client : ErrorCode
  invalid_scope invalid_target unsupported_grant_type unsupported_response_type : ErrorCode
  rate_limited server_error : ErrorCode

pub record ServiceError : Type 0 where
  pub code : ErrorCode
  pub message : String
  pub status : ℕ

-- `negsuc n` is -(n + 1).
pub data ℤ : Type 0 where
  pos : ℕ → ℤ
  negsuc : ℕ → ℤ

-- The literal -n.
abbrev pub minus : ℕ → ℤ
minus zero = pos 0
minus (suc n) = negsuc n

-- What can be thrown: a ServiceError, a McpProtocolError, a McpAuthChallengeError (a ServiceError
-- with scopes), any other Error with its message.
pub data Thrown : Type 0 where
  service : ServiceError → Thrown
  protocol : ℤ → String → Thrown
  challenge : List String → ServiceError → Thrown
  other : String → Thrown

-- What a call gives back: it throws, or returns a value.
pub data Result {ℓ} (T : Type ℓ) : Type ℓ where
  err : Thrown → Result T
  ok : T → Result T

module _ {ℓ κ} {T : Type ℓ} {S : Type κ} where
  -- A statement after one that can throw.
  infixl 5 ◌>>=◌
  abbrev pub ◌>>=◌ : Result T → (T → Result S) → Result S
  err thrown >>= rest = err thrown
  ok value >>= rest = rest value

  pub bind-eq-ok :
      (first : Result T) (rest : T → Result S) {s : S}
      → (first >>= rest) ≡ ok s
      → (value : T) × (first ≡ ok value) × (rest value ≡ ok s)
  bind-eq-ok (err thrown) rest returns = cc
  bind-eq-ok (ok value) rest returns = (value, refl, returns)

infixl 5 ◌>>◌
abbrev pub ◌>>◌ {κ} : {S : Type κ} → Result (Unit {0}) → Result S → Result S
err thrown >> rest = err thrown
ok done >> rest = rest

-- `new ServiceError(code, message, status)`
abbrev pub service_error : ErrorCode → String → ℕ → Thrown
service_error c m s = service (record { code = c; message = m; status = s })

-- `if (test) throw e`
abbrev pub throw_if : Bool → Thrown → Result (Unit {0})
throw_if true e = err e
throw_if false e = ok tt

abbrev pub bad_request_error : String → Thrown
bad_request_error m = service_error bad_request m 400

abbrev pub or_throw {ℓ} : {A : Type ℓ} → Option A → Thrown → Result A
or_throw none e = err e
or_throw (some a) e = ok a

pub then-eq-ok {κ} :
    {S : Type κ} (first : Result (Unit {0})) (rest : Result S) {s : S}
    → (first >> rest) ≡ ok s
    → (first ≡ ok tt) × (rest ≡ ok s)
then-eq-ok (err thrown) rest returns = cc
then-eq-ok (ok done) rest returns = (refl, returns)

pub ok_inj {ℓ} : {T : Type ℓ} {s t : T} → ok s ≡ ok t → s ≡ t
ok_inj e = cc

pub Result-cases {ℓ} :
    {A : Type ℓ} (m : Result A) → ((a : A) × (m ≡ ok a)) ⊎ ((e : Thrown) × (m ≡ err e))
Result-cases (ok a) = inl (a, refl)
Result-cases (err e) = inr (e, refl)
