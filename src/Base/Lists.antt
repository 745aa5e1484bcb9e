-- ===== src/Base/Lists.antt =====
-- Lists as the source uses arrays: `length`, `includes`, `some`, `every`, `filter`, `find`, `slice`.
use Prim.Native.Nat.{ℕ, zero, suc, ◌+◌}
use Prim.Native.String.{String}
use mathlib.Core.Path.{◌≡◌, sym}
use mathlib.Core.Bool.{Bool, true, false, ◌&&◌, ◌||◌, false≢true, Bool-set}
use mathlib.Core.Option.{Option, none, some}
use mathlib.Core.List.{List, [], ◌∷◌, ◌++◌, Mem, mem-cons, not-mem-nil}
use native.Mathlib.Omega.{arith}
use text.Mathlib.Text.{◌==◌}
use mathlib.Core.Logic.{◌↔◌, inl, inr}
use mathlib.Core.Logic.Or
use text.Mathlib.TextEquality.{eq_iff}
use text.Mathlib.TextPositions.{eq_refl}
use encore_mcp_base.Base.Tests.{if◌then◌else◌, Bool-cases}

module _ {ℓ} {A : Type ℓ} where
  abbrev pub length : List A → ℕ
  length [] = 0
  length (x ∷ xs) = suc (length xs)

  abbrev pub any : (A → Bool) → List A → Bool
  any p [] = false
  any p (x ∷ xs) = p x || any p xs

  abbrev pub all : (A → Bool) → List A → Bool
  all p [] = true
  all p (x ∷ xs) = p x && all p xs

  -- `xs.filter(p)`
  abbrev pub keep : (A → Bool) → List A → List A
  keep p [] = []
  keep p (x ∷ xs) = if p x then x ∷ keep p xs else keep p xs

  abbrev pub find : (A → Bool) → List A → Option A
  find p [] = none
  find p (x ∷ xs) = if p x then some x else find p xs

  abbrev pub take : ℕ → List A → List A
  take zero xs = []
  take (suc n) [] = []
  take (suc n) (x ∷ xs) = x ∷ take n xs

  abbrev pub drop : ℕ → List A → List A
  drop zero xs = xs
  drop (suc n) [] = []
  drop (suc n) (x ∷ xs) = drop n xs

  pub length-append : (xs ys : List A) → length (xs ++ ys) ≡ length xs + length ys
  length-append [] ys = omega arith
  length-append (x ∷ xs) ys = omega (arith, length-append xs ys)

-- `xs.includes(x)` on texts
abbrev pub contains : List String → String → Bool
contains [] x = false
contains (y ∷ ys) x = y == x || contains ys x

pub contains→mem : (xs : List String) (x : String) → contains xs x ≡ true → Mem x xs
contains→mem [] x h = absurd (false≢true h)
contains→mem (y ∷ ys) x h = elim (Bool-cases (y == x)) [
  | inl same ↦ mem-cons.1 (Or.inl (sym ((eq_iff y x).0 same)))
  | inr different ↦ mem-cons.1 (Or.inr (contains→mem ys x (rw different at h)))
]

pub mem→contains : (xs : List String) (x : String) → Mem x xs → contains xs x ≡ true
mem→contains [] x m = absurd (not-mem-nil m)
mem→contains (y ∷ ys) x m =
    Or.elim (Bool-set _ _) (mem-cons.0 m) (λ e. rw (e, eq_refl))
      (λ tail. rw (mem→contains ys x tail) (ground arith))

-- `includes` is membership.
pub contains_iff : (xs : List String) (x : String) → (contains xs x ≡ true) ↔ Mem x xs
contains_iff xs x = (contains→mem xs x, mem→contains xs x)

module _ {ℓ κ} {A : Type ℓ} (P : A → Type κ) where
  abbrev pub All : List A → Type κ
  All [] = Unit
  All (x ∷ xs) = P x × All xs
