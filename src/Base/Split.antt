-- ===== src/Base/Split.antt =====
-- `split` and `join` of texts at a one-character separator, and the `Set` of a list of texts.
use Prim.Native.Char.{Char, code}
use Prim.Native.String
use text.Mathlib.TextLemmas.{nil-append, cons-append}
use encore_mcp_base.Base.{
  ℕ, String, ◌≡◌, refl, Bool, true, false, not, List, [], ◌∷◌, ◌==◌, eq_iff, eq_refl, arith,
  if◌then◌else◌, contains, keep, all, codes, nat_eq, All,
}

-- A character before the first part.
abbrev pub onto_first : Char → List String → List String
onto_first c [] = String.◌∷◌ c String.[] ∷ []
onto_first c (w ∷ ws) = String.◌∷◌ c w ∷ ws

-- `s.split(d)`
unfoldable pub split : ℕ → String → List String
split d String.[] = String.[] ∷ []
split d (String.◌∷◌ c s) =
    let parts = split d s in if nat_eq (code c) d then String.[] ∷ parts else onto_first c parts

pub split_at :
    (d : ℕ) (c : Char) (s : String)
    → nat_eq (code c) d ≡ true
    → split d (String.◌∷◌ c s) ≡ String.[] ∷ split d s
unfolding split
split_at d c s h = rw h refl

pub split_on :
    (d : ℕ) (c : Char) (s : String)
    → nat_eq (code c) d ≡ false
    → split d (String.◌∷◌ c s) ≡ onto_first c (split d s)
unfolding split
split_on d c s h = rw h refl

-- `parts.join(d)`
unfoldable pub join : Char → List String → String
join d [] = String.[]
join d (w ∷ []) = w
join d (w ∷ v ∷ ws) = String.◌++◌ w (String.◌∷◌ d (join d (v ∷ ws)))

-- `[...new Set(xs)]`
unfoldable pub distinct : List String → List String
distinct [] = []
distinct (x ∷ xs) = x ∷ keep (λ y. not (y == x)) (distinct xs)

-- No text stands twice.
abbrev pub AreDistinct : List String → Type 0
AreDistinct [] = Unit
AreDistinct (x ∷ xs) = (contains xs x ≡ false) × AreDistinct xs

contains-keep_other :
    (xs : List String) (x y : String)
    → contains (keep (λ z. not (z == x)) xs) y ≡ (if y == x then false else contains xs y)
contains-keep_other [] x y = ground arith
contains-keep_other (z ∷ zs) x y =
    ground (arith, contains-keep_other zs x y, eq_iff z x, eq_iff z y, eq_iff y x)

-- A set of a list has the list's elements.
pub contains-distinct : (xs : List String) (y : String) → contains (distinct xs) y ≡ contains xs y
unfolding distinct
contains-distinct [] y = refl
contains-distinct (x ∷ xs) y =
    ground
      (arith, contains-distinct xs y, contains-keep_other (distinct xs) x y, eq_iff x y, eq_iff y x)

keep-AreDistinct : (p : String → Bool) (xs : List String) → AreDistinct xs → AreDistinct (keep p xs)
keep-AreDistinct p [] d = tt
keep-AreDistinct p (x ∷ xs) d = ground (arith, keep-AreDistinct p xs d.1, contains-keep p xs x)
  where
    contains-keep :
        (p : String → Bool) (xs : List String) (x : String)
        → contains xs x ≡ false
        → contains (keep p xs) x ≡ false
    contains-keep p [] x h = refl
    contains-keep p (y ∷ ys) x h = ground (arith, contains-keep p ys x)

pub distinct-AreDistinct : (xs : List String) → AreDistinct (distinct xs)
unfolding distinct
distinct-AreDistinct [] = tt
distinct-AreDistinct (x ∷ xs) = (
  ground (arith, contains-keep_other (distinct xs) x x, eq_refl x),
  keep-AreDistinct (λ y. not (y == x)) (distinct xs) (distinct-AreDistinct xs),
)

keep_other-absent :
    (xs : List String) (x : String) → contains xs x ≡ false → keep (λ y. not (y == x)) xs ≡ xs
keep_other-absent [] x h = refl
keep_other-absent (y ∷ ys) x h = ground (arith, keep_other-absent ys x)

-- A list without repetitions is its set.
pub distinct_of_AreDistinct : (xs : List String) → AreDistinct xs → distinct xs ≡ xs
unfolding distinct
distinct_of_AreDistinct [] d = refl
distinct_of_AreDistinct (x ∷ xs) d = rw (distinct_of_AreDistinct xs d.1, keep_other-absent xs x d.0)

-- The text has no separator in it.
abbrev pub IsUnbroken : ℕ → String → Type 0
IsUnbroken d w = all (λ c. not (nat_eq c d)) (codes w) ≡ true

split-unbroken : (d : ℕ) (w : String) → IsUnbroken d w → split d w ≡ w ∷ []
unfolding split
split-unbroken d String.[] h = refl
split-unbroken d (String.◌∷◌ c w) h = ground (arith, split-unbroken d w)

split-append :
    (c : Char) (w s : String)
    → IsUnbroken (code c) w
    → split (code c) (String.◌++◌ w (String.◌∷◌ c s)) ≡ w ∷ split (code c) s
unfolding split
split-append c String.[] s h = rw (nil-append (String.◌∷◌ c s)) (ground arith)
split-append c (String.◌∷◌ b w) s h =
    rw (cons-append b w (String.◌∷◌ c s)) (ground (arith, split-append c w s))

-- A joined list is split into its parts.
pub split-join :
    (c : Char) (w : String) (ws : List String)
    → All (IsUnbroken (code c)) (w ∷ ws)
    → split (code c) (join c (w ∷ ws)) ≡ w ∷ ws
unfolding join
split-join c w [] h = split-unbroken (code c) w h.0
split-join c w (v ∷ ws) h = rw (split-append c w (join c (v ∷ ws)) h.0, split-join c v ws h.1)
