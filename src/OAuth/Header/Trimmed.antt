-- ===== src/OAuth/Header/Trimmed.antt =====
-- Laws of `trim`.
use Prim.Native.Char.{Char, code}
use Prim.Native.String
use text.Mathlib.TextLemmas.{nil-append, cons-append}
use encore_mcp_base.Base.{
  ℕ, String, ◌≡◌, refl, sym, ap, ◌∙◌, arith, Bool, false, inl, inr, any, codes, Bool-cases,
}
use encore_mcp_base.OAuth.Header.{is_white, skip, onto_trimmed, trim_end, trim}

-- The text is empty or starts with no white space.
abbrev StartsBlack : String → Type 0
StartsBlack String.[] = Unit {0}
StartsBlack (String.◌∷◌ c s) = is_white (code c) ≡ false

skip-StartsBlack : (s : String) → StartsBlack (skip is_white s)
skip-StartsBlack String.[] = tt
skip-StartsBlack (String.◌∷◌ c s) = elim (Bool-cases (is_white (code c))) [
  | inl white ↦ rw white (skip-StartsBlack s)
  | inr black ↦ rw black black
]

skip_black : (s : String) → StartsBlack s → skip is_white s ≡ s
skip_black String.[] h = refl
skip_black (String.◌∷◌ c s) h = rw h refl

onto-StartsBlack :
    (c : Char) (s : String) → is_white (code c) ≡ false → StartsBlack (onto_trimmed c s)
onto-StartsBlack c String.[] h = rw h h
onto-StartsBlack c (String.◌∷◌ d s) h = h

trim_end-StartsBlack : (s : String) → StartsBlack s → StartsBlack (trim_end s)
trim_end-StartsBlack String.[] h = tt
trim_end-StartsBlack (String.◌∷◌ c s) h = onto-StartsBlack c (trim_end s) h

onto_again :
    (c : Char) (s : String) → trim_end s ≡ s → trim_end (onto_trimmed c s) ≡ onto_trimmed c s
onto_again c String.[] h = elim (Bool-cases (is_white (code c))) [
  | inl white ↦ rw white refl
  | inr black ↦ rw black (rw black refl)
]
onto_again c (String.◌∷◌ d s) h = ap (onto_trimmed c) h

trim_end_again : (s : String) → trim_end (trim_end s) ≡ trim_end s
trim_end_again String.[] = refl
trim_end_again (String.◌∷◌ c s) = onto_again c (trim_end s) (trim_end_again s)

-- A trimmed text is left as it is.
pub trim_again : (s : String) → trim (trim s) ≡ trim s
unfolding trim
trim_again s =
    ap trim_end (
      skip_black (trim_end (skip is_white s))
        (trim_end-StartsBlack (skip is_white s) (skip-StartsBlack s)))
    ∙ trim_end_again (skip is_white s)

abbrev pub IsNonempty : String → Type 0
IsNonempty String.[] = ⊥
IsNonempty (String.◌∷◌ c s) = Unit {0}

onto-IsNonempty :
    (c : Char) (s : String) → is_white (code c) ≡ false → IsNonempty (onto_trimmed c s)
onto-IsNonempty c String.[] h = rw h tt
onto-IsNonempty c (String.◌∷◌ d s) h = tt

black-IsNonempty :
    (c : Char) (s : String) → is_white (code c) ≡ false → IsNonempty (trim (String.◌∷◌ c s))
unfolding trim
black-IsNonempty c s h = rw h (onto-IsNonempty c (trim_end s) h)

trimmed-StartsBlack : (s : String) → trim s ≡ s → StartsBlack s
unfolding trim
trimmed-StartsBlack s h = rw (sym h) (trim_end-StartsBlack (skip is_white s) (skip-StartsBlack s))

-- A text that starts as a trimmed one does is not blank.
pub append-IsNonempty :
    (s t : String) → trim s ≡ s → IsNonempty s → IsNonempty (trim (String.◌++◌ s t))
append-IsNonempty String.[] t h full = absurd full
append-IsNonempty (String.◌∷◌ c s) t h full =
    rw (cons-append c s t)
      (black-IsNonempty c (String.◌++◌ s t) (trimmed-StartsBlack (String.◌∷◌ c s) h))

module _ (p : ℕ → Bool) where
  pub any-append :
      (s t : String)
      → any p (codes s) ≡ false
      → any p (codes t) ≡ false
      → any p (codes (String.◌++◌ s t)) ≡ false
  any-append String.[] t hs ht = rw (nil-append t) ht
  any-append (String.◌∷◌ c s) t hs ht = rw (cons-append c s t) (ground (arith, any-append s t))

  any-skip : (s : String) → any p (codes s) ≡ false → any p (codes (skip is_white s)) ≡ false
  any-skip String.[] h = refl
  any-skip (String.◌∷◌ c s) h = ground (arith, any-skip s)

  any-onto :
      (c : Char) (s : String)
      → p (code c) ≡ false
      → any p (codes s) ≡ false
      → any p (codes (onto_trimmed c s)) ≡ false
  any-onto c String.[] hc hs = elim (Bool-cases (is_white (code c))) [
    | inl white ↦ rw white refl
    | inr black ↦ rw black (ground arith)
  ]
  any-onto c (String.◌∷◌ d s) hc hs = ground (arith)

  any-trim_end : (s : String) → any p (codes s) ≡ false → any p (codes (trim_end s)) ≡ false
  any-trim_end String.[] h = refl
  any-trim_end (String.◌∷◌ c s) h =
      any-onto c (trim_end s) (ground arith) (any-trim_end s (ground arith))

  -- Trimming brings no character in.
  pub any-trim : (s : String) → any p (codes s) ≡ false → any p (codes (trim s)) ≡ false
  unfolding trim
  any-trim s h = any-trim_end (skip is_white s) (any-skip s h)
