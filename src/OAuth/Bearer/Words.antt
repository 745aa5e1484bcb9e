-- ===== src/OAuth/Bearer/Words.antt =====
-- The words of a scope text, described apart from how auth/bearer.ts splits it.
use Prim.Native.Char.{Char, code}
use Prim.Native.String
use text.Mathlib.TextLemmas.{nil-append, cons-append}
use mathlib.Core.Bool.{false≢true}
use mathlib.Core.Path.{subst}
use encore_mcp_base.Base.{
  String, ◌≡◌, refl, sym, ap, ◌∙◌, ◌⊎◌, inl, inr, Bool, true, List, [], ◌∷◌, arith, All, all,
  contains, keep, Bool-cases, eq_iff, ◌==◌,
}
use encore_mcp_base.Base.Split.{onto_first}
use encore_mcp_base.OAuth.Header.{is_white}
use encore_mcp_base.OAuth.Bearer.{split_white, words}

abbrev BeginsWhite : String → Type 0
BeginsWhite String.[] = Unit {0}
BeginsWhite (String.◌∷◌ c s) = is_white (code c) ≡ true

abbrev EndsWhite : String → Type 0
EndsWhite String.[] = ⊥
EndsWhite (String.◌∷◌ c String.[]) = is_white (code c) ≡ true
EndsWhite (String.◌∷◌ c (String.◌∷◌ d s)) = EndsWhite (String.◌∷◌ d s)

-- The text begins with the word.
abbrev pub IsFirstWord : String → String → Type 0
IsFirstWord w s = (after : String) × (s ≡ String.◌++◌ w after) × BeginsWhite after

-- The word stands behind white space.
abbrev pub IsLaterWord : String → String → Type 0
IsLaterWord w s =
    (before : String) × (after : String) × (s ≡ String.◌++◌ before (String.◌++◌ w after))
    × EndsWhite before
    × BeginsWhite after

-- The word stands in the text, bounded on both sides by white space or the text's ends.
abbrev pub IsWordIn : String → String → Type 0
IsWordIn w s = IsFirstWord w s ⊎ IsLaterWord w s

ends_cons : (c : Char) (b : String) → EndsWhite b → EndsWhite (String.◌∷◌ c b)
ends_cons c String.[] h = absurd h
ends_cons c (String.◌∷◌ d b) h = h

later_cons : (c : Char) (w s : String) → IsLaterWord w s → IsLaterWord w (String.◌∷◌ c s)
later_cons c w s (before, after, parts, ends, begins) = (
  String.◌∷◌ c before,
  after,
  ap (String.◌∷◌ c) parts ∙ sym (cons-append c before (String.◌++◌ w after)),
  ends_cons c before ends,
  begins,
)

behind_white :
    (c : Char) (w s : String)
    → is_white (code c) ≡ true
    → IsWordIn w s
    → IsLaterWord w (String.◌∷◌ c s)
behind_white c w s white (inl (after, parts, begins)) = (
  String.◌∷◌ c String.[],
  after,
  ap (String.◌∷◌ c) (parts ∙ sym (nil-append (String.◌++◌ w after)))
      ∙ sym (cons-append c String.[] (String.◌++◌ w after)),
  white,
  begins,
)
behind_white c w s white (inr later) = later_cons c w s later

-- The first part of the split and the others.
abbrev HasParts : String → List String → Type 0
HasParts s [] = ⊥
HasParts s (p ∷ ps) = IsFirstWord p s × ((w : String) → contains ps w ≡ true → IsLaterWord w s)

parts_words :
    (s : String) (ps : List String)
    → HasParts s ps
    → (w : String) → contains ps w ≡ true
    → IsWordIn w s
parts_words s [] h w listed = absurd h
parts_words s (p ∷ ps) h w listed = elim (Bool-cases (p == w)) [
  | inl same ↦ inl (subst (λ x. IsFirstWord x s) ((eq_iff p w).0 same) h.0)
  | inr other ↦ inr (h.1 w (ground (arith, other)))
]

onto_parts :
    (c : Char) (s : String) (ps : List String)
    → HasParts s ps
    → HasParts (String.◌∷◌ c s) (onto_first c ps)
onto_parts c s [] h = absurd h
onto_parts c s (p ∷ ps) ((after, parts, begins), later) = (
  (after, ap (String.◌∷◌ c) parts ∙ sym (cons-append c p after), begins),
  λ w listed. later_cons c w s (later w listed),
)

split_white-HasParts : (s : String) → HasParts s (split_white s)
split_white-HasParts String.[] =
    ((String.[], sym (nil-append String.[]), tt), λ w listed. absurd (false≢true listed))
split_white-HasParts (String.◌∷◌ c s) = elim (Bool-cases (is_white (code c))) [
  | inl white ↦
      let parts : String.[] ∷ split_white s ≡ split_white (String.◌∷◌ c s) = rw white refl in
      subst (HasParts (String.◌∷◌ c s)) parts
        (begun c s white (split_white s) (split_white-HasParts s))
  | inr other ↦
      let parts : onto_first c (split_white s) ≡ split_white (String.◌∷◌ c s) = rw other refl in
      subst (HasParts (String.◌∷◌ c s)) parts
        (onto_parts c s (split_white s) (split_white-HasParts s))
]
  where
    begun :
        (c : Char) (s : String)
        → is_white (code c) ≡ true
        → (ps : List String) → HasParts s ps
        → HasParts (String.◌∷◌ c s) (String.[] ∷ ps)
    begun c s white ps h = (
      (String.◌∷◌ c s, sym (nil-append (String.◌∷◌ c s)), white),
      λ w listed. behind_white c w s white (parts_words s ps h w listed),
    )

contains-keep :
    (p : String → Bool) (xs : List String) (w : String)
    → contains (keep p xs) w ≡ true
    → contains xs w ≡ true
contains-keep p [] w h = h
contains-keep p (x ∷ xs) w h = ground (arith, contains-keep p xs w)

pub words-IsWordIn : (s w : String) → contains (words s) w ≡ true → IsWordIn w s
unfolding words is_white
words-IsWordIn s w h =
    parts_words s (split_white s) (split_white-HasParts s) w (contains-keep _ (split_white s) w h)

pub all_words :
    (s : String) (ws : List String)
    → all (contains (words s)) ws ≡ true
    → All (λ w. IsWordIn w s) ws
all_words s [] h = tt
all_words s (w ∷ ws) h = (words-IsWordIn s w (ground arith), all_words s ws (ground arith))
