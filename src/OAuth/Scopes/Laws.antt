-- ===== src/OAuth/Scopes/Laws.antt =====
-- What auth/scopes.ts accepts, and that the texts it accepts are the joined lists of scopes.
use Prim.Native.Char.{Char, char, code}
use Prim.Native.String
use text.Mathlib.TextLemmas.{nil-append, cons-append}
use mathlib.Core.Path.{subst}
use encore_mcp_base.Base.{
  ℕ, String, ◌≡◌, refl, ◌↔◌, Bool, true, false, not, ◌&&◌, some, List, [], ◌∷◌, ◌++◌, ok, arith,
  all, codes, contains, keep, All, Bool-cases, inl, inr, nat_eq,
}
use encore_mcp_base.Base.Split.{
  split, join, distinct, AreDistinct, distinct-AreDistinct, distinct_of_AreDistinct, split-join,
  IsUnbroken, split_at, split_on, onto_first,
}
use encore_mcp_base.OAuth.Scopes.{
  is_scope_char, matches_scope_rest, matches_scope_list, parse_scopes, assert_allowed_scopes,
}

abbrev pub space : Char
space = char 32 tt

-- A scope: not empty, and of the characters of the pattern.
abbrev is_scope_codes : List ℕ → Bool
is_scope_codes [] = false
is_scope_codes (c ∷ cs) = is_scope_char c && all is_scope_char cs

abbrev pub IsScope : String → Type 0
IsScope w = is_scope_codes (codes w) ≡ true

scope_char-not_space : (c : ℕ) → is_scope_char c ≡ true → nat_eq c b' ' ≡ false
unfolding is_scope_char
scope_char-not_space c h = ground arith

space-not_scope_char : is_scope_char b' ' ≡ false
unfolding is_scope_char
space-not_scope_char = refl

scope-IsUnbroken : (w : String) → IsScope w → IsUnbroken b' ' w
scope-IsUnbroken String.[] h = cc
scope-IsUnbroken (String.◌∷◌ c w) h = ground (arith, chars (codes w), scope_char-not_space (code c))
  where
    chars : (cs : List ℕ) → all is_scope_char cs ≡ true → all (λ c. not (nat_eq c b' ')) cs ≡ true
    chars [] h = refl
    chars (c ∷ cs) h = ground (arith, chars cs, scope_char-not_space c)

codes-append : (s t : String) → codes (String.◌++◌ s t) ≡ codes s ++ codes t
codes-append String.[] t = rw (nil-append t) refl
codes-append (String.◌∷◌ c s) t = rw (cons-append c s t, codes-append s t) refl

rest-within : (cs : List ℕ) → all is_scope_char cs ≡ true → matches_scope_rest cs ≡ true
rest-within [] h = refl
rest-within (c ∷ []) h = ground arith
rest-within (c ∷ d ∷ cs) h = ground (arith, rest-within (d ∷ cs))

rest-cons :
    (d : ℕ) (ds : List ℕ)
    → is_scope_char d ≡ true
    → matches_scope_rest ds ≡ true
    → matches_scope_rest (d ∷ ds) ≡ true
rest-cons d [] h m = h
rest-cons d (e ∷ es) h m = rw h m

rest-tail :
    (d : ℕ) (ds : List ℕ)
    → is_scope_char d ≡ true
    → matches_scope_rest (d ∷ ds) ≡ true
    → matches_scope_rest ds ≡ true
rest-tail d [] h m = refl
rest-tail d (e ∷ es) h m = rw h at m

rest-space :
    (d : ℕ) (ds : List ℕ)
    → is_scope_char d ≡ true
    → matches_scope_rest ds ≡ true
    → matches_scope_rest (b' ' ∷ d ∷ ds) ≡ true
rest-space d ds h m = rw (space-not_scope_char, h, rest-cons d ds h m) refl

rest-append :
    (cs ds : List ℕ)
    → all is_scope_char cs ≡ true
    → matches_scope_rest ds ≡ true
    → matches_scope_rest (cs ++ ds) ≡ true
rest-append [] ds h m = m
rest-append (c ∷ cs) ds h m =
    rest-cons c (cs ++ ds) (ground arith) (rest-append cs ds (ground arith) m)

matches_scope_list-scope : (w : String) → IsScope w → matches_scope_list w ≡ true
unfolding matches_scope_list
matches_scope_list-scope String.[] h = cc
matches_scope_list-scope (String.◌∷◌ c w) h = ground (arith, rest-within (codes w))

matches_scope_list-append :
    (w t : String)
    → IsScope w
    → matches_scope_list t ≡ true
    → matches_scope_list (String.◌++◌ w (String.◌∷◌ space t)) ≡ true
unfolding matches_scope_list
matches_scope_list-append String.[] t h m = cc
matches_scope_list-append (String.◌∷◌ c w) String.[] h m = cc
matches_scope_list-append (String.◌∷◌ c w) (String.◌∷◌ d t) h m =
    rw
      (
        cons-append c w (String.◌∷◌ space (String.◌∷◌ d t)),
        codes-append w (String.◌∷◌ space (String.◌∷◌ d t)),
      )
      (ground (
        arith,
        rest-append (codes w) (b' ' ∷ code d ∷ codes t) (ground arith)
            (rest-space (code d) (codes t) (ground arith) (ground arith)),
      ))

-- Scopes joined by spaces match the pattern.
matches_scope_list-join :
    (w : String) (ws : List String)
    → All IsScope (w ∷ ws)
    → matches_scope_list (join space (w ∷ ws)) ≡ true
unfolding join
matches_scope_list-join w [] h = matches_scope_list-scope w h.0
matches_scope_list-join w (v ∷ ws) h =
    matches_scope_list-append w (join space (v ∷ ws)) h.0 (matches_scope_list-join v ws h.1)

-- The parts of a text that stands behind the start of a scope: the first may be empty.
abbrev AreParts : List String → Type 0
AreParts [] = Unit
AreParts (w ∷ ws) = (all is_scope_char (codes w) ≡ true) × All IsScope ws

onto_first-IsScope :
    (c : Char) (ws : List String)
    → is_scope_char (code c) ≡ true
    → AreParts ws
    → All IsScope (onto_first c ws)
onto_first-IsScope c [] h p = ground arith
onto_first-IsScope c (w ∷ ws) h p = ground arith

IsScope-AreParts : (ws : List String) → All IsScope ws → AreParts ws
IsScope-AreParts [] a = tt
IsScope-AreParts (String.[] ∷ ws) a = cc (a.0)
IsScope-AreParts (String.◌∷◌ c w ∷ ws) a = ground arith

split-onto_first :
    (c : Char) (s : String)
    → is_scope_char (code c) ≡ true
    → AreParts (split b' ' s)
    → All IsScope (split b' ' (String.◌∷◌ c s))
split-onto_first c s h p =
    rw (split_on b' ' c s (scope_char-not_space (code c) h))
      (onto_first-IsScope c (split b' ' s) h p)

split-empty : AreParts (split b' ' String.[])
unfolding split
split-empty = (refl, tt)

split-AreParts : (s : String) → matches_scope_rest (codes s) ≡ true → AreParts (split b' ' s)
split-AreParts String.[] h = split-empty
split-AreParts (String.◌∷◌ c String.[]) h =
    IsScope-AreParts (split b' ' (String.◌∷◌ c String.[]))
      (split-onto_first c String.[] h (split-AreParts String.[] refl))
split-AreParts (String.◌∷◌ c (String.◌∷◌ d s)) h = elim (Bool-cases (is_scope_char (code c))) [
  | inl scope ↦
      IsScope-AreParts (split b' ' (String.◌∷◌ c (String.◌∷◌ d s)))
        (split-onto_first c (String.◌∷◌ d s) scope (split-AreParts (String.◌∷◌ d s) (ground arith)))
  | inr separator ↦ rw (split_at b' ' c (String.◌∷◌ d s) (ground arith)) (
    refl,
    split-onto_first d s (ground arith)
        (split-AreParts s (rest-tail (code d) (codes s) (ground arith) (ground arith))),
  )
]

split-IsScope : (s : String) → matches_scope_list s ≡ true → All IsScope (split b' ' s)
unfolding matches_scope_list
split-IsScope String.[] h = cc
split-IsScope (String.◌∷◌ c s) h =
    split-onto_first c s (ground arith) (split-AreParts s (ground arith))

pub assert_allowed_scopes_iff :
    (requested allowed : List String)
    → (assert_allowed_scopes requested allowed ≡ ok tt)
      ↔ All (λ scope. contains allowed scope ≡ true) requested
unfolding assert_allowed_scopes
assert_allowed_scopes_iff [] allowed = (λ h. tt, λ h. refl)
assert_allowed_scopes_iff (s ∷ ss) allowed = ground (arith, assert_allowed_scopes_iff ss allowed)

All-map :
    {P Q : String → Type 0} (ws : List String) → ((w : String) → P w → Q w) → All P ws → All Q ws
All-map [] f a = tt
All-map (w ∷ ws) f a = (f w a.0, All-map ws f a.1)

keep-All :
    (P : String → Type 0) (p : String → Bool) (ws : List String) → All P ws → All P (keep p ws)
keep-All P p [] a = tt
keep-All P p (w ∷ ws) a = elim (Bool-cases (p w)) [
  | inl kept ↦ rw kept (a.0, keep-All P p ws a.1)
  | inr dropped ↦ rw dropped (keep-All P p ws a.1)
]

distinct-All : (P : String → Type 0) (ws : List String) → All P ws → All P (distinct ws)
unfolding distinct
distinct-All P [] a = tt
distinct-All P (w ∷ ws) a = (a.0, keep-All P _ (distinct ws) (distinct-All P ws a.1))

-- The scopes that a request's text is parsed to are scopes, and none stands twice.
pub parse_scopes-IsScope :
    (input : String) (scopes : List String)
    → parse_scopes (some input) ≡ ok scopes
    → All IsScope scopes × AreDistinct scopes
unfolding parse_scopes
parse_scopes-IsScope input scopes h = elim (Bool-cases (matches_scope_list input)) [
  | inl matches ↦
      subst (λ ss. All IsScope ss × AreDistinct ss) (ground arith)
        (
          distinct-All IsScope (split b' ' input) (split-IsScope input matches),
          distinct-AreDistinct (split b' ' input),
        )
  | inr other ↦ ground arith
]

-- A list of distinct scopes, joined by spaces as a token response writes it in `scope`, is parsed
-- to the same list.
pub parse_scopes-join :
    (w : String) (ws : List String)
    → All IsScope (w ∷ ws)
    → AreDistinct (w ∷ ws)
    → parse_scopes (some (join space (w ∷ ws))) ≡ ok (w ∷ ws)
unfolding parse_scopes
parse_scopes-join w ws valid different =
    rw
      (
        matches_scope_list-join w ws valid,
        split-join space w ws (All-map (w ∷ ws) scope-IsUnbroken valid),
        distinct_of_AreDistinct (w ∷ ws) different,
      )
      refl
