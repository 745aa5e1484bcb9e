-- ===== src/OAuth/Resource/Slash.antt =====
-- The last slash that auth/oauth-resource.ts takes from a URL.
use Prim.Native.Char.{Char, code}
use Prim.Native.String
use text.Mathlib.TextEquality.{Char-path}
use text.Mathlib.TextLemmas.{nil-append, cons-append}
use encore_mcp_base.Base.{
  ℕ, refl, ap, sym, ◌∙◌, ◌≢◌, ◌⊎◌, false, nat_eq, Bool-cases, String, ◌≡◌, Option, none, some,
  arith, inl, inr,
}
use encore_mcp_base.OAuth.Resource.{without_last_slash}

-- The text without its last slash, if it ends in one.
abbrev pub IsWithoutLastSlash : String → String → Type 0
IsWithoutLastSlash s t =
    (s ≡ String.◌++◌ t "/") ⊎ ((s ≡ t) × ((p : String) → s ≢ String.◌++◌ p "/"))

abbrev head_code : String → Option ℕ
head_code String.[] = none
head_code (String.◌∷◌ c s) = some (code c)

abbrev behind : String → String
behind String.[] = String.[]
behind (String.◌∷◌ c s) = s

never_empty : (p : String) → "" ≢ String.◌++◌ p "/"
never_empty String.[] = λ h.
    let e : ◌≡◌ {A = Option ℕ} none (some b'/') = ap head_code (h ∙ nil-append "/") in
    absurd (ground arith)
never_empty (String.◌∷◌ c p) = λ h.
    let e : none ≡ some (code c) = ap head_code (h ∙ cons-append c p "/") in absurd (ground arith)

-- A text of one character other than a slash, and a longer one, end in a slash as what follows the
-- first character does.
single_slash :
    (c : Char) (p : String)
    → nat_eq (code c) b'/' ≡ false
    → String.◌∷◌ c String.[] ≢ String.◌++◌ p "/"
single_slash c String.[] other = λ h.
    let e : some (code c) ≡ some b'/' = ap head_code (h ∙ nil-append "/") in absurd (ground arith)
single_slash c (String.◌∷◌ d p) other = λ h. never_empty p (ap behind (h ∙ cons-append d p "/"))

longer_slash :
    (c d : Char) (s p : String)
    → ((q : String) → String.◌∷◌ d s ≢ String.◌++◌ q "/")
    → String.◌∷◌ c (String.◌∷◌ d s) ≢ String.◌++◌ p "/"
longer_slash c d s String.[] never = λ h.
    let e : some (code d) ≡ none = ap (λ t. head_code (behind t)) (h ∙ nil-append "/") in
    absurd (ground arith)
longer_slash c d s (String.◌∷◌ e p) never = λ h. never p (ap behind (h ∙ cons-append e p "/"))

pub without_last_slash-lem : (s : String) → IsWithoutLastSlash s (without_last_slash s)
unfolding without_last_slash
without_last_slash-lem String.[] = inr (refl, never_empty)
without_last_slash-lem (String.◌∷◌ c String.[]) = elim (Bool-cases (nat_eq (code c) b'/')) [
  | inl slash ↦
      let same : c ≡ "/" = Char-path c "/" (ground (arith, slash)) in
      rw slash (inl (ap (λ d. String.◌∷◌ d String.[]) same ∙ sym (nil-append "/")))
  | inr other ↦ rw other (inr (refl, λ p. single_slash c p other))
]
without_last_slash-lem (String.◌∷◌ c (String.◌∷◌ d s)) =
    elim (without_last_slash-lem (String.◌∷◌ d s)) [
      | inl e ↦
          inl (ap (String.◌∷◌ c) e ∙ sym (cons-append c (without_last_slash (String.◌∷◌ d s)) "/"))
      | inr (e, never) ↦ inr (ap (String.◌∷◌ c) e, λ p. longer_slash c d s p never)
    ]
