-- ===== src/Mcp/ClientMeta/Patterns.antt =====
-- The labels and the names in a key of `_meta`, described apart from the patterns of
-- mcp/client-meta.ts.
use mathlib.Core.Bool.{false≢true}
use mathlib.Core.List.{cons-ne-nil}
use encore_mcp_base.Base.{
  ℕ, String, ◌≡◌, refl, ◌↔◌, ◌⊎◌, inl, inr, Bool, true, false, ◌&&◌, List, [], ◌∷◌, arith, All, all,
  codes, leb, is_alphanumeric,
}
use encore_mcp_base.Base.Split.{split}
use encore_mcp_base.Mcp.ClientMeta.{
  is_letter, is_label_char, is_name_char, ends_in, is_label, is_name, matches_label, matches_name,
  valid_prefix,
}

abbrev FirstIs : (ℕ → Type 0) → List ℕ → Type 0
FirstIs P [] = ⊥
FirstIs P (c ∷ cs) = P c

abbrev LastIs : (ℕ → Type 0) → List ℕ → Type 0
LastIs P [] = ⊥
LastIs P (c ∷ []) = P c
LastIs P (c ∷ d ∷ cs) = LastIs P (d ∷ cs)

abbrev IsAlphanumeric : ℕ → Type 0
IsAlphanumeric c = is_alphanumeric c ≡ true

-- A letter is alphanumeric and no digit.
abbrev IsLetter : ℕ → Type 0
IsLetter c = IsAlphanumeric c × ((leb b'0' c && leb c b'9') ≡ false)

abbrev IsLabelChar : ℕ → Type 0
IsLabelChar c = IsAlphanumeric c ⊎ (c ≡ b'-')

abbrev IsNameChar : ℕ → Type 0
IsNameChar c = IsAlphanumeric c ⊎ (c ≡ b'.') ⊎ (c ≡ b'_') ⊎ (c ≡ b'-')

-- A label begins with a letter, ends in a letter or a digit, and has letters, digits and hyphens.
abbrev pub IsLabel : String → Type 0
IsLabel s = FirstIs IsLetter (codes s) × All IsLabelChar (codes s) × LastIs IsAlphanumeric (codes s)

-- A name is empty, or begins and ends with a letter or a digit and has letters, digits, points,
-- underscores and hyphens.
abbrev pub IsName : String → Type 0
IsName s =
    (codes s ≡ [])
    ⊎ (FirstIs IsAlphanumeric (codes s)
        × All IsNameChar (codes s)
        × LastIs IsAlphanumeric (codes s))

-- The patterns, against their descriptions.
ends_in_iff :
    (inner last : ℕ → Bool) (P Q : ℕ → Type 0)
    → ((c : ℕ) → (inner c ≡ true) ↔ P c)
    → ((c : ℕ) → (last c ≡ true) ↔ Q c)
    → ((c : ℕ) → Q c → P c)
    → (l : List ℕ) → (ends_in inner last l ≡ true) ↔ (All P l × LastIs Q l)
ends_in_iff inner last P Q i e within [] = (λ h. absurd (false≢true h), λ h. absurd h.1)
ends_in_iff inner last P Q i e within (c ∷ []) =
    (λ h. ((within c ((e c).0 h), tt), (e c).0 h), λ h. (e c).1 h.1)
ends_in_iff inner last P Q i e within (c ∷ d ∷ cs) =
    let more = ends_in_iff inner last P Q i e within (d ∷ cs) in
    (
      λ h. let rest = more.0 (ground arith) in (((i c).0 (ground arith), rest.0), rest.1),
      λ h. let head = (i c).1 h.0.0 in let rest = more.1 (h.0.1, h.1) in rw (head, rest) refl,
    )

label_char : (c : ℕ) → (is_label_char c ≡ true) ↔ IsLabelChar c
label_char c = ground arith

name_char : (c : ℕ) → (is_name_char c ≡ true) ↔ IsNameChar c
name_char c = ground arith

letter : (c : ℕ) → (is_letter c ≡ true) ↔ IsLetter c
letter c = ground arith

is_label_iff :
    (l : List ℕ)
    → (is_label l ≡ true) ↔ (FirstIs IsLetter l × All IsLabelChar l × LastIs IsAlphanumeric l)
is_label_iff [] = (λ h. absurd (false≢true h), λ h. absurd h.0)
is_label_iff (c ∷ []) =
    (λ h. let first = (letter c).0 h in (first, (inl first.0, tt), first.0), λ h. (letter c).1 h.0)
is_label_iff (c ∷ d ∷ cs) =
    let more =
      ends_in_iff is_label_char is_alphanumeric IsLabelChar IsAlphanumeric label_char
        (λ x. (λ h. h, λ h. h)) (λ x h. inl h) (d ∷ cs) in
    (
      λ h.
          let first = (letter c).0 (ground arith) in
          let rest = more.0 (ground arith) in (first, (inl first.0, rest.0), rest.1),
      λ h. rw ((letter c).1 h.0, more.1 (h.1.1, h.2)) refl,
    )

is_name_iff :
    (l : List ℕ)
    → (is_name l ≡ true)
      ↔ ((l ≡ []) ⊎ (FirstIs IsAlphanumeric l × All IsNameChar l × LastIs IsAlphanumeric l))
is_name_iff [] = (λ h. inl refl, λ h. refl)
is_name_iff (c ∷ []) = (
  λ h. inr (h, (inl h, tt), h),
  λ h. elim h [ inl empty ↦ absurd (cons-ne-nil c [] empty) | inr (first, rest, last) ↦ first ],
)
is_name_iff (c ∷ d ∷ cs) =
    let more =
      ends_in_iff is_name_char is_alphanumeric IsNameChar IsAlphanumeric name_char
        (λ x. (λ h. h, λ h. h)) (λ x h. inl h) (d ∷ cs) in
    (
      λ h.
          let first : is_alphanumeric c ≡ true = ground arith in
          let rest = more.0 (ground arith) in inr (first, (inl first, rest.0), rest.1),
      λ h. elim h [
        | inl empty ↦ absurd (cons-ne-nil c (d ∷ cs) empty)
        | inr (first, inner, last) ↦ rw (first, more.1 (inner.1, last)) refl
      ],
    )

matches_label_iff : (s : String) → (matches_label s ≡ true) ↔ IsLabel s
unfolding matches_label
matches_label_iff s = is_label_iff (codes s)

pub matches_name_iff : (s : String) → (matches_name s ≡ true) ↔ IsName s
unfolding matches_name
matches_name_iff s = is_name_iff (codes s)

labels_iff : (labels : List String) → (all matches_label labels ≡ true) ↔ All IsLabel labels
labels_iff [] = (λ h. tt, λ h. refl)
labels_iff (label ∷ labels) =
    let first = matches_label_iff label in
    let rest = labels_iff labels in
    (λ h. (first.0 (ground arith), rest.0 (ground arith)), λ h. rw (first.1 h.0, rest.1 h.1) refl)

-- An empty prefix has one label, which is empty.
pub valid_prefix_iff :
    (prefix : String) → (valid_prefix prefix ≡ true) ↔ All IsLabel (split b'.' prefix)
unfolding valid_prefix split
valid_prefix_iff String.[] = (λ h. absurd (false≢true h), λ h. absurd h.0.0)
valid_prefix_iff (String.◌∷◌ c s) = labels_iff (split b'.' (String.◌∷◌ c s))
