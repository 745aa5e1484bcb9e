-- ===== src/Mcp/ClientMeta/Keys.antt =====
-- The keys of `_meta`, described apart from the patterns and the search of mcp/client-meta.ts.
use Prim.Native.Char.{Char, code}
use Prim.Native.String
use text.Mathlib.TextLemmas.{nil-append, cons-append}
use text.Mathlib.TextEquality.{Char-path}
use mathlib.Core.Bool.{false≢true}
use mathlib.Core.List.{cons-ne-nil, tail-eq_of_cons-eq, head-eq_of_cons-eq}
use mathlib.Core.Path.{subst}
use encore_mcp_base.Base.{
  ℕ, String, ◌≢◌, ◌≡◌, refl, sym, ap, ◌∙◌, ◌↔◌, ◌⊎◌, inl, inr, Bool, true, false, not, ◌&&◌, Option,
  none, some, List, [], ◌∷◌, arith, All, all, codes, nat_eq, Bool-cases,
}
use encore_mcp_base.Base.Split.{split}
use encore_mcp_base.OAuth.Header.{same_scheme, skip}
use encore_mcp_base.Mcp.ClientMeta.Patterns.{IsLabel, IsName, matches_name_iff, valid_prefix_iff}
use encore_mcp_base.Mcp.ClientMeta.{
  matches_name, before_slash, behind_slash, valid_prefix, valid_parts, reserved_parts,
  valid_meta_key, is_mcp_label, reserved_mcp_prefix,
}

abbrev no_slash : ℕ → Bool
no_slash c = not (nat_eq c b'/')

-- The key is a prefix without a slash, a slash and a name.
abbrev pub IsParted : String → String → String → Type 0
IsParted key prefix name =
    (key ≡ String.◌++◌ prefix (String.◌∷◌ "/" name)) × (all no_slash (codes prefix) ≡ true)

-- A key is a name without a slash, or has a prefix of labels with points between them and a name
-- behind the first slash.
abbrev pub IsKey : String → Type 0
IsKey key =
    ((all no_slash (codes key) ≡ true) × IsName key)
    ⊎ ((prefix : String) × (name : String) × IsParted key prefix name
        × All IsLabel (split b'.' prefix)
        × IsName name)

-- The second label of the prefix is "modelcontextprotocol" or "mcp", in any case.
abbrev pub IsReserved : String → Type 0
IsReserved key =
    (prefix : String) × (name : String) × (first : String) × (second : String) × (rest : List
      String)
    × IsParted key prefix name
    × (split b'.' prefix ≡ first ∷ second ∷ rest)
    × ((same_scheme second "modelcontextprotocol" ≡ true) ⊎ (same_scheme second "mcp" ≡ true))

abbrev behind_first : String → Option String
behind_first String.[] = none
behind_first (String.◌∷◌ c t) = some t

behind_on :
    (c : Char) (s : String)
    → no_slash (code c) ≡ true
    → behind_slash (String.◌∷◌ c s) ≡ behind_slash s
behind_on c s other =
    let skipped : skip no_slash (String.◌∷◌ c s) ≡ skip no_slash s = rw other refl in
    ap behind_first skipped

behind_at :
    (c : Char) (s : String) → no_slash (code c) ≡ false → behind_slash (String.◌∷◌ c s) ≡ some s
behind_at c s slash =
    let skipped : skip no_slash (String.◌∷◌ c s) ≡ String.◌∷◌ c s = rw slash refl in
    ap behind_first skipped

before_on :
    (c : Char) (s : String)
    → no_slash (code c) ≡ true
    → before_slash (String.◌∷◌ c s) ≡ String.◌∷◌ c (before_slash s)
before_on c s other = rw other refl

before_at : (c : Char) (s : String) → no_slash (code c) ≡ false → before_slash (String.◌∷◌ c s) ≡ ""
before_at c s slash = rw slash refl

slash_inside :
    (prefix name : String) → all no_slash (codes (String.◌++◌ prefix (String.◌∷◌ "/" name))) ≢ true
slash_inside String.[] name =
    λ h. false≢true (ap (λ t. all no_slash (codes t)) (sym (nil-append (String.◌∷◌ "/" name))) ∙ h)
slash_inside (String.◌∷◌ c prefix) name = λ h.
    let joined : (no_slash (code c)
          && all no_slash (codes (String.◌++◌ prefix (String.◌∷◌ "/" name))))
        ≡ true =
      ap (λ t. all no_slash (codes t)) (sym (cons-append c prefix (String.◌∷◌ "/" name))) ∙ h in
    slash_inside prefix name (ground (arith, joined))

-- The search for the first slash finds the parts.
slash_cases :
    (key : String)
    → ((all no_slash (codes key) ≡ true) × (behind_slash key ≡ none))
      ⊎ ((name : String) × (behind_slash key ≡ some name)
          × (key ≡ String.◌++◌ (before_slash key) (String.◌∷◌ "/" name))
          × (all no_slash (codes (before_slash key)) ≡ true))
slash_cases String.[] = inl (refl, refl)
slash_cases (String.◌∷◌ c s) = elim (Bool-cases (no_slash (code c))) [
  | inl other ↦ elim (slash_cases s) [
    | inl (clean, absent) ↦ inl (ground (arith, other, clean), behind_on c s other ∙ absent)
    | inr (name, found, parts, clean) ↦ inr (
      name,
      behind_on c s other ∙ found,
      ap (String.◌∷◌ c) parts
          ∙ sym (cons-append c (before_slash s) (String.◌∷◌ "/" name))
          ∙ ap (λ t. String.◌++◌ t (String.◌∷◌ "/" name)) (sym (before_on c s other)),
      subst (λ t. all no_slash (codes t) ≡ true) (sym (before_on c s other))
          (ground (arith, other, clean)),
    )
  ]
  | inr slash ↦
      let same : c ≡ "/" = Char-path c "/" (ground (arith, slash)) in
      inr (
        s,
        behind_at c s slash,
        ap (λ d. String.◌∷◌ d s) same
            ∙ sym (nil-append (String.◌∷◌ "/" s))
            ∙ ap (λ t. String.◌++◌ t (String.◌∷◌ "/" s)) (sym (before_at c s slash)),
        subst (λ t. all no_slash (codes t) ≡ true) (sym (before_at c s slash)) refl,
      )
]

parts_found :
    (prefix name : String)
    → all no_slash (codes prefix) ≡ true
    → (behind_slash (String.◌++◌ prefix (String.◌∷◌ "/" name)) ≡ some name)
      × (before_slash (String.◌++◌ prefix (String.◌∷◌ "/" name)) ≡ prefix)
parts_found String.[] name clean = rw (nil-append (String.◌∷◌ "/" name)) (refl, refl)
parts_found (String.◌∷◌ c prefix) name clean =
    let other : no_slash (code c) ≡ true = ground arith in
    let (found, before) = parts_found prefix name (ground arith) in
    let tail = String.◌++◌ prefix (String.◌∷◌ "/" name) in
    let whole = cons-append c prefix (String.◌∷◌ "/" name) in
    (
      ap behind_slash whole ∙ behind_on c tail other ∙ found,
      ap before_slash whole ∙ before_on c tail other ∙ ap (String.◌∷◌ c) before,
    )

parted_found :
    (key prefix name : String)
    → IsParted key prefix name
    → (behind_slash key ≡ some name) × (before_slash key ≡ prefix)
parted_found key prefix name (parts, clean) =
    let (found, before) = parts_found prefix name clean in
    (ap behind_slash parts ∙ found, ap before_slash parts ∙ before)

pub valid_meta_key_iff : (key : String) → (valid_meta_key key ≡ true) ↔ IsKey key
unfolding valid_meta_key
valid_meta_key_iff key = (there, back)
  where
    there : valid_meta_key key ≡ true → IsKey key
    there h = elim (slash_cases key) [
      | inl (clean, absent) ↦
          inl (clean, (matches_name_iff key).0 (sym (ap (valid_parts key) absent) ∙ h))
      | inr (name, found, parts, clean) ↦
          let valid : (valid_prefix (before_slash key) && matches_name name) ≡ true =
            sym (ap (valid_parts key) found) ∙ h in
          inr (
            before_slash key,
            name,
            (parts, clean),
            (valid_prefix_iff (before_slash key)).0 (ground (arith, valid)),
            (matches_name_iff name).0 (ground (arith, valid)),
          )
    ]

    back : IsKey key → valid_meta_key key ≡ true
    back (inl (clean, named)) = elim (slash_cases key) [
      | inl (_, absent) ↦ ap (valid_parts key) absent ∙ (matches_name_iff key).1 named
      | inr (name, found, parts, _) ↦ absurd (
          slash_inside (before_slash key) name
            (ap (λ t. all no_slash (codes t)) (sym parts) ∙ clean))
    ]
    back (inr (prefix, name, parted, labels, named)) =
        let (found, before) = parted_found key prefix name parted in
        let valid : valid_prefix (before_slash key) ≡ true =
          ap valid_prefix before ∙ (valid_prefix_iff prefix).1 labels in
        ap (valid_parts key) found ∙ rw (valid, (matches_name_iff name).1 named) refl

is_mcp_label_iff :
    (labels : List String)
    → (is_mcp_label labels ≡ true) ↔ (
        (first : String) × (second : String) × (rest : List String) × (labels
          ≡ first ∷ second ∷ rest)
        × ((same_scheme second "modelcontextprotocol" ≡ true) ⊎ (same_scheme second "mcp" ≡ true)))
is_mcp_label_iff [] = (λ h. absurd (false≢true h), λ h. absurd (cons-ne-nil _ _ (sym h.3)))
is_mcp_label_iff (label ∷ []) =
    (λ h. absurd (false≢true h), λ h. absurd (cons-ne-nil _ _ (sym (tail-eq_of_cons-eq h.3))))
is_mcp_label_iff (first ∷ second ∷ rest) = (
  λ h. (first, second, rest, refl, ground arith),
  λ h.
      let (first', second', rest', same, named) = h in
      let second_eq : second ≡ second' = head-eq_of_cons-eq (tail-eq_of_cons-eq same) in
      elim named [
        | inl long ↦ rw (second_eq, long) refl
        | inr short ↦ rw (second_eq, short) (ground arith)
      ],
)

pub reserved_mcp_prefix_iff : (key : String) → (reserved_mcp_prefix key ≡ true) ↔ IsReserved key
unfolding reserved_mcp_prefix
reserved_mcp_prefix_iff key = (there, back)
  where
    there : reserved_mcp_prefix key ≡ true → IsReserved key
    there h = elim (slash_cases key) [
      | inl (clean, absent) ↦ absurd (false≢true (sym (ap (reserved_parts key) absent) ∙ h))
      | inr (name, found, parts, clean) ↦
          let (first, second, rest, labels, named) =
            (is_mcp_label_iff (split b'.' (before_slash key))).0
              (sym (ap (reserved_parts key) found) ∙ h) in
          (before_slash key, name, first, second, rest, (parts, clean), labels, named)
    ]

    back : IsReserved key → reserved_mcp_prefix key ≡ true
    back (prefix, name, first, second, rest, parted, labels, named) =
        let (found, before) = parted_found key prefix name parted in
        ap (reserved_parts key) found
        ∙ (is_mcp_label_iff (split b'.' (before_slash key))).1
            (first, second, rest, ap (split b'.') before ∙ labels, named)
