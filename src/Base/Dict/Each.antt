-- ===== src/Base/Dict/Each.antt =====
-- A property of every entry of a map, and how the operations of Base/Dict.antt keep it.
use mathlib.Core.Path.{subst}
use encore_mcp_base.Base.{
  Bool-cases, inl, inr, String, ◌≡◌, refl, sym, ◌∙◌, Bool, Option, none, some, arith, ◌==◌, eq_iff,
}
use encore_mcp_base.Base.Dict.{
  Dict, lookup, set, delete, keep_values, map_values, map_some, lookup-set, lookup-delete,
  lookup-map_values, lookup-keep_values, HasUniqueKeys,
}

pub map_some-inv {ℓ κ} :
    {A : Type ℓ} {B : Type κ} (f : A → B) (o : Option A) {b : B}
    → map_some f o ≡ some b
    → (a : A) × (o ≡ some a) × (f a ≡ b)
map_some-inv f none h = cc
map_some-inv f (some a) h = (a, refl, cc)

module _ {ℓ} {V : Type ℓ} (P : String → V → Type ℓ) where
  pub record Each (m : Dict V) : Type ℓ where
    pub at_key : (j : String) (v : V) → lookup j m ≡ some v → P j v

  pub set-Each : (k : String) (v : V) (m : Dict V) → P k v → Each m → Each (set k v m)
  set-Each k v m p h = record {
    at_key = λ j w e. elim (Bool-cases (k == j)) [
      | inl same ↦
          let e' : v ≡ w = ground (arith, lookup-set k j v m) in
          subst (P j) e' (subst (λ i. P i v) ((eq_iff k j).0 same) p)
      | inr other ↦ h.at_key j w (ground (arith, lookup-set k j v m))
    ];
  }

  pub delete-Each : (k : String) (m : Dict V) → Each m → Each (delete k m)
  delete-Each k m h = record {
    at_key = λ j w e. h.at_key j w (ground (arith, lookup-delete k j m));
  }

  pub keep_values-Each :
      (p : V → Bool) (m : Dict V) → HasUniqueKeys m → Each m → Each (keep_values p m)
  keep_values-Each p m u h = record {
    at_key = λ j w e. h.at_key j w (ground (arith, lookup-keep_values p j m u));
  }

  pub map_values-Each :
      (f : V → V) (m : Dict V)
      → ((j : String) (v : V) → P j v → P j (f v))
      → Each m
      → Each (map_values f m)
  map_values-Each f m keeps h = record {
    at_key = λ j w e.
        let (a, found, made) = map_some-inv f (lookup j m) (sym (lookup-map_values f j m) ∙ e) in
        subst (P j) made (keeps j a (h.at_key j a found));
  }
