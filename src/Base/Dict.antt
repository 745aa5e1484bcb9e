-- ===== src/Base/Dict.antt =====
-- A JavaScript object used as a map from texts: its entries in the order of `Object.entries`.
pub mod Each
use encore_mcp_base.Base.{
  String, ◌≡◌, refl, ◌≢◌, Bool, true, false, ◌||◌, Option, none, some, List, [], ◌∷◌, arith, ◌==◌,
  eq_iff, eq_refl, if◌then◌else◌, Bool-cases, inl, inr, ◌↔◌, All,
}

abbrev pub Dict {ℓ} : Type ℓ → Type ℓ
Dict V = List (String × V)

abbrev pub map_some {ℓ κ} : {A : Type ℓ} {B : Type κ} → (A → B) → Option A → Option B
map_some f none = none
map_some f (some a) = some (f a)

abbrev pub keep_some {ℓ} : {A : Type ℓ} → (A → Bool) → Option A → Option A
keep_some p none = none
keep_some p (some a) = if p a then some a else none

module _ {ℓ} {V : Type ℓ} where
  -- `m[k]`
  unfoldable pub lookup : String → Dict V → Option V
  lookup k [] = none
  lookup k ((j, v) ∷ m) = if j == k then some v else lookup k m

  -- `m[k] = v`
  unfoldable pub set : String → V → Dict V → Dict V
  set k v [] = (k, v) ∷ []
  set k v ((j, w) ∷ m) = if j == k then (j, v) ∷ m else (j, w) ∷ set k v m

  -- `delete m[k]`
  unfoldable pub delete : String → Dict V → Dict V
  delete k [] = []
  delete k ((j, w) ∷ m) = if j == k then delete k m else (j, w) ∷ delete k m

  -- `Object.values(m).some(p)`
  unfoldable pub any_value : (V → Bool) → Dict V → Bool
  any_value p [] = false
  any_value p ((j, w) ∷ m) = p w || any_value p m

  -- A loop over the entries that deletes those whose value fails the test.
  unfoldable pub keep_values : (V → Bool) → Dict V → Dict V
  keep_values p [] = []
  keep_values p ((j, w) ∷ m) = if p w then (j, w) ∷ keep_values p m else keep_values p m

  -- A loop over the values that assigns to fields of some.
  unfoldable pub map_values : (V → V) → Dict V → Dict V
  map_values f [] = []
  map_values f ((j, w) ∷ m) = (j, f w) ∷ map_values f m

  pub lookup-set :
      (k j : String) (v : V) (m : Dict V)
      → lookup j (set k v m) ≡ (if k == j then some v else lookup j m)
  unfolding lookup set
  lookup-set k j v [] = refl
  lookup-set k j v ((i, w) ∷ m) =
      ground (arith, eq_iff k j, eq_iff i k, eq_iff i j, lookup-set k j v m)

  pub lookup-set_self : (k : String) (v : V) (m : Dict V) → lookup k (set k v m) ≡ some v
  lookup-set_self k v m = simp (lookup-set, eq_refl)

  pub lookup-delete :
      (k j : String) (m : Dict V) → lookup j (delete k m) ≡ (if k == j then none else lookup j m)
  unfolding lookup delete
  lookup-delete k j [] = ground arith
  lookup-delete k j ((i, w) ∷ m) =
      ground (arith, eq_iff k j, eq_iff i k, eq_iff i j, lookup-delete k j m)

  pub lookup-delete_self : (k : String) (m : Dict V) → lookup k (delete k m) ≡ none
  lookup-delete_self k m = simp (lookup-delete, eq_refl)

  pub lookup-map_values :
      (f : V → V) (j : String) (m : Dict V) → lookup j (map_values f m) ≡ map_some f (lookup j m)
  unfolding lookup map_values
  lookup-map_values f j [] = refl
  lookup-map_values f j ((i, w) ∷ m) = ground (arith, lookup-map_values f j m)

  pub lookup-keep_values-some :
      (p : V → Bool) (j : String) (m : Dict V) (v : V)
      → lookup j (keep_values p m) ≡ some v
      → p v ≡ true
  unfolding lookup keep_values
  lookup-keep_values-some p j [] v h = cc
  lookup-keep_values-some p j ((i, w) ∷ m) v h = ground (arith, lookup-keep_values-some p j m v)

  pub lookup-keep_values-kept :
      (p : V → Bool) (j : String) (m : Dict V) (v : V)
      → lookup j m ≡ some v
      → p v ≡ true
      → lookup j (keep_values p m) ≡ some v
  unfolding lookup keep_values
  lookup-keep_values-kept p j [] v h q = cc
  lookup-keep_values-kept p j ((i, w) ∷ m) v h q = ground (arith, lookup-keep_values-kept p j m v)

  pub lookup-keep_values-none :
      (p : V → Bool) (j : String) (m : Dict V)
      → lookup j m ≡ none
      → lookup j (keep_values p m) ≡ none
  unfolding lookup keep_values
  lookup-keep_values-none p j [] h = refl
  lookup-keep_values-none p j ((i, w) ∷ m) h = ground (arith, lookup-keep_values-none p j m)

  -- Every key stands in one entry.
  abbrev pub HasUniqueKeys : Dict V → Type ℓ
  HasUniqueKeys [] = Unit
  HasUniqueKeys ((j, w) ∷ m) = (lookup j m ≡ none) × HasUniqueKeys m

  pub lookup-keep_values :
      (p : V → Bool) (j : String) (m : Dict V)
      → HasUniqueKeys m
      → lookup j (keep_values p m) ≡ keep_some p (lookup j m)
  unfolding lookup keep_values
  lookup-keep_values p j [] u = refl
  lookup-keep_values p j ((i, w) ∷ m) u =
      ground (arith, eq_iff i j, lookup-keep_values p j m, lookup-keep_values-none p i m)

  pub set-HasUniqueKeys :
      (k : String) (v : V) (m : Dict V) → HasUniqueKeys m → HasUniqueKeys (set k v m)
  unfolding set lookup
  set-HasUniqueKeys k v [] u = (refl, tt)
  set-HasUniqueKeys k v ((i, w) ∷ m) u =
      ground (arith, set-HasUniqueKeys k v m, lookup-set k i v m, eq_iff k i, eq_iff i k)

  pub delete-HasUniqueKeys :
      (k : String) (m : Dict V) → HasUniqueKeys m → HasUniqueKeys (delete k m)
  unfolding delete
  delete-HasUniqueKeys k [] u = tt
  delete-HasUniqueKeys k ((i, w) ∷ m) u =
      ground (arith, delete-HasUniqueKeys k m, lookup-delete k i m)

  pub keep_values-HasUniqueKeys :
      (p : V → Bool) (m : Dict V) → HasUniqueKeys m → HasUniqueKeys (keep_values p m)
  unfolding keep_values
  keep_values-HasUniqueKeys p [] u = tt
  keep_values-HasUniqueKeys p ((i, w) ∷ m) u =
      ground (arith, keep_values-HasUniqueKeys p m, lookup-keep_values-none p i m)

  pub map_values-HasUniqueKeys :
      (f : V → V) (m : Dict V) → HasUniqueKeys m → HasUniqueKeys (map_values f m)
  unfolding map_values
  map_values-HasUniqueKeys f [] u = tt
  map_values-HasUniqueKeys f ((i, w) ∷ m) u =
      ground (arith, map_values-HasUniqueKeys f m, lookup-map_values f i m)

  pub any_value-false_iff :
      (p : V → Bool) (m : Dict V) → (any_value p m ≡ false) ↔ All (λ e. p e.1 ≡ false) m
  unfolding any_value
  any_value-false_iff p [] = (λ _. tt, λ _. refl)
  any_value-false_iff p ((i, w) ∷ m) = ground (arith, any_value-false_iff p m)

  pub any_value-of_lookup :
      (p : V → Bool) (j : String) (m : Dict V) (v : V)
      → lookup j m ≡ some v
      → p v ≡ true
      → any_value p m ≡ true
  unfolding lookup any_value
  any_value-of_lookup p j [] v h q = cc
  any_value-of_lookup p j ((i, w) ∷ m) v h q = ground (arith, any_value-of_lookup p j m v)
