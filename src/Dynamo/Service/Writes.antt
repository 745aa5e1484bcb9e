-- ===== src/Dynamo/Service/Writes.antt =====
-- One conditional write: when it is made, and what it leaves.
use text.Mathlib.TextLemmas.{append_cancel_left}
use Prim.Native.String
use encore_mcp_base.Base.{
  String, ◌≡◌, sym, ap, ◌∙◌, arith, true, false, none, some, [], ◌∷◌, Bool-cases, Option-cases, inl,
  inr, if◌then◌else◌, ◌==◌, eq_iff,
}
use encore_mcp_base.Dynamo.Items.{Key, same_key}
use encore_mcp_base.Dynamo.Service.{holds, Write, affected, Service}

-- Texts with one prefix are equal as what follows is.
pub prefix_eq : (start a b : String) → (String.◌++◌ start a == String.◌++◌ start b) ≡ (a == b)
prefix_eq start a b = elim (Bool-cases (a == b)) [
  | inl same ↦
      (eq_iff (String.◌++◌ start a) (String.◌++◌ start b)).1
        (ap (String.◌++◌ start) ((eq_iff a b).0 same))
      ∙ sym same
  | inr other ↦ elim (Bool-cases (String.◌++◌ start a == String.◌++◌ start b)) [
    | inl same ↦ absurd (
        ground (
          arith,
          (eq_iff a b).1 (
              append_cancel_left start a b
                ((eq_iff (String.◌++◌ start a) (String.◌++◌ start b)).0 same)),
        ))
    | inr different ↦ different ∙ sym other
  ]
]

module _ (db : Service) where
  open db use {Table, get_item, write}

  pub one_made :
      (t : Table) (w : Write)
      → holds w.condition (get_item t w.key) ≡ true
      → (u : Table) × (write t (w ∷ []) ≡ some u)
        × ((key : Key)
            → get_item u key ≡ (
                if same_key w.key key
                then affected key w.effect (get_item t key)
                else get_item t key))
  one_made t w h = elim (Option-cases (write t (w ∷ []))) [
    | inl refused ↦ absurd (ground (arith, db.write_refused t (w ∷ []) refused))
    | inr (u, made) ↦ (u, made, λ key. (db.write_made t u (w ∷ []) made).1 key)
  ]

  pub one_refused :
      (t : Table) (w : Write)
      → holds w.condition (get_item t w.key) ≡ false
      → write t (w ∷ []) ≡ none
  one_refused t w h = elim (Option-cases (write t (w ∷ []))) [
    | inl refused ↦ refused
    | inr (u, made) ↦ absurd (ground (arith, (db.write_made t u (w ∷ []) made).0))
  ]
