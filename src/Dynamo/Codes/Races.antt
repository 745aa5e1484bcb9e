-- ===== src/Dynamo/Codes/Races.antt =====
-- Redemptions of one code by any number of requests at once, in any interleaving of their reads and
-- writes with each other, with writes to other items and with the deletion of an expired item.
use encore_mcp_base.Base.{
  ℕ, String, ◌≡◌, refl, sym, ◌∙◌, arith, true, false, Option, none, some, Result, ok, err,
  Bool-cases, inl, inr, ◌⊎◌, is_some, nat_eq, if◌then◌else◌, eq_refl, Thrown,
}
use encore_mcp_base.Base.Dict.{lookup, lookup-set}
use encore_mcp_base.Store.Records.{
  AuthorizationCodeRecord, AuthorizationCodeExpectation, invalid_grant_error,
}
use encore_mcp_base.Store.Codes.{mark_consumed}
use encore_mcp_base.Dynamo.Items.{Item, Key, same_key, authorization_code_key}
use encore_mcp_base.Dynamo.Service.{Service, holds, affected}
use encore_mcp_base.Dynamo.Service.Writes.{one_made, one_refused}
use encore_mcp_base.Dynamo.Codes.{consumption, read_authorization_code, mark_authorization_code}
use encore_mcp_base.Dynamo.Codes.Refines.{code_key_eq}

-- Where a request stands.
pub data Request : Type 0 where
  waiting : Request
  validated : AuthorizationCodeRecord → ℕ → Request
  granted : AuthorizationCodeRecord → Request
  refused : Thrown → Request

abbrev pub at_request : (ℕ → Request) → ℕ → Request → ℕ → Request
at_request requests i r j = if nat_eq i j then r else requests j

abbrev pub IsGranted : Request → Type 0
IsGranted (granted r) = Unit {0}
IsGranted r = ⊥

-- What `read_authorization_code` and `mark_authorization_code` make of a request.
abbrev pub after_read : ℕ → Result AuthorizationCodeRecord → Request
after_read now (ok found) = validated found now
after_read now (err e) = refused e

abbrev pub after_mark : Result AuthorizationCodeRecord → Request
after_mark (ok r) = granted r
after_mark (err e) = refused e

module _ (db : Service) (sha : String → String) (stringify : AuthorizationCodeRecord → String)
    (parse : String → Option AuthorizationCodeRecord) (code : String) where
  open db use {Table, get_item}

  pub record System : Type 0 where
    pub table : Table
    pub requests : ℕ → Request

  abbrev item_at : Table → Option Item
  item_at t = get_item t (authorization_code_key (sha code))

  -- A request goes on by one of its two calls, at its own time, or something else happens.
  pub data Step (s : System) : System → Type 0 where
    reads :
        (i : ℕ) (verifier : Option String) (expected : AuthorizationCodeExpectation) (now : ℕ)
        → s.requests i ≡ waiting
        → Step s (record s {
          requests = at_request s.requests i (
              after_read now (
                read_authorization_code db sha stringify parse code verifier expected now s.table));
        })
    marks :
        (i : ℕ) (found : AuthorizationCodeRecord) (now : ℕ)
        → s.requests i ≡ validated found now
        → Step s (record {
          table = (mark_authorization_code db sha stringify parse code found now s.table).1;
          requests = at_request s.requests i (
              after_mark (mark_authorization_code db sha stringify parse code found now s.table).0);
        })
    writes_elsewhere : (t : Table) → item_at t ≡ item_at s.table → Step s (record s { table = t })
    deletes_expired : (t : Table) → item_at t ≡ none → Step s (record s { table = t })

  pub data Reach (s : System) : System → Type 0 where
    here : Reach s s
    next : {t u : System} → Reach s t → Step t u → Reach s u

  -- No redemption can be written any more.
  abbrev IsUsedUp : Option Item → Type 0
  IsUsedUp none = Unit {0}
  IsUsedUp (some i) = is_some (lookup "consumedAt" i) ≡ true

  record Inv (s : System) : Type 0 where
    one : (i j : ℕ) → IsGranted (s.requests i) → IsGranted (s.requests j) → i ≡ j
    used : (i : ℕ) → IsGranted (s.requests i) → IsUsedUp (item_at s.table)

  blocked :
      (i : Option Item) (found : AuthorizationCodeRecord) (now : ℕ)
      → IsUsedUp i
      → holds (consumption sha stringify code found now).condition i ≡ false
  blocked none found now h = refl
  blocked (some i) found now h = rw h refl

  assigned :
      (found : AuthorizationCodeRecord) (now : ℕ) (i : Option Item)
      → IsUsedUp (
          affected
            (authorization_code_key (sha code))
            (consumption sha stringify code found now).effect
            i)
  assigned found now none = simp (lookup-set)
  assigned found now (some i) = simp (lookup-set)

  used_up :
      (u : Table) (found : AuthorizationCodeRecord) (now : ℕ) (t : Table)
      → ((key : Key)
          → get_item u key ≡ (
              if same_key (authorization_code_key (sha code)) key
              then affected key (consumption sha stringify code found now).effect (get_item t key)
              else get_item t key))
      → IsUsedUp (item_at u)
  used_up u found now t leaves =
      rw
        (
          leaves (authorization_code_key (sha code)),
          code_key_eq (sha code) (sha code),
          eq_refl (sha code),
        )
        (assigned found now (item_at t))

  -- A write that is made leaves the item used up, and finds it otherwise.
  mark_cases :
      (found : AuthorizationCodeRecord) (now : ℕ) (t : Table)
      → ((mark_authorization_code db sha stringify parse code found now t
          ≡ (err invalid_grant_error, t)))
        ⊎ ((u : Table) × (mark_authorization_code db sha stringify parse code found now t
              ≡ (ok (mark_consumed now found), u))
            × IsUsedUp (item_at u)
            × (IsUsedUp (item_at t) → ⊥))
  unfolding mark_authorization_code
  mark_cases found now t =
      elim (Bool-cases (holds (consumption sha stringify code found now).condition (item_at t))) [
        | inr fails ↦
            inl (ground (arith, one_refused db t (consumption sha stringify code found now) fails))
        | inl made ↦
            let (u, written, leaves) =
              one_made db t (consumption sha stringify code found now) made in
            inr (
              u,
              ground (arith, written),
              used_up u found now t leaves,
              λ h. cc (blocked (item_at t) found now h),
            )
      ]

  granted_before :
      (requests : ℕ → Request) (i : ℕ) (r : Request) (j : ℕ)
      → IsGranted (at_request requests i r j)
      → ((i ≡ j) × IsGranted r) ⊎ IsGranted (requests j)
  granted_before requests i r j h = elim (Bool-cases (nat_eq i j)) [
    | inl same ↦ inl (ground arith, rw same at h)
    | inr other ↦ inr (rw other at h)
  ]

  ungranted : (now : ℕ) (r : Result AuthorizationCodeRecord) → IsGranted (after_read now r) → ⊥
  ungranted now (ok found) h = h
  ungranted now (err e) h = h

  -- A request that goes on and is not granted.
  other-Inv :
      (s : System) (i : ℕ) (r : Request) (t : Table)
      → Inv s
      → (IsGranted r → ⊥)
      → item_at t ≡ item_at s.table
      → Inv (record { table = t; requests = at_request s.requests i r })
  other-Inv s i r t inv no_grant same = record {
    one = λ j k hj hk. inv.one j k (before j hj) (before k hk);
    used = λ j hj. rw same (inv.used j (before j hj));
  }
    where
      before : (j : ℕ) → IsGranted (at_request s.requests i r j) → IsGranted (s.requests j)
      before j h = elim (granted_before s.requests i r j h) [
        | inl (same_request, g) ↦ absurd (no_grant g)
        | inr g ↦ g
      ]

  granted-Inv :
      (s : System) (i : ℕ) (r : AuthorizationCodeRecord) (u : Table)
      → Inv s
      → IsUsedUp (item_at u)
      → (IsUsedUp (item_at s.table) → ⊥)
      → Inv (record { table = u; requests = at_request s.requests i (granted r) })
  granted-Inv s i r u inv now_used unused = record {
    one = λ j k hj hk. sym (is_it j hj) ∙ is_it k hk;
    used = λ j hj. now_used;
  }
    where
      is_it : (j : ℕ) → IsGranted (at_request s.requests i (granted r) j) → i ≡ j
      is_it j h = elim (granted_before s.requests i (granted r) j h) [
        | inl (same_request, g) ↦ same_request
        | inr g ↦ absurd (unused (inv.used j g))
      ]

  Step-Inv : {s u : System} → Step s u → Inv s → Inv u
  Step-Inv {s} (reads i verifier expected now at_start) inv =
      other-Inv s i _ s.table inv (ungranted now _) refl
  Step-Inv {s} (marks i found now ready) inv = elim (mark_cases found now s.table) [
    | inl failed ↦ rw failed (other-Inv s i _ s.table inv (λ g. g) refl)
    | inr (u, made, now_used, unused) ↦
        rw made (granted-Inv s i (mark_consumed now found) u inv now_used unused)
  ]
  Step-Inv (writes_elsewhere t same) inv = record {
    one = inv.one;
    used = λ i g. rw same (inv.used i g);
  }
  Step-Inv (deletes_expired t gone) inv = record { one = inv.one; used = λ i g. rw gone tt }

  Reach-Inv : {s u : System} → Inv s → Reach s u → Inv u
  Reach-Inv inv here = inv
  Reach-Inv inv (next r st) = Step-Inv st (Reach-Inv inv r)

  -- Of any number of requests that redeem one code at once, from a time at which none has been
  -- granted, at most one is granted, whatever the interleaving of their reads and writes, the tables
  -- and what else is written meanwhile.
  pub granted_once :
      {s u : System}
      → ((i : ℕ) → s.requests i ≡ waiting)
      → Reach s u
      → (i j : ℕ) → IsGranted (u.requests i)
      → IsGranted (u.requests j)
      → i ≡ j
  granted_once {s} start reach i j gi gj = (Reach-Inv initial reach).one i j gi gj
    where
      none_granted : (i : ℕ) → IsGranted (s.requests i) → ⊥
      none_granted i g = rw (start i) at g

      initial : Inv s
      initial = record {
        one = λ i j gi gj. absurd (none_granted i gi);
        used = λ i gi. absurd (none_granted i gi);
      }
