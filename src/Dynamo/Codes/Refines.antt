-- ===== src/Dynamo/Codes/Refines.antt =====
-- The authorization codes in DynamoDB behave as those in the file: where the table represents the
-- state of the disk store, every operation answers the same and the table represents its new state.
use encore_mcp_base.Base.{
  ℕ, ◌≤◌, ◌<◌, String, ◌≡◌, ◌≢◌, refl, arith, true, Option, none, some, Result, ok, err, Bool-cases,
  Option-cases, Result-cases, inl, inr, is_some, if◌then◌else◌, ◌==◌, eq_iff, Thrown,
}
use encore_mcp_base.Base.Dict.{lookup, set, map_some, lookup-set}
use encore_mcp_base.Store.Records.{
  AuthorizationCodeRecord, AuthorizationCodeInput, AuthorizationCodeExpectation, OAuthStoreState,
  invalid_grant_error,
}
use encore_mcp_base.Store.Codes as Disk
use encore_mcp_base.Store.Codes.{authorization_code_record, check_authorization_code, mark_consumed}
use encore_mcp_base.Dynamo.Items.{
  string_value, number_value, Item, Key, same_key, authorization_code_key, parse_stored_record,
  read_string,
}
use encore_mcp_base.Dynamo.Service.{Service, holds, affected}
use encore_mcp_base.Dynamo.Service.Writes.{prefix_eq, one_made}
use encore_mcp_base.Dynamo.Codes.{
  authorization_code_item, consumption, read_authorization_code, mark_authorization_code,
  consume_authorization_code,
}

pub code_key_eq :
    (a b : String) → same_key (authorization_code_key a) (authorization_code_key b) ≡ (a == b)
code_key_eq a b = rw (prefix_eq "AUTH_CODE#" a b) (ground arith)

-- `IsStorable`: the records that JSON's text gives back.
module _ (stringify : AuthorizationCodeRecord → String)
    (IsStorable : AuthorizationCodeRecord → Type 0) where
  -- The item of a record. A record that was consumed has the time, which is not 0.
  pub record IsItemOf (i : Item) (r : AuthorizationCodeRecord) : Type 0 where
    pub keyed : is_some (lookup "pk" i) ≡ true
    pub kind : lookup "recordType" i ≡ some (string_value "authorization_code")
    pub text : lookup "record" i ≡ some (string_value (stringify r))
    pub expiry : lookup "expiresAt" i ≡ some (number_value r.expires_at)
    pub consumption : lookup "consumedAt" i ≡ map_some number_value r.consumed_at
    pub dated : r.consumed_at ≢ some 0
    pub storable : IsStorable r

  -- DynamoDB may have deleted an item that has expired.
  abbrev pub IsHeldAs : ℕ → Option Item → Option AuthorizationCodeRecord → Type 0
  IsHeldAs now none none = Unit {0}
  IsHeldAs now none (some r) = r.expires_at ≤ now
  IsHeldAs now (some i) none = ⊥
  IsHeldAs now (some i) (some r) = IsItemOf i r

  pub later-IsHeldAs :
      (before now : ℕ) (i : Option Item) (r : Option AuthorizationCodeRecord)
      → before ≤ now
      → IsHeldAs before i r
      → IsHeldAs now i r
  later-IsHeldAs before now none none le h = tt
  later-IsHeldAs before now none (some r) le h = omega arith
  later-IsHeldAs before now (some i) none le h = h
  later-IsHeldAs before now (some i) (some r) le h = h

  marked-IsItemOf :
      (i : Item) (r : AuthorizationCodeRecord) (now : ℕ)
      → 0 < now
      → IsStorable (mark_consumed now r)
      → IsItemOf i r
      → IsItemOf
          (set "consumedAt"
            (number_value now)
            (set "record" (string_value (stringify (mark_consumed now r))) i))
          (mark_consumed now r)
  marked-IsItemOf i r now pos storable h = record {
    keyed = simp (lookup-set) h.keyed;
    kind = simp (lookup-set) h.kind;
    text = simp (lookup-set);
    expiry = simp (lookup-set) h.expiry;
    consumption = simp (lookup-set);
    dated = λ e. absurd (ground arith);
    storable = storable;
  }

  pub created-IsItemOf :
      (sha : String → String) (input : AuthorizationCodeInput) (code : String) (now : ℕ)
      → IsStorable (authorization_code_record sha input code now)
      → IsItemOf
          (authorization_code_item stringify (authorization_code_record sha input code now))
          (authorization_code_record sha input code now)
  unfolding lookup authorization_code_record
  created-IsItemOf sha input code now storable = record {
    keyed = refl;
    kind = refl;
    text = refl;
    expiry = refl;
    consumption = refl;
    dated = λ e. cc;
    storable = storable;
  }

module _ (db : Service) (sha : String → String) (stringify : AuthorizationCodeRecord → String)
    (parse : String → Option AuthorizationCodeRecord)
    (IsStorable : AuthorizationCodeRecord → Type 0)
    (mark-IsStorable : (r : AuthorizationCodeRecord) (now : ℕ)
      → IsStorable r
      → IsStorable (mark_consumed now r))
    (parse-stringify : (r : AuthorizationCodeRecord)
      → IsStorable r
      → parse (stringify r) ≡ some r) where
  open db use {Table, get_item, write}

  -- Every code's item is that of its record.
  abbrev pub Represents : ℕ → Table → OAuthStoreState → Type 0
  Represents now t s =
      (hash : String)
      → IsHeldAs stringify IsStorable now (get_item t (authorization_code_key hash))
          (lookup hash s.authorization_codes)

  parse-IsItemOf :
      (i : Item) (r : AuthorizationCodeRecord)
      → IsItemOf stringify IsStorable i r
      → parse_stored_record parse (some i) "authorization_code" ≡ ok (some r)
  unfolding parse_stored_record read_string
  parse-IsItemOf i r h = ground (arith, h.kind, h.text, parse-stringify r h.storable)

  -- An expired record is refused first.
  expired_refused :
      (r : AuthorizationCodeRecord) (verifier : Option String)
      (expected : AuthorizationCodeExpectation) (now : ℕ)
      → r.expires_at ≤ now
      → check_authorization_code sha r verifier expected now ≡ err invalid_grant_error
  unfolding check_authorization_code
  expired_refused r verifier expected now h = ground arith

  passed_condition :
      (i : Item) (r : AuthorizationCodeRecord) (verifier : Option String)
      (expected : AuthorizationCodeExpectation) (code : String) (now : ℕ)
      → IsItemOf stringify IsStorable i r
      → check_authorization_code sha r verifier expected now ≡ ok tt
      → holds (consumption sha stringify code r now).condition (some i) ≡ true
  unfolding check_authorization_code
  passed_condition i r verifier expected code now h passed = elim (Option-cases r.consumed_at) [
    | inl fresh ↦ rw (h.consumption, h.expiry, fresh) (ground arith)
    | inr (time, was) ↦ absurd (ground (arith, was, h.dated))
  ]

  module _ (code : String) (verifier : Option String) (expected : AuthorizationCodeExpectation)
      (now : ℕ) where
    abbrev pub consumed : Table → Result AuthorizationCodeRecord × Table
    consumed t = consume_authorization_code db sha stringify parse code verifier expected now t

    abbrev pub disk_consumed : OAuthStoreState → Result AuthorizationCodeRecord × OAuthStoreState
    disk_consumed s = Disk.consume_authorization_code sha code verifier expected now s

    disk_missing :
        (s : OAuthStoreState)
        → lookup (sha code) s.authorization_codes ≡ none
        → disk_consumed s ≡ (err invalid_grant_error, s)
    unfolding Disk.consume_authorization_code
    disk_missing s h = ground (arith, h)

    disk_refused :
        (s : OAuthStoreState) (r : AuthorizationCodeRecord) (e : Thrown)
        → lookup (sha code) s.authorization_codes ≡ some r
        → check_authorization_code sha r verifier expected now ≡ err e
        → disk_consumed s ≡ (err e, s)
    unfolding Disk.consume_authorization_code
    disk_refused s r e h refused = ground (arith, h, refused)

    disk_made :
        (s : OAuthStoreState) (r : AuthorizationCodeRecord)
        → lookup (sha code) s.authorization_codes ≡ some r
        → check_authorization_code sha r verifier expected now ≡ ok tt
        → disk_consumed s ≡ (
          ok (mark_consumed now r),
          record s {
            authorization_codes = set (sha code) (mark_consumed now r) s.authorization_codes;
          },
        )
    unfolding Disk.consume_authorization_code
    disk_made s r h passed = ground (arith, h, passed)

    missing :
        (t : Table)
        → get_item t (authorization_code_key (sha code)) ≡ none
        → consumed t ≡ (err invalid_grant_error, t)
    unfolding consume_authorization_code read_authorization_code parse_stored_record
    missing t h = ground (arith, h)

    refused :
        (t : Table) (i : Item) (r : AuthorizationCodeRecord) (e : Thrown)
        → get_item t (authorization_code_key (sha code)) ≡ some i
        → IsItemOf stringify IsStorable i r
        → check_authorization_code sha r verifier expected now ≡ err e
        → consumed t ≡ (err e, t)
    unfolding consume_authorization_code read_authorization_code
    refused t i r e there h failed = ground (arith, there, parse-IsItemOf i r h, failed)

    read_passed :
        (t : Table) (i : Item) (r : AuthorizationCodeRecord)
        → get_item t (authorization_code_key (sha code)) ≡ some i
        → IsItemOf stringify IsStorable i r
        → check_authorization_code sha r verifier expected now ≡ ok tt
        → read_authorization_code db sha stringify parse code verifier expected now t ≡ ok r
    unfolding read_authorization_code
    read_passed t i r there h passed = ground (arith, there, parse-IsItemOf i r h, passed)

    made :
        (t : Table) (i : Item) (r : AuthorizationCodeRecord)
        → get_item t (authorization_code_key (sha code)) ≡ some i
        → IsItemOf stringify IsStorable i r
        → check_authorization_code sha r verifier expected now ≡ ok tt
        → (u : Table) × (consumed t ≡ (ok (mark_consumed now r), u))
          × ((key : Key)
              → get_item u key ≡ (
                  if same_key (authorization_code_key (sha code)) key
                  then affected key (consumption sha stringify code r now).effect (get_item t key)
                  else get_item t key))
    unfolding consume_authorization_code mark_authorization_code
    made t i r there h passed =
        let (u, written, leaves) =
          one_made db t (consumption sha stringify code r now)
            (rw there (passed_condition i r verifier expected code now h passed)) in
        (u, ground (arith, read_passed t i r there h passed, written), leaves)

    made-Represents :
        (t u : Table) (s : OAuthStoreState) (i : Item) (r : AuthorizationCodeRecord)
        → 0 < now
        → Represents now t s
        → get_item t (authorization_code_key (sha code)) ≡ some i
        → IsItemOf stringify IsStorable i r
        → ((key : Key)
            → get_item u key ≡ (
                if same_key (authorization_code_key (sha code)) key
                then affected key (consumption sha stringify code r now).effect (get_item t key)
                else get_item t key))
        → Represents now u (record s {
          authorization_codes = set (sha code) (mark_consumed now r) s.authorization_codes;
        })
    made-Represents t u s i r pos held there h leaves hash = elim (Bool-cases (sha code == hash)) [
      | inl same ↦
          let at_hash : get_item t (authorization_code_key hash) ≡ some i =
            rw (← (eq_iff (sha code) hash).0 same) there in
          rw
            (
              leaves (authorization_code_key hash),
              code_key_eq (sha code) hash,
              lookup-set (sha code) hash (mark_consumed now r) s.authorization_codes,
              same,
              at_hash,
            )
            (marked-IsItemOf stringify IsStorable i r now pos (mark-IsStorable r now h.storable) h)
      | inr other ↦
          rw
            (
              leaves (authorization_code_key hash),
              code_key_eq (sha code) hash,
              lookup-set (sha code) hash (mark_consumed now r) s.authorization_codes,
              other,
            )
            (held hash)
    ]

    -- The two answers are one, and the states left are related.
    abbrev pub Agree :
        Result AuthorizationCodeRecord × Table
        → Result AuthorizationCodeRecord × OAuthStoreState
        → Type 0
    Agree x y = (x.0 ≡ y.0) × Represents now x.1 y.1

    -- A redemption, with the read and the write at one time.
    pub consume-Represents :
        (t : Table) (s : OAuthStoreState)
        → 0 < now
        → Represents now t s
        → Agree (consumed t) (disk_consumed s)
    consume-Represents t s pos held =
        at_item (get_item t (authorization_code_key (sha code)))
          (lookup (sha code) s.authorization_codes) refl refl (held (sha code))
      where
        at_record :
            (i : Item) (r : AuthorizationCodeRecord)
            → get_item t (authorization_code_key (sha code)) ≡ some i
            → lookup (sha code) s.authorization_codes ≡ some r
            → IsItemOf stringify IsStorable i r
            → Agree (consumed t) (disk_consumed s)
        at_record i r there stored h =
            elim (Result-cases (check_authorization_code sha r verifier expected now)) [
              | inl (done, passed) ↦
                  let (u, answer, leaves) = made t i r there h passed in
                  rw (answer, disk_made s r stored passed)
                    (refl, made-Represents t u s i r pos held there h leaves)
              | inr (e, failed) ↦
                  rw (refused t i r e there h failed, disk_refused s r e stored failed) (refl, held)
            ]

        at_item :
            (i : Option Item) (r : Option AuthorizationCodeRecord)
            → get_item t (authorization_code_key (sha code)) ≡ i
            → lookup (sha code) s.authorization_codes ≡ r
            → IsHeldAs stringify IsStorable now i r
            → Agree (consumed t) (disk_consumed s)
        at_item none none gone absent h = rw (missing t gone, disk_missing s absent) (refl, held)
        at_item none (some r) gone stored h =
            rw
              (
                missing t gone,
                disk_refused s r invalid_grant_error stored
                    (expired_refused r verifier expected now h),
              )
              (refl, held)
        at_item (some i) none there absent h = absurd h
        at_item (some i) (some r) there stored h = at_record i r there stored h
