-- ===== src/Dynamo/Codes/Sequences.antt =====
-- Any sequence of creations and redemptions answers the same in DynamoDB as in the file.
use encore_mcp_base.Base.{
  ℕ, ◌≤◌, ◌<◌, String, ◌≡◌, refl, ap, arith, Option, none, some, List, [], ◌∷◌, Result, ok,
  Bool-cases, inl, inr, ◌==◌,
}
use encore_mcp_base.Base.Dict.{lookup, set, lookup-set}
use encore_mcp_base.Store.Records.{
  AuthorizationCodeRecord, AuthorizationCodeInput, AuthorizationCodeExpectation, OAuthStoreState,
}
use encore_mcp_base.Store.Codes as Disk
use encore_mcp_base.Store.Codes.{authorization_code_record, mark_consumed}
use encore_mcp_base.Dynamo.Items.{Item, authorization_code_key}
use encore_mcp_base.Dynamo.Service.{Service}
use encore_mcp_base.Dynamo.Service.Writes.{one_made}
use encore_mcp_base.Dynamo.Codes.{creation, create_authorization_code, consume_authorization_code}
use encore_mcp_base.Dynamo.Codes.Refines.{
  IsHeldAs, later-IsHeldAs, created-IsItemOf, code_key_eq, Represents, consume-Represents,
}

-- A call of the part of the interface `OAuthStore` that is about codes, with the random code.
pub data CodeCall : Type 0 where
  creates : AuthorizationCodeInput → String → CodeCall
  redeems : String → Option String → AuthorizationCodeExpectation → CodeCall

pub data Answer : Type 0 where
  created : Result String → Answer
  redeemed : Result AuthorizationCodeRecord → Answer

module _ (sha : String → String) where
  unfoldable pub disk_step : OAuthStoreState → ℕ → CodeCall → Answer × OAuthStoreState
  disk_step s now (creates input code) =
      let (answer, s') = Disk.create_authorization_code sha input code now s in (created answer, s')
  disk_step s now (redeems code verifier expected) =
      let (answer, s') = Disk.consume_authorization_code sha code verifier expected now s in
      (redeemed answer, s')

  unfoldable pub disk_answers : OAuthStoreState → List (ℕ × CodeCall) → List Answer
  disk_answers s [] = []
  disk_answers s ((now, c) ∷ cs) = (disk_step s now c).0 ∷ disk_answers (disk_step s now c).1 cs

module _ (sha : String → String) (IsStorable : AuthorizationCodeRecord → Type 0) where
  -- A random code is new, and JSON's text gives its record back.
  abbrev pub IsNew : OAuthStoreState → ℕ → CodeCall → Type 0
  IsNew s now (creates input code) =
      (lookup (sha code) s.authorization_codes ≡ none)
      × IsStorable (authorization_code_record sha input code now)
  IsNew s now (redeems code verifier expected) = Unit {0}

  -- The calls follow each other in time, from a time on that is not 0, and the codes that they draw
  -- are new.
  abbrev pub IsPlayable : ℕ → OAuthStoreState → List (ℕ × CodeCall) → Type 0
  IsPlayable time s [] = Unit {0}
  IsPlayable time s ((now, c) ∷ cs) =
      (time ≤ now) × (0 < now) × IsNew s now c × IsPlayable now (disk_step sha s now c).1 cs

module _ (db : Service) (sha : String → String) (stringify : AuthorizationCodeRecord → String)
    (parse : String → Option AuthorizationCodeRecord) where
  open db use {Table}

  unfoldable pub table_step : Table → ℕ → CodeCall → Answer × Table
  table_step t now (creates input code) =
      let (answer, t') = create_authorization_code db sha stringify parse input code now t in
      (created answer, t')
  table_step t now (redeems code verifier expected) =
      let (answer, t') =
        consume_authorization_code db sha stringify parse code verifier expected now t in
      (redeemed answer, t')

  unfoldable pub table_answers : Table → List (ℕ × CodeCall) → List Answer
  table_answers t [] = []
  table_answers t ((now, c) ∷ cs) = (table_step t now c).0 ∷ table_answers (table_step t now c).1 cs

module _ (db : Service) (sha : String → String) (stringify : AuthorizationCodeRecord → String)
    (parse : String → Option AuthorizationCodeRecord)
    (IsStorable : AuthorizationCodeRecord → Type 0)
    (mark-IsStorable : (r : AuthorizationCodeRecord) (now : ℕ)
      → IsStorable r
      → IsStorable (mark_consumed now r))
    (parse-stringify : (r : AuthorizationCodeRecord)
      → IsStorable r
      → parse (stringify r) ≡ some r) where
  open db use {Table, get_item}

  abbrev Holds : ℕ → Table → OAuthStoreState → Type 0
  Holds now t s =
      Represents db sha stringify parse IsStorable mark-IsStorable parse-stringify now t s

  unheld :
      (now : ℕ) (i : Option Item) (r : Option AuthorizationCodeRecord)
      → IsHeldAs stringify IsStorable now i r
      → r ≡ none
      → i ≡ none
  unheld now none r h e = refl
  unheld now (some i) none h e = absurd h
  unheld now (some i) (some r) h e = cc

  create-Represents :
      (input : AuthorizationCodeInput) (code : String) (now : ℕ) (t : Table) (s : OAuthStoreState)
      → lookup (sha code) s.authorization_codes ≡ none
      → IsStorable (authorization_code_record sha input code now)
      → Holds now t s
      → ((create_authorization_code db sha stringify parse input code now t).0 ≡ ok code)
        × Holds now
            (create_authorization_code db sha stringify parse input code now t).1
            (record s {
              authorization_codes =
                  set
                    (sha code)
                    (authorization_code_record sha input code now)
                    s.authorization_codes;
            })
  unfolding create_authorization_code authorization_code_record
  create-Represents input code now t s new storable held =
      let r = authorization_code_record sha input code now in
      let absent : get_item t (authorization_code_key (sha code)) ≡ none =
        unheld now _ _ (held (sha code)) new in
      let (u, written, leaves) = one_made db t (creation stringify r) (rw absent refl) in
      let answer : create_authorization_code db sha stringify parse input code now t
          ≡ (ok code, u) =
        ground (arith, written) in
      rw answer (
        refl,
        λ hash. rw (leaves (authorization_code_key hash)) (elim (Bool-cases (sha code == hash)) [
          | inl same ↦
              rw
                (
                  code_key_eq (sha code) hash,
                  lookup-set (sha code) hash r s.authorization_codes,
                  same,
                )
                (created-IsItemOf stringify IsStorable sha input code now storable)
          | inr other ↦
              rw
                (
                  code_key_eq (sha code) hash,
                  lookup-set (sha code) hash r s.authorization_codes,
                  other,
                )
                (held hash)
        ]),
      )

  later_held :
      (before now : ℕ) (t : Table) (s : OAuthStoreState)
      → before ≤ now
      → Holds before t s
      → Holds now t s
  later_held before now t s le held hash =
      later-IsHeldAs stringify IsStorable before now _ _ le (held hash)

  step-Represents :
      (t : Table) (s : OAuthStoreState) (now : ℕ) (c : CodeCall)
      → 0 < now
      → IsNew sha IsStorable s now c
      → Holds now t s
      → ((table_step db sha stringify parse t now c).0 ≡ (disk_step sha s now c).0)
        × Holds now (table_step db sha stringify parse t now c).1 (disk_step sha s now c).1
  unfolding table_step disk_step Disk.create_authorization_code
  step-Represents t s now (creates input code) pos new held =
      let (answer, held') = create-Represents input code now t s new.0 new.1 held in
      (ap created answer, held')
  step-Represents t s now (redeems code verifier expected) pos new held =
      let (answer, held') =
        consume-Represents db sha stringify parse IsStorable mark-IsStorable parse-stringify code
          verifier expected now t s pos held in
      (ap redeemed answer, held')

  -- Where a table represents the state of the disk store, a sequence of calls, each with a new code
  -- and at a time that is not before the last, is answered by DynamoDB as by the disk store, errors
  -- included, also where DynamoDB has deleted expired items.
  pub table_answers-disk_answers :
      (time : ℕ) (t : Table) (s : OAuthStoreState) (calls : List (ℕ × CodeCall))
      → Represents db sha stringify parse IsStorable mark-IsStorable parse-stringify time t s
      → IsPlayable sha IsStorable time s calls
      → table_answers db sha stringify parse t calls ≡ disk_answers sha s calls
  unfolding table_answers disk_answers
  table_answers-disk_answers time t s [] held playable = refl
  table_answers-disk_answers time t s ((now, c) ∷ cs) held playable =
      let (le, pos, new, rest) = playable in
      let (answer, held') = step-Represents t s now c pos new (later_held time now t s le held) in
      rw (answer, table_answers-disk_answers now _ _ cs held' rest) refl
