-- ===== src/Store/File/Kept.antt =====
-- What the updates of auth/storage/store-file.ts keep, against the updates of a state in memory.
use mathlib.Core.Path.{subst}
use encore_mcp_base.Base.{
  String, ◌≡◌, refl, ap, arith, inl, inr, Option, some, List, [], ◌∷◌, Result, Thrown, ok, err,
  Result-cases,
}
use encore_mcp_base.Mcp.Json.{Json}
use encore_mcp_base.Store.Records.{OAuthStoreState, update}
use encore_mcp_base.Store.Rows.File.{serialize_store}
use encore_mcp_base.Store.Rows.RoundTrip.{IsStorable, normalize_store-serialize_store}
use encore_mcp_base.Store.File.{
  DiskFile, regular, assert_secure_file_mode, owner_only, Change, settled, parse_store_json, read,
  file_text, write, updated, file_update,
}

-- What the callbacks return, one update after the other, of a state in memory.
unfoldable pub state_answers : {A : Type 0} → OAuthStoreState → List (Change A) → List (Result A)
state_answers s [] = []
state_answers s (fn ∷ fns) = (update fn s).0 ∷ state_answers (update fn s).1 fns

module _ (parse_json : String → Option Json) (stringify print : Json → String) where
  -- And of a file.
  unfoldable pub file_answers : {A : Type 0} → DiskFile → List (Change A) → List (Result A)
  file_answers file [] = []
  file_answers file (fn ∷ fns) =
      let (answer, file') = file_update parse_json stringify print fn file in
      answer ∷ file_answers file' fns

  -- A state whose records have the shapes that the rows ask for, and whose text as a whole is parsed
  -- as what was printed.
  pub record IsKept (s : OAuthStoreState) : Type 0 where
    pub storable : IsStorable parse_json stringify s
    pub printed :
        (value : Json)
        → serialize_store parse_json stringify s ≡ ok value
        → parse_json (file_text parse_json stringify print value) ≡ some value

  abbrev pub AreKept : {A : Type 0} → OAuthStoreState → List (Change A) → Type 0
  AreKept s [] = Unit {0}
  AreKept s (fn ∷ fns) = IsKept (update fn s).1 × AreKept (update fn s).1 fns

  read-write :
      (s : OAuthStoreState)
      → IsKept s
      → (file : DiskFile) × (write parse_json stringify print s ≡ ok file)
        × (read parse_json stringify print file ≡ ok s)
  unfolding write read parse_store_json assert_secure_file_mode
  read-write s kept =
      let (value, wrote, back) =
        normalize_store-serialize_store parse_json stringify s kept.storable in
      (
        regular owner_only (file_text parse_json stringify print value),
        rw wrote refl,
        ground (arith, kept.printed value wrote, back),
      )

  module _ {A : Type 0} (fn : Change A) (file : DiskFile) (s : OAuthStoreState)
      (held : read parse_json stringify print file ≡ ok s) where
    updated-ok :
        (a : A) (t : OAuthStoreState)
        → fn s ≡ ok (a, t)
        → (file' : DiskFile) → write parse_json stringify print t ≡ ok file'
        → updated parse_json stringify print fn file ≡ ok (a, file')
    unfolding updated
    updated-ok a t returned file' wrote = rw (held, returned, wrote) refl

    updated-err : (e : Thrown) → fn s ≡ err e → updated parse_json stringify print fn file ≡ err e
    unfolding updated
    updated-err e thrown = rw (held, thrown) refl

    pub file_update-ok :
        (a : A) (t : OAuthStoreState)
        → fn s ≡ ok (a, t)
        → (file' : DiskFile) → write parse_json stringify print t ≡ ok file'
        → file_update parse_json stringify print fn file ≡ (ok a, file')
    unfolding file_update
    file_update-ok a t returned file' wrote =
        ap (settled file) (updated-ok a t returned file' wrote)

    file_update-err :
        (e : Thrown) → fn s ≡ err e → file_update parse_json stringify print fn file ≡ (err e, file)
    unfolding file_update
    file_update-err e thrown = ap (settled file) (updated-err e thrown)

  -- An update of a file that holds a state answers as the update of the state, and the file holds what
  -- that one leaves.
  file_update-update :
      {A : Type 0} (fn : Change A) (file : DiskFile) (s : OAuthStoreState)
      → read parse_json stringify print file ≡ ok s
      → IsKept (update fn s).1
      → ((file_update parse_json stringify print fn file).0 ≡ (update fn s).0)
        × (read parse_json stringify print (file_update parse_json stringify print fn file).1
            ≡ ok (update fn s).1)
  file_update-update fn file s held kept = elim (Result-cases (fn s)) [
    | inr (e, thrown) ↦
        let same : update fn s ≡ (err e, s) = rw (update, thrown) refl in
        let left = file_update-err fn file s held e thrown in
        (rw (same, left) refl, rw (same, left) held)
    | inl ((a, t), returned) ↦
        let same : update fn s ≡ (ok a, t) = rw (update, returned) refl in
        let (file', wrote, held') = read-write t (subst IsKept (rw same refl) kept) in
        let left = file_update-ok fn file s held a t returned file' wrote in
        (rw (same, left) refl, rw (same, left) held')
  ]

  -- Any sequence of updates of a file answers as the same sequence of updates of the state that the
  -- file holds, if each state on the way has records of the shapes that the rows ask for, and its
  -- JSON text is parsed as what was printed.
  pub file_answers-state_answers :
      {A : Type 0} (fns : List (Change A)) (file : DiskFile) (s : OAuthStoreState)
      → read parse_json stringify print file ≡ ok s
      → AreKept s fns
      → file_answers file fns ≡ state_answers s fns
  unfolding file_answers state_answers
  file_answers-state_answers [] file s held kept = refl
  file_answers-state_answers (fn ∷ fns) file s held kept =
      let (same, held') = file_update-update fn file s held kept.0 in
      rw
        (
          same,
          file_answers-state_answers fns (file_update parse_json stringify print fn file).1
              (update fn s).1 held' kept.1,
        )
        refl
