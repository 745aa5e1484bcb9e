-- ===== src/Store/File/Ended.antt =====
-- A login that leaves a file of auth/storage/store-file.ts which no update can read.
use encore_mcp_base.Base.{
  ℕ, String, ◌≡◌, refl, ap, inl, inr, Option, some, Thrown, ok, err, Result-cases, truthy,
}
use encore_mcp_base.Mcp.Json.{Json}
use encore_mcp_base.Store.Records.{UpstreamAuthorizationStateInput, OAuthStoreState}
use encore_mcp_base.Store.States.{create_upstream_authorization_state}
use encore_mcp_base.Store.Rows.File.{normalize_store, serialize_store}
use encore_mcp_base.Store.Rows.Unreadable.{
  IsUnreadable, create_upstream_authorization_state_unreadable,
}
use encore_mcp_base.Store.File.{
  DiskFile, regular, assert_secure_file_mode, owner_only, Change, callback, settled,
  parse_store_json, read, file_text, write, updated, file_update,
}
use encore_mcp_base.Store.File.Kept.{file_update-ok}

callback-create :
    (sha : String → String) (input : UpstreamAuthorizationStateInput) (state : String) (now : ℕ)
    (s : OAuthStoreState)
    → callback (create_upstream_authorization_state sha input state now) s
      ≡ ok (state, (create_upstream_authorization_state sha input state now s).1)
unfolding create_upstream_authorization_state
callback-create sha input state now s = refl

module _ (parse_json : String → Option Json) (stringify print : Json → String) where
  unread_update :
      {A : Type 0} (fn : Change A) (file : DiskFile) (e : Thrown)
      → read parse_json stringify print file ≡ err e
      → file_update parse_json stringify print fn file ≡ (err e, file)
  unfolding file_update updated
  unread_update fn file e failed =
      let thrown : updated parse_json stringify print fn file ≡ err e = rw failed refl in
      ap (settled file) thrown

  written :
      (s : OAuthStoreState) (value : Json)
      → serialize_store parse_json stringify s ≡ ok value
      → write parse_json stringify print s
        ≡ ok (regular owner_only (file_text parse_json stringify print value))
  unfolding write
  written s value wrote = rw wrote refl

  failed_read :
      (value : Json) (e : Thrown)
      → parse_json (file_text parse_json stringify print value) ≡ some value
      → normalize_store parse_json stringify value ≡ err e
      → read parse_json stringify print
          (regular owner_only (file_text parse_json stringify print value))
        ≡ err e
  unfolding read parse_store_json assert_secure_file_mode
  failed_read value e printed failed = rw (printed, failed) refl

  -- Take a file that is read as a state, and create a login whose client state is blank, or whose
  -- challenge is no SHA-256 digest in base64url. If the new state can be written, and JSON's text of it
  -- is parsed as what was printed, then the creation succeeds and the file that it leaves ends the
  -- store: every later update, whatever its callback does, throws one and the same error and leaves
  -- that file as it is.
  pub unreadable_login_ends_file :
      (sha : String → String) (input : UpstreamAuthorizationStateInput) (state : String) (now : ℕ)
      (file : DiskFile) (s : OAuthStoreState) (value : Json)
      → read parse_json stringify print file ≡ ok s
      → IsUnreadable input.client_state (truthy input.code_challenge)
      → serialize_store parse_json stringify
          (create_upstream_authorization_state sha input state now s).1
        ≡ ok value
      → parse_json (file_text parse_json stringify print value) ≡ some value
      → (file' : DiskFile) × (e : Thrown) × (file_update parse_json stringify print
            (callback (create_upstream_authorization_state sha input state now))
            file
          ≡ (ok state, file'))
        × ((A : Type 0) (fn : Change A)
            → file_update parse_json stringify print fn file' ≡ (err e, file'))
  unreadable_login_ends_file sha input state now file s value held unreadable wrote printed =
      let t = (create_upstream_authorization_state sha input state now s).1 in
      let file' = regular owner_only (file_text parse_json stringify print value) in
      let created =
        file_update-ok parse_json stringify print
          (callback (create_upstream_authorization_state sha input state now)) file s held state t
          (callback-create sha input state now s) file' (written t value wrote) in
      elim (Result-cases (normalize_store parse_json stringify value)) [
        | inl (u, readable) ↦ absurd (
            create_upstream_authorization_state_unreadable parse_json stringify sha input state now
              s u value unreadable wrote readable)
        | inr (e, failed) ↦ (
          file',
          e,
          created,
          λ A fn. unread_update fn file' e (failed_read value e printed failed),
        )
      ]
