-- ===== src/Dynamo/Codes.antt =====
-- auth/storage/dynamodb/authorization-codes.ts. The record of a new code is built and checked as in
-- auth/storage/disk-store.ts. `stringify` and `parse` are JSON's at the type of the record. A
-- redemption reads the item in one request and writes it in another.
pub mod Races
pub mod Refines
pub mod Sequences
use encore_mcp_base.Base.{
  ℕ, String, Bool, Option, none, some, List, [], ◌∷◌, Result, ok, err, ◌>>=◌, ◌>>◌, or_throw,
}
use encore_mcp_base.Base.Dict.{Dict}
use encore_mcp_base.Store.Records.{
  AuthorizationCodeRecord, AuthorizationCodeInput, AuthorizationCodeExpectation,
  invalid_grant_error,
}
use encore_mcp_base.Store.Codes.{authorization_code_record, check_authorization_code, mark_consumed}
use encore_mcp_base.Dynamo.Items.{
  string_value, number_value, Item, Key, authorization_code_key, stored_record_item,
  parse_stored_record,
}
use encore_mcp_base.Dynamo.Service.{
  attribute_not_exists, exceeds, both, put, assign, Write, Service, conditional_check_failed,
}

module _ (stringify : AuthorizationCodeRecord → String) where
  abbrev pub authorization_code_item : AuthorizationCodeRecord → Item
  authorization_code_item r =
      stored_record_item (authorization_code_key r.code_hash) "authorization_code" (stringify r)
        r.expires_at (("clientId", string_value r.client_id) ∷ [])

  abbrev pub creation : AuthorizationCodeRecord → Write
  creation r = record {
    key = authorization_code_key r.code_hash;
    condition = attribute_not_exists "pk";
    effect = put (authorization_code_item r);
  }

module _ (sha : String → String) (stringify : AuthorizationCodeRecord → String) where
  abbrev pub consumption : String → AuthorizationCodeRecord → ℕ → Write
  consumption code found now = record {
    key = authorization_code_key (sha code);
    condition = both (attribute_not_exists "consumedAt") (exceeds "expiresAt" now);
    effect = assign (
        ("record", string_value (stringify (mark_consumed now found)))
        ∷ ("consumedAt", number_value now)
        ∷ []);
  }

module _ (db : Service) (sha : String → String) (stringify : AuthorizationCodeRecord → String)
    (parse : String → Option AuthorizationCodeRecord) where
  open db use {Table, get_item, write}

  unfoldable pub create_authorization_code :
      AuthorizationCodeInput → String → ℕ → Table → Result String × Table
  create_authorization_code input code now t =
      elim (write t (creation stringify (authorization_code_record sha input code now) ∷ [])) [
        | none ↦ (err conditional_check_failed, t)
        | some u ↦ (ok code, u)
      ]

  -- The read, and `validateAuthorizationCode`.
  unfoldable pub read_authorization_code :
      String
      → Option String
      → AuthorizationCodeExpectation
      → ℕ
      → Table
      → Result AuthorizationCodeRecord
  read_authorization_code code verifier expected now t = do
    stored ←
        parse_stored_record parse (get_item t (authorization_code_key (sha code)))
          "authorization_code"
    found ← or_throw stored invalid_grant_error
    check_authorization_code sha found verifier expected now
    ok found

  -- The conditional write.
  unfoldable pub mark_authorization_code :
      String → AuthorizationCodeRecord → ℕ → Table → Result AuthorizationCodeRecord × Table
  mark_authorization_code code found now t =
      elim (write t (consumption sha stringify code found now ∷ [])) [
        | none ↦ (err invalid_grant_error, t)
        | some u ↦ (ok (mark_consumed now found), u)
      ]

  unfoldable pub consume_authorization_code :
      String
      → Option String
      → AuthorizationCodeExpectation
      → ℕ
      → Table
      → Result AuthorizationCodeRecord × Table
  consume_authorization_code code verifier expected now t =
      elim (read_authorization_code code verifier expected now t) [
        | err e ↦ (err e, t)
        | ok found ↦ mark_authorization_code code found now t
      ]
