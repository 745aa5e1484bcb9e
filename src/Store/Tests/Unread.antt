-- ===== src/Store/Tests/Unread.antt =====
-- A login whose client state is a blank, and one whose challenge is longer than a digest: both are
-- accepted and written, and the file is not read again. And a login that is created and consumed in a
-- file.
use mathlib.Core.Path.{subst}
use encore_mcp_base.Base.{
  String, ◌≡◌, refl, sym, arith, Bool, true, false, inl, inr, Option, none, some, [], ◌∷◌, Thrown,
  ok, err, ◌>>=◌, ok_inj, truthy, ◌==◌, if◌then◌else◌,
}
use encore_mcp_base.Base.Dict.{lookup, set, delete, keep_values}
use encore_mcp_base.Mcp.Json.{Json, object, no_fields, field, get_field}
use encore_mcp_base.OAuth.Header.{is_white, trim}
use encore_mcp_base.OAuth.Authorize.{oauth_state}
use encore_mcp_base.OAuth.Pkce.{required, matches_pkce, pkce_input, is_oidc_nonce}
use encore_mcp_base.Store.Records.{
  s256, UpstreamAuthorizationStateInput, UpstreamAuthorizationStateRecord, empty_store_state,
  update,
}
use encore_mcp_base.Store.States.{
  prune_expired_upstream_states, upstream_authorization_state_record,
  create_upstream_authorization_state, consume_upstream_authorization_state,
}
use encore_mcp_base.Store.Rows.{matches_hash, has_text}
use encore_mcp_base.Store.Rows.File.{
  serialize_map, upstream_authorization_state_to_disk, serialize_store,
}
use encore_mcp_base.Store.Rows.Unreadable.{IsUnreadable}
use encore_mcp_base.Store.File.{DiskFile, absent, Change, callback, read, file_text, file_update}
use encore_mcp_base.Store.File.Kept.{
  state_answers, file_answers, IsKept, file_answers-state_answers,
}
use encore_mcp_base.Store.File.Ended.{unreadable_login_ends_file}
use encore_mcp_base.Store.Tests.Rows.{hash, parse_json, stringify}

unread : Unit {0}
unfolding is_white trim oauth_state matches_pkce pkce_input is_oidc_nonce keep_values set lookup
    delete prune_expired_upstream_states upstream_authorization_state_record
    create_upstream_authorization_state consume_upstream_authorization_state state_answers
    matches_hash has_text serialize_map serialize_store
unread = tt

abbrev sha : String → String
sha s = hash

abbrev input : UpstreamAuthorizationStateInput
input = record {
  client_id = "gpt";
  redirect_uri = "https://chatgpt.com/cb";
  resource = "https://s.example/mcp";
  scopes = "openid" ∷ [];
  client_state = " ";
  code_verifier = hash;
  upstream_nonce = hash;
  nonce = none;
  code_challenge = some "abcdefghijklmnopqrstuvwxyz.ABCDEFGHIJKLMNOPQ";
  code_challenge_method = some s256;
  ttl_seconds = 60;
}

blank_accepted : oauth_state (some input.client_state) ≡ ok input.client_state
unfolding unread
blank_accepted = refl

challenge_accepted :
    pkce_input required input.code_challenge (some "S256")
    ≡ ok (record {
      code_challenge = input.code_challenge;
      code_challenge_method = input.code_challenge_method;
    })
unfolding unread
challenge_accepted = refl

-- The file's value, with the row of a login.
abbrev file_of : UpstreamAuthorizationStateRecord → Json
file_of r = object (
    field "authorizationCodes" (object no_fields) (
      field "refreshTokens" (object no_fields) (
        field "upstreamAuthorizationStates"
          (object (
            field hash (object (upstream_authorization_state_to_disk parse_json stringify r))
              no_fields))
          (field "mcpSessions" (object no_fields)
            (field "rateLimits" (object no_fields) no_fields)))))

abbrev empty_file : Json
empty_file = object (
    field "authorizationCodes" (object no_fields) (
      field "refreshTokens" (object no_fields) (
        field "upstreamAuthorizationStates" (object no_fields) (
          field "mcpSessions" (object no_fields)
            (field "rateLimits" (object no_fields) no_fields)))))

abbrev unread_file : Json
unread_file = file_of (upstream_authorization_state_record sha input "state" 100)

abbrev good_input : UpstreamAuthorizationStateInput
good_input = record input {
  client_state = "s";
  code_challenge = none;
  code_challenge_method = none;
}

abbrev good_record : UpstreamAuthorizationStateRecord
good_record = upstream_authorization_state_record sha good_input "state" 100

blank_IsUnreadable : IsUnreadable input.client_state (truthy input.code_challenge)
unfolding unread
blank_IsUnreadable = inl refl

challenge_IsUnreadable : IsUnreadable input.client_state (truthy input.code_challenge)
unfolding unread
challenge_IsUnreadable = inr ("abcdefghijklmnopqrstuvwxyz.ABCDEFGHIJKLMNOPQ", refl, refl)

-- JSON's text of a file's value, short for what it would be.
abbrev is_empty : Option Json → Bool
is_empty (some (object no_fields)) = true
is_empty value = false

abbrev logins : Json → Option Json
logins (object f) = get_field "upstreamAuthorizationStates" f
logins value = none

abbrev print : Json → String
print value = if is_empty (logins value) then "EMPTY" else "LOGIN"

abbrev parse_unread : String → Option Json
parse_unread s = if s == "LOGIN\n" then some unread_file else parse_json s

abbrev parse_good : String → Option Json
parse_good s =
    if s == "LOGIN\n"
    then some (file_of good_record)
    else if s == "EMPTY\n"
    then some empty_file
    else parse_json s

unread_written :
    serialize_store parse_unread stringify
      (create_upstream_authorization_state sha input "state" 100 empty_store_state).1
    ≡ ok unread_file
unfolding unread
unread_written = refl

absent_read : read parse_unread stringify print absent ≡ ok empty_store_state
unfolding read
absent_read = refl

absent_good : read parse_good stringify print absent ≡ ok empty_store_state
unfolding read
absent_good = refl

unreadable_login_ends_file_example :
    (file' : DiskFile) × (e : Thrown) × (file_update parse_unread stringify print
        (callback (create_upstream_authorization_state sha input "state" 100))
        absent
      ≡ (ok "state", file'))
    × ((A : Type 0) (fn : Change A)
        → file_update parse_unread stringify print fn file' ≡ (err e, file'))
unreadable_login_ends_file_example =
    unreadable_login_ends_file parse_unread stringify print sha input "state" 100 absent
      empty_store_state unread_file absent_read challenge_IsUnreadable unread_written refl

-- A login is created and consumed.
abbrev create : Change String
create = callback (create_upstream_authorization_state sha good_input "state" 100)

abbrev consume : Change String
consume s = callback (consume_upstream_authorization_state sha "state" 110) s >>= λ consumed.
    ok (consumed.0.client_state, consumed.1)

good_kept : IsKept parse_good stringify print (update create empty_store_state).1
unfolding unread
good_kept = record {
  storable = record {
    codes = tt;
    tokens = tt;
    states = (
      (
        refl,
        record {
          hashed = (refl, refl);
          client = refl;
          redirect = refl;
          resource = refl;
          scopes = record { texts = (refl, tt); read_back = (refl, refl) };
          client_state = refl;
          verifier = refl;
          upstream_nonce = (refl, refl);
          nonce = tt;
          challenge = tt;
          expiry = omega arith;
        },
      ),
      tt,
    );
    sessions = tt;
    limits = tt;
  };
  printed = λ value wrote.
      subst (λ v. parse_good (file_text parse_good stringify print v) ≡ some v) (ok_inj wrote) refl;
}

empty_kept : IsKept parse_good stringify print empty_store_state
unfolding unread
empty_kept = record {
  storable = record { codes = tt; tokens = tt; states = tt; sessions = tt; limits = tt };
  printed = λ value wrote.
      subst (λ v. parse_good (file_text parse_good stringify print v) ≡ some v) (ok_inj wrote) refl;
}

consumed_empty : (update consume (update create empty_store_state).1).1 ≡ empty_store_state
unfolding unread
consumed_empty = refl

file_answers-state_answers_example :
    file_answers parse_good stringify print absent (create ∷ consume ∷ [])
    ≡ state_answers empty_store_state (create ∷ consume ∷ [])
file_answers-state_answers_example =
    file_answers-state_answers parse_good stringify print (create ∷ consume ∷ []) absent
      empty_store_state absent_good
      (good_kept, (subst (IsKept parse_good stringify print) (sym consumed_empty) empty_kept, tt))

answered : state_answers empty_store_state (create ∷ consume ∷ []) ≡ ok "state" ∷ ok "s" ∷ []
unfolding unread
answered = refl
