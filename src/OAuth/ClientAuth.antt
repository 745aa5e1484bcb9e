-- ===== src/OAuth/ClientAuth.antt =====
-- auth/client-auth.ts: the credentials that a client brings to the token endpoint.
use encore_mcp_base.Base.{
  String, Bool, false, not, ◌||◌, Option, none, some, Result, ok, throw_if, or_throw, truthy,
  is_some, or_else, ◌==◌, if◌then◌else◌, ◌>>=◌, ◌>>◌,
}
use encore_mcp_base.OAuth.Parameters.{Form, get, has}
use encore_mcp_base.OAuth.Clients.{
  TokenEndpointAuthMethod, client_secret_post, client_secret_basic, no_auth, private_key_jwt,
  invalid_client_error,
}
use encore_mcp_base.OAuth.Header.{decode_basic_credentials, read_authorization_credentials}

pub record ClientCredentials : Type 0 where
  pub client_id : String
  pub client_secret : Option String
  pub client_assertion : Option String
  pub method : TokenEndpointAuthMethod

abbrev pub jwt_bearer_assertion_type : String
jwt_bearer_assertion_type = "urn:ietf:params:oauth:client-assertion-type:jwt-bearer"

abbrev pub equals : Option String → String → Bool
equals none t = false
equals (some s) t = s == t

-- `formClientId && formClientId !== clientId`
abbrev contradicts : Option String → String → Bool
contradicts none id = false
contradicts (some given) id = not (given == id)

unfoldable pub read_assertion_credentials : Form → Option String → Result ClientCredentials
read_assertion_credentials form authorization = do
  throw_if (is_some (truthy authorization) || has form "client_secret") invalid_client_error
  id ← or_throw (truthy (get form "client_id")) invalid_client_error
  throw_if (not (equals (get form "client_assertion_type") jwt_bearer_assertion_type))
      invalid_client_error
  assertion ← or_throw (truthy (get form "client_assertion")) invalid_client_error
  ok (record {
    client_id = id;
    client_secret = none;
    client_assertion = some assertion;
    method = private_key_jwt;
  })

module _ (decode_base64 decode_uri_component : String → Option String) where
  unfoldable pub read_basic_credentials : Form → String → Result ClientCredentials
  read_basic_credentials form credentials = do
    decoded ←
        or_throw (decode_basic_credentials decode_base64 decode_uri_component credentials)
          invalid_client_error
    throw_if (is_some (truthy (get form "client_secret"))) invalid_client_error
    throw_if (contradicts (truthy (get form "client_id")) decoded.client_id) invalid_client_error
    ok (record {
      client_id = decoded.client_id;
      client_secret = some decoded.client_secret;
      client_assertion = none;
      method = client_secret_basic;
    })

  -- The credentials of the form itself.
  unfoldable pub read_form_credentials : Form → Result ClientCredentials
  read_form_credentials form = do
    id ← or_throw (truthy (get form "client_id")) invalid_client_error
    ok (
        if has form "client_secret"
        then record {
          client_id = id;
          client_secret = some (or_else (get form "client_secret") "");
          client_assertion = none;
          method = client_secret_post;
        }
        else record {
          client_id = id;
          client_secret = none;
          client_assertion = none;
          method = no_auth;
        })

  unfoldable pub read_client_credentials : Form → Option String → Result ClientCredentials
  read_client_credentials form authorization =
      if has form "client_assertion" || has form "client_assertion_type"
      then read_assertion_credentials form authorization
      else elim (truthy authorization) [
        | none ↦ read_form_credentials form
        | some header ↦ do
          credentials ← read_authorization_credentials (some header) "Basic" invalid_client_error
          read_basic_credentials form credentials
      ]
