-- ===== src/Oauth/Grants.antt =====
-- Codes issued and exchanged: the endpoints `authorize` and `token` of app/routers/oauth.py, and
-- `exchange_code` of app/services/oauth_service.py.
use arkon.Base.{
  ℕ, ◌+◌, String, Bool, true, false, not, ◌&&◌, Option, none, some, List, [], ◌∷◌, find, ltb, ◌==◌,
  str_eq, str_elem, if◌then◌else◌, Result, ok, err, ◌>>=◌, ◌>>◌, guard,
}
use arkon.Oauth.{
  OauthClient, OauthAuthCode, Account, OauthDb, Crypto, invalid_grant, code_lifetime, get_client,
  create_auth_code, verify_pkce, generate_token, authenticate_employee,
}

-- The fields of the form that the login page posts.
pub record AuthorizeForm : Type 0 where
  pub client_id : String
  pub redirect_uri : String
  pub code_challenge : String
  pub code_challenge_method : String
  pub email : String
  pub password : String

-- `redirect_uri in client.redirect_uris`, for a client that is there
abbrev pub redirect_known : String → Option OauthClient → Bool
redirect_known redirect_uri none = false
redirect_known redirect_uri (some c) = str_elem redirect_uri c.redirect_uris

-- `authorize_get`: whether the login page is shown
unfoldable pub authorize_get : String → String → String → String → OauthDb → Result ℕ (Unit {0})
authorize_get client_id redirect_uri response_type method db = do
  guard (str_eq response_type "code") 400
  guard (str_eq method "S256") 400
  guard (redirect_known redirect_uri (get_client client_id db)) 400

-- The page again, with status 401, or the redirection with a code.
pub data Authorized : Type 0 where
  login_form : Authorized
  redirect : String → Authorized

-- the row of `create_auth_code`
abbrev pub code_row : String → ℕ → AuthorizeForm → Account → OauthDb → OauthAuthCode
code_row drawn now form employee db = record {
  id = db.next_id;
  code = drawn;
  client_id = form.client_id;
  employee_id = employee.id;
  redirect_uri = form.redirect_uri;
  code_challenge = form.code_challenge;
  code_challenge_method = form.code_challenge_method;
  expires_at = now + code_lifetime;
  used = false;
}

-- the code of the query in `exchange_code`: an unused one of the client
abbrev pub is_grant : String → String → OauthAuthCode → Bool
is_grant code client_id r = str_eq r.code code && (str_eq r.client_id client_id && not r.used)

unfoldable pub mark_used : ℕ → List OauthAuthCode → List OauthAuthCode
mark_used id [] = []
mark_used id (r ∷ rs) = (if r.id == id then record r { used = true } else r) ∷ mark_used id rs

-- The fields of a request for a token.
pub record TokenForm : Type 0 where
  pub grant_type : String
  pub code : String
  pub redirect_uri : String
  pub client_id : String
  pub code_verifier : String

module _ (crypto : Crypto) where
  -- `authorize_post`, with the code that is drawn
  unfoldable pub authorize_post :
      String → ℕ → AuthorizeForm → OauthDb → Result ℕ (Authorized × OauthDb)
  authorize_post drawn now form db = do
    guard (redirect_known form.redirect_uri (get_client form.client_id db)) 400
    elim (authenticate_employee crypto form.email form.password db) [
      | none ↦ ok (login_form, db)
      | some employee ↦ do
        db' ← create_auth_code (code_row drawn now form employee db) db
        ok (redirect drawn, db')
    ]

  -- `exchange_code` from the row on
  unfoldable pub exchange_row : String → ℕ → TokenForm → OauthAuthCode → OauthDb → Result ℕ OauthDb
  exchange_row token now form row db = do
    guard (not (ltb row.expires_at now)) invalid_grant
    guard (str_eq row.redirect_uri form.redirect_uri) invalid_grant
    fits ← verify_pkce crypto form.code_verifier row.code_challenge row.code_challenge_method
    guard fits invalid_grant
    generate_token crypto row.employee_id token now
        (record db { codes = mark_used row.id db.codes })

  -- `exchange_code`, with the token that is drawn
  unfoldable pub exchange_code : String → ℕ → TokenForm → OauthDb → Result ℕ OauthDb
  exchange_code token now form db = elim (find (is_grant form.code form.client_id) db.codes) [
    | none ↦ err invalid_grant
    | some row ↦ exchange_row token now form row db
  ]

  -- the endpoint `token`
  unfoldable pub token_endpoint : String → ℕ → TokenForm → OauthDb → Result ℕ OauthDb
  token_endpoint token now form db = do
    guard (str_eq form.grant_type "authorization_code") 400
    exchange_code token now form db
