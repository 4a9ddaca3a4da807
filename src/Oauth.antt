-- ===== src/Oauth.antt =====
-- The authorization code flow with PKCE: app/services/oauth_service.py, app/routers/oauth.py, and the
-- tokens of app/services/mcp_auth_service.py. Times are in seconds. An error is the HTTP status; a
-- unique index that refuses a row is status 500.
pub mod Grants
pub mod Spent
pub mod Events
pub mod Checks
pub mod Once
pub mod Flow
mod Examples
use Prim.Native.Char.{code}
use arkon.Base.{
  ℕ, suc, ◌+◌, String, Bool, true, false, not, ◌&&◌, ◌||◌, Option, none, some, List, [], ◌∷◌, ◌++◌,
  any, find, ltb, ◌==◌, str_eq, str_elem, if◌then◌else◌, Result, ok, err, ◌>>=◌, ◌>>◌, guard,
}

pub record OauthClient : Type 0 where
  pub client_id : String
  pub name : String
  pub redirect_uris : List String

pub record OauthAuthCode : Type 0 where
  pub id : ℕ
  pub code : String
  pub client_id : String
  pub employee_id : ℕ
  pub redirect_uri : String
  pub code_challenge : String
  pub code_challenge_method : String
  pub expires_at : ℕ
  pub used : Bool

-- An employee, with the columns of logins and tokens.
pub record Account : Type 0 where
  pub id : ℕ
  pub email : String
  pub password_hash : Option String
  pub is_active : Bool
  pub mcp_token_hash : Option String
  pub mcp_token_rotated_at : Option ℕ

pub record OauthDb : Type 0 where
  pub clients : List OauthClient
  pub codes : List OauthAuthCode
  pub accounts : List Account
  pub next_id : ℕ

-- The cryptography that the services call: `hash_token`, the PKCE digest of a verifier as base64 text
-- without padding, and the comparison of a password with its hash.
pub record Crypto : Type 0 where
  pub hash_token : String → String
  pub digest : String → String
  pub verify_password : String → String → Bool

abbrev pub invalid_grant : ℕ
invalid_grant = 400

-- an auth code lives ten minutes
abbrev pub code_lifetime : ℕ
code_lifetime = 600

-- a row of that client id
abbrev pub has_client : String → List OauthClient → Bool
has_client client_id clients = any (λ c. str_eq c.client_id client_id) clients

-- `register_client` of the router and the service, with the client id that is drawn
unfoldable pub register_client : String → String → List String → OauthDb → Result ℕ OauthDb
register_client client_id name [] db = err 400
register_client client_id name (uri ∷ uris) db = do
  guard (not (has_client client_id db.clients)) 500
  let client : OauthClient = record {
    client_id = client_id;
    name = if str_eq name "" then "Unknown Client" else name;
    redirect_uris = uri ∷ uris;
  }
  ok (record db { clients = db.clients ++ client ∷ [] })

unfoldable pub get_client : String → OauthDb → Option OauthClient
get_client client_id db = find (λ c. str_eq c.client_id client_id) db.clients

-- a row of that code
abbrev pub has_code : String → List OauthAuthCode → Bool
has_code c rows = any (λ r. str_eq r.code c) rows

-- `create_auth_code`, with the code that is drawn; the column of codes is unique
unfoldable pub create_auth_code : OauthAuthCode → OauthDb → Result ℕ OauthDb
create_auth_code row db = do
  guard (not (has_code row.code db.codes)) 500
  ok (record db { codes = db.codes ++ row ∷ []; next_id = suc db.next_id })

abbrev pub is_ascii : String → Bool
is_ascii String.[] = true
is_ascii (String.◌∷◌ c s) = ltb (code c) 128 && is_ascii s

-- the rows with a change of one
unfoldable pub update_account : ℕ → (Account → Account) → List Account → List Account
update_account employee_id change [] = []
update_account employee_id change (a ∷ accounts) =
    (if a.id == employee_id then change a else a) ∷ update_account employee_id change accounts

abbrev pub with_token : Option String → ℕ → Account → Account
with_token token_hash now a = record a {
  mcp_token_hash = token_hash;
  mcp_token_rotated_at = some now;
}

abbrev pub holds : String → Account → Bool
holds token_hash a = elim a.mcp_token_hash [ none ↦ false | some h ↦ str_eq h token_hash ]

-- another employee's token has that hash
abbrev pub is_taken : String → ℕ → List Account → Bool
is_taken token_hash employee_id accounts =
    any (λ a. holds token_hash a && not (a.id == employee_id)) accounts

module _ (crypto : Crypto) where
  -- `_verify_pkce`; a verifier that is no ASCII raises
  unfoldable pub verify_pkce : String → String → String → Result ℕ Bool
  verify_pkce verifier challenge method =
      if not (str_eq method "S256")
      then ok false
      else if is_ascii verifier
      then ok (str_eq (crypto.digest verifier) challenge)
      else err 500

  -- `generate_token`, with the token that is drawn
  unfoldable pub generate_token : ℕ → String → ℕ → OauthDb → Result ℕ OauthDb
  generate_token employee_id token now db = do
    guard (not (is_taken (crypto.hash_token token) employee_id db.accounts)) 500
    ok (record db {
      accounts =
          update_account employee_id (with_token (some (crypto.hash_token token)) now) db.accounts;
    })

  -- the employee that `verify_token` finds
  unfoldable pub verify_token : String → OauthDb → Option Account
  verify_token token db = find (λ a. holds (crypto.hash_token token) a && a.is_active) db.accounts

  abbrev pub password_fits : String → Option String → Bool
  password_fits password none = false
  password_fits password (some h) = not (str_eq h "") && crypto.verify_password password h

  -- `authenticate_employee` of app/services/auth_service.py; the e-mail is unique
  unfoldable pub authenticate_employee : String → String → OauthDb → Option Account
  authenticate_employee email password db =
      elim (find (λ a. str_eq a.email email && a.is_active) db.accounts) [
        | none ↦ none
        | some a ↦ if password_fits password a.password_hash then some a else none
      ]

-- `revoke_token`
unfoldable pub revoke_token : ℕ → OauthDb → OauthDb × Bool
revoke_token employee_id db = (
  record db {
    accounts = update_account employee_id (λ a. record a { mcp_token_hash = none }) db.accounts;
  },
  any (λ a. a.id == employee_id) db.accounts,
)
