-- ===== src/Oauth/Examples.antt =====
-- The theorems on codes at one client and one employee.
use arkon.Oauth.Grants.{exchange_row, mark_used}
use arkon.Oauth.{create_auth_code, generate_token, get_client, update_account, verify_pkce}
use arkon.Base.{◌≡◌, refl, true, some, none, [], ◌∷◌, str_eq, ok, err, arith}
use arkon.Oauth.{Account, OauthDb, Crypto, authenticate_employee, verify_token, invalid_grant}
use arkon.Oauth.Grants.{
  AuthorizeForm, redirect, authorize_post, exchange_code, token_endpoint, code_row,
}
use arkon.Oauth.Spent.{UniqueCodes}
use arkon.Oauth.Events.{run}
use arkon.Oauth.Once.{exchange_code-once}
use arkon.Oauth.Flow.{code_request, authorize_post-token}

abbrev crypto : Crypto
crypto = record { hash_token = λ t. t; digest = λ v. v; verify_password = str_eq }

abbrev account : Account
account = record {
  id = 4;
  email = "a@b";
  password_hash = some "secret";
  is_active = true;
  mcp_token_hash = none;
  mcp_token_rotated_at = none;
}

abbrev start : OauthDb
start = record {
  clients =
      record { client_id = "desktop"; name = "Desktop"; redirect_uris = "http://localhost" ∷ [] }
      ∷ [];
  codes = [];
  accounts = account ∷ [];
  next_id = 0;
}

abbrev form : AuthorizeForm
form = record {
  client_id = "desktop";
  redirect_uri = "http://localhost";
  code_challenge = "pkce";
  code_challenge_method = "S256";
  email = "a@b";
  password = "secret";
}

abbrev issued_db : OauthDb
issued_db = record start { codes = code_row "c" 100 form account start ∷ []; next_id = 1 }

logged_in : authenticate_employee crypto "a@b" "secret" start ≡ some account
unfolding authenticate_employee
logged_in = refl

answered : authorize_post crypto "c" 100 form start ≡ ok (redirect "c", issued_db)
unfolding authorize_post get_client authenticate_employee create_auth_code
answered = refl

authorize_post-token_example :
    (db2 : OauthDb) × (a : Account) × (token_endpoint crypto "t" 700
        (code_request "c" form "pkce")
        issued_db
      ≡ ok db2)
    × (verify_token crypto "t" db2 ≡ some a)
    × (a.id ≡ 4)
authorize_post-token_example =
    authorize_post-token crypto "c" "t" "pkce" 100 700 form account start issued_db logged_in
      answered (omega arith) refl refl refl refl

-- with the code used, and the token set
abbrev spent_db : OauthDb
spent_db = record issued_db {
  codes = record (code_row "c" 100 form account start) { used = true } ∷ [];
  accounts = record account { mcp_token_hash = some "t"; mcp_token_rotated_at = some 200 } ∷ [];
}

exchanged : exchange_code crypto "t" 200 (code_request "c" form "pkce") issued_db ≡ ok spent_db
unfolding exchange_code exchange_row verify_pkce generate_token mark_used update_account
exchanged = refl

issued_db-UniqueCodes : UniqueCodes issued_db.codes
issued_db-UniqueCodes c = ground arith

exchange_code-once_example :
    exchange_code crypto "u" 201 (code_request "c" form "pkce") (run crypto [] spent_db)
    ≡ err invalid_grant
exchange_code-once_example =
    exchange_code-once crypto [] [] "t" "u" 200 201 (code_request "c" form "pkce")
      (code_request "c" form "pkce") issued_db spent_db issued_db-UniqueCodes exchanged refl
