-- ===== src/Oauth/Flow.antt =====
-- The whole flow (app/routers/oauth.py): a login gives a code, and the code a token that identifies
-- the employee who logged in.
use arkon.Base.{
  ℕ, ◌+◌, ◌≤◌, ◌≡◌, refl, ap, ◌∙◌, String, true, false, ◌&&◌, some, List, [], ◌∷◌, ◌++◌, any, find,
  ltb, ◌==◌, str_eq, str_eq_iff, str_eq_self, ok, guard-ok, Bool-cases, Option-cases, inl, inr,
  arith,
}
use arkon.Oauth.{
  OauthAuthCode, Account, OauthDb, Crypto, verify_pkce, generate_token, is_ascii, is_taken, holds,
  update_account, with_token, get_client, has_code, create_auth_code, authenticate_employee,
  verify_token, code_lifetime,
}
use arkon.Oauth.Grants.{
  AuthorizeForm, redirect_known, redirect, code_row, is_grant, mark_used, TokenForm, authorize_post,
  exchange_row, exchange_code, token_endpoint,
}

-- a new code is found by the client that it is for
find-snoc :
    (rows : List OauthAuthCode) (r : OauthAuthCode)
    → has_code r.code rows ≡ false
    → r.used ≡ false
    → find (is_grant r.code r.client_id) (rows ++ r ∷ []) ≡ some r
find-snoc [] r new h = ground (arith, str_eq_self r.code, str_eq_self r.client_id)
find-snoc (x ∷ rows) r new h = ground (arith, find-snoc rows r)

-- Who holds the hash of a new token, of an employee who is there and active.
find-update :
    (token_hash : String) (employee_id now : ℕ) (accounts : List Account)
    → is_taken token_hash employee_id accounts ≡ false
    → any (λ a. a.id == employee_id && a.is_active) accounts ≡ true
    → (a : Account) × (find
          (λ x. holds token_hash x && x.is_active)
          (update_account employee_id (with_token (some token_hash) now) accounts)
        ≡ some a)
      × (a.id ≡ employee_id)
unfolding update_account
find-update token_hash employee_id now [] free there = cc
find-update token_hash employee_id now (x ∷ accounts) free there =
    let rest_free : is_taken token_hash employee_id accounts ≡ false = ground arith in
    elim (Bool-cases (x.id == employee_id)) [
      | inl t ↦ elim (Bool-cases x.is_active) [
        | inl active ↦ (
          with_token (some token_hash) now x,
          ground (arith, str_eq_self token_hash),
          ground arith,
        )
        | inr inactive ↦
            let rest_there : any (λ a. a.id == employee_id && a.is_active) accounts ≡ true =
              ground arith in
            let (a, e, i) = find-update token_hash employee_id now accounts rest_free rest_there in
            (a, ground arith, i)
      ]
      | inr t ↦
          let rest_there : any (λ a. a.id == employee_id && a.is_active) accounts ≡ true =
            ground arith in
          let (a, e, i) = find-update token_hash employee_id now accounts rest_free rest_there in
          (a, ground arith, i)
    ]

find-any :
    (email : String) (a : Account) (accounts : List Account)
    → find (λ x. str_eq x.email email && x.is_active) accounts ≡ some a
    → any (λ x. x.id == a.id && x.is_active) accounts ≡ true
find-any email a [] h = cc
find-any email a (x ∷ accounts) h = ground (arith, find-any email a accounts)

-- the employee of a login is there, and active
authenticate_lem :
    (crypto : Crypto) (email password : String) (db : OauthDb) (a : Account)
    → authenticate_employee crypto email password db ≡ some a
    → any (λ x. x.id == a.id && x.is_active) db.accounts ≡ true
unfolding authenticate_employee
authenticate_lem crypto email password db a h =
    elim (Option-cases (find (λ x. str_eq x.email email && x.is_active) db.accounts)) [
      | inl gone ↦ ground arith
      | inr (b, found) ↦
          let same : b ≡ a = ground arith in find-any email a db.accounts (found ∙ ap some same)
    ]

-- what a login that is answered with a code adds
authorize_lem :
    (crypto : Crypto) (drawn : String) (now : ℕ) (form : AuthorizeForm) (employee : Account)
    (db db1 : OauthDb)
    → authenticate_employee crypto form.email form.password db ≡ some employee
    → authorize_post crypto drawn now form db ≡ ok (redirect drawn, db1)
    → (has_code drawn db.codes ≡ false)
      × (db1.codes ≡ db.codes ++ code_row drawn now form employee db ∷ [])
      × (db1.accounts ≡ db.accounts)
unfolding authorize_post create_auth_code
authorize_lem crypto drawn now form employee db db1 login h =
    let (t1, h1) =
      guard-ok (redirect_known form.redirect_uri (get_client form.client_id db)) 400 _ h in
    let h2 = rw login at h1 in (ground arith, ground arith, ground arith)

-- the request for a token with that code
abbrev pub code_request : String → AuthorizeForm → String → TokenForm
code_request drawn form verifier = record {
  grant_type = "authorization_code";
  code = drawn;
  redirect_uri = form.redirect_uri;
  client_id = form.client_id;
  code_verifier = verifier;
}

exchange_code-found :
    (crypto : Crypto) (token : String) (now : ℕ) (form : TokenForm) (row : OauthAuthCode)
    (db : OauthDb)
    → find (is_grant form.code form.client_id) db.codes ≡ some row
    → exchange_code crypto token now form db ≡ exchange_row crypto token now form row db
unfolding exchange_code
exchange_code-found crypto token now form row db found = rw (found, exchange_code) refl

-- After a login with the right password at a redirect address that is the client's, the code that is
-- answered gives a token for ten minutes to the one who can show a verifier for the challenge, with
-- the method S256, and the token identifies the employee who logged in.
pub authorize_post-token :
    (crypto : Crypto) (drawn token verifier : String) (now later : ℕ) (form : AuthorizeForm)
    (employee : Account) (db db1 : OauthDb)
    → authenticate_employee crypto form.email form.password db ≡ some employee
    → authorize_post crypto drawn now form db ≡ ok (redirect drawn, db1)
    → later ≤ now + code_lifetime
    → form.code_challenge_method ≡ "S256"
    → is_ascii verifier ≡ true
    → crypto.digest verifier ≡ form.code_challenge
    → is_taken (crypto.hash_token token) employee.id db.accounts ≡ false
    → (db2 : OauthDb) × (a : Account) × (token_endpoint crypto token later
          (code_request drawn form verifier)
          db1
        ≡ ok db2)
      × (verify_token crypto token db2 ≡ some a)
      × (a.id ≡ employee.id)
unfolding token_endpoint exchange_row verify_pkce generate_token verify_token
authorize_post-token crypto drawn token verifier now later form employee db db1 login h in_time
      method ascii fits free =
    let (new, codes, accounts) = authorize_lem crypto drawn now form employee db db1 login h in
    let row = code_row drawn now form employee db in
    let found : find (is_grant drawn form.client_id) db1.codes ≡ some row =
      rw codes (find-snoc db.codes row new refl) in
    let (a, finds, same) =
      find-update (crypto.hash_token token) employee.id later db.accounts free
        (authenticate_lem crypto form.email form.password db employee login) in
    let in_time' : ltb (now + code_lifetime) later ≡ false = ground arith in
    let method' = (str_eq_iff form.code_challenge_method "S256").1 method in
    let fits' = (str_eq_iff (crypto.digest verifier) form.code_challenge).1 fits in
    (
      record db1 {
        codes = mark_used row.id db1.codes;
        accounts =
            update_account employee.id (with_token (some (crypto.hash_token token)) later)
              db1.accounts;
      },
      a,
      exchange_code-found crypto token later (code_request drawn form verifier) row db1 found
          ∙ rw (in_time', str_eq_self form.redirect_uri, method', ascii, fits', accounts, free)
              refl,
      rw accounts finds,
      same,
    )
