-- ===== src/Oauth/Events.antt =====
-- Runs of the endpoints of app/routers/oauth.py, and what they do to the table of codes.
use arkon.Base.{
  ℕ, ◌≡◌, refl, String, Bool, false, not, Option, none, some, List, [], ◌∷◌, ◌++◌, find, ltb,
  str_eq, Result, ok, err, ◌>>=◌, ◌>>◌, guard, Ensures, ok-Ensures, err-Ensures, guard-Ensures,
  Bool-cases, Option-cases, inl, inr,
}
use arkon.Oauth.{
  OauthAuthCode, OauthDb, Crypto, register_client, has_code, create_auth_code, verify_pkce,
  generate_token, authenticate_employee, revoke_token, get_client, is_taken, has_client,
}
use arkon.Oauth.Grants.{
  AuthorizeForm, redirect_known, Authorized, code_row, is_grant, mark_used, TokenForm,
  authorize_post, exchange_row, exchange_code, token_endpoint,
}

-- What happens at the endpoints, and to the tokens.
pub data Event : Type 0 where
  register : String → String → List String → Event
  authorize : String → ℕ → AuthorizeForm → Event
  exchange : String → ℕ → TokenForm → Event
  rotate : ℕ → String → ℕ → Event
  revoke : ℕ → Event

-- an error leaves the database as it was
abbrev pub or_same : OauthDb → Result ℕ OauthDb → OauthDb
or_same db (ok db') = db'
or_same db (err e) = db

abbrev pub or_same_authorized : OauthDb → Result ℕ (Authorized × OauthDb) → OauthDb
or_same_authorized db (ok (_, db')) = db'
or_same_authorized db (err e) = db

module _ (crypto : Crypto) where
  pub perform : Event → OauthDb → OauthDb
  perform (register client_id name uris) db = or_same db (register_client client_id name uris db)
  perform (authorize drawn now form) db =
      or_same_authorized db (authorize_post crypto drawn now form db)
  perform (exchange token now form) db = or_same db (token_endpoint crypto token now form db)
  perform (rotate employee_id token now) db =
      or_same db (generate_token crypto employee_id token now db)
  perform (revoke employee_id) db = (revoke_token employee_id db).0

  abbrev pub run : List Event → OauthDb → OauthDb
  run [] db = db
  run (e ∷ es) db = run es (perform e db)

  -- What the table of codes is after an event: as before, with one row marked, or with a row of a new
  -- code.
  pub data Codes (rows : List OauthAuthCode) : List OauthAuthCode → Type 0 where
    kept : Codes rows rows
    marked : (id : ℕ) → Codes rows (mark_used id rows)
    issued : (r : OauthAuthCode) → has_code r.code rows ≡ false → Codes rows (rows ++ r ∷ [])

  -- what an operation on these rows may return
  abbrev pub Turns : List OauthAuthCode → Result ℕ OauthDb → Type 0
  Turns rows r = Ensures (λ (db' : OauthDb). Codes rows db'.codes) r

  or_same-Codes :
      (db : OauthDb) (r : Result ℕ OauthDb) → Turns db.codes r → Codes db.codes (or_same db r).codes
  or_same-Codes db (ok db') k = k db' refl
  or_same-Codes db (err e) k = kept

  generate-Codes :
      (employee_id : ℕ) (token : String) (now : ℕ) (db : OauthDb) (rows : List OauthAuthCode)
      → Codes rows db.codes
      → Turns rows (generate_token crypto employee_id token now db)
  unfolding generate_token
  generate-Codes employee_id token now db rows c =
      guard-Ensures _ (not (is_taken (crypto.hash_token token) employee_id db.accounts)) 500 _
        (λ _. ok-Ensures _ _ c)

  register-Codes :
      (client_id name : String) (uris : List String) (db : OauthDb)
      → Turns db.codes (register_client client_id name uris db)
  unfolding register_client
  register-Codes client_id name [] db = err-Ensures _ _
  register-Codes client_id name (uri ∷ uris) db =
      guard-Ensures _ (not (has_client client_id db.clients)) 500 _ (λ _. ok-Ensures _ _ kept)

  exchange_row-Codes :
      (token : String) (now : ℕ) (form : TokenForm) (row : OauthAuthCode) (db : OauthDb)
      → Turns db.codes (exchange_row crypto token now form row db)
  unfolding exchange_row
  exchange_row-Codes token now form row db =
      guard-Ensures _ (not (ltb row.expires_at now)) 400 _ (λ _.
        guard-Ensures _ (str_eq row.redirect_uri form.redirect_uri) 400 _ (λ _.
          by_pkce
            (verify_pkce crypto form.code_verifier row.code_challenge row.code_challenge_method)))
    where
      by_pkce :
          (r : Result ℕ Bool)
          → Turns db.codes (do
            fits ← r
            guard fits 400
            generate_token crypto row.employee_id token now
                (record db { codes = mark_used row.id db.codes }))
      by_pkce (err e) = err-Ensures _ e
      by_pkce (ok fits) =
          guard-Ensures _ fits 400 _
            (λ _. generate-Codes row.employee_id token now _ db.codes (marked row.id))

  pub exchange_code-Codes :
      (token : String) (now : ℕ) (form : TokenForm) (db : OauthDb)
      → Turns db.codes (exchange_code crypto token now form db)
  unfolding exchange_code
  exchange_code-Codes token now form db = by_row (find (is_grant form.code form.client_id) db.codes)
    where
      by_row :
          (o : Option OauthAuthCode)
          → Turns db.codes
              (elim o [ none ↦ err 400 | some row ↦ exchange_row crypto token now form row db ])
      by_row none = err-Ensures _ 400
      by_row (some row) = exchange_row-Codes token now form row db

  authorize-Codes :
      (drawn : String) (now : ℕ) (form : AuthorizeForm) (db : OauthDb)
      → Codes db.codes (or_same_authorized db (authorize_post crypto drawn now form db)).codes
  unfolding authorize_post create_auth_code
  authorize-Codes drawn now form db =
      elim (Bool-cases (redirect_known form.redirect_uri (get_client form.client_id db))) [
        | inr unknown ↦ rw unknown kept
        | inl known ↦
            elim (Option-cases (authenticate_employee crypto form.email form.password db)) [
              | inl refused ↦ rw (known, refused) kept
              | inr (employee, login) ↦ elim (Bool-cases (has_code drawn db.codes)) [
                | inl old ↦ rw (known, login, old) kept
                | inr new ↦
                    rw (known, login, new) (issued (code_row drawn now form employee db) new)
              ]
            ]
      ]

  pub perform-Codes : (e : Event) (db : OauthDb) → Codes db.codes (perform e db).codes
  unfolding perform token_endpoint revoke_token
  perform-Codes (register client_id name uris) db =
      or_same-Codes db _ (register-Codes client_id name uris db)
  perform-Codes (authorize drawn now form) db = authorize-Codes drawn now form db
  perform-Codes (exchange token now form) db = or_same-Codes db _ (
      guard-Ensures _ (str_eq form.grant_type "authorization_code") 400 _
        (λ _. exchange_code-Codes token now form db))
  perform-Codes (rotate employee_id token now) db =
      or_same-Codes db _ (generate-Codes employee_id token now db db.codes kept)
  perform-Codes (revoke employee_id) db = kept
