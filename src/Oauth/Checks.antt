-- ===== src/Oauth/Checks.antt =====
-- What `exchange_code` of app/services/oauth_service.py has checked when it gives a token.
use arkon.Base.{
  ℕ, ◌≤◌, ◌≡◌, refl, ap, ◌∙◌, String, true, false, not, Option, none, some, find, ltb, str_eq,
  str_eq_iff, Result, ok, err, guard-ok, Result-cases, inl, inr, arith,
}
use arkon.Oauth.{
  OauthAuthCode, OauthDb, Crypto, verify_pkce, generate_token, is_taken, update_account, with_token,
}
use arkon.Oauth.Grants.{is_grant, mark_used, TokenForm, exchange_row, exchange_code}

err_or_ok : {e : ℕ} {db : OauthDb} → ◌≡◌ {A = Result ℕ OauthDb} (err e) (ok db) → ⊥
err_or_ok h = cc

module _ (crypto : Crypto) (token : String) (now : ℕ) (form : TokenForm) (row : OauthAuthCode)
    (db db' : OauthDb) where
  -- The checks of a row, and the change that follows.
  pub record Checked : Type 0 where
    pub in_time : now ≤ row.expires_at
    pub same_uri : row.redirect_uri ≡ form.redirect_uri
    pub method : row.code_challenge_method ≡ "S256"
    pub fits : crypto.digest form.code_verifier ≡ row.code_challenge
    pub issue :
        generate_token crypto row.employee_id token now
          (record db { codes = mark_used row.id db.codes })
        ≡ ok db'

  verify_pkce-true :
      (method : String)
      → verify_pkce crypto form.code_verifier row.code_challenge method ≡ ok true
      → (method ≡ "S256") × (crypto.digest form.code_verifier ≡ row.code_challenge)
  unfolding verify_pkce
  verify_pkce-true method h = ground (
    arith,
    str_eq_iff method "S256",
    str_eq_iff (crypto.digest form.code_verifier) row.code_challenge,
  )

  pub exchange_row-Checked : exchange_row crypto token now form row db ≡ ok db' → Checked
  unfolding exchange_row
  exchange_row-Checked h =
      let (t1, h1) = guard-ok (not (ltb row.expires_at now)) 400 _ h in
      let (t2, h2) = guard-ok (str_eq row.redirect_uri form.redirect_uri) 400 _ h1 in
      elim (Result-cases
        (verify_pkce crypto form.code_verifier row.code_challenge row.code_challenge_method)) [
          | inr (e, bad) ↦ absurd (err_or_ok (rw bad at h2))
          | inl (b, verdict) ↦
              let h3 = rw verdict at h2 in
              let (t3, h4) = guard-ok b 400 _ h3 in
              let (m, f) = verify_pkce-true row.code_challenge_method (verdict ∙ ap ok t3) in
              record {
                in_time = ground arith;
                same_uri = (str_eq_iff row.redirect_uri form.redirect_uri).0 t2;
                method = m;
                fits = f;
                issue = h4;
              }
        ]

-- what a new token leaves and changes
pub generate_token_lem :
    (crypto : Crypto) (employee_id : ℕ) (token : String) (now : ℕ) (db db' : OauthDb)
    → generate_token crypto employee_id token now db ≡ ok db'
    → (is_taken (crypto.hash_token token) employee_id db.accounts ≡ false)
      × (db'.codes ≡ db.codes)
      × (db'.accounts
          ≡ update_account employee_id
              (with_token (some (crypto.hash_token token)) now)
              db.accounts)
unfolding generate_token
generate_token_lem crypto employee_id token now db db' h =
    let (t, h1) =
      guard-ok (not (is_taken (crypto.hash_token token) employee_id db.accounts)) 500 _ h in
    (ground arith, ground arith, ground arith)

-- A token is only given for a row of the code that is unused and the client's, and after all checks.
pub exchange_code-Checked :
    (crypto : Crypto) (token : String) (now : ℕ) (form : TokenForm) (db db' : OauthDb)
    → exchange_code crypto token now form db ≡ ok db'
    → (row : OauthAuthCode) × (find (is_grant form.code form.client_id) db.codes ≡ some row)
      × Checked crypto token now form row db db'
unfolding exchange_code
exchange_code-Checked crypto token now form db db' h =
    by_row (find (is_grant form.code form.client_id) db.codes) refl h
  where
    by_row :
        (o : Option OauthAuthCode)
        → find (is_grant form.code form.client_id) db.codes ≡ o
        → ◌≡◌ {A = Result ℕ OauthDb}
            (elim o [ none ↦ err 400 | some row ↦ exchange_row crypto token now form row db ])
            (ok db')
        → (row : OauthAuthCode) × (find (is_grant form.code form.client_id) db.codes ≡ some row)
          × Checked crypto token now form row db db'
    by_row none e k = absurd (err_or_ok k)
    by_row (some row) e k = (row, e, exchange_row-Checked crypto token now form row db db' k)
