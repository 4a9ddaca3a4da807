-- ===== src/Oauth/Once.antt =====
-- A code is exchanged once (app/services/oauth_service.py), whatever happens afterwards.
use arkon.Base.{
  ℕ, ◌≡◌, refl, ap, String, true, List, [], ◌∷◌, str_eq, str_eq_iff, ok, err, Bool-cases, inl, inr,
  arith,
}
use arkon.Oauth.{OauthAuthCode, OauthDb, Crypto, invalid_grant}
use arkon.Oauth.Grants.{TokenForm, exchange_code}
use arkon.Oauth.Checks.{generate_token_lem, exchange_code-Checked}
use arkon.Oauth.Spent.{
  count_code, UniqueCodes, spent, count_code-mark_used, count_code-none, count_code-snoc,
  spent-mark, spent-snoc, all_used-grant, spent-grant, has_code-mark_used,
}
use arkon.Oauth.Events.{Event, run, Codes, kept, marked, issued, perform-Codes}

spent-Codes :
    (crypto : Crypto) (c : String) (rows rows' : List OauthAuthCode)
    → Codes crypto rows rows'
    → spent c rows ≡ true
    → spent c rows' ≡ true
spent-Codes crypto c rows _ kept h = h
spent-Codes crypto c rows _ (marked id) h = spent-mark c id rows h
spent-Codes crypto c rows _ (issued r new) h = spent-snoc c rows r new h

UniqueCodes-Codes :
    (crypto : Crypto) (rows rows' : List OauthAuthCode)
    → Codes crypto rows rows'
    → UniqueCodes rows
    → UniqueCodes rows'
UniqueCodes-Codes crypto rows _ kept h c = h c
UniqueCodes-Codes crypto rows _ (marked id) h c = rw (count_code-mark_used c id rows) (h c)
UniqueCodes-Codes crypto rows _ (issued r new) h c = elim (Bool-cases (str_eq r.code c)) [
  | inl t ↦
      let e = (str_eq_iff r.code c).0 t in
      let none_yet = count_code-none r.code rows new in
      rw (count_code-snoc c rows r, t) (omega (arith, ap (λ x. count_code x rows) e, none_yet))
  | inr t ↦ rw (count_code-snoc c rows r, t) (omega (arith, h c))
]

-- A code is unique in the table after any run.
run-UniqueCodes :
    (crypto : Crypto) (events : List Event) (db : OauthDb)
    → UniqueCodes db.codes
    → UniqueCodes (run crypto events db).codes
run-UniqueCodes crypto [] db h = h
run-UniqueCodes crypto (e ∷ events) db h =
    run-UniqueCodes crypto events _ (UniqueCodes-Codes crypto _ _ (perform-Codes crypto e db) h)

run-spent :
    (crypto : Crypto) (c : String) (events : List Event) (db : OauthDb)
    → spent c db.codes ≡ true
    → spent c (run crypto events db).codes ≡ true
run-spent crypto c [] db h = h
run-spent crypto c (e ∷ events) db h =
    run-spent crypto c events _ (spent-Codes crypto c _ _ (perform-Codes crypto e db) h)

exchange_code-spent :
    (crypto : Crypto) (token : String) (now : ℕ) (form : TokenForm) (db db' : OauthDb)
    → UniqueCodes db.codes
    → exchange_code crypto token now form db ≡ ok db'
    → spent form.code db'.codes ≡ true
exchange_code-spent crypto token now form db db' unique h =
    let (row, found, checked) = exchange_code-Checked crypto token now form db db' h in
    let (_, same, _) = generate_token_lem crypto row.employee_id token now _ db' checked.issue in
    let (used, there) =
      all_used-grant form.code form.client_id db.codes row (unique form.code) found in
    rw same (ground (arith, has_code-mark_used form.code row.id db.codes))

-- A code gives one token: after any run of the endpoints from a table where codes are unique, once it
-- is exchanged and whatever runs then, no request that names it is answered with a token.
pub exchange_code-once :
    (crypto : Crypto) (before after : List Event) (token token' : String) (now now' : ℕ)
    (form form' : TokenForm) (db db' : OauthDb)
    → UniqueCodes db.codes
    → exchange_code crypto token now form (run crypto before db) ≡ ok db'
    → form'.code ≡ form.code
    → exchange_code crypto token' now' form' (run crypto after db') ≡ err invalid_grant
unfolding exchange_code
exchange_code-once crypto before after token token' now now' form form' db db' unique h same =
    let s = run-spent crypto form.code after db' (
      exchange_code-spent crypto token now form _ db' (run-UniqueCodes crypto before db unique)
        h) in
    let gone = spent-grant form'.code form'.client_id (run crypto after db').codes (ground arith) in
    rw (gone, exchange_code) refl
