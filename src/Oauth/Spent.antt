-- ===== src/Oauth/Spent.antt =====
-- The rows of a code that was exchanged, in the table of app/database/oauth_models.py.
use arkon.Base.{
  ℕ, ◌+◌, ◌≤◌, ◌≡◌, refl, sym, ap, ◌∙◌, String, Bool, true, false, not, ◌&&◌, ◌||◌, none, some,
  List, [], ◌∷◌, ◌++◌, all, find, str_eq, str_eq_iff, if◌then◌else◌, Bool-cases, inl, inr, arith,
  any-append, all-append,
}
use arkon.Oauth.{OauthAuthCode, has_code}
use arkon.Oauth.Grants.{is_grant, mark_used}

abbrev pub count_code : String → List OauthAuthCode → ℕ
count_code c [] = 0
count_code c (r ∷ rs) = (if str_eq r.code c then 1 else 0) + count_code c rs

-- the unique column of codes
abbrev pub UniqueCodes : List OauthAuthCode → Type 0
UniqueCodes rows = (c : String) → count_code c rows ≤ 1

-- every row of the code is used, and there is one
abbrev pub spent : String → List OauthAuthCode → Bool
spent c rows = has_code c rows && all (λ r. not (str_eq r.code c) || r.used) rows

pub has_code-mark_used :
    (c : String) (id : ℕ) (rows : List OauthAuthCode)
    → has_code c (mark_used id rows) ≡ has_code c rows
unfolding mark_used
has_code-mark_used c id [] = refl
has_code-mark_used c id (r ∷ rows) = ground (arith, has_code-mark_used c id rows)

pub count_code-mark_used :
    (c : String) (id : ℕ) (rows : List OauthAuthCode)
    → count_code c (mark_used id rows) ≡ count_code c rows
unfolding mark_used
count_code-mark_used c id [] = refl
count_code-mark_used c id (r ∷ rows) = ground (arith, count_code-mark_used c id rows)

pub count_code-none :
    (c : String) (rows : List OauthAuthCode) → has_code c rows ≡ false → count_code c rows ≡ 0
count_code-none c [] h = refl
count_code-none c (r ∷ rows) h = ground (arith, count_code-none c rows)

pub count_code-snoc :
    (c : String) (rows : List OauthAuthCode) (r : OauthAuthCode)
    → count_code c (rows ++ r ∷ []) ≡ count_code c rows + (if str_eq r.code c then 1 else 0)
count_code-snoc c [] r = omega arith
count_code-snoc c (x ∷ rows) r = omega (arith, count_code-snoc c rows r)

-- no row is left unused by marking
abbrev pub all_used : String → List OauthAuthCode → Bool
all_used c rows = all (λ r. not (str_eq r.code c) || r.used) rows

all_used-none :
    (c : String) (rows : List OauthAuthCode) → count_code c rows ≡ 0 → all_used c rows ≡ true
all_used-none c [] h = refl
all_used-none c (r ∷ rows) h = ground (arith, all_used-none c rows)

all_used-mark :
    (c : String) (id : ℕ) (rows : List OauthAuthCode)
    → all_used c rows ≡ true
    → all_used c (mark_used id rows) ≡ true
unfolding mark_used
all_used-mark c id [] h = refl
all_used-mark c id (r ∷ rows) h = ground (arith, all_used-mark c id rows)

count_code-some :
    (c : String) (rows : List OauthAuthCode) → has_code c rows ≡ true → 1 ≤ count_code c rows
count_code-some c [] h = cc
count_code-some c (r ∷ rows) h = ground (arith, count_code-some c rows)

-- The one row of a code is marked when its grant is found.
pub all_used-grant :
    (c client_id : String) (rows : List OauthAuthCode) (row : OauthAuthCode)
    → count_code c rows ≤ 1
    → find (is_grant c client_id) rows ≡ some row
    → (all_used c (mark_used row.id rows) ≡ true) × (has_code c rows ≡ true)
unfolding mark_used
all_used-grant c client_id [] row le h = cc
all_used-grant c client_id (r ∷ rows) row le h = elim (Bool-cases (is_grant c client_id r)) [
  | inl t ↦
      let rest = all_used-mark c row.id rows in
      let none_left = all_used-none c rows in (ground arith, ground arith)
  | inr t ↦
      let below : count_code c rows ≤ 1 = ground arith in
      let found : find (is_grant c client_id) rows ≡ some row = ground arith in
      let (i, j) = all_used-grant c client_id rows row below found in
      let there = count_code-some c rows j in
      let other : str_eq r.code c ≡ false = ground arith in (ground arith, ground arith)
]

-- nothing that is granted is left of a spent code
pub spent-grant :
    (c client_id : String) (rows : List OauthAuthCode)
    → all_used c rows ≡ true
    → find (is_grant c client_id) rows ≡ none
spent-grant c client_id [] h = refl
spent-grant c client_id (r ∷ rows) h = ground (arith, spent-grant c client_id rows)

pub spent-mark :
    (c : String) (id : ℕ) (rows : List OauthAuthCode)
    → spent c rows ≡ true
    → spent c (mark_used id rows) ≡ true
spent-mark c id rows h = ground (arith, has_code-mark_used c id rows, all_used-mark c id rows)

true_or_false : true ≡ false → ⊥
true_or_false h = cc

-- a new code is another one
pub spent-snoc :
    (c : String) (rows : List OauthAuthCode) (r : OauthAuthCode)
    → has_code r.code rows ≡ false
    → spent c rows ≡ true
    → spent c (rows ++ r ∷ []) ≡ true
spent-snoc c rows r new h = elim (Bool-cases (str_eq r.code c)) [
  | inl t ↦
      let e = (str_eq_iff r.code c).0 t in
      let old : has_code c rows ≡ true = ground arith in
      absurd (true_or_false (sym old ∙ ap (λ x. has_code x rows) (sym e) ∙ new))
  | inr t ↦ ground (
    arith,
    any-append (λ x. str_eq x.code c) rows (r ∷ []),
    all-append (λ x. not (str_eq x.code c) || x.used) rows (r ∷ []),
  )
]
