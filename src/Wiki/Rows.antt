-- ===== src/Wiki/Rows.antt =====
-- The rows of the wiki's tables: what an insertion or a replacement of a row does to the lookups.
use arkon.Base.{
  ℕ, ◌≡◌, refl, Bool, true, false, ◌&&◌, none, some, List, [], ◌∷◌, ◌++◌, any, ◌==◌, ltb, suc,
  arith, all, any-append, find, all-cons, inl, inr, Bool-cases,
}
use arkon.Wiki.{WikiPage, WikiPageRevision, get_page, set_page, has_revision}

-- No page has the id of an earlier one.
abbrev pub UniqueIds : List WikiPage → Type 0
UniqueIds [] = Unit
UniqueIds (p ∷ ps) = (any (λ q. q.id == p.id) ps ≡ false) × UniqueIds ps

-- No two revisions have the same page and version.
abbrev pub UniqueVersions : List WikiPageRevision → Type 0
UniqueVersions [] = Unit
UniqueVersions (r ∷ rs) = (has_revision r.page_id r.version rs ≡ false) × UniqueVersions rs

pub get_page-id :
    (id : ℕ) (pages : List WikiPage) (p : WikiPage) → get_page id pages ≡ some p → p.id ≡ id
unfolding get_page
get_page-id id [] p h = absurd (cc h)
get_page-id id (q ∷ qs) p h = ground (arith, get_page-id id qs p)

pub get_page-set_page :
    (p : WikiPage) (pages : List WikiPage) (q : WikiPage)
    → get_page p.id pages ≡ some q
    → get_page p.id (set_page p pages) ≡ some p
unfolding get_page set_page
get_page-set_page p [] q h = absurd (cc h)
get_page-set_page p (x ∷ xs) q h = ground (arith, get_page-set_page p xs q)

pub get_page-set_page-other :
    (p : WikiPage) (id : ℕ) (pages : List WikiPage)
    → (id == p.id) ≡ false
    → get_page id (set_page p pages) ≡ get_page id pages
unfolding get_page set_page
get_page-set_page-other p id [] h = refl
get_page-set_page-other p id (x ∷ xs) h = ground (arith, get_page-set_page-other p id xs)

pub any-set_page :
    (f : WikiPage → Bool) (p : WikiPage) (pages : List WikiPage)
    → ((q : WikiPage) → q.id ≡ p.id → f q ≡ f p)
    → any f (set_page p pages) ≡ any f pages
unfolding set_page
any-set_page f p [] h = refl
any-set_page f p (x ∷ xs) h = ground (arith, h x, any-set_page f p xs h)

pub all-get_page :
    (f : WikiPage → Bool) (id : ℕ) (pages : List WikiPage) (p : WikiPage)
    → get_page id pages ≡ some p
    → all f pages ≡ true
    → f p ≡ true
unfolding get_page
all-get_page f id [] p h a = absurd (cc h)
all-get_page f id (x ∷ xs) p h a =
    let (a1, a2) = all-cons f x xs a in
    elim (Bool-cases (x.id == id)) [
      | inl e ↦ let same : some x ≡ some p = rw e at h in cc
      | inr e ↦ all-get_page f id xs p (rw e at h) a2
    ]

pub all-set_page :
    (f : WikiPage → Bool) (p : WikiPage) (pages : List WikiPage)
    → f p ≡ true
    → all f pages ≡ true
    → all f (set_page p pages) ≡ true
unfolding set_page
all-set_page f p [] h a = refl
all-set_page f p (x ∷ xs) h a = ground (arith, all-set_page f p xs h)

pub any-found :
    (f : WikiPage → Bool) (x : WikiPage) (pages : List WikiPage) (p : WikiPage)
    → find f pages ≡ some p
    → any (λ q. q.id == x.id) pages ≡ false
    → (x.id == p.id) ≡ false
any-found f x [] p h a = absurd (cc h)
any-found f x (y ∷ ys) p h a = elim (Bool-cases (f y)) [
  | inl e ↦ let same : some y ≡ some p = rw e at h in ground arith
  | inr e ↦ any-found f x ys p (rw e at h) (ground arith)
]

-- With unique ids, a page that a query finds is the one that its id finds.
pub get_page-found :
    (f : WikiPage → Bool) (pages : List WikiPage) (p : WikiPage)
    → UniqueIds pages
    → find f pages ≡ some p
    → get_page p.id pages ≡ some p
unfolding get_page
get_page-found f [] p u h = absurd (cc h)
get_page-found f (x ∷ xs) p (fresh, u) h = elim (Bool-cases (f x)) [
  | inl e ↦ let same : some x ≡ some p = rw e at h in ground arith
  | inr e ↦
      let rest : find f xs ≡ some p = rw e at h in
      let other : (x.id == p.id) ≡ false = any-found f x xs p rest fresh in
      ground (arith, get_page-found f xs p u rest)
]

-- An id that was not given out yet.
pub get_page-below :
    (n : ℕ) (pages : List WikiPage) → all (λ p. ltb p.id n) pages ≡ true → get_page n pages ≡ none
unfolding get_page
get_page-below n [] h = refl
get_page-below n (x ∷ xs) h = ground (arith, get_page-below n xs)

pub any-below :
    (n : ℕ) (pages : List WikiPage)
    → all (λ p. ltb p.id n) pages ≡ true
    → any (λ p. p.id == n) pages ≡ false
any-below n [] h = refl
any-below n (x ∷ xs) h = ground (arith, any-below n xs)

pub ids_below-insert :
    (p : WikiPage) (n : ℕ) (pages : List WikiPage)
    → p.id ≡ n
    → all (λ q. ltb q.id n) pages ≡ true
    → all (λ q. ltb q.id (suc n)) (pages ++ p ∷ []) ≡ true
ids_below-insert p n [] e h = ground arith
ids_below-insert p n (x ∷ xs) e h = ground (arith, ids_below-insert p n xs e)

pub UniqueIds-set_page :
    (p : WikiPage) (pages : List WikiPage) → UniqueIds pages → UniqueIds (set_page p pages)
unfolding set_page
UniqueIds-set_page p [] u = tt
UniqueIds-set_page p (x ∷ xs) (fresh, u) = elim (Bool-cases (x.id == p.id)) [
  | inl e ↦ rw e (ground arith, u)
  | inr e ↦ rw e (
    ground (arith, any-set_page (λ q. q.id == x.id) p xs (λ q same. ground arith)),
    UniqueIds-set_page p xs u,
  )
]

-- a page added at the end
pub UniqueIds-append :
    (p : WikiPage) (pages : List WikiPage)
    → any (λ q. q.id == p.id) pages ≡ false
    → UniqueIds pages
    → UniqueIds (pages ++ p ∷ [])
UniqueIds-append p [] h u = (refl, tt)
UniqueIds-append p (x ∷ xs) h (fresh, u) = (
  ground (arith, any-append (λ q. q.id == x.id) xs (p ∷ [])),
  UniqueIds-append p xs (ground arith) u,
)

pub UniqueVersions-append :
    (r : WikiPageRevision) (rs : List WikiPageRevision)
    → has_revision r.page_id r.version rs ≡ false
    → UniqueVersions rs
    → UniqueVersions (rs ++ r ∷ [])
UniqueVersions-append r [] h u = (refl, tt)
UniqueVersions-append r (x ∷ xs) h (fresh, u) = (
  ground (arith, any-append (λ q. q.page_id == x.page_id && q.version == x.version) xs (r ∷ [])),
  UniqueVersions-append r xs (ground arith) u,
)

-- A lookup among pages with one more at the end.
pub get_page-append :
    (id : ℕ) (pages : List WikiPage) (p : WikiPage) (q : WikiPage)
    → get_page id pages ≡ some q
    → get_page id (pages ++ p ∷ []) ≡ some q
unfolding get_page
get_page-append id [] p q h = absurd (cc h)
get_page-append id (x ∷ xs) p q h = ground (arith, get_page-append id xs p q)

pub get_page-append-new :
    (p : WikiPage) (pages : List WikiPage)
    → any (λ q. q.id == p.id) pages ≡ false
    → get_page p.id (pages ++ p ∷ []) ≡ some p
unfolding get_page
get_page-append-new p [] h = ground arith
get_page-append-new p (x ∷ xs) h = ground (arith, get_page-append-new p xs)
