-- ===== src/Wiki/Covered.antt =====
-- Revisions and the versions of their pages, in the rows of the wiki's tables.
use arkon.Base.{
  ℕ, ◌≤◌, ◌<◌, ◌≡◌, refl, Bool, true, false, ◌&&◌, Option, none, some, List, [], ◌∷◌, ◌++◌, ◌==◌,
  leb, arith, all, all-cons, all_mono, all-append, Option-cases, ap, inl, inr, Bool-cases,
}
use arkon.Wiki.{WikiPage, WikiPageRevision, get_page, set_page, has_revision}
use arkon.Wiki.Rows.{get_page-set_page, get_page-set_page-other, get_page-append}

-- the version that a revision has is the page's or an earlier one
abbrev pub reaches : WikiPageRevision → Option WikiPage → Bool
reaches r none = false
reaches r (some p) = leb r.version p.version

abbrev pub covers : List WikiPage → WikiPageRevision → Bool
covers pages r = reaches r (get_page r.page_id pages)

-- A revision that is covered is found with its page.
covers-found :
    (pages : List WikiPage) (r : WikiPageRevision) (id : ℕ) (o : Option WikiPage)
    → get_page id pages ≡ o
    → r.page_id ≡ id
    → covers pages r ≡ true
    → reaches r o ≡ true
covers-found pages r id o h same c =
    let found : get_page r.page_id pages ≡ o = rw same h in
    let moved : covers pages r ≡ reaches r o = ap (reaches r) found in cc

later_lem :
    (id : ℕ) (p : WikiPage) (v : ℕ) (pages : List WikiPage) (r : WikiPageRevision)
    → get_page id pages ≡ some p
    → p.version < v
    → covers pages r ≡ true
    → (r.page_id == id && r.version == v) ≡ false
later_lem id p v pages r h later c = elim (Bool-cases (r.page_id == id)) [
  | inl e ↦
      let c' : leb r.version p.version ≡ true =
        covers-found pages r id (some p) h (ground arith) c in
      ground arith
  | inr e ↦ rw e refl
]

none_lem :
    (id v : ℕ) (pages : List WikiPage) (r : WikiPageRevision)
    → get_page id pages ≡ none
    → covers pages r ≡ true
    → (r.page_id == id && r.version == v) ≡ false
none_lem id v pages r h c = elim (Bool-cases (r.page_id == id)) [
  | inl e ↦
      let c' : false ≡ true = covers-found pages r id none h (ground arith) c in absurd (cc c')
  | inr e ↦ rw e refl
]

-- A page whose revisions are all covered has none with a later version.
pub has_revision-later :
    (id : ℕ) (p : WikiPage) (v : ℕ) (pages : List WikiPage) (rs : List WikiPageRevision)
    → get_page id pages ≡ some p
    → p.version < v
    → all (covers pages) rs ≡ true
    → has_revision id v rs ≡ false
has_revision-later id p v pages [] h later c = refl
has_revision-later id p v pages (r ∷ rs) h later c =
    let (c1, c2) = all-cons (covers pages) r rs c in
    rw (later_lem id p v pages r h later c1) (has_revision-later id p v pages rs h later c2)

pub has_revision-none :
    (id : ℕ) (v : ℕ) (pages : List WikiPage) (rs : List WikiPageRevision)
    → get_page id pages ≡ none
    → all (covers pages) rs ≡ true
    → has_revision id v rs ≡ false
has_revision-none id v pages [] h c = refl
has_revision-none id v pages (r ∷ rs) h c =
    let (c1, c2) = all-cons (covers pages) r rs c in
    rw (none_lem id v pages r h c1) (has_revision-none id v pages rs h c2)

-- A page whose version does not go back covers what it covered.
pub covers-set_page :
    (p q : WikiPage) (pages : List WikiPage)
    → get_page p.id pages ≡ some q
    → q.version ≤ p.version
    → (r : WikiPageRevision) → covers pages r ≡ true
    → covers (set_page p pages) r ≡ true
covers-set_page p q pages h le r c = elim (Bool-cases (r.page_id == p.id)) [
  | inl e ↦
      let same : r.page_id ≡ p.id = ground arith in
      let before : leb r.version q.version ≡ true = covers-found pages r p.id (some q) h same c in
      let found : get_page r.page_id (set_page p pages) ≡ some p =
        rw same (get_page-set_page p pages q h) in
      let moved : covers (set_page p pages) r ≡ leb r.version p.version = ap (reaches r) found in
      ground arith
  | inr e ↦
      let moved : covers (set_page p pages) r ≡ covers pages r =
        ap (reaches r) (get_page-set_page-other p r.page_id pages e) in
      cc
]

pub covers-append :
    (p : WikiPage) (pages : List WikiPage) (r : WikiPageRevision)
    → covers pages r ≡ true
    → covers (pages ++ p ∷ []) r ≡ true
covers-append p pages r c = elim (Option-cases (get_page r.page_id pages)) [
  | inl e ↦ let no : covers pages r ≡ false = ap (reaches r) e in absurd (cc)
  | inr (q, e) ↦
      let before : covers pages r ≡ leb r.version q.version = ap (reaches r) e in
      let after : covers (pages ++ p ∷ []) r ≡ leb r.version q.version =
        ap (reaches r) (get_page-append r.page_id pages p q e) in
      cc
]

-- The revision of what a page now holds, added to revisions that are covered.
pub covers-insert :
    (p : WikiPage) (pages pages' : List WikiPage) (r : WikiPageRevision)
    (rs : List WikiPageRevision)
    → r.version ≤ p.version
    → get_page r.page_id pages' ≡ some p
    → ((x : WikiPageRevision) → covers pages x ≡ true → covers pages' x ≡ true)
    → all (covers pages) rs ≡ true
    → all (covers pages') (rs ++ r ∷ []) ≡ true
covers-insert p pages pages' r rs le found f c =
    let old : all (covers pages') rs ≡ true = all_mono (covers pages) (covers pages') rs f c in
    let new : covers pages' r ≡ leb r.version p.version = ap (reaches r) found in
    let split : all (covers pages') (rs ++ r ∷ [])
        ≡ (all (covers pages') rs && (covers pages' r && true)) =
      all-append (covers pages') rs (r ∷ []) in
    rw (split, old, new) (ground arith)
