-- ===== src/Wiki/WellFormed/Deleted.antt =====
-- The wiki after `delete_page_cascade` of app/services/wiki_service.py.
use arkon.Base.{
  ℕ, ◌≡◌, refl, ap, ◌∙◌, Bool, true, false, not, none, some, List, [], ◌∷◌, any, all, keep, map,
  all-cons, any-keep-false, Option-cases, ◌==◌, str_eq, ◌&&◌, ltb, leb, Bool-cases, inl, inr, arith,
}
use arkon.Wiki.{WikiPage, WikiPageRevision, WikiDb, get_page, same_scope_id}
use arkon.Wiki.WellFormed.Scoped.{
  global-is_incoming, is_scoped_link, other_scope-is_in_reach, scoped_link-is_incoming,
  any-keep-within, keep-keep-within, outside-is_incoming,
}
use arkon.Wiki.Rows.{UniqueIds, UniqueVersions}
use arkon.Wiki.Covered.{covers}
use arkon.Wiki.Detach.{UniqueIds-keep}
use arkon.Wiki.Pages.{delete_page}
use arkon.Wiki.Deletion.{is_incoming, cleaned_page, delete_page_cascade}
use arkon.Wiki.WellFormed.{WellFormed}

-- What a change of the rows must keep.
abbrev pub SameRow : (WikiPage → WikiPage) → Type 0
SameRow f = (q : WikiPage) → ((f q).id ≡ q.id) × ((f q).version ≡ q.version)

cleaned_page-SameRow : (page : WikiPage) → SameRow (cleaned_page page)
unfolding cleaned_page
cleaned_page-SameRow page q = (ground arith, ground arith)

any_id-map :
    (f : WikiPage → WikiPage) (id : ℕ) (pages : List WikiPage)
    → SameRow f
    → any (λ q. q.id == id) (map f pages) ≡ any (λ q. q.id == id) pages
any_id-map f id [] same = refl
any_id-map f id (x ∷ xs) same = rw ((same x).0, any_id-map f id xs same) refl

UniqueIds-map :
    (f : WikiPage → WikiPage) (pages : List WikiPage)
    → SameRow f
    → UniqueIds pages
    → UniqueIds (map f pages)
UniqueIds-map f [] same u = tt
UniqueIds-map f (x ∷ xs) same (fresh, u) =
    (rw ((same x).0) (any_id-map f x.id xs same ∙ fresh), UniqueIds-map f xs same u)

ids_below-map :
    (f : WikiPage → WikiPage) (n : ℕ) (pages : List WikiPage)
    → SameRow f
    → all (λ p. ltb p.id n) pages ≡ true
    → all (λ p. ltb p.id n) (map f pages) ≡ true
ids_below-map f n [] same h = refl
ids_below-map f n (x ∷ xs) same h =
    let (h1, h2) = all-cons (λ p. ltb p.id n) x xs h in
    rw ((same x).0, h1) (ids_below-map f n xs same h2)

all-keep : {A : Type 0} (p f : A → Bool) (xs : List A) → all p xs ≡ true → all p (keep f xs) ≡ true
all-keep p f [] h = refl
all-keep p f (x ∷ xs) h = let rest = all-keep p f xs in ground arith

-- The rows of the other pages, and what becomes of them.
get_page-deleted :
    (f : WikiPage → WikiPage) (gone id : ℕ) (pages : List WikiPage) (p : WikiPage)
    → SameRow f
    → (id == gone) ≡ false
    → get_page id pages ≡ some p
    → get_page id (keep (λ q. not (q.id == gone)) (map f pages)) ≡ some (f p)
unfolding get_page
get_page-deleted f gone id [] p same differs h = absurd (cc h)
get_page-deleted f gone id (x ∷ xs) p same differs h =
    let kept = (same x).0 in
    elim (Bool-cases (x.id == id)) [
      | inl e ↦
          let it : some x ≡ some p = rw e at h in
          let stays : ((f x).id == gone) ≡ false = ground arith in
          let here : ((f x).id == id) ≡ true = ground arith in
          let row : x ≡ p = cc it in rw (stays, here) (ap (λ q. some (f q)) row)
      | inr e ↦
          let rest = get_page-deleted f gone id xs p same differs (rw e at h) in
          let other : ((f x).id == id) ≡ false = ground arith in
          elim (Bool-cases ((f x).id == gone)) [ inl g ↦ rw g rest | inr g ↦ rw (g, other) rest ]
    ]

get_page-gone :
    (gone : ℕ) (pages : List WikiPage) → get_page gone (keep (λ q. not (q.id == gone)) pages) ≡ none
unfolding get_page
get_page-gone gone [] = refl
get_page-gone gone (x ∷ xs) = ground (arith, get_page-gone gone xs)

UniqueVersions-keep :
    (f : WikiPageRevision → Bool) (rs : List WikiPageRevision)
    → UniqueVersions rs
    → UniqueVersions (keep f rs)
UniqueVersions-keep f [] u = tt
UniqueVersions-keep f (r ∷ rs) (fresh, u) = elim (Bool-cases (f r)) [
  | inl e ↦ rw e (any-keep-false _ f rs fresh, UniqueVersions-keep f rs u)
  | inr e ↦ rw e (UniqueVersions-keep f rs u)
]

-- A revision of a page that stays is covered as before.
covers-deleted :
    (f : WikiPage → WikiPage) (gone : ℕ) (pages : List WikiPage) (r : WikiPageRevision)
    → SameRow f
    → (r.page_id == gone) ≡ false
    → covers pages r ≡ true
    → covers (keep (λ q. not (q.id == gone)) (map f pages)) r ≡ true
covers-deleted f gone pages r same differs h = elim (Option-cases (get_page r.page_id pages)) [
  | inl none_there ↦ absurd (cc (rw none_there at h))
  | inr (p, there) ↦
      let reached : leb r.version p.version ≡ true = rw there at h in
      let version = (same p).1 in
      rw (get_page-deleted f gone r.page_id pages p same differs there) (ground arith)
]

all_covered-deleted :
    (f : WikiPage → WikiPage) (gone : ℕ) (pages : List WikiPage) (rs : List WikiPageRevision)
    → SameRow f
    → all (covers pages) rs ≡ true
    → all
        (covers (keep (λ q. not (q.id == gone)) (map f pages)))
        (keep (λ r. not (r.page_id == gone)) rs)
      ≡ true
all_covered-deleted f gone pages [] same h = refl
all_covered-deleted f gone pages (r ∷ rs) same h =
    let (h1, h2) = all-cons (covers pages) r rs h in
    let rest = all_covered-deleted f gone pages rs same h2 in
    elim (Bool-cases (r.page_id == gone)) [
      | inl e ↦ rw e rest
      | inr e ↦ rw (e, covers-deleted f gone pages r same e h1) rest
    ]

-- no link to the slug of a global page is left
global_links-gone :
    (page : WikiPage) (db : WikiDb)
    → (str_eq page.scope_type "global"
        && any (λ l. str_eq l.to_slug page.slug) (delete_page_cascade page db).links)
      ≡ false
unfolding delete_page_cascade delete_page
global_links-gone page db = elim (Bool-cases (str_eq page.scope_type "global")) [
  | inr g ↦ rw g refl
  | inl g ↦ rw g (
      any-keep-false (λ l. str_eq l.to_slug page.slug) _ _
        (any-keep-within (is_incoming page db.pages) _ db.links
          (λ l. global-is_incoming page db.pages l g)))
]

-- After a page is deleted, the wiki is well-formed if it was, the page is not there and no link starts at
-- it. No link to its slug is left that starts at a page of its scope (as the pages were before), and none
-- at all if the page is global.
pub delete_page_cascade-gone :
    (page : WikiPage) (db : WikiDb)
    → WellFormed db
    → WellFormed (delete_page_cascade page db)
      × (get_page page.id (delete_page_cascade page db).pages ≡ none)
      × (any (λ l. l.from_page_id == page.id) (delete_page_cascade page db).links ≡ false)
      × (any (is_scoped_link page db.pages) (delete_page_cascade page db).links ≡ false)
      × ((str_eq page.scope_type "global"
            && any (λ l. str_eq l.to_slug page.slug) (delete_page_cascade page db).links)
          ≡ false)
unfolding delete_page_cascade delete_page
delete_page_cascade-gone page db w =
    let f = cleaned_page page in
    let same = cleaned_page-SameRow page in
    (
      record {
        ids_below =
            all-keep (λ p. ltb p.id db.next_id) (λ q. not (q.id == page.id)) (map f db.pages)
              (ids_below-map f db.next_id db.pages same w.ids_below);
        unique_ids = UniqueIds-keep _ _ (UniqueIds-map f db.pages same w.unique_ids);
        covered = all_covered-deleted f page.id db.pages db.revisions same w.covered;
        unique_versions = UniqueVersions-keep _ db.revisions w.unique_versions;
      },
      get_page-gone page.id (map f db.pages),
      any-keep-within (λ l. l.from_page_id == page.id) _ _ (λ l h. h),
      any-keep-false (is_scoped_link page db.pages) _ _ (
          any-keep-within (is_incoming page db.pages) _ db.links
            (scoped_link-is_incoming page db.pages)),
      global_links-gone page db,
    )

-- The deletion of a page of a department or a workspace from a well-formed wiki leaves every other stored
-- page that does not stand in its scope as it is, whatever its slug and text, with the links from it.
pub delete_page_cascade-others :
    (page q : WikiPage) (db : WikiDb)
    → WellFormed db
    → get_page q.id db.pages ≡ some q
    → (q.id == page.id) ≡ false
    → str_eq page.scope_type "global" ≡ false
    → str_eq page.scope_type "" ≡ false
    → (str_eq q.scope_type page.scope_type && same_scope_id q.scope_id page.scope_id) ≡ false
    → (get_page q.id (delete_page_cascade page db).pages ≡ some q)
      × (keep (λ l. l.from_page_id == q.id) (delete_page_cascade page db).links
          ≡ keep (λ l. l.from_page_id == q.id) db.links)
unfolding delete_page_cascade delete_page cleaned_page
delete_page_cascade-others page q db w there differs g e other =
    let far = other_scope-is_in_reach page q g e other in
    let unchanged : cleaned_page page q ≡ q = rw (cleaned_page, far) refl in
    (
      get_page-deleted (cleaned_page page) page.id q.id db.pages q (cleaned_page-SameRow page)
            differs there
          ∙ ap some unchanged,
      keep-keep-within (λ x. not (x.from_page_id == page.id)) (λ x. x.from_page_id == q.id)
            (keep (λ x. not (is_incoming page db.pages x)) db.links) (λ l from. ground arith)
          ∙ keep-keep-within _ _ db.links
              (λ l. outside-is_incoming page q db.pages l w.unique_ids there g e other),
    )
