-- ===== src/Wiki/WellFormed/Upsert.antt =====
-- Lookups after `upsert_page` of app/services/wiki_service.py.
use arkon.Base.{
  str_eq_self, ℕ, ◌+◌, ◌≡◌, refl, Option, none, some, List, [], ◌∷◌, ◌++◌, Bool, true, false, ◌==◌,
  arith, ok, find, Option-cases, Bool-cases, inl, inr,
}
use arkon.Wiki.{WikiPage, WikiDb, set_page, or_one, get_page_by_slug, scope_filter, same_scope_id}
use arkon.Wiki.Rows.{UniqueIds, get_page-found, any-found}
use arkon.Wiki.Pages.{
  NewPage, fresh_page, upsert_page, upsert_found, update_found, updated, head_option,
}
use arkon.Wiki.Links.{refresh_links}
use arkon.Wiki.WellFormed.{WellFormed, written, write_page-ok, apply_create-ok, created}

pub find-set_page :
    (f : WikiPage → Bool) (p stored : WikiPage) (pages : List WikiPage)
    → UniqueIds pages
    → find f pages ≡ some stored
    → p.id ≡ stored.id
    → f p ≡ true
    → find f (set_page p pages) ≡ some p
unfolding set_page
find-set_page f p stored [] u h same t = absurd (cc h)
find-set_page f p stored (x ∷ xs) (fresh, u) h same t = elim (Bool-cases (f x)) [
  | inl e ↦ let eq : some x ≡ some stored = rw e at h in ground arith
  | inr e ↦
      let rest : find f xs ≡ some stored = rw e at h in
      let other : (x.id == stored.id) ≡ false = any-found f x xs stored rest fresh in
      ground (arith, find-set_page f p stored xs u rest same t)
]

pub find-append-new :
    (f : WikiPage → Bool) (p : WikiPage) (pages : List WikiPage)
    → find f pages ≡ none
    → f p ≡ true
    → find f (pages ++ p ∷ []) ≡ some p
find-append-new f p [] h t = rw t refl
find-append-new f p (x ∷ xs) h t = ground (arith, find-append-new f p xs)

pub find-holds :
    (f : WikiPage → Bool) (pages : List WikiPage) (p : WikiPage)
    → find f pages ≡ some p
    → f p ≡ true
find-holds f [] p h = absurd (cc h)
find-holds f (x ∷ xs) p h = ground (arith, find-holds f xs p)

pub same_scope_id_self : (o : Option ℕ) → same_scope_id o o ≡ true
same_scope_id_self none = refl
same_scope_id_self (some a) = ground arith

-- The id and the version of a written page, by the page that its slug found before: the id of that page
-- and the version after its version, or a new id and the version 1.
abbrev pub IsWritten : Option WikiPage → ℕ → WikiPage → Type 0
IsWritten none next_id page = (page.id ≡ next_id) × (page.version ≡ 1)
IsWritten (some p) next_id page = (page.id ≡ p.id) × (page.version ≡ or_one p.version + 1)

-- In a well-formed wiki every proposed page is written, with the proposed content, and its slug then
-- finds it in its scope. If the slug found a page there before, it is that page's id with the next
-- version (the one after 1 where the version is 0), and else the next free id with the version 1.
pub upsert_page_lem :
    (n : NewPage) (db : WikiDb)
    → WellFormed db
    → (page : WikiPage) × (db' : WikiDb) × (upsert_page n db ≡ ok (page, db'))
      × (get_page_by_slug n.slug n.scope_type n.scope_id db'.pages ≡ some page)
      × (page.content_md ≡ n.content_md)
      × IsWritten (get_page_by_slug n.slug n.scope_type n.scope_id db.pages) db.next_id page
unfolding upsert_page upsert_found update_found get_page_by_slug scope_filter refresh_links
upsert_page_lem n db w =
    elim (Option-cases (get_page_by_slug n.slug n.scope_type n.scope_id db.pages)) [
      | inl p ↦ (
        fresh_page db.next_id n,
        created n db,
        rw p (apply_create-ok n db w),
        find-append-new _ (fresh_page db.next_id n) db.pages p
            (rw (str_eq_self n.slug, str_eq_self n.scope_type, same_scope_id_self n.scope_id) refl),
        refl,
        rw p (refl, refl),
      )
      | inr (page, p) ↦
          let page' =
            updated (some n.summary) (some n.title) (head_option n.knowledge_type_slugs)
              (head_option n.source_ids) page in
          let found = get_page-found _ db.pages page w.unique_ids p in
          (
            record page' { content_md = n.content_md; version = or_one page.version + 1 },
            written page' n.content_md "agent_compile" none none none db,
            rw p (
                write_page-ok page' n.content_md "agent_compile" none none none db w page refl
                  found),
            find-set_page _ _ page db.pages w.unique_ids p refl (find-holds _ db.pages page p),
            refl,
            rw p (refl, refl),
          )
    ]
