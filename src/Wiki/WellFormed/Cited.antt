-- ===== src/Wiki/WellFormed/Cited.antt =====
-- Which pages of a wiki cite a source, and that the index and the log of
-- app/services/wiki_service.py leave that as it is.
pub mod Writes
use arkon.Base.{
  ℕ, ◌≡◌, refl, String, Bool, true, false, ◌&&◌, ◌||◌, Option, none, some, List, [], ◌∷◌, ◌++◌,
  find, elem, ◌==◌, str_eq, Bool-cases, Option-cases, inl, inr, arith,
}
use arkon.Wiki.{WikiPage, WikiDb, get_page, get_page_by_slug, scope_filter, set_page}
use arkon.Wiki.Rows.{get_page-found}
use arkon.Wiki.Pages.{insert_page}
use arkon.Wiki.Logbook.{
  renewed, append_to, append_log, index_to, regenerate_index, log_line, index_text,
}
use arkon.Wiki.WellFormed.{WellFormed}
use arkon.Wiki.WellFormed.Logs.{append_log-WellFormed, regenerate_index-WellFormed}

-- A page that the test finds has the source among its sources.
abbrev pub Finds : (WikiPage → Bool) → ℕ → List WikiPage → Type 0
Finds f source pages =
    (page : WikiPage) × (find f pages ≡ some page) × (elem source page.source_ids ≡ true)

Finds-append :
    (f : WikiPage → Bool) (source : ℕ) (p : WikiPage) (pages : List WikiPage)
    → Finds f source pages
    → Finds f source (pages ++ p ∷ [])
Finds-append f source p [] (page, found, cites) = absurd (cc found)
Finds-append f source p (x ∷ xs) (page, found, cites) = elim (Bool-cases (f x)) [
  | inl e ↦ (page, ground arith, cites)
  | inr e ↦
      let (page', found', cites') = Finds-append f source p xs (page, ground arith, cites) in
      (page', ground arith, cites')
]

Finds-set_page :
    (f : WikiPage → Bool) (source : ℕ) (p stored : WikiPage) (pages : List WikiPage)
    → get_page p.id pages ≡ some stored
    → f p ≡ f stored
    → (elem source stored.source_ids ≡ true → elem source p.source_ids ≡ true)
    → Finds f source pages
    → Finds f source (set_page p pages)
unfolding get_page set_page
Finds-set_page f source p stored [] h same more (page, found, cites) = absurd (cc found)
Finds-set_page f source p stored (x ∷ xs) h same more (page, found, cites) =
    elim (Bool-cases (x.id == p.id)) [
      | inl a ↦
          let here : some x ≡ some stored = rw a at h in
          elim (Bool-cases (f x)) [
            | inl e ↦
                let it : some x ≡ some page = rw e at found in
                (p, ground arith, more (ground arith))
            | inr e ↦
                let rest : find f xs ≡ some page = rw e at found in (page, ground arith, cites)
          ]
      | inr a ↦
          let later : find (λ q. q.id == p.id) xs ≡ some stored = rw a at h in
          elim (Bool-cases (f x)) [
            | inl e ↦ let it : some x ≡ some page = rw e at found in (page, rw (a, e) it, cites)
            | inr e ↦
                let rest : find f xs ≡ some page = rw e at found in
                let (page', found', cites') =
                  Finds-set_page f source p stored xs later same more (page, rest, cites) in
                (page', rw (a, e) found', cites')
          ]
    ]

-- The slug finds a page of the scope that cites the source.
abbrev pub Cited : ℕ → String → String → Option ℕ → List WikiPage → Type 0
Cited source slug scope_type scope_id pages =
    (page : WikiPage) × (get_page_by_slug slug scope_type scope_id pages ≡ some page)
    × (elem source page.source_ids ≡ true)

-- A write keeps the wiki well-formed, and the source cited wherever it is.
pub record Next (source : ℕ) (db db' : WikiDb) : Type 0 where
  pub well : WellFormed db'
  pub keeps :
      (slug scope_type : String) (scope_id : Option ℕ)
      → Cited source slug scope_type scope_id db.pages
      → Cited source slug scope_type scope_id db'.pages

pub Next-nil : (source : ℕ) (db : WikiDb) → WellFormed db → Next source db db
Next-nil source db w = record { well = w; keeps = λ slug t id c. c }

pub Next-trans : (source : ℕ) (a b c : WikiDb) → Next source a b → Next source b c → Next source a c
Next-trans source a b c x y = record {
  well = y.well;
  keeps = λ slug t id h. y.keeps slug t id (x.keeps slug t id h);
}

-- a page with the same place that cites what the stored one does
pub Cited-set_page :
    (source : ℕ) (p stored : WikiPage) (pages : List WikiPage)
    → get_page p.id pages ≡ some stored
    → p.slug ≡ stored.slug
    → p.scope_type ≡ stored.scope_type
    → p.scope_id ≡ stored.scope_id
    → (elem source stored.source_ids ≡ true → elem source p.source_ids ≡ true)
    → (slug scope_type : String) (scope_id : Option ℕ) → Cited source slug scope_type scope_id pages
    → Cited source slug scope_type scope_id (set_page p pages)
unfolding get_page_by_slug scope_filter
Cited-set_page source p stored pages h same_slug same_type same_id more slug t id c =
    Finds-set_page _ source p stored pages h (cc) more c

pub Cited-append :
    (source : ℕ) (p : WikiPage) (pages : List WikiPage) (slug scope_type : String)
    (scope_id : Option ℕ)
    → Cited source slug scope_type scope_id pages
    → Cited source slug scope_type scope_id (pages ++ p ∷ [])
unfolding get_page_by_slug
Cited-append source p pages slug t id c = Finds-append _ source p pages c

append_log-keeps :
    (source : ℕ) (ts entry scope_type : String) (scope_id : Option ℕ) (db : WikiDb)
    → WellFormed db
    → (slug t : String) (id : Option ℕ) → Cited source slug t id db.pages
    → Cited source slug t id (append_log ts entry scope_type scope_id db).1.pages
unfolding append_log append_to get_page_by_slug
append_log-keeps source ts entry scope_type scope_id db w slug t id c =
    elim (Option-cases (get_page_by_slug "_log" scope_type scope_id db.pages)) [
      | inl a ↦ rw (append_log, a) (Cited-append source _ db.pages slug t id c)
      | inr (p, a) ↦
          rw (append_log, a)
            (Cited-set_page source _ p db.pages (get_page-found _ db.pages p w.unique_ids a) refl
              refl refl (λ h. h) slug t id c)
    ]

regenerate_index-keeps :
    (source : ℕ) (ordered : List WikiPage → List WikiPage) (scope_type : String)
    (scope_id : Option ℕ) (db : WikiDb)
    → WellFormed db
    → (slug t : String) (id : Option ℕ) → Cited source slug t id db.pages
    → Cited source slug t id (regenerate_index ordered scope_type scope_id db).1.pages
unfolding regenerate_index index_to get_page_by_slug
regenerate_index-keeps source ordered scope_type scope_id db w slug t id c =
    elim (Option-cases (get_page_by_slug "_index" scope_type scope_id db.pages)) [
      | inl a ↦ rw (regenerate_index, a) (Cited-append source _ db.pages slug t id c)
      | inr (p, a) ↦
          rw (regenerate_index, a)
            (Cited-set_page source _ p db.pages (get_page-found _ db.pages p w.unique_ids a) refl
              refl refl (λ h. h) slug t id c)
    ]

pub append_log-Next :
    (source : ℕ) (ts entry scope_type : String) (scope_id : Option ℕ) (db : WikiDb)
    → WellFormed db
    → Next source db (append_log ts entry scope_type scope_id db).1
append_log-Next source ts entry scope_type scope_id db w = record {
  well = append_log-WellFormed ts entry scope_type scope_id db w;
  keeps = append_log-keeps source ts entry scope_type scope_id db w;
}

pub regenerate_index-Next :
    (source : ℕ) (ordered : List WikiPage → List WikiPage) (scope_type : String)
    (scope_id : Option ℕ) (db : WikiDb)
    → WellFormed db
    → Next source db (regenerate_index ordered scope_type scope_id db).1
regenerate_index-Next source ordered scope_type scope_id db w = record {
  well = regenerate_index-WellFormed ordered scope_type scope_id db w;
  keeps = regenerate_index-keeps source ordered scope_type scope_id db w;
}
