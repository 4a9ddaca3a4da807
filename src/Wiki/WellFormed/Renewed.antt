-- ===== src/Wiki/WellFormed/Renewed.antt =====
-- What `regenerate_index` and `append_log` of app/services/wiki_service.py write, and the pages that they
-- leave alone.
use Prim.Native.String.{◌++◌ as str_append}
use text.Mathlib.TextLemmas.{append_assoc as str_append_assoc}
use arkon.Base.{
  str_eq_self, str_eq_iff, ℕ, ◌≡◌, refl, ap, sym, ◌∙◌, String, Bool, true, false, not, ◌&&◌, Option,
  some, List, [], ◌∷◌, ◌++◌, keep, find, str_eq, ◌==◌, rstrip, Option-cases, Bool-cases, inl, inr,
  arith,
}
use arkon.Wiki.{WikiPage, WikiDb, is_reserved, get_page, get_page_by_slug, set_page, scope_filter}
use arkon.Wiki.Rows.{get_page-found}
use arkon.Wiki.Logbook.{
  existing_log, log_line, append_to, append_log, index_to, regenerate_index, index_text,
}
use arkon.Wiki.WellFormed.{WellFormed}
use arkon.Wiki.WellFormed.Logs.{regenerate_index-WellFormed}
use arkon.Wiki.WellFormed.Upsert.{find-set_page, find-append-new, find-holds, same_scope_id_self}

keep-append-new :
    (f : WikiPage → Bool) (p : WikiPage) (pages : List WikiPage)
    → f p ≡ false
    → keep f (pages ++ p ∷ []) ≡ keep f pages
keep-append-new f p [] h = rw h refl
keep-append-new f p (x ∷ xs) h = ground (arith, keep-append-new f p xs)

keep-set_page :
    (f : WikiPage → Bool) (p stored : WikiPage) (pages : List WikiPage)
    → get_page p.id pages ≡ some stored
    → f p ≡ false
    → f stored ≡ false
    → keep f (set_page p pages) ≡ keep f pages
unfolding get_page set_page
keep-set_page f p stored [] h a b = refl
keep-set_page f p stored (x ∷ xs) h a b = elim (Bool-cases (x.id == p.id)) [
  | inl e ↦
      let here : some x ≡ some stored = rw e at h in
      let out : f x ≡ false = ground arith in rw (e, a, out) refl
  | inr e ↦ let rest = keep-set_page f p stored xs (rw e at h) a b in ground arith
]

-- a query reads the rows that it can find
find-keep : (f : WikiPage → Bool) (pages : List WikiPage) → find f (keep f pages) ≡ find f pages
find-keep f [] = refl
find-keep f (x ∷ xs) = let rest = find-keep f xs in ground arith

-- Not one of the pages with that slug.
abbrev Skips : String → (WikiPage → Bool) → Type 0
Skips slug f = (p : WikiPage) → str_eq p.slug slug ≡ true → f p ≡ false

-- the page that a query by slug finds has the slug
found_slug :
    (slug scope_type : String) (scope_id : Option ℕ) (pages : List WikiPage) (p : WikiPage)
    → get_page_by_slug slug scope_type scope_id pages ≡ some p
    → str_eq p.slug slug ≡ true
unfolding get_page_by_slug
found_slug slug scope_type scope_id pages p h = let holds = find-holds _ pages p h in ground arith

module _ (ts entry scope_type : String) (scope_id : Option ℕ) (db : WikiDb)
    (w : WellFormed db) where
  keep-append_log :
      (f : WikiPage → Bool)
      → Skips "_log" f
      → keep f (append_log ts entry scope_type scope_id db).1.pages ≡ keep f db.pages
  unfolding append_log append_to get_page_by_slug
  keep-append_log f skips =
      elim (Option-cases (get_page_by_slug "_log" scope_type scope_id db.pages)) [
        | inl a ↦ rw (append_log, a) (keep-append-new f _ db.pages (skips _ refl))
        | inr (p, a) ↦
            let slug = found_slug "_log" scope_type scope_id db.pages p a in
            rw (append_log, a)
              (keep-set_page f _ p db.pages (get_page-found _ db.pages p w.unique_ids a)
                (skips _ slug) (skips _ slug))
      ]

  -- The log ends with the new line.
  append_log-entry :
      (log : WikiPage) × (front : String) × (get_page_by_slug "_log" scope_type scope_id
          (append_log ts entry scope_type scope_id db).1.pages
        ≡ some log)
      × (log.content_md ≡ str_append front (str_append (log_line ts entry) "\n"))
  unfolding append_log append_to get_page_by_slug scope_filter
  append_log-entry = elim (Option-cases (get_page_by_slug "_log" scope_type scope_id db.pages)) [
    | inl a ↦ (
      (append_log ts entry scope_type scope_id db).0,
      "# Wiki Log\n\n",
      rw (append_log, a)
          (find-append-new _ _ db.pages a
            (rw (str_eq_self scope_type, same_scope_id_self scope_id) refl)),
      rw (append_log, a) refl,
    )
    | inr (p, a) ↦ (
      (append_log ts entry scope_type scope_id db).0,
      str_append (rstrip (existing_log p.content_md)) "\n\n",
      rw (append_log, a)
          (find-set_page _ _ p db.pages w.unique_ids a refl (find-holds _ db.pages p a)),
      rw (append_log, a) (sym (str_append_assoc (rstrip (existing_log p.content_md)) "\n\n" _)),
    )
  ]

module _ (ordered : List WikiPage → List WikiPage) (scope_type : String) (scope_id : Option ℕ)
    (db : WikiDb) (w : WellFormed db) where
  keep-regenerate_index :
      (f : WikiPage → Bool)
      → Skips "_index" f
      → keep f (regenerate_index ordered scope_type scope_id db).1.pages ≡ keep f db.pages
  unfolding regenerate_index index_to get_page_by_slug
  keep-regenerate_index f skips =
      elim (Option-cases (get_page_by_slug "_index" scope_type scope_id db.pages)) [
        | inl a ↦ rw (regenerate_index, a) (keep-append-new f _ db.pages (skips _ refl))
        | inr (p, a) ↦
            let slug = found_slug "_index" scope_type scope_id db.pages p a in
            rw (regenerate_index, a)
              (keep-set_page f _ p db.pages (get_page-found _ db.pages p w.unique_ids a)
                (skips _ slug) (skips _ slug))
      ]

  -- The index is the text of the scope's pages.
  regenerate_index-text :
      (index : WikiPage) × (get_page_by_slug "_index" scope_type scope_id
          (regenerate_index ordered scope_type scope_id db).1.pages
        ≡ some index)
      × (index.content_md
          ≡ index_text (
              ordered (
                keep
                  (λ p. not (is_reserved p.slug) && scope_filter scope_type scope_id p)
                  db.pages)))
  unfolding regenerate_index index_to get_page_by_slug scope_filter
  regenerate_index-text =
      elim (Option-cases (get_page_by_slug "_index" scope_type scope_id db.pages)) [
        | inl a ↦ (
          (regenerate_index ordered scope_type scope_id db).0,
          rw (regenerate_index, a)
              (find-append-new _ _ db.pages a
                (rw (str_eq_self scope_type, same_scope_id_self scope_id) refl)),
          rw (regenerate_index, a) refl,
        )
        | inr (p, a) ↦ (
          (regenerate_index ordered scope_type scope_id db).0,
          rw (regenerate_index, a)
              (find-set_page _ _ p db.pages w.unique_ids a refl (find-holds _ db.pages p a)),
          rw (regenerate_index, a) refl,
        )
      ]

-- The wiki `after` has the index of its own pages, and a log that ends with the line; every page but
-- those with a slug of the system is the one of the wiki `before`.
pub record IsRenewed (ordered : List WikiPage → List WikiPage) (line scope_type : String)
    (scope_id : Option ℕ) (before after : WikiDb) : Type 0 where
  pub index : WikiPage
  pub index_found : get_page_by_slug "_index" scope_type scope_id after.pages ≡ some index
  pub index_content :
      index.content_md
      ≡ index_text (
          ordered (
            keep (λ p. not (is_reserved p.slug) && scope_filter scope_type scope_id p) after.pages))
  pub log : WikiPage
  pub log_found : get_page_by_slug "_log" scope_type scope_id after.pages ≡ some log
  pub log_front : String
  pub log_content : log.content_md ≡ str_append log_front (str_append line "\n")
  pub others :
      keep (λ p. not (is_reserved p.slug)) after.pages
      ≡ keep (λ p. not (is_reserved p.slug)) before.pages

-- a page of the log is none of the index
log-Skips : (g : WikiPage → Bool) → Skips "_log" (λ p. str_eq p.slug "_index" && g p)
log-Skips g p h = let slug = (str_eq_iff p.slug "_log").0 h in rw slug refl

log-Skips-reserved : (g : WikiPage → Bool) → Skips "_log" (λ p. not (is_reserved p.slug) && g p)
log-Skips-reserved g p h = ground arith

index-Skips-reserved : (g : WikiPage → Bool) → Skips "_index" (λ p. not (is_reserved p.slug) && g p)
index-Skips-reserved g p h = ground arith

pub regenerate_index-append_log :
    (ordered : List WikiPage → List WikiPage) (ts entry scope_type : String) (scope_id : Option ℕ)
    (db : WikiDb)
    → WellFormed db
    → IsRenewed ordered
        (log_line ts entry)
        scope_type
        scope_id
        db
        (append_log ts entry scope_type scope_id
          (regenerate_index ordered scope_type scope_id db).1).1
unfolding get_page_by_slug
regenerate_index-append_log ordered ts entry scope_type scope_id db w =
    let is_index : WikiPage → Bool =
      λ p. str_eq p.slug "_index" && scope_filter scope_type scope_id p in
    let mid = (regenerate_index ordered scope_type scope_id db).1 in
    let mid_well = regenerate_index-WellFormed ordered scope_type scope_id db w in
    let (index, found, content) = regenerate_index-text ordered scope_type scope_id db w in
    let (log, front, log_found, log_content) =
      append_log-entry ts entry scope_type scope_id mid mid_well in
    let logged = keep-append_log ts entry scope_type scope_id mid mid_well in
    let indexed = keep-regenerate_index ordered scope_type scope_id db w in
    let same : (f : WikiPage → Bool)
        → Skips "_log" f
        → Skips "_index" f
        → keep f (append_log ts entry scope_type scope_id mid).1.pages ≡ keep f db.pages =
      λ f a b. logged f a ∙ indexed f b in
    record {
      index = index;
      index_found =
          sym (find-keep is_index (append_log ts entry scope_type scope_id mid).1.pages)
          ∙ ap (find is_index) (logged is_index (log-Skips (scope_filter scope_type scope_id)))
          ∙ find-keep is_index mid.pages
          ∙ found;
      index_content =
          content
          ∙ ap (λ pages. index_text (ordered pages))
              (sym (same _ (log-Skips-reserved _) (index-Skips-reserved _)));
      log = log;
      log_found = log_found;
      log_front = front;
      log_content = log_content;
      others = same _ (λ p h. ground arith) (λ p h. ground arith);
    }
