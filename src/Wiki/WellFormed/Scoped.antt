-- ===== src/Wiki/WellFormed/Scoped.antt =====
-- The pages in the scope of a deleted page, and the links from them (`delete_page_cascade` of
-- app/services/wiki_service.py).
use arkon.Base.{
  ℕ, ◌≡◌, refl, ap, sym, ◌∙◌, Bool, true, false, not, ◌&&◌, some, List, [], ◌∷◌, any, keep, ◌==◌,
  str_eq, Bool-cases, inl, inr, arith,
}
use arkon.Wiki.{WikiPage, WikiLink, get_page, scope_filter, same_scope_id}
use arkon.Wiki.Rows.{UniqueIds}
use arkon.Wiki.Deletion.{is_in_reach, is_incoming}

-- the page stands in the scope of the deleted one
abbrev pub is_same_scope : WikiPage → WikiPage → Bool
is_same_scope page q = str_eq q.scope_type page.scope_type && same_scope_id q.scope_id page.scope_id

-- a link to the slug of the deleted page from a page of its scope
abbrev pub is_scoped_link : WikiPage → List WikiPage → WikiLink → Bool
is_scoped_link page pages l =
    str_eq l.to_slug page.slug && any (λ q. q.id == l.from_page_id && is_same_scope page q) pages

same_scope-is_in_reach :
    (page q : WikiPage) → is_same_scope page q ≡ true → is_in_reach page q ≡ true
unfolding is_in_reach scope_filter
same_scope-is_in_reach page q h = elim (Bool-cases (str_eq page.scope_type "")) [
  | inl e ↦ rw e refl
  | inr e ↦ rw e (ground arith)
]

pub other_scope-is_in_reach :
    (page q : WikiPage)
    → str_eq page.scope_type "global" ≡ false
    → str_eq page.scope_type "" ≡ false
    → is_same_scope page q ≡ false
    → is_in_reach page q ≡ false
unfolding is_in_reach scope_filter
other_scope-is_in_reach page q g e h = rw (e, g, h) refl

pub global-is_incoming :
    (page : WikiPage) (pages : List WikiPage) (l : WikiLink)
    → str_eq page.scope_type "global" ≡ true
    → str_eq l.to_slug page.slug ≡ true
    → is_incoming page pages l ≡ true
global-is_incoming page pages l g h = elim (Bool-cases (str_eq page.scope_type "")) [
  | inl e ↦ rw (e, h) refl
  | inr e ↦ rw (e, g, h) refl
]

any-and :
    {A : Type 0} (f g h : A → Bool) (xs : List A)
    → ((x : A) → g x ≡ true → h x ≡ true)
    → any (λ x. f x && g x) xs ≡ true
    → any (λ x. f x && h x) xs ≡ true
any-and f g h [] within a = a
any-and f g h (x ∷ xs) within a = ground (arith, within x, any-and f g h xs within)

pub scoped_link-is_incoming :
    (page : WikiPage) (pages : List WikiPage) (l : WikiLink)
    → is_scoped_link page pages l ≡ true
    → is_incoming page pages l ≡ true
scoped_link-is_incoming page pages l h =
    let more =
      any-and (λ q. q.id == l.from_page_id) (is_same_scope page) (is_in_reach page) pages
        (same_scope-is_in_reach page) in
    ground (arith, more)

-- What every dropped element has, none that is kept has.
pub any-keep-within :
    {A : Type 0} (f g : A → Bool) (xs : List A)
    → ((x : A) → g x ≡ true → f x ≡ true)
    → any g (keep (λ x. not (f x)) xs) ≡ false
any-keep-within f g [] within = refl
any-keep-within f g (x ∷ xs) within = ground (arith, within x, any-keep-within f g xs within)

pub keep-keep-within :
    {A : Type 0} (f g : A → Bool) (xs : List A)
    → ((x : A) → g x ≡ true → f x ≡ true)
    → keep g (keep f xs) ≡ keep g xs
keep-keep-within f g [] within = refl
keep-keep-within f g (x ∷ xs) within = ground (arith, within x, keep-keep-within f g xs within)

any-and-false :
    {A : Type 0} (f g : A → Bool) (xs : List A)
    → any f xs ≡ false
    → any (λ x. f x && g x) xs ≡ false
any-and-false f g [] h = refl
any-and-false f g (x ∷ xs) h = ground (arith, any-and-false f g xs)

-- With unique ids, only one page is asked.
any-get_page :
    (f : WikiPage → Bool) (id : ℕ) (pages : List WikiPage) (q : WikiPage)
    → UniqueIds pages
    → get_page id pages ≡ some q
    → f q ≡ false
    → any (λ p. p.id == id && f p) pages ≡ false
unfolding get_page
any-get_page f id [] q u h outside = refl
any-get_page f id (x ∷ xs) q (fresh, u) h outside = elim (Bool-cases (x.id == id)) [
  | inl e ↦
      let same : some x ≡ some q = rw e at h in
      let here : x.id ≡ id = ground arith in
      let others =
        any-and-false (λ p. p.id == id) f xs
          (ap (λ n. any (λ p. p.id == n) xs) (sym here) ∙ fresh) in
      ground arith
  | inr e ↦ rw e (any-get_page f id xs q u (rw e at h) outside)
]

-- No link from a page that is out of reach is an incoming one.
pub outside-is_incoming :
    (page q : WikiPage) (pages : List WikiPage) (l : WikiLink)
    → UniqueIds pages
    → get_page q.id pages ≡ some q
    → str_eq page.scope_type "global" ≡ false
    → str_eq page.scope_type "" ≡ false
    → is_same_scope page q ≡ false
    → (l.from_page_id == q.id) ≡ true
    → not (is_incoming page pages l) ≡ true
outside-is_incoming page q pages l u there g e h from =
    let none_there =
      any-get_page (is_in_reach page) q.id pages q u there (other_scope-is_in_reach page q g e h) in
    let same : l.from_page_id ≡ q.id = ground arith in rw (e, g, same, none_there) (ground arith)
