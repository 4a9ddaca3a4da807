-- ===== src/Wiki/Graph.antt =====
-- The edges of the wiki's graph after `refresh_links` of app/services/wiki_service.py.
use arkon.Base.{
  str_eq_self, ℕ, ◌≡◌, refl, ◌∙◌, String, Bool, true, false, not, ◌&&◌, List, [], ◌∷◌, ◌++◌, map,
  keep, keep-keep, keep-false, keep-ext, any-keep-false, ◌==◌, arith, str_eq, str_elem, strip,
  is_blank, Bool-cases, inl, inr, str_eq_iff,
}
use mathlib.Core.List.{append-nil}
use arkon.Wiki.{WikiLink, WikiDb}
use arkon.Wiki.Links.{find_groups, collect, extract_wikilinks, link_of, targets_of, refresh_links}

-- No text occurs twice.
abbrev pub Distinct : List String → Type 0
Distinct [] = Unit
Distinct (s ∷ ss) = (str_elem s ss ≡ false) × Distinct ss

keep-append :
    (p : WikiLink → Bool) (xs ys : List WikiLink) → keep p (xs ++ ys) ≡ keep p xs ++ keep p ys
keep-append p [] ys = refl
keep-append p (x ∷ xs) ys = ground (arith, keep-append p xs ys)

keep-own :
    (id : ℕ) (ss : List String)
    → keep (λ l. l.from_page_id == id) (map (link_of id) ss) ≡ map (link_of id) ss
keep-own id [] = refl
keep-own id (s ∷ ss) = ground (arith, keep-own id ss)

keep-others :
    (id : ℕ) (ss : List String) → keep (λ l. not (l.from_page_id == id)) (map (link_of id) ss) ≡ []
keep-others id [] = refl
keep-others id (s ∷ ss) = ground (arith, keep-others id ss)

collect-seen :
    (s : String) (seen gs : List String)
    → str_elem s seen ≡ true
    → str_elem s (collect seen gs) ≡ false
unfolding collect
collect-seen s seen [] h = refl
collect-seen s seen (g ∷ gs) h =
    elim (Bool-cases (not (is_blank (strip g)) && not (str_elem (strip g) seen))) [
      | inr e ↦ rw (collect, e) (collect-seen s seen gs h)
      | inl e ↦ elim (Bool-cases (str_eq (strip g) s)) [
        | inl p ↦
            let same : strip g ≡ s = (str_eq_iff (strip g) s).0 p in
            let twice : str_elem (strip g) seen ≡ true = rw same h in absurd (ground arith)
        | inr p ↦
            let rest = collect-seen s (strip g ∷ seen) gs (ground arith) in rw (collect, e, p) rest
      ]
    ]

collect-Distinct : (seen gs : List String) → Distinct (collect seen gs)
unfolding collect
collect-Distinct seen [] = tt
collect-Distinct seen (g ∷ gs) =
    elim (Bool-cases (not (is_blank (strip g)) && not (str_elem (strip g) seen))) [
      | inl e ↦
          rw (collect, e)
            (
              collect-seen (strip g) (strip g ∷ seen) gs (ground (arith, str_eq_self (strip g))),
              collect-Distinct (strip g ∷ seen) gs,
            )
      | inr e ↦ rw (collect, e) (collect-Distinct seen gs)
    ]

Distinct-keep : (f : String → Bool) (ss : List String) → Distinct ss → Distinct (keep f ss)
Distinct-keep f [] d = tt
Distinct-keep f (s ∷ ss) (fresh, d) = elim (Bool-cases (f s)) [
  | inl e ↦ rw e (any-keep-false (λ t. str_eq t s) f ss fresh, Distinct-keep f ss d)
  | inr e ↦ rw e (Distinct-keep f ss d)
]

targets-Distinct : (slug content_md : String) → Distinct (targets_of slug content_md)
unfolding targets_of extract_wikilinks
targets-Distinct slug content_md =
    Distinct-keep (λ s. not (str_eq s slug)) (collect [] (find_groups 0 content_md))
      (collect-Distinct [] (find_groups 0 content_md))

-- After `refresh_links` the edges from a page go to the slugs that its content links, but its own, each
-- once; the edges from other pages are as before.
pub refresh_links_lem :
    (id : ℕ) (slug content_md : String) (db : WikiDb)
    → (keep (λ l. l.from_page_id == id) (refresh_links id slug content_md db).links
        ≡ map (link_of id) (targets_of slug content_md))
      × Distinct (targets_of slug content_md)
      × (keep (λ l. not (l.from_page_id == id)) (refresh_links id slug content_md db).links
          ≡ keep (λ l. not (l.from_page_id == id)) db.links)
unfolding refresh_links
refresh_links_lem id slug content_md db =
    let old = keep (λ l. not (l.from_page_id == id)) db.links in
    let new = map (link_of id) (targets_of slug content_md) in
    let none_old : keep (λ l. l.from_page_id == id) old ≡ [] =
      keep-keep (λ l. l.from_page_id == id) (λ l. not (l.from_page_id == id)) db.links
      ∙ keep-false _ db.links (λ l. ground arith) in
    let all_old : keep (λ l. not (l.from_page_id == id)) old ≡ old =
      keep-keep (λ l. not (l.from_page_id == id)) (λ l. not (l.from_page_id == id)) db.links
      ∙ keep-ext _ _ db.links (λ l. ground arith) in
    (
      keep-append (λ l. l.from_page_id == id) old new
          ∙ rw none_old (keep-own id (targets_of slug content_md)),
      targets-Distinct slug content_md,
      keep-append (λ l. not (l.from_page_id == id)) old new
          ∙ rw (all_old, keep-others id (targets_of slug content_md)) (append-nil old),
    )
