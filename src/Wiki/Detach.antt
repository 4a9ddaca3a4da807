-- ===== src/Wiki/Detach.antt =====
-- What `detach_source_from_wiki` of app/services/wiki_service.py leaves behind.
use arkon.Base.{
  ℕ, ◌+◌, ◌≡◌, refl, List, [], ◌∷◌, any, all, ap, sym, ◌∙◌, all-cons, all_mono, keep, elem, not,
  Bool, true, false, ◌||◌, ◌==◌, arith, Bool-cases, List-cases, any-keep-false, inl, inr,
}
use arkon.Wiki.{WikiPage, WikiDb, set_page}
use arkon.Wiki.Rows.{UniqueIds, UniqueIds-set_page}
use arkon.Wiki.Pages.{delete_page, detach_loop, detach_source_from_wiki}

pub UniqueIds-keep :
    (f : WikiPage → Bool) (pages : List WikiPage) → UniqueIds pages → UniqueIds (keep f pages)
UniqueIds-keep f [] u = tt
UniqueIds-keep f (x ∷ xs) (fresh, u) = elim (Bool-cases (f x)) [
  | inl e ↦ rw e (any-keep-false (λ q. q.id == x.id) f xs fresh, UniqueIds-keep f xs u)
  | inr e ↦ rw e (UniqueIds-keep f xs u)
]

elem-removed : (s : ℕ) (ids : List ℕ) → elem s (keep (λ x. not (x == s)) ids) ≡ false
elem-removed s [] = refl
elem-removed s (x ∷ xs) = ground (arith, elem-removed s xs)

-- The pages that name the source are among those that the loop still has to treat.
abbrev treats : ℕ → List WikiPage → WikiPage → Bool
treats s ps q = not (elem s q.source_ids) || any (λ p. p.id == q.id) ps

treats-other :
    (s : ℕ) (p : WikiPage) (ps pages : List WikiPage)
    → any (λ q. q.id == p.id) pages ≡ false
    → all (treats s (p ∷ ps)) pages ≡ true
    → all (treats s ps) pages ≡ true
treats-other s p ps [] h a = refl
treats-other s p ps (x ∷ xs) h a =
    let (a1, a2) = all-cons (treats s (p ∷ ps)) x xs a in
    let rest = treats-other s p ps xs (ground arith) a2 in ground (arith, rest)

treats-none :
    (s : ℕ) (pages : List WikiPage)
    → all (treats s []) pages ≡ true
    → any (λ q. elem s q.source_ids) pages ≡ false
treats-none s [] h = refl
treats-none s (x ∷ xs) h =
    let (h1, h2) = all-cons (treats s []) x xs h in
    let rest = treats-none s xs h2 in ground (arith, rest)

treats-set_page :
    (s : ℕ) (p p' : WikiPage) (ps pages : List WikiPage)
    → p'.id ≡ p.id
    → elem s p'.source_ids ≡ false
    → UniqueIds pages
    → all (treats s (p ∷ ps)) pages ≡ true
    → all (treats s ps) (set_page p' pages) ≡ true
unfolding set_page
treats-set_page s p p' ps [] same gone u h = refl
treats-set_page s p p' ps (x ∷ xs) same gone (fresh, u) h =
    let (h1, h2) = all-cons (treats s (p ∷ ps)) x xs h in
    elim (Bool-cases (x.id == p'.id)) [
      | inl e ↦
          let here : x.id ≡ p.id = ground arith in
          let rest = treats-other s p ps xs (rw (← here) fresh) h2 in rw (e, gone, rest) refl
      | inr e ↦ let rest = treats-set_page s p p' ps xs same gone u h2 in ground (arith, rest)
    ]

treats-delete :
    (s : ℕ) (p : WikiPage) (ps pages : List WikiPage)
    → all (treats s (p ∷ ps)) pages ≡ true
    → all (treats s ps) (keep (λ q. not (q.id == p.id)) pages) ≡ true
treats-delete s p ps [] h = refl
treats-delete s p ps (x ∷ xs) h =
    let (h1, h2) = all-cons (treats s (p ∷ ps)) x xs h in
    let rest = treats-delete s p ps xs h2 in ground (arith, rest)

-- the two turns of the loop
drop_turn :
    (s : ℕ) (p : WikiPage) (ps : List WikiPage) (n : ℕ) (db : WikiDb)
    → keep (λ x. not (x == s)) p.source_ids ≡ []
    → detach_loop s (p ∷ ps) n db ≡ detach_loop s ps (n + 1) (delete_page p.id db)
unfolding detach_loop
drop_turn s p ps n db e = rw (detach_loop, e) refl

strip_turn :
    (s : ℕ) (p : WikiPage) (ps : List WikiPage) (n : ℕ) (db : WikiDb) (y : ℕ) (ys : List ℕ)
    → keep (λ x. not (x == s)) p.source_ids ≡ y ∷ ys
    → detach_loop s (p ∷ ps) n db
      ≡ detach_loop s ps n
          (record db { pages = set_page (record p { source_ids = y ∷ ys }) db.pages })
unfolding detach_loop
strip_turn s p ps n db y ys e = rw (detach_loop, e) refl

detach_loop_lem :
    (s : ℕ) (ps : List WikiPage) (n : ℕ) (db : WikiDb)
    → UniqueIds db.pages
    → all (treats s ps) db.pages ≡ true
    → any (λ q. elem s q.source_ids) (detach_loop s ps n db).1.pages ≡ false
unfolding detach_loop delete_page
detach_loop_lem s [] n db u h = treats-none s db.pages h
detach_loop_lem s (p ∷ ps) n db u h = elim (List-cases (keep (λ x. not (x == s)) p.source_ids)) [
  | inl e ↦ rw (drop_turn s p ps n db e) (
      detach_loop_lem s ps (n + 1) (delete_page p.id db)
        (UniqueIds-keep (λ q. not (q.id == p.id)) db.pages u) (treats-delete s p ps db.pages h))
  | inr (y, ys, e) ↦
      let p' : WikiPage = record p { source_ids = y ∷ ys } in
      let gone : elem s (y ∷ ys) ≡ false = ap (elem s) (sym e) ∙ elem-removed s p.source_ids in
      rw (strip_turn s p ps n db y ys e) (
        detach_loop_lem s ps n (record db { pages = set_page p' db.pages })
          (UniqueIds-set_page p' db.pages u) (treats-set_page s p p' ps db.pages refl gone u h))
]

treats-named :
    (s : ℕ) (pages : List WikiPage)
    → all (treats s (keep (λ p. elem s p.source_ids) pages)) pages ≡ true
treats-named s [] = refl
treats-named s (x ∷ xs) = elim (Bool-cases (elem s x.source_ids)) [
  | inl e ↦
      let ks = keep (λ p. elem s p.source_ids) xs in
      let rest : all (treats s (x ∷ ks)) xs ≡ true =
        all_mono (treats s ks) (treats s (x ∷ ks)) xs (λ q h. ground arith) (treats-named s xs) in
      ground (arith, rest)
  | inr e ↦ let rest = treats-named s xs in ground (arith, rest)
]

-- Detaching a source from a wiki whose pages have different ids leaves no page that names it.
pub detach_source_from_wiki_lem :
    (source_id : ℕ) (db : WikiDb)
    → UniqueIds db.pages
    → any (λ q. elem source_id q.source_ids) (detach_source_from_wiki source_id db).1.pages ≡ false
unfolding detach_source_from_wiki
detach_source_from_wiki_lem source_id db u =
    detach_loop_lem source_id (keep (λ p. elem source_id p.source_ids) db.pages) 0 db u
      (treats-named source_id db.pages)
