-- ===== src/Wiki/Deletion/Examples.antt =====
-- Pages deleted from small wikis, and runs of the scrubbing of their links.
use arkon.Base.{
  ◌≡◌, refl, false, ◌&&◌, str_eq, keep, none, some, [], ◌∷◌, any, ◌==◌, strip, lstrip, rstrip,
  is_space,
}
use arkon.Samples.{home_page}
use arkon.Wiki.{WikiPage, WikiDb, get_page}
use arkon.Wiki.Links.{
  slug_run, after_run, label_length, tail_length, match_inner, match_at, find_groups, collect,
  extract_wikilinks,
}
use arkon.Wiki.Logbook.{contains}
use arkon.Wiki.WellFormed.{WellFormed}
use arkon.Wiki.Deletion.{
  without_prefix, display_run, display_at, replace_displays, replace_all, last_segment, cleaned,
  delete_page_cascade,
}
use arkon.Wiki.WellFormed.Scoped.{is_scoped_link}
use arkon.Wiki.WellFormed.Deleted.{delete_page_cascade-gone, delete_page_cascade-others}

scrubbed :
    cleaned "a/b" "see [[a/b]], [[a/b|the b]] and [[a/b|]] [[a/c]]"
    ≡ "see b, the b and [[a/b|]] [[a/c]]"
unfolding cleaned replace_all replace_displays display_at display_run without_prefix last_segment
    contains
scrubbed = refl

-- A link written with spaces is one to the slug, but stays in the text.
spaced_link : (extract_wikilinks "[[ b ]]" ≡ "b" ∷ []) × (cleaned "b" "[[ b ]]" ≡ "[[ b ]]")
unfolding extract_wikilinks collect find_groups match_at match_inner tail_length label_length
    after_run slug_run strip lstrip rstrip is_space cleaned replace_all replace_displays display_at
    display_run without_prefix last_segment contains
spaced_link = (refl, refl)

-- the home page of a department, and a page there that refers to it
abbrev dept_home : WikiPage
dept_home = record home_page { id = 1; scope_type = "department"; scope_id = some 2 }

abbrev dept_news : WikiPage
dept_news = record dept_home { id = 2; slug = "news"; content_md = "see [[home]]" }

-- with the home page of the organisation, which also refers to its own slug
abbrev two_homes : WikiDb
two_homes = record {
  pages = home_page ∷ dept_home ∷ dept_news ∷ [];
  links =
      record { from_page_id = 0; to_slug = "home" }
      ∷ record { from_page_id = 2; to_slug = "home" }
      ∷ [];
  revisions = [];
  next_id = 3;
}

two_homes-WellFormed : WellFormed two_homes
two_homes-WellFormed = record {
  ids_below = refl;
  unique_ids = (refl, (refl, (refl, tt)));
  covered = refl;
  unique_versions = tt;
}

home_there : get_page 0 two_homes.pages ≡ some home_page
unfolding get_page
home_there = refl

delete_page_cascade-gone_example :
    WellFormed (delete_page_cascade dept_home two_homes)
    × (get_page 1 (delete_page_cascade dept_home two_homes).pages ≡ none)
    × (any (λ l. l.from_page_id == 1) (delete_page_cascade dept_home two_homes).links ≡ false)
    × (any
          (is_scoped_link dept_home two_homes.pages)
          (delete_page_cascade dept_home two_homes).links
        ≡ false)
    × ((str_eq "department" "global"
          && any (λ l. str_eq l.to_slug "home") (delete_page_cascade dept_home two_homes).links)
        ≡ false)
delete_page_cascade-gone_example = delete_page_cascade-gone dept_home two_homes two_homes-WellFormed

delete_page_cascade-others_example :
    (get_page 0 (delete_page_cascade dept_home two_homes).pages ≡ some home_page)
    × (keep (λ l. l.from_page_id == 0) (delete_page_cascade dept_home two_homes).links
        ≡ keep (λ l. l.from_page_id == 0) two_homes.links)
delete_page_cascade-others_example =
    delete_page_cascade-others dept_home home_page two_homes two_homes-WellFormed home_there refl
      refl refl refl
