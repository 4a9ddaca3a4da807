-- ===== src/Samples.antt =====
-- Employees, a workspace, a draft and a wiki for the examples.
use arkon.Base.{ℕ, true, none, some, [], ◌∷◌, String, List, Option}
use arkon.Base.{◌≡◌, refl}
use arkon.Wiki.{WikiPage, WikiDb, get_page}
use arkon.Wiki.Links.{refresh_links}
use arkon.Wiki.Pages.{NewPage, fresh_page}
use arkon.Wiki.WellFormed.{WellFormed, created, created-WellFormed}
use arkon.Access.{Role, Employee, ProjectMember}
use arkon.Reviewers.{Directory}
use arkon.Contribution.Artifacts.{WikiPageDraft, pending}

abbrev person : ℕ → String → Option Role → List ℕ → Employee
person id role custom_role department_ids = record {
  id = id;
  name = "";
  email = "x@y";
  role = role;
  custom_role = custom_role;
  department_ids = department_ids;
  is_active = true;
}

abbrev pub admin : Employee
admin = person 1 "admin" none []

-- one with the default permissions
abbrev pub worker : Employee
worker = person 2 "employee" none (1 ∷ [])

-- one whose role stores "wiki:write:all"
abbrev pub writer : Employee
writer = person 3 "employee" (some (record { permissions = some ("wiki:write:all" ∷ []) })) []

-- one whose role stores nothing
abbrev pub outsider : Employee
outsider = person 4 "employee" (some (record { permissions = some [] })) (2 ∷ [])

abbrev pub members : List ProjectMember
members = record { project_id = 9; employee_id = 2; role = "editor" } ∷ []

abbrev pub directory : Directory
directory = record { employees = admin ∷ worker ∷ writer ∷ outsider ∷ []; members = members }

-- a pending draft of the page 0 at version 1, by employee 5
abbrev pub draft : WikiPageDraft
draft = record {
  id = 20;
  page_id = some 0;
  page = none;
  draft_kind = "edit";
  suggested_metadata = none;
  author_id = some 5;
  content_md = "proposed text";
  note = none;
  base_version = some 1;
  revision_round = 0;
  last_returned_note = none;
  ai_check_status = "pending";
  ai_check_results = none;
  ai_checked_at = none;
  status = pending;
  reviewed_by_id = none;
  reviewed_at = none;
  reviewer_note = none;
}

-- a wiki of one page
abbrev pub home : NewPage
home = record {
  slug = "home";
  title = "Home";
  page_type = "concept";
  content_md = "see [[about]]";
  summary = "";
  knowledge_type_slugs = [];
  source_ids = 7 ∷ [];
  scope_type = "global";
  scope_id = none;
}

abbrev pub no_pages : WikiDb
no_pages = record { pages = []; links = []; revisions = []; next_id = 0 }

pub no_pages-WellFormed : WellFormed no_pages
no_pages-WellFormed = record {
  ids_below = refl;
  unique_ids = tt;
  covered = refl;
  unique_versions = tt;
}

abbrev pub home_page : WikiPage
home_page = fresh_page 0 home

abbrev pub first : WikiDb
first = created home no_pages

pub first-WellFormed : WellFormed first
first-WellFormed = created-WellFormed home no_pages no_pages-WellFormed

pub home_stored : get_page 0 first.pages ≡ some home_page
unfolding get_page refresh_links
home_stored = refl
