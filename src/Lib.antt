-- ===== src/Lib.antt =====
-- Arkon: a wiki, its contributions and the permissions around them, compiled from documents and
-- served to AI clients. This library models the server's core as pure functions and proves what
-- makes it correct.
--
-- The parts, and how they interact:
--   * Access models app/services/permission_engine.py and permissions.py: the permissions of an
--     employee (`get_user_permissions`, with the migration of legacy names in Access/Migration),
--     the checks of one document or skill, the filters of listings, workspace roles, and
--     `require_permission` of app/services/auth_service.py (Access/Guard). Access/Documents
--     models `list_sources` of app/routers/sources.py, Access/Skills the listing of
--     app/routers/skills.py.
--   * Identity models app/services/mcp_auth_service.py: the scope behind an MCP token
--     (`_resolve_scope`, `apply_scope_filter`), and in Identity/Tools which tools it is shown
--     (app/mcp/permissions.py, app/mcp/middleware.py). It stands on Access.
--   * Notify models the write helpers and the staging of app/services/notification_service.py.
--   * Reviewers models who may propose and review (the helpers of app/routers/wiki_drafts.py) and
--     who is told (the recipients of app/services/notification_service.py). It stands on Access.
--   * Contribution models app/services/contribution_service.py. Contribution/Artifacts has the
--     protocol `ContributionAdapter` as the record `Adapter`, with its laws `IsAdapter`, which
--     both adapters fulfil; the operations take an adapter. Contribution/Effects has what they
--     write: notifications through Notify, the audit log, stored rounds, jobs. Contribution/Trail
--     has the history of one draft over these operations and over the rejections and approvals
--     of Review.
--   * Wiki models app/services/wiki_service.py: pages, links and revisions as lists of rows
--     (`WikiDb`), drafts in Wiki/Approval, wikilinks in Wiki/Links, deletion in Wiki/Deletion,
--     the pages `_index` and `_log` in Wiki/Logbook. The invariant of the tables is `WellFormed`
--     in Wiki/WellFormed; Wiki/WellFormed/History has the writes as a step relation.
--   * Review models the endpoints of app/routers/wiki_drafts.py that propose, send back,
--     resubmit, withdraw, reject and approve a draft, also in bulk, over Contribution, Reviewers,
--     Wiki and the stored drafts (`World`). Review/Approve, Review/Bulk and Review/Proposals have
--     the approvals and the proposals.
--   * Workspaces models app/routers/projects.py: workspaces, their members and the links of
--     sources. Workspaces/Bulk has the bulk request, Workspaces/Admins the requests as one data
--     type and runs of them. It stands on Access for the roles.
--   * Oauth models app/services/oauth_service.py and app/routers/oauth.py, with the tokens of
--     app/services/mcp_auth_service.py and `authenticate_employee` of
--     app/services/auth_service.py. Oauth/Grants has the endpoints on codes, Oauth/Events runs of
--     the endpoints.
--   * Mapper models the chunks of app/ai/mrp/mapper.py, over the outlines of Outline, and Reduce
--     the merging of entities in app/ai/mrp/reducer.py: Reduce/Apply is `_apply_merges`,
--     Reduce/Phase the steps of `run_reduce_phase`.
--   * Commit models `run_commit_phase` of app/ai/mrp/pipeline.py, which writes the compiled pages
--     into Wiki, and in Commit/Merger app/ai/mrp/merger.py, whose floating-point product is
--     computed.
--   * Outline models app/services/source_outline.py, Router the state machine of
--     app/ai/local_orchestrator/phase_router.py, Guarded the memory guard of
--     app/ai/local_orchestrator/lms_client_guarded.py, Pacing app/ai/mrp/writer_pacing.py.
--   * Base has the Boolean tests, lists, texts and results that the parts share; Samples has the
--     employees and the draft that the Examples modules of the parts use.
--
-- Conventions. A UUID is a number, a fresh one the next number. A table is a list of its rows
-- with the columns that the modelled code reads. An operation that can raise returns a `Result`;
-- an error leaves nothing written, since the caller's transaction is rolled back. Python's sets
-- are lists of which only membership is read. Loops are structural recursion over the list that
-- the loop walks. Fuel: `decimal` has one unit for every digit and more, `bit_length`
-- (Commit/Merger) for every binary digit; `root` (Reduce) has one more than there are keys, and a
-- chain visits no key twice; `sliding_window_chunks` (Mapper) has one more than there are
-- characters, and a window advances by one at least. The operations of a session run one after
-- another: the advisory lock of `approve_draft` is what makes them so. In Router, `meanwhile` is
-- what other tasks do while the lock is released.
--
-- Parameters. The client of the model server (Router) is a record of functions; the theorems on
-- it assume that the server gives an instance a name that is not blank. The text of an id, and
-- whether the job queue and the settings answer, are parameters of Contribution; the database's
-- order of the rows of the index, and the time as text, are parameters of Wiki/Logbook. The
-- reading of an id from text and the inserts that another request forestalls are parameters of
-- Workspaces; hashes, the check of a password and the codes and tokens that are drawn, of Oauth;
-- the verdict on the similarity of two names and the answers of the language model, of Reduce;
-- the merges of the model, of Commit. The model server is a parameter of Guarded, with a state of
-- any type.
--
-- Not modelled: SQL and storage, embeddings and semantic search, the calls of language models and
-- the parts of the pipeline around them (app/ai/mrp/writer.py, verifier.py, the other phases of
-- pipeline.py), sessions and JWTs, the upload of sources and listings of workspaces, the
-- background worker, the pattern that finds headings, and the frontend.
pub mod Base
pub mod Samples
pub mod Access
pub mod Guarded
pub mod Identity
pub mod Notify
pub mod Reviewers
pub mod Commit
pub mod Contribution
pub mod Wiki
pub mod Review
pub mod Outline
pub mod Router
pub mod Pacing
pub mod Reduce
pub mod Workspaces
pub mod Oauth
pub mod Mapper
