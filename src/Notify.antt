-- ===== src/Notify.antt =====
-- The notification inbox: the write helpers and the dispatch staging of
-- app/services/notification_service.py. Ids are numbers; a session is named by its `id(db)`.
pub mod Recipients
pub mod Staging
mod Examples
use arkon.Base.{
  ℕ, String, Bool, true, false, Option, none, some, List, [], ◌∷◌, ◌++◌, elem, ◌==◌, if◌then◌else◌,
}

pub record Notification : Type 0 where
  pub recipient_id : ℕ
  pub type : String
  pub subject : String
  pub body : String
  pub target_type : String
  pub target_id : ℕ
  pub actor_id : Option ℕ

-- The rows that were added, `_REQUEST_STAGED` and `_SESSION_STAGED`.
pub record Outbox : Type 0 where
  pub rows : List Notification
  pub request_staged : Option (List Notification)
  pub session_staged : List (ℕ × List Notification)

-- `setdefault(key, []).extend(notifs)`
unfoldable pub extend_at :
    ℕ → List Notification → List (ℕ × List Notification) → List (ℕ × List Notification)
extend_at key notifs [] = (key, notifs) ∷ []
extend_at key notifs ((k, staged) ∷ rest) =
    let more = extend_at key notifs rest in
    if k == key then (k, staged ++ notifs) ∷ rest else (k, staged) ∷ more

unfoldable pub staged_at : ℕ → List (ℕ × List Notification) → List Notification
staged_at key [] = []
staged_at key ((k, staged) ∷ rest) =
    let more = staged_at key rest in if k == key then staged else more

-- `pop(key, [])`, the dictionary that is left
unfoldable pub without : ℕ → List (ℕ × List Notification) → List (ℕ × List Notification)
without key [] = []
without key ((k, staged) ∷ rest) =
    let more = without key rest in if k == key then more else (k, staged) ∷ more

unfoldable pub init_request_dispatch_scope : Outbox → Outbox
init_request_dispatch_scope o = record o { request_staged = some [] }

-- `_stage_for_dispatch`
unfoldable pub stage_into : ℕ → List Notification → Option (List Notification) → Outbox → Outbox
stage_into db notifs (some bucket) o = record o { request_staged = some (bucket ++ notifs) }
stage_into db notifs none o = record o { session_staged = extend_at db notifs o.session_staged }

abbrev pub no_notifs : List Notification → Bool
no_notifs [] = true
no_notifs (_ ∷ _) = false

unfoldable pub stage_for_dispatch : ℕ → List Notification → Outbox → Outbox
stage_for_dispatch db notifs o =
    if no_notifs notifs then o else stage_into db notifs o.request_staged o

-- `take_pending_dispatch(db)`: the staged notifications, and what is left
unfoldable pub take_from :
    Option ℕ → Option (List Notification) → Outbox → List Notification × Outbox
take_from db (some bucket) o = (bucket, record o { request_staged = some [] })
take_from none none o = ([], o)
take_from (some db) none o =
    (staged_at db o.session_staged, record o { session_staged = without db o.session_staged })

unfoldable pub take_pending_dispatch : Option ℕ → Outbox → List Notification × Outbox
take_pending_dispatch db o = take_from db o.request_staged o

-- what `notify` and `notify_many` are told, but for the recipients
pub record Payload : Type 0 where
  pub type : String
  pub subject : String
  pub body : String
  pub target_type : String
  pub target_id : ℕ
  pub actor_id : Option ℕ

unfoldable pub make : Payload → ℕ → Notification
make p rid = record {
  recipient_id = rid;
  type = p.type;
  subject = p.subject;
  body = p.body;
  target_type = p.target_type;
  target_id = p.target_id;
  actor_id = p.actor_id;
}

unfoldable pub notify : ℕ → Payload → ℕ → Outbox → Outbox
notify db p rid o =
    stage_for_dispatch db (make p rid ∷ []) (record o { rows = o.rows ++ make p rid ∷ [] })

-- `exclude_actor and actor_id is not None and rid == actor_id`, with `exclude_actor` true, as every
-- caller leaves it
abbrev pub is_actor : Option ℕ → ℕ → Bool
is_actor none rid = false
is_actor (some a) rid = rid == a

-- the loop of `notify_many`, with the ids that it has seen
unfoldable pub many_from : ℕ → Payload → List ℕ → List ℕ → Outbox → Outbox
many_from db p seen [] o = o
many_from db p seen (rid ∷ rids) o =
    let skip = many_from db p seen rids o in
    let sent = many_from db p (rid ∷ seen) rids (notify db p rid o) in
    if elem rid seen then skip else if is_actor p.actor_id rid then skip else sent

unfoldable pub notify_many : ℕ → Payload → List ℕ → Outbox → Outbox
notify_many db p rids o = many_from db p [] rids o

-- An item of `notify_each`; the recipient may be missing.
pub record Item : Type 0 where
  pub recipient_id : Option ℕ
  pub subject : String
  pub body : String
  pub target_id : ℕ

abbrev pub make_item : Payload → ℕ → Item → Notification
make_item p rid item =
    make (record p { subject = item.subject; body = item.body; target_id = item.target_id }) rid

-- the loop of `notify_each`: the notifications to add
unfoldable pub each_from : Payload → List ℕ → List Item → List Notification
each_from p seen [] = []
each_from p seen (item ∷ items) =
    let skip = each_from p seen items in
    elim item.recipient_id [
      | none ↦ skip
      | some rid ↦
          let sent = make_item p rid item ∷ each_from p (rid ∷ seen) items in
          if elem rid seen then skip else if is_actor p.actor_id rid then skip else sent
    ]

unfoldable pub notify_each : ℕ → Payload → List Item → Outbox → Outbox
notify_each db p items o =
    let out = each_from p [] items in
    if no_notifs out then o else stage_for_dispatch db out (record o { rows = o.rows ++ out })
