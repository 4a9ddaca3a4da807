-- ===== src/Contribution/Effects.antt =====
-- What the operations of app/services/contribution_service.py write beside the artifact: the audit
-- log, the snapshots of earlier rounds, the queue of the AI review and the notifications.
use Prim.Native.Char.{code}
use Prim.Native.String.{◌++◌ as str_append}
use arkon.Base.{
  ℕ, zero, suc, ◌+◌, ◌/◌, ◌%◌, String, Bool, true, false, ◌&&◌, Option, none, some, List, [], ◌∷◌,
  ◌++◌, leb, ltb, ◌==◌, if◌then◌else◌,
}
use arkon.Access.{Employee}
use arkon.Notify.{Outbox, Payload, Item, notify, notify_many, notify_each}
use arkon.Contribution.Artifacts.{WikiPageDraft}

-- What an operation finds outside: the setting `ai_pre_review_enabled` (`none`: the config service
-- failed), whether the job queue takes jobs, the clock, and the text of an id.
pub record Env : Type 0 where
  pub ai_pre_review_enabled : Option (Option String)
  pub queue_up : Bool
  pub now : ℕ
  pub id_text : ℕ → String

-- A row of `audit_log` (`log_audit` of app/services/audit_service.py).
pub record AuditLog : Type 0 where
  pub principal_id : ℕ
  pub action : String
  pub resource_type : String
  pub resource_id : ℕ
  pub reason : Option String

-- WikiDraftRound
pub record WikiDraftRound : Type 0 where
  pub draft_id : ℕ
  pub round_no : ℕ
  pub content_md : String
  pub author_note : Option String
  pub reviewer_return_note : Option String
  pub ai_check_results : Option String
  pub submitted_at : ℕ

-- A session, named by its key, with what was added in it.
pub record Session : Type 0 where
  pub key : ℕ
  pub outbox : Outbox
  pub audits : List AuditLog
  pub rounds : List WikiDraftRound
  -- jobs of `ai_pre_review_draft_task`: a draft and its round
  pub jobs : List (ℕ × ℕ)

unfoldable pub log_audit : Employee → String → String → ℕ → Option String → Session → Session
log_audit user action resource_type resource_id reason s =
    let entry : AuditLog = record {
      principal_id = user.id;
      action = action;
      resource_type = resource_type;
      resource_id = resource_id;
      reason = reason;
    } in
    record s { audits = s.audits ++ entry ∷ [] }

unfoldable pub tell : Payload → ℕ → Session → Session
tell p rid s = record s { outbox = notify s.key p rid s.outbox }

unfoldable pub tell_many : Payload → List ℕ → Session → Session
tell_many p rids s = record s { outbox = notify_many s.key p rids s.outbox }

unfoldable pub tell_each : Payload → List Item → Session → Session
tell_each p items s = record s { outbox = notify_each s.key p items s.outbox }

-- `str(enabled).lower() == "false"`: only the letters A to Z have these letters as lower case
abbrev pub lower_code : ℕ → ℕ
lower_code c = if leb 65 c && leb c 90 then c + 32 else c

unfoldable pub lower_codes : String → List ℕ
lower_codes String.[] = []
lower_codes (String.◌∷◌ c s) = lower_code (code c) ∷ lower_codes s

abbrev pub same_codes : List ℕ → List ℕ → Bool
same_codes [] [] = true
same_codes (x ∷ xs) (y ∷ ys) = x == y && same_codes xs ys
same_codes _ _ = false

unfoldable pub is_disabled : Option (Option String) → Bool
is_disabled (some (some enabled)) = same_codes (lower_codes enabled) (lower_codes "false")
is_disabled _ = false

-- `_enqueue_ai_review`
unfoldable pub enqueue_ai_review : Env → WikiPageDraft → Session → WikiPageDraft × Session
unfolding is_disabled
enqueue_ai_review env draft s =
    if is_disabled env.ai_pre_review_enabled
    then (record draft { ai_check_status = "skipped" }, s)
    else if env.queue_up
    then (
      record draft { ai_check_status = "queued"; ai_check_results = none },
      record s { jobs = s.jobs ++ (draft.id, draft.revision_round) ∷ [] },
    )
    else (record draft { ai_check_status = "skipped"; ai_check_results = none }, s)

-- A number in decimal digits.
abbrev pub digit : ℕ → String
digit n =
    if n == 0
    then "0"
    else if n == 1
    then "1"
    else if n == 2
    then "2"
    else if n == 3
    then "3"
    else if n == 4
    then "4"
    else if n == 5
    then "5"
    else if n == 6
    then "6"
    else if n == 7
    then "7"
    else if n == 8
    then "8"
    else "9"

unfoldable pub decimal_from : ℕ → ℕ → String
decimal_from zero n = ""
decimal_from (suc fuel) n =
    let front = decimal_from fuel (n / 10) in
    if ltb n 10 then digit n else str_append front (digit (n % 10))

-- `str(n)`: a number has at most as many digits as it has units, and one for 0
unfoldable pub decimal : ℕ → String
decimal n = decimal_from (suc n) n
