-- ===== src/Router.antt =====
-- The phase router of app/ai/local_orchestrator/phase_router.py, the state machine of the one local
-- model that is loaded. The client of the model server is a parameter: what a call of it answers, and
-- how it changes the server, whose state is of any type.
pub mod Loaded
pub mod Answers
mod Examples
use arkon.Base.{
  String, Bool, true, false, ◌&&◌, not, Option, none, some, if◌then◌else◌, is_missing, str_eq,
  is_blank, Result, ok, err,
}

-- RouterState
pub data RouterState : Type 0 where
  idle loading_vision vision_active unloading_vision : RouterState
  loading_main_llm main_llm_active unloading_main_llm : RouterState

pub data Slot : Type 0 where
  vision main_llm : Slot

-- _SLOT_STATES
abbrev pub loading_state : Slot → RouterState
loading_state vision = loading_vision
loading_state main_llm = loading_main_llm

abbrev pub active_state : Slot → RouterState
active_state vision = vision_active
active_state main_llm = main_llm_active

abbrev pub same_slot : Slot → Slot → Bool
same_slot vision vision = true
same_slot main_llm main_llm = true
same_slot _ _ = false

-- PHASE_TO_SLOT
unfoldable pub slot_of : String → Option Slot
slot_of phase =
    if str_eq phase "vision_caption"
    then some vision
    else if str_eq phase "map_extract"
    then some main_llm
    else if str_eq phase "reduce_plan"
    then some main_llm
    else if str_eq phase "refine_write"
    then some main_llm
    else if str_eq phase "verify_check"
    then some main_llm
    else if str_eq phase "digest_summary"
    then some main_llm
    else none

-- The fields of a PhaseRouter that change.
pub record Router : Type 0 where
  pub state : RouterState
  pub current_slot : Option Slot
  pub current_instance_id : Option String

-- What the router calls: a load of the model of a slot; the full drain, if the client has one
-- (`hasattr(…, "force_unload_all")`); a plain unload. F is the type of the exceptions, of which `is_oom`
-- tells whether the text of one looks like a lack of memory.
pub record Client (S F : Type 0) : Type 0 where
  pub load : Slot → S → Result F String × S
  pub has_force_unload_all : Bool
  pub force_unload_all : S → Result F (Unit {0}) × S
  pub unload : String → S → S
  pub is_oom : F → Bool

-- what `ensure_loaded` raises
pub data RouterError (F : Type 0) : Type 0 where
  unknown_phase : RouterError F
  failed : F → RouterError F

-- `self._current_slot == required_slot and self._current_instance_id`
unfoldable pub cached : Slot → Router → Option String
cached slot r = elim r.current_slot [
  | none ↦ none
  | some s ↦
      if same_slot s slot && not (is_missing r.current_instance_id)
      then r.current_instance_id
      else none
]

-- `self._current_slot and self._current_instance_id`
abbrev pub is_loaded : Router → Bool
is_loaded r = elim r.current_slot [ none ↦ false | some _ ↦ not (is_missing r.current_instance_id) ]

abbrev pub idle_router : Router
idle_router = record { state = idle; current_slot = none; current_instance_id = none }

module _ {S F : Type 0} (client : Client S F) where
  -- the server after the calls of `_unload_current`; what they raise is logged
  unfoldable pub unload_server : Router → S → S
  unload_server r s =
      if client.has_force_unload_all
      then (client.force_unload_all s).1
      else elim r.current_instance_id [ none ↦ s | some id ↦ client.unload id s ]

  -- `_unload_current`: the router is idle whatever the client does
  unfoldable pub unload_current : Router → S → Router × S
  unload_current r s = (idle_router, unload_server r s)

  -- the end of `_load_slot` after an attempt; on failure the state is as it was
  unfoldable pub settle :
      Slot → Router → Result F String × S → Result (RouterError F) String × (Router × S)
  settle slot r (ok instance_id, s) = (
    ok instance_id,
    (
      record {
        state = active_state slot;
        current_slot = some slot;
        current_instance_id = some instance_id;
      },
      s,
    ),
  )
  settle slot r (err e, s) = (err (failed e), (r, s))

  -- the second attempt, once the drain is done and the lock is held again
  unfoldable pub retry :
      Slot → Result F (Unit {0}) → Router × S → Result (RouterError F) String × (Router × S)
  retry slot (err e) (r, s) = (err (failed e), (r, s))
  retry slot (ok _) (r, s) =
      settle slot (record r { state = loading_state slot }) (client.load slot s)

  -- `_load_slot`. `meanwhile` is what other tasks do to the router and the server while the lock is
  -- released for the drain.
  unfoldable pub after_attempt :
      (Router × S → Router × S)
      → Slot
      → Router
      → Result F String × S
      → Result (RouterError F) String × (Router × S)
  after_attempt meanwhile slot r (ok instance_id, s) = settle slot r (ok instance_id, s)
  after_attempt meanwhile slot r (err e, s) =
      if client.is_oom e && client.has_force_unload_all
      then retry slot (client.force_unload_all s).0
          (meanwhile (record r { state = idle }, (client.force_unload_all s).1))
      else (err (failed e), (r, s))

  unfoldable pub load_slot :
      (Router × S → Router × S) → Slot → Router → S → Result (RouterError F) String × (Router × S)
  load_slot meanwhile slot r s =
      after_attempt meanwhile slot (record r { state = loading_state slot }) (client.load slot s)

  -- the body of `ensure_loaded` under the lock
  unfoldable pub ensure_slot :
      (Router × S → Router × S) → Slot → Router → S → Result (RouterError F) String × (Router × S)
  ensure_slot meanwhile slot r s = elim (cached slot r) [
    | some instance_id ↦ (ok instance_id, (r, s))
    | none ↦
        if is_loaded r
        then load_slot meanwhile slot (unload_current r s).0 (unload_current r s).1
        else load_slot meanwhile slot r s
  ]

  unfoldable pub ensure_loaded :
      (Router × S → Router × S) → String → Router → S → Result (RouterError F) String × (Router × S)
  ensure_loaded meanwhile phase r s = elim (slot_of phase) [
    | none ↦ (err unknown_phase, (r, s))
    | some slot ↦ ensure_slot meanwhile slot r s
  ]

  -- `shutdown` without force
  unfoldable pub shutdown : Router → S → Router × S
  shutdown r s = if is_loaded r then unload_current r s else (record r { state = idle }, s)

  -- `drain_ram`, and `shutdown` with force
  unfoldable pub drain_ram : Router → S → Router × S
  drain_ram r s =
      if client.has_force_unload_all
      then ((shutdown r s).0, (client.force_unload_all (shutdown r s).1).1)
      else shutdown r s
