-- ===== src/Router/Examples.antt =====
-- The theorems on the phase router for a server that keeps a list of what it loaded.
use arkon.Base.{
  String, ◌≡◌, refl, Bool, true, false, is_blank, some, List, [], ◌∷◌, Result, ok, err,
}
use arkon.Router.{
  Slot, vision, main_llm, vision_active, slot_of, Router, Client, idle_router, ensure_loaded,
  ensure_slot, cached, load_slot, after_attempt, settle, retry,
}
use arkon.Router.Loaded.{Agrees, alone, ensure_loaded-Agrees}

-- What the server holds, and the answers of the next loads: false is a failure for lack of memory.
abbrev Server : Type 0
Server = List Slot × List Bool

abbrev load : Slot → Server → Result (Unit {0}) String × Server
load slot (held, false ∷ answers) = (err tt, (held, answers))
load slot (held, answers) = (ok "instance", (slot ∷ held, answers))

abbrev client : Client Server (Unit {0})
client = record {
  load = load;
  has_force_unload_all = true;
  force_unload_all = λ s. (ok tt, ([], s.1));
  unload = λ id s. s;
  is_oom = λ e. true;
}

load-named :
    (slot : Slot) (s : Server) (id : String) → (load slot s).0 ≡ ok id → is_blank id ≡ false
load-named slot (held, false ∷ answers) id e = absurd (cc e)
load-named slot (held, []) id e = let same : "instance" ≡ id = cc e in rw (← same) refl
load-named slot (held, true ∷ answers) id e = let same : "instance" ≡ id = cc e in rw (← same) refl

abbrev loaded : Router
loaded = record {
  state = vision_active;
  current_slot = some vision;
  current_instance_id = some "instance";
}

ensure_loaded-Agrees_example :
    Agrees (ensure_loaded client alone "map_extract" loaded (vision ∷ [], false ∷ [])).1.0
ensure_loaded-Agrees_example =
    ensure_loaded-Agrees client load-named "map_extract" loaded (vision ∷ [], false ∷ []) refl

-- While the drain of one load runs without the lock, another task loads the other slot: then both
-- models are loaded.
abbrev other_task : Router × Server → Router × Server
other_task (r, s) = (ensure_loaded client alone "vision_caption" r s).1

both_loaded :
    (ensure_loaded client other_task "map_extract" idle_router ([], false ∷ [])).1.1.0
    ≡ main_llm ∷ vision ∷ []
unfolding slot_of ensure_loaded ensure_slot cached load_slot after_attempt settle retry
both_loaded = refl
