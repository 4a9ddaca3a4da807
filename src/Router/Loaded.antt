-- ===== src/Router/Loaded.antt =====
-- What the phase router (app/ai/local_orchestrator/phase_router.py) knows of the model that is loaded.
use arkon.Base.{
  String, ◌≡◌, refl, ap, Bool, true, false, ◌&&◌, not, Option, none, some, is_blank, Result, ok,
  err, arith, Option-cases, Bool-cases, inl, inr,
}
use arkon.Router.{
  RouterState, idle, vision_active, main_llm_active, Slot, vision, main_llm, loading_state,
  active_state, slot_of, Router, Client, cached, is_loaded, idle_router, unload_server,
  unload_current, settle, retry, after_attempt, load_slot, ensure_slot, ensure_loaded,
}

-- the state of the router with the model of that slot in use
abbrev pub is_active_for : Slot → RouterState → Bool
is_active_for vision vision_active = true
is_active_for main_llm main_llm_active = true
is_active_for _ _ = false

abbrev pub agrees : RouterState → Option Slot → Option String → Bool
agrees state none none = not (is_active_for vision state) && not (is_active_for main_llm state)
agrees state (some slot) (some instance_id) = is_active_for slot state && not (is_blank instance_id)
agrees _ _ _ = false

-- A slot is current, with an instance, exactly when the state is its active state; in the other
-- states none is.
abbrev pub Agrees : Router → Type 0
Agrees r = agrees r.state r.current_slot r.current_instance_id ≡ true

-- no other task runs while the lock is released
abbrev pub alone : {S : Type 0} → Router × S → Router × S
alone x = x

is_active_for_self : (slot : Slot) → is_active_for slot (active_state slot) ≡ true
is_active_for_self vision = refl
is_active_for_self main_llm = refl

-- A router with no model, in the state before a load or between two.
abbrev Empty : Router → Type 0
Empty r =
    (r.current_slot ≡ none) × (r.current_instance_id ≡ none) × (agrees r.state none none ≡ true)

loading_Empty :
    (slot : Slot) (r : Router) → Empty r → Empty (record r { state = loading_state slot })
loading_Empty vision r (a, b, c) = (a, b, refl)
loading_Empty main_llm r (a, b, c) = (a, b, refl)

Empty-Agrees : (r : Router) → Empty r → Agrees r
Empty-Agrees r (a, b, c) = rw (a, b) c

module _ {S F : Type 0} (client : Client S F)
    (named : (slot : Slot) (s : S) (id : String)
      → (client.load slot s).0 ≡ ok id
      → is_blank id ≡ false) where
  settle-Agrees :
      (slot : Slot) (r : Router) (s : S) (x : Result F String × S)
      → client.load slot s ≡ x
      → Empty r
      → Agrees (settle client slot r x).1.0
  unfolding settle
  settle-Agrees slot r s (ok id, s') e a =
      let solid : is_blank id ≡ false = named slot s id (ap (λ x. x.0) e) in
      rw (is_active_for_self slot, solid) refl
  settle-Agrees slot r s (err x, s') e a = Empty-Agrees r a

  retry-Agrees :
      (slot : Slot) (x : Result F (Unit {0})) (r : Router) (s : S)
      → Empty r
      → Agrees (retry client slot x (r, s)).1.0
  unfolding retry
  retry-Agrees slot (err e) r s a = Empty-Agrees r a
  retry-Agrees slot (ok _) r s a =
      settle-Agrees slot (record r { state = loading_state slot }) s (client.load slot s) refl
        (loading_Empty slot r a)

  after_attempt-Agrees :
      (slot : Slot) (r : Router) (s : S) (x : Result F String × S)
      → client.load slot s ≡ x
      → Empty r
      → Agrees (after_attempt client alone slot r x).1.0
  unfolding after_attempt
  after_attempt-Agrees slot r s (ok id, s') e a = settle-Agrees slot r s (ok id, s') e a
  after_attempt-Agrees slot r s (err x, s') e (a, b, c) =
      elim (Bool-cases (client.is_oom x && client.has_force_unload_all)) [
        | inl p ↦ rw p (
            retry-Agrees slot (client.force_unload_all s').0 (record r { state = idle })
              (client.force_unload_all s').1 (a, b, refl))
        | inr p ↦ rw p (Empty-Agrees r (a, b, c))
      ]

  load_slot-Agrees :
      (slot : Slot) (r : Router) (s : S) → Empty r → Agrees (load_slot client alone slot r s).1.0
  unfolding load_slot
  load_slot-Agrees slot r s a =
      after_attempt-Agrees slot (record r { state = loading_state slot }) s (client.load slot s)
        refl (loading_Empty slot r a)

  -- A router with no model that is not loaded.
  unloaded_fields :
      (st : RouterState) (c : Option Slot) (i : Option String)
      → agrees st c i ≡ true
      → is_loaded (record { state = st; current_slot = c; current_instance_id = i }) ≡ false
      → Empty (record { state = st; current_slot = c; current_instance_id = i })
  unloaded_fields st none none a l = (refl, refl, a)
  unloaded_fields st none (some id) a l = absurd (cc a)
  unloaded_fields st (some t) none a l = absurd (cc a)
  unloaded_fields st (some t) (some id) a l = absurd (ground arith)

  unloaded_lem : (r : Router) → Agrees r → is_loaded r ≡ false → Empty r
  unloaded_lem r a l = unloaded_fields r.state r.current_slot r.current_instance_id a l

  -- `ensure_loaded` keeps the router's state in agreement with the model it holds, whether it goes
  -- through, fails or is called for no phase, as long as no other task runs while the lock is released
  -- and the server names its instances.
  pub ensure_loaded-Agrees :
      (phase : String) (r : Router) (s : S)
      → Agrees r
      → Agrees (ensure_loaded client alone phase r s).1.0
  unfolding ensure_loaded ensure_slot unload_current
  ensure_loaded-Agrees phase r s a = elim (Option-cases (slot_of phase)) [
    | inl p ↦ rw (ensure_loaded, p) a
    | inr (slot, p) ↦ elim (Option-cases (cached slot r)) [
      | inl q ↦ elim (Bool-cases (is_loaded r)) [
        | inl l ↦
            rw (ensure_loaded, p, ensure_slot, q, l)
              (load_slot-Agrees slot idle_router (unload_server client r s) (refl, refl, refl))
        | inr l ↦
            rw (ensure_loaded, p, ensure_slot, q, l)
              (load_slot-Agrees slot r s (unloaded_lem r a l))
      ]
      | inr (id, q) ↦ rw (ensure_loaded, p, ensure_slot, q) a
    ]
  ]
