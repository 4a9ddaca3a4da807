-- ===== src/Router/Answers.antt =====
-- The answers of the phase router (app/ai/local_orchestrator/phase_router.py) and the model it holds.
use mathlib.Core.Path.{subst}
use arkon.Base.{
  String, ◌≡◌, refl, ap, true, false, ◌&&◌, some, is_blank, Result, ok, err, Option-cases,
  Bool-cases, inl, inr,
}
use arkon.Router.{
  idle, Slot, vision, main_llm, loading_state, same_slot, slot_of, Router, Client, RouterError,
  cached, is_loaded, idle_router, unload_server, unload_current, settle, retry, after_attempt,
  load_slot, ensure_slot, ensure_loaded,
}

same_slot_self : (slot : Slot) → same_slot slot slot ≡ true
same_slot_self vision = refl
same_slot_self main_llm = refl

-- The instance that an outcome gives is the one that the router holds for the slot.
abbrev Holds : {S F : Type 0} → Slot → Result (RouterError F) String × (Router × S) → Type 0
Holds slot (ok id, (r, s)) = cached slot r ≡ some id
Holds slot (err e, (r, s)) = Unit

module _ {S F : Type 0} (client : Client S F)
    (named : (slot : Slot) (s : S) (id : String)
      → (client.load slot s).0 ≡ ok id
      → is_blank id ≡ false)
    (meanwhile : Router × S → Router × S) where
  settle-Holds :
      (slot : Slot) (r : Router) (s : S) (x : Result F String × S)
      → client.load slot s ≡ x
      → Holds slot (settle client slot r x)
  unfolding settle cached
  settle-Holds slot r s (ok id, s') e =
      let solid : is_blank id ≡ false = named slot s id (ap (λ x. x.0) e) in
      rw (same_slot_self slot, solid) refl
  settle-Holds slot r s (err x, s') e = tt

  retry-Holds :
      (slot : Slot) (x : Result F (Unit {0})) (y : Router × S) → Holds slot (retry client slot x y)
  unfolding retry
  retry-Holds slot (err e) (r, s) = tt
  retry-Holds slot (ok _) (r, s) =
      settle-Holds slot (record r { state = loading_state slot }) s (client.load slot s) refl

  after_attempt-Holds :
      (slot : Slot) (r : Router) (s : S) (x : Result F String × S)
      → client.load slot s ≡ x
      → Holds slot (after_attempt client meanwhile slot r x)
  unfolding after_attempt
  after_attempt-Holds slot r s (ok id, s') e = settle-Holds slot r s (ok id, s') e
  after_attempt-Holds slot r s (err x, s') e =
      elim (Bool-cases (client.is_oom x && client.has_force_unload_all)) [
        | inl p ↦
            rw (after_attempt, p)
              (retry-Holds slot (client.force_unload_all s').0
                (meanwhile (record r { state = idle }, (client.force_unload_all s').1)))
        | inr p ↦ rw (after_attempt, p) tt
      ]

  load_slot-Holds :
      (slot : Slot) (r : Router) (s : S) → Holds slot (load_slot client meanwhile slot r s)
  unfolding load_slot
  load_slot-Holds slot r s =
      after_attempt-Holds slot (record r { state = loading_state slot }) s (client.load slot s) refl

  -- When `ensure_loaded` answers with an instance, the router holds that instance for the slot of the
  -- phase, whatever other tasks did in between, if the server names its instances.
  pub ensure_loaded-Holds :
      (phase : String) (slot : Slot) (r : Router) (s : S)
      → slot_of phase ≡ some slot
      → Holds slot (ensure_loaded client meanwhile phase r s)
  unfolding ensure_loaded ensure_slot unload_current
  ensure_loaded-Holds phase slot r s p = elim (Option-cases (cached slot r)) [
    | inl q ↦ elim (Bool-cases (is_loaded r)) [
      | inl l ↦
          rw (ensure_loaded, p, ensure_slot, q, l)
            (load_slot-Holds slot idle_router (unload_server client r s))
      | inr l ↦ rw (ensure_loaded, p, ensure_slot, q, l) (load_slot-Holds slot r s)
    ]
    | inr (id, q) ↦ rw (ensure_loaded, p, ensure_slot, q) q
  ]

  -- A call of `ensure_loaded` right after one for the same slot that gave an instance answers with that
  -- instance, and changes neither the router nor the server.
  pub ensure_loaded_again :
      (phase phase' : String) (slot : Slot) (r r' : Router) (s s' : S) (id : String)
      → slot_of phase ≡ some slot
      → slot_of phase' ≡ some slot
      → ensure_loaded client meanwhile phase r s ≡ (ok id, (r', s'))
      → ensure_loaded client meanwhile phase' r' s' ≡ (ok id, (r', s'))
  unfolding ensure_loaded ensure_slot
  ensure_loaded_again phase phase' slot r r' s s' id p p' e =
      let held : cached slot r' ≡ some id =
        subst (Holds slot) e (ensure_loaded-Holds phase slot r s p) in
      rw (ensure_loaded, p', ensure_slot, held) refl
