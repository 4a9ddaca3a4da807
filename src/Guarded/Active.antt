-- ===== src/Guarded/Active.antt =====
-- Which model a load of app/ai/local_orchestrator/lms_client_guarded.py gives, and which
-- `get_active_model` names.
use arkon.Base.{
  ◌≡◌, refl, ap, ◌∙◌, String, true, false, none, str_eq, str_eq_self, Bool-cases, inl, inr, Result,
  ok, err, arith,
}
use arkon.Guarded.Oom.{is_oom}
use arkon.Guarded.{
  lookup, Guards, Load, Server, key_of, is_scoped, get_active_model, switched, counted, as_answer,
  load_after, drain_then_load, load_fallback, after_attempt, is_refused, load,
}

-- A switch is what `get_active_model` then names.
switched-active :
    (r : Load) (g : Guards)
    → get_active_model r.source_id r.phase r.model_id (switched r g) ≡ r.fallback_model_id
unfolding get_active_model lookup
switched-active r g =
    rw (get_active_model, lookup, str_eq_self r.source_id, str_eq_self r.phase) refl

unswitched-active :
    (r : Load) (g : Guards)
    → lookup (key_of r) g.fallback_active ≡ none
    → get_active_model r.source_id r.phase r.model_id g ≡ r.model_id
unfolding get_active_model
unswitched-active r g h = rw (h, get_active_model) refl

module _ {S : Type 0} (server : Server S) (id : String) (s' : S) where
  -- The server gave the instance for that model.
  abbrev pub Given : String → Type 0
  Given model = (at : S) × (server.load model at ≡ (ok id, s'))

  as_answer-ok : (p : Result String String × S) → as_answer p ≡ (ok id, s') → p ≡ (ok id, s')
  as_answer-ok (ok x, s) h = ground arith
  as_answer-ok (err e, s) h = absurd (cc h)

  load_after-Given :
      (drained : Result String (Unit {0}) × S) (model : String)
      → load_after server drained model ≡ (ok id, s')
      → Given model
  unfolding load_after
  load_after-Given (ok _, s) model h = (s, as_answer-ok (server.load model s) h)
  load_after-Given (err e, s) model h = absurd (cc h)

  drain_then_load-Given :
      (model : String) (s : S) → drain_then_load server model s ≡ (ok id, s') → Given model
  unfolding drain_then_load load_after
  drain_then_load-Given model s h = elim (Bool-cases server.has_force_unload_all) [
    | inl e ↦ load_after-Given (server.force_unload_all s) model (rw e at h)
    | inr e ↦ (s, as_answer-ok (server.load model s) (rw e at h))
  ]

  -- the outcome of a load of the fallback, after the switch
  load_fallback-Given :
      (r : Load) (g g' : Guards) (s : S)
      → load_fallback server r (switched r g) s ≡ (ok id, (g', s'))
      → Given (get_active_model r.source_id r.phase r.model_id g')
  load_fallback-Given r g g' s h =
      let (at, given) = drain_then_load-Given r.fallback_model_id s (ap (λ x. (x.0, x.1.1)) h) in
      let same : switched r g ≡ g' = ap (λ x. x.1.0) h in
      let named : get_active_model r.source_id r.phase r.model_id g' ≡ r.fallback_model_id =
        rw same at (switched-active r g) in
      (at, rw named given)

  after_attempt-Given :
      (p : Result String String × S) (r : Load) (g g' : Guards) (s : S)
      → server.load r.model_id s ≡ p
      → is_scoped r ≡ true
      → lookup (key_of r) g.fallback_active ≡ none
      → after_attempt server p r g ≡ (ok id, (g', s'))
      → Given (get_active_model r.source_id r.phase r.model_id g')
  unfolding after_attempt
  after_attempt-Given (ok x, s1) r g g' s e scoped free h =
      let same : g ≡ g' = ap (λ x. x.1.0) h in
      let named : get_active_model r.source_id r.phase r.model_id g' ≡ r.model_id =
        rw same at (unswitched-active r g free) in
      (s, rw named (e ∙ ground arith))
  after_attempt-Given (err x, s1) r g g' s e scoped free h = elim (Bool-cases (is_oom x)) [
    | inr oom ↦ absurd (cc (rw oom at h))
    | inl oom ↦ elim (Bool-cases (str_eq r.fallback_model_id "")) [
      | inl blank ↦ absurd (cc (rw (oom, scoped, blank) at h))
      | inr blank ↦ load_fallback-Given r (counted r g) g' s1 (rw (oom, scoped, blank) at h)
    ]
  ]

-- A load for a source and phase without an earlier switch that answers an instance has it from the
-- server for the model that `get_active_model` names from then on, whichever of the two models it is.
pub load-active :
    {S : Type 0} (server : Server S) (r : Load) (g g' : Guards) (s s' : S) (id : String)
    → is_scoped r ≡ true
    → lookup (key_of r) g.fallback_active ≡ none
    → load server r g s ≡ (ok id, (g', s'))
    → (at : S) × (server.load (get_active_model r.source_id r.phase r.model_id g') at ≡ (ok id, s'))
unfolding load
load-active server r g g' s s' id scoped free h = elim (Bool-cases (is_refused server r s)) [
  | inr fits ↦
      after_attempt-Given server id s' (server.load r.model_id s) r g g' s refl scoped free
        (rw fits at h)
  | inl refused ↦ elim (Bool-cases (str_eq r.fallback_model_id "")) [
    | inl blank ↦ absurd (cc (rw (refused, blank) at h))
    | inr blank ↦ load_fallback-Given server id s' r g g' s (rw (refused, blank, scoped) at h)
  ]
]

-- After a lack of memory made a load switch to the fallback, the next load of the same arguments tries
-- the primary model again: where the server then has the memory, it gives the primary model, while
-- `get_active_model` still names the fallback.
pub load-stale :
    {S : Type 0} (server : Server S) (r : Load) (g g' : Guards) (s s1 s' s2 s3 : S)
    (message id id' : String)
    → is_scoped r ≡ true
    → str_eq r.fallback_model_id "" ≡ false
    → is_refused server r s ≡ false
    → server.load r.model_id s ≡ (err message, s1)
    → is_oom message ≡ true
    → load server r g s ≡ (ok id, (g', s'))
    → is_refused server r s2 ≡ false
    → server.load r.model_id s2 ≡ (ok id', s3)
    → (load server r g' s2 ≡ (ok id', (g', s3)))
      × (get_active_model r.source_id r.phase r.model_id g' ≡ r.fallback_model_id)
unfolding load after_attempt
load-stale server r g g' s s1 s' s2 s3 message id id' scoped some_fallback fits failed oom h fits'
      loaded =
    let first : load_fallback server r (switched r (counted r g)) s1 ≡ (ok id, (g', s')) =
      rw (fits, failed, oom, scoped, some_fallback) at h in
    let same : switched r (counted r g) ≡ g' = ap (λ x. x.1.0) first in
    (rw (fits', loaded) refl, rw same at (switched-active r (counted r g)))
