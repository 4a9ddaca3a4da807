-- ===== src/Guarded.antt =====
-- The client with the memory guard: `LMSClientGuarded` of
-- app/ai/local_orchestrator/lms_client_guarded.py. The server and the measure of free memory are a
-- parameter, with a state of any type.
pub mod Oom
pub mod Active
pub mod Sources
mod Examples
use arkon.Base.{
  ℕ, ◌+◌, String, Bool, true, false, not, ◌&&◌, Option, none, some, List, [], ◌∷◌, keep, str_eq,
  if◌then◌else◌, Result, ok, err,
}
use arkon.Guarded.Oom.{is_oom}

-- `(source_id, phase)`
abbrev pub Key : Type 0
Key = String × String

abbrev pub same_key : Key → Key → Bool
same_key (a, b) (c, d) = str_eq a c && str_eq b d

-- an entry of a dict; an assignment goes in front, and hides an older one
unfoldable pub lookup {ℓ} : {A : Type ℓ} → Key → List (Key × A) → Option A
lookup key [] = none
lookup key ((k, a) ∷ entries) =
    let rest = lookup key entries in if same_key k key then some a else rest

-- The dicts of the client.
pub record Guards : Type 0 where
  pub oom_counter : List (Key × ℕ)
  pub fallback_active : List (Key × String)

-- The arguments of `load`; `estimated` is whether an estimate of the memory is given.
pub record Load : Type 0 where
  pub model_id : String
  pub source_id : String
  pub phase : String
  pub estimated : Bool
  pub fallback_model_id : String

-- What the client calls: the load of a model, which gives an instance or raises, the drain of the
-- memory, if there is one, and the check of the free memory, if the server is not remote.
pub record Server (S : Type 0) : Type 0 where
  pub load : String → S → Result String String × S
  pub has_force_unload_all : Bool
  pub force_unload_all : S → Result String (Unit {0}) × S
  pub skip_ram_preflight : Bool
  pub can_load : Load → S → Bool

-- what `load` raises
pub data LoadError : Type 0 where
  ram_insufficient : LoadError
  raised : String → LoadError

abbrev pub key_of : Load → Key
key_of r = (r.source_id, r.phase)

-- `source_id and phase`
abbrev pub is_scoped : Load → Bool
is_scoped r = not (str_eq r.source_id "") && not (str_eq r.phase "")

unfoldable pub get_active_model : String → String → String → Guards → String
get_active_model source_id phase primary g = elim (lookup (source_id, phase) g.fallback_active) [
  | none ↦ primary
  | some model ↦ model
]

-- the entries of the other sources
unfoldable pub without_source {ℓ} : {A : Type ℓ} → String → List (Key × A) → List (Key × A)
without_source source_id entries = keep (λ e. not (str_eq e.0.0 source_id)) entries

unfoldable pub reset_source : String → Guards → Guards
reset_source source_id g = record {
  oom_counter = without_source source_id g.oom_counter;
  fallback_active = without_source source_id g.fallback_active;
}

abbrev pub switched : Load → Guards → Guards
switched r g = record g { fallback_active = (key_of r, r.fallback_model_id) ∷ g.fallback_active }

-- `self._oom_counter.get(key, 0) + 1`
abbrev pub counted : Load → Guards → Guards
counted r g = record g {
  oom_counter =
      (key_of r, elim (lookup (key_of r) g.oom_counter) [ none ↦ 1 | some n ↦ n + 1 ])
      ∷ g.oom_counter;
}

-- an answer of the server as one of `load`
abbrev pub as_outcome : Result String String → Result LoadError String
as_outcome (ok id) = ok id
as_outcome (err e) = err (raised e)

abbrev pub as_answer {ℓ} : {S : Type ℓ} → Result String String × S → Result LoadError String × S
as_answer (outcome, s) = (as_outcome outcome, s)

module _ {S : Type 0} (server : Server S) where
  -- the load that ends `_drain_then_load`
  abbrev pub load_plain : String → S → Result LoadError String × S
  load_plain model_id s = as_answer (server.load model_id s)

  -- the load after a drain; a drain that raises ends it
  unfoldable pub load_after : Result String (Unit {0}) × S → String → Result LoadError String × S
  load_after (ok _, s) model_id = load_plain model_id s
  load_after (err e, s) model_id = (err (raised e), s)

  unfoldable pub drain_then_load : String → S → Result LoadError String × S
  drain_then_load model_id s =
      if server.has_force_unload_all
      then load_after (server.force_unload_all s) model_id
      else load_plain model_id s

  -- a load of the fallback, with the guards
  abbrev pub load_fallback : Load → Guards → S → Result LoadError String × (Guards × S)
  load_fallback r g s =
      let (outcome, s') = drain_then_load r.fallback_model_id s in (outcome, (g, s'))

  -- what follows the attempt to load the primary model
  unfoldable pub after_attempt :
      Result String String × S → Load → Guards → Result LoadError String × (Guards × S)
  after_attempt (ok id, s) r g = (ok id, (g, s))
  after_attempt (err e, s) r g =
      if not (is_oom e)
      then (err (raised e), (g, s))
      else if not (is_scoped r)
      then (err (raised e), (g, s))
      else if str_eq r.fallback_model_id ""
      then (err (raised e), (counted r g, s))
      else load_fallback r (switched r (counted r g)) s

  -- whether the check before the load refuses the primary model
  abbrev pub is_refused : Load → S → Bool
  is_refused r s = r.estimated && (not server.skip_ram_preflight && not (server.can_load r s))

  unfoldable pub load : Load → Guards → S → Result LoadError String × (Guards × S)
  load r g s =
      if is_refused r s
      then if str_eq r.fallback_model_id ""
        then (err ram_insufficient, (g, s))
        else load_fallback r (if is_scoped r then switched r g else g) s
      else after_attempt (server.load r.model_id s) r g
