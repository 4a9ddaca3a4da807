-- ===== src/Guarded/Sources.antt =====
-- The guards of one source under the calls for others: runs of `load` and `reset_source` of
-- app/ai/local_orchestrator/lms_client_guarded.py.
use arkon.Base.{
  ◌≡◌, refl, ◌∙◌, String, true, false, not, Option, none, List, [], ◌∷◌, all, str_eq, str_eq_iff,
  Bool-cases, inl, inr, Result, ok, err, arith,
}
use arkon.Guarded.Oom.{is_oom}
use arkon.Guarded.{
  Key, lookup, Guards, Load, Server, is_scoped, get_active_model, without_source, reset_source,
  switched, counted, after_attempt, is_refused, load,
}

pub data Call : Type 0 where
  load_model : Load → Call
  reset : String → Call

-- the source that a call is for
abbrev pub source_of : Call → String
source_of (load_model r) = r.source_id
source_of (reset source_id) = source_id

-- An entry of another source is not what a key of this one finds.
lookup-other :
    {A : Type 0} (a b source phase : String) (x : A) (entries : List (Key × A))
    → str_eq a source ≡ false
    → lookup (source, phase) (((a, b), x) ∷ entries) ≡ lookup (source, phase) entries
unfolding lookup
lookup-other a b source phase x entries h = rw (lookup, h) refl

lookup-without_source :
    {A : Type 0} (source phase : String) (entries : List (Key × A))
    → lookup (source, phase) (without_source source entries) ≡ none
unfolding lookup without_source
lookup-without_source source phase [] = refl
lookup-without_source source phase (((a, b), x) ∷ entries) = elim (Bool-cases (str_eq a source)) [
  | inl e ↦ rw e (lookup-without_source source phase entries)
  | inr e ↦ rw e (rw e (lookup-without_source source phase entries))
]

lookup-without_other :
    {A : Type 0} (other source phase : String) (entries : List (Key × A))
    → str_eq other source ≡ false
    → lookup (source, phase) (without_source other entries) ≡ lookup (source, phase) entries
unfolding lookup without_source
lookup-without_other other source phase [] h = refl
lookup-without_other other source phase (((a, b), x) ∷ entries) h =
    let rest = lookup-without_other other source phase entries h in
    elim (Bool-cases (str_eq a other)) [
      | inl e ↦
          let same : a ≡ other = (str_eq_iff a other).0 e in
          let differs : str_eq a source ≡ false = rw same h in rw (e, differs) rest
      | inr e ↦ rw (e, rest) refl
    ]

module _ {S : Type 0} (server : Server S) (source phase : String) where
  abbrev pub entry : Guards → Option String
  entry g = lookup (source, phase) g.fallback_active

  switched-entry :
      (r : Load) (g : Guards) → str_eq r.source_id source ≡ false → entry (switched r g) ≡ entry g
  switched-entry r g h =
      lookup-other r.source_id r.phase source phase r.fallback_model_id g.fallback_active h

  after_attempt-entry :
      (p : Result String String × S) (r : Load) (g : Guards)
      → str_eq r.source_id source ≡ false
      → entry (after_attempt server p r g).1.0 ≡ entry g
  unfolding after_attempt
  after_attempt-entry (ok id, s) r g h = refl
  after_attempt-entry (err e, s) r g h = elim (Bool-cases (is_oom e)) [
    | inr oom ↦ rw oom refl
    | inl oom ↦ elim (Bool-cases (is_scoped r)) [
      | inr scoped ↦ rw (oom, scoped) refl
      | inl scoped ↦ elim (Bool-cases (str_eq r.fallback_model_id "")) [
        | inl blank ↦ rw (oom, scoped, blank) refl
        | inr blank ↦ rw (oom, scoped, blank) (switched-entry r (counted r g) h)
      ]
    ]
  ]

  load-entry :
      (r : Load) (g : Guards) (s : S)
      → str_eq r.source_id source ≡ false
      → entry (load server r g s).1.0 ≡ entry g
  unfolding load
  load-entry r g s h = elim (Bool-cases (is_refused server r s)) [
    | inr fits ↦ rw fits (after_attempt-entry (server.load r.model_id s) r g h)
    | inl refused ↦ elim (Bool-cases (str_eq r.fallback_model_id "")) [
      | inl blank ↦ rw (refused, blank) refl
      | inr blank ↦ elim (Bool-cases (is_scoped r)) [
        | inl scoped ↦ rw (refused, blank, scoped) (switched-entry r g h)
        | inr scoped ↦ rw (refused, blank, scoped) refl
      ]
    ]
  ]

-- The calls one after another, whatever they answer.
module _ {S : Type 0} (server : Server S) where
  abbrev pub perform : Call → Guards × S → Guards × S
  perform (load_model r) (g, s) = (load server r g s).1
  perform (reset source_id) (g, s) = (reset_source source_id g, s)

  abbrev pub run : List Call → Guards × S → Guards × S
  run [] gs = gs
  run (c ∷ cs) gs = run cs (perform c gs)

  perform-entry :
      (source phase : String) (c : Call) (gs : Guards × S)
      → str_eq (source_of c) source ≡ false
      → entry server source phase (perform c gs).0 ≡ entry server source phase gs.0
  unfolding reset_source
  perform-entry source phase (load_model r) (g, s) h = load-entry server source phase r g s h
  perform-entry source phase (reset other) (g, s) h =
      lookup-without_other other source phase g.fallback_active h

  run-entry :
      (source phase : String) (cs : List Call) (gs : Guards × S)
      → all (λ c. not (str_eq (source_of c) source)) cs ≡ true
      → entry server source phase (run cs gs).0 ≡ entry server source phase gs.0
  run-entry source phase [] gs h = refl
  run-entry source phase (c ∷ cs) gs h =
      run-entry source phase cs (perform c gs) (ground arith)
      ∙ perform-entry source phase c gs (ground arith)

  -- Once a source is reset, `get_active_model` names the primary model for it, whatever was called
  -- before, and whatever is called then for other sources.
  pub run-reset :
      (source phase primary : String) (before after : List Call) (gs : Guards × S)
      → all (λ c. not (str_eq (source_of c) source)) after ≡ true
      → get_active_model source phase primary (run after (perform (reset source) (run before gs))).0
        ≡ primary
  unfolding get_active_model reset_source
  run-reset source phase primary before after gs h =
      let kept = run-entry source phase after (perform (reset source) (run before gs)) h in
      let gone = lookup-without_source source phase (run before gs).0.fallback_active in
      rw (get_active_model, kept, gone) refl
