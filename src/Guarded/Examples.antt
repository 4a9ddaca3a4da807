-- ===== src/Guarded/Examples.antt =====
-- A server that lacks the memory for the big model until it is drained, and runs of the pattern.
use arkon.Base.{◌≡◌, refl, String, Bool, true, false, none, [], ◌∷◌, Result, ok, err}
use arkon.Guarded.Oom.{is_oom, search_parts, search_part, strip_part}
use arkon.Guarded.{
  Guards, Load, Server, get_active_model, lookup, load, load_after, drain_then_load, after_attempt,
}
use arkon.Guarded.Active.{load-active, load-stale}
use arkon.Guarded.Sources.{load_model, reset, run, perform, run-reset}

oom_texts :
    (is_oom "CUDA Out Of Memory" ≡ true)
    × (is_oom "Metal: no more memory" ≡ true)
    × (is_oom "insufficient system resources" ≡ true)
    × (is_oom "model not found" ≡ false)
unfolding is_oom search_parts search_part strip_part
oom_texts = (refl, refl, refl, refl)

-- the state is whether the memory is free
abbrev answer : String → Bool → Result String String × Bool
answer model true = (ok model, false)
answer model false = (err "out of memory", false)

abbrev server : Server Bool
server = record {
  load = answer;
  has_force_unload_all = true;
  force_unload_all = λ _. (ok tt, true);
  skip_ram_preflight = true;
  can_load = λ _ _. true;
}

abbrev request : Load
request = record {
  model_id = "big";
  source_id = "job";
  phase = "main_llm";
  estimated = true;
  fallback_model_id = "small";
}

abbrev no_guards : Guards
no_guards = record { oom_counter = []; fallback_active = [] }

abbrev after_oom : Guards
after_oom = record {
  oom_counter = (("job", "main_llm"), 1) ∷ [];
  fallback_active = (("job", "main_llm"), "small") ∷ [];
}

switches : load server request no_guards false ≡ (ok "small", (after_oom, false))
unfolding load after_attempt is_oom search_parts search_part strip_part drain_then_load load_after
    lookup
switches = refl

free_at_first : lookup ("job", "main_llm") no_guards.fallback_active ≡ none
unfolding lookup
free_at_first = refl

load-active_example :
    (at : Bool) × (server.load (get_active_model "job" "main_llm" "big" after_oom) at
      ≡ (ok "small", false))
load-active_example =
    load-active server request no_guards after_oom false false "small" refl free_at_first switches

lack : is_oom "out of memory" ≡ true
unfolding is_oom search_parts search_part strip_part
lack = refl

load-stale_example :
    (load server request after_oom true ≡ (ok "big", (after_oom, false)))
    × (get_active_model "job" "main_llm" "big" after_oom ≡ "small")
load-stale_example =
    load-stale server request no_guards after_oom false false false true false "out of memory"
      "small" "big" refl refl refl refl lack switches refl refl

run-reset_example :
    get_active_model "job" "main_llm" "big"
      (run server
        (load_model (record request { source_id = "other" }) ∷ [])
        (perform server (reset "job") (run server (load_model request ∷ []) (no_guards, false)))).0
    ≡ "big"
run-reset_example =
    run-reset server "job" "main_llm" "big" (load_model request ∷ [])
      (load_model (record request { source_id = "other" }) ∷ []) (no_guards, false) refl
