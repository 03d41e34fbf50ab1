-- ===== src/Adapters/Calls.antt =====
-- Sequences of requests on the adapters of a model.
use lorax.Prelude.{
  ℕ, ◌≡◌, refl, sym, subst, Bool, true, Option, List, [], ◌∷◌, contains, Option-cases, Bool-cases,
  inl, inr,
}
use lorax.Adapters.{Result, ok, raised, Model, Loaded, load_adapter, offload_adapter}
use lorax.Adapters.Requests.{
  AdapterRequest, AdapterSource, load_adapter_request, offload_adapter_request, load_from,
  loaded_response, offloaded_response, resolve_source, adapter_source_enum_to_string,
}
use lorax.Adapters.Requests.{AdapterCall, loads, offloads, serve_adapters, is_base_model}
use lorax.Adapters.Preloaded.{IsKept, load_adapter-IsKept, offload_adapter-IsKept}

module _ {W T : Type 0} where
  loaded_response-snd : (r : Result (Unit {0}) × Model W T) → (loaded_response r).1 ≡ r.1
  unfolding loaded_response
  loaded_response-snd (ok tt, t) = refl
  loaded_response-snd (raised e, t) = refl

  offloaded_response-snd : (r : Result Bool × Model W T) → (offloaded_response r).1 ≡ r.1
  unfolding offloaded_response
  offloaded_response-snd (ok b, t) = refl
  offloaded_response-snd (raised e, t) = refl

  module _ (base_id : ℕ) (map_id : ℕ → Option ℕ)
      (merge : List ℕ → AdapterSource → ℕ → Option (Loaded W T)) where
    load_from-IsKept :
        (idx j : ℕ) (ids : List ℕ) (source : AdapterSource) (s t : Model W T)
        → IsKept j s t
        → IsKept j s (load_from base_id map_id merge idx ids source t).1
    unfolding load_from loaded_response
    load_from-IsKept idx j ids source s t kept =
        elim (Option-cases (resolve_source map_id source ids)) [
          | inl e ↦ rw (e, load_from) kept
          | inr ((mapped, from), e) ↦
              rw (e, load_from)
                (subst (IsKept j s)
                  (sym (loaded_response-snd (load_adapter (merge mapped from idx) idx true t)))
                  (load_adapter-IsKept (merge mapped from idx) idx j true s t kept))
        ]

    load_adapter_request-IsKept :
        (j : ℕ) (request : AdapterRequest) (s t : Model W T)
        → IsKept j s t
        → IsKept j s (load_adapter_request base_id map_id merge request t).1
    unfolding load_adapter_request IsKept
    load_adapter_request-IsKept j request s t kept =
        elim (Bool-cases (is_base_model base_id request.adapter_ids)) [
          | inl e ↦ rw (e, load_adapter_request) kept
          | inr e ↦ elim (Bool-cases (contains t.loaded_adapters request.adapter_index)) [
            | inl f ↦ rw (e, f, load_adapter_request) kept
            | inr f ↦ elim (Option-cases (adapter_source_enum_to_string request.adapter_source)) [
              | inl g ↦ rw (e, f, g, load_adapter_request) kept
              | inr (source, g) ↦
                  rw (e, f, g, load_adapter_request)
                    (load_from-IsKept request.adapter_index j request.adapter_ids source s t kept)
            ]
          ]
        ]

    offload_adapter_request-IsKept :
        (j : ℕ) (request : AdapterRequest) (s t : Model W T)
        → IsKept j s t
        → IsKept j s (offload_adapter_request base_id map_id merge request t).1
    unfolding offload_adapter_request IsKept
    offload_adapter_request-IsKept j request s t kept =
        elim (Bool-cases (is_base_model base_id request.adapter_ids)) [
          | inl e ↦ rw (e, offload_adapter_request) kept
          | inr e ↦ elim (Option-cases (adapter_source_enum_to_string request.adapter_source)) [
            | inl g ↦ rw (e, g, offload_adapter_request) kept
            | inr (source, g) ↦
                rw (e, g, offload_adapter_request)
                  (subst (IsKept j s)
                    (sym (offloaded_response-snd (offload_adapter request.adapter_index t)))
                    (offload_adapter-IsKept request.adapter_index j s t kept))
          ]
        ]

    serve_adapters-IsKept_from :
        (j : ℕ) (calls : List AdapterCall) (s t : Model W T)
        → IsKept j s t
        → IsKept j s (serve_adapters base_id map_id merge calls t)
    unfolding serve_adapters
    serve_adapters-IsKept_from j [] s t kept = kept
    serve_adapters-IsKept_from j (loads request ∷ calls) s t kept =
        serve_adapters-IsKept_from j calls s (load_adapter_request base_id map_id merge request t).1
          (load_adapter_request-IsKept j request s t kept)
    serve_adapters-IsKept_from j (offloads request ∷ calls) s t kept =
        serve_adapters-IsKept_from j calls s
          (offload_adapter_request base_id map_id merge request t).1
          (offload_adapter_request-IsKept j request s t kept)

    -- Through any sequence of the requests LoadAdapter and OffloadAdapter, failing ones included,
    -- an adapter that is preloaded and loaded stays so, with the same weights in every layer.
    pub serve_adapters-IsKept :
        (j : ℕ) (calls : List AdapterCall) (s : Model W T)
        → contains s.loaded_adapters j ≡ true
        → contains s.preloaded_adapter_indices j ≡ true
        → IsKept j s (serve_adapters base_id map_id merge calls s)
    unfolding IsKept
    serve_adapters-IsKept j calls s h g =
        serve_adapters-IsKept_from j calls s s (h, g, λ layer. refl)
