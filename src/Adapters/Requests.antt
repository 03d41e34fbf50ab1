-- ===== src/Adapters/Requests.antt =====
-- The handlers LoadAdapter and OffloadAdapter of `LoraxService` in
-- server/lorax_server/server.py, and the sources of adapters in
-- server/lorax_server/utils/adapter.py. Ids of adapters are numbered; `base_id` is
-- BASE_MODEL_ADAPTER_ID.
use lorax.Prelude.{
  ℕ, Bool, true, false, Option, none, some, List, [], ◌∷◌, ◌==◌, contains, if◌then◌else◌, ◌>>=◌,
}
use lorax.Adapters.{Error, Result, ok, raised, Model, Loaded, load_adapter, offload_adapter}

pub data AdapterSource : Type 0 where
  hub s3 local pbase : AdapterSource

-- `none` is the ValueError of an unknown source.
unfoldable pub adapter_source_enum_to_string : ℕ → Option AdapterSource
adapter_source_enum_to_string n =
    if n == 0
    then some hub
    else if n == 1
    then some s3
    else if n == 2
    then some local
    else if n == 3
    then some pbase
    else none

unfoldable pub enum_string_to_adapter_source : AdapterSource → ℕ
enum_string_to_adapter_source hub = 0
enum_string_to_adapter_source s3 = 1
enum_string_to_adapter_source local = 2
enum_string_to_adapter_source pbase = 3

unfoldable pub is_base_model : ℕ → List ℕ → Bool
is_base_model base_id [] = false
is_base_model base_id (id ∷ []) = id == base_id
is_base_model base_id (id ∷ id' ∷ ids) = false

pub data RequestError : Type 0 where
  unknown_source pbase_error : RequestError
  model_error : Error → RequestError

pub data Response : Type 0 where
  answer : Bool → Response
  failed : RequestError → Response

-- A LoadAdapterRequest or an OffloadAdapterRequest.
pub record AdapterRequest : Type 0 where
  pub adapter_ids : List ℕ
  pub adapter_source : ℕ
  pub adapter_index : ℕ

-- The loop that maps the ids of a Predibase source.
unfoldable pub map_ids : (ℕ → Option ℕ) → List ℕ → Option (List ℕ)
map_ids map_id [] = some []
map_ids map_id (id ∷ ids) = do mapped ← map_id id; rest ← map_ids map_id ids; some (mapped ∷ rest)

-- The ids and the source that the model is handed; `map_id` is `map_pbase_model_id_to_s3`.
unfoldable pub resolve_source :
    (ℕ → Option ℕ) → AdapterSource → List ℕ → Option (List ℕ × AdapterSource)
unfolding map_ids
resolve_source map_id pbase ids = map_ids map_id ids >>= λ mapped. some (mapped, s3)
resolve_source map_id hub ids = some (ids, hub)
resolve_source map_id s3 ids = some (ids, s3)
resolve_source map_id local ids = some (ids, local)

-- The calls of the two handlers.
pub data AdapterCall : Type 0 where
  loads offloads : AdapterRequest → AdapterCall

module _ {W T : Type 0} where
  unfoldable pub loaded_response : Result (Unit {0}) × Model W T → Response × Model W T
  loaded_response (ok tt, s) = (answer true, s)
  loaded_response (raised e, s) = (failed (model_error e), s)

  unfoldable pub offloaded_response : Result Bool × Model W T → Response × Model W T
  offloaded_response (ok b, s) = (answer b, s)
  offloaded_response (raised e, s) = (failed (model_error e), s)

  module _ (base_id : ℕ) (map_id : ℕ → Option ℕ)
      (merge : List ℕ → AdapterSource → ℕ → Option (Loaded W T)) where
    -- LoadAdapter, once the source is known.
    unfoldable pub load_from : ℕ → List ℕ → AdapterSource → Model W T → Response × Model W T
    unfolding resolve_source loaded_response
    load_from idx ids source s = elim (resolve_source map_id source ids) [
      | none ↦ (failed pbase_error, s)
      | some (mapped, from) ↦ loaded_response (load_adapter (merge mapped from idx) idx true s)
    ]

    unfoldable pub load_adapter_request : AdapterRequest → Model W T → Response × Model W T
    unfolding is_base_model adapter_source_enum_to_string load_from
    load_adapter_request request s =
        if is_base_model base_id request.adapter_ids
        then (answer false, s)
        else if contains s.loaded_adapters request.adapter_index
        then (answer true, s)
        else elim (adapter_source_enum_to_string request.adapter_source) [
          | none ↦ (failed unknown_source, s)
          | some source ↦ load_from request.adapter_index request.adapter_ids source s
        ]

    unfoldable pub offload_adapter_request : AdapterRequest → Model W T → Response × Model W T
    unfolding is_base_model adapter_source_enum_to_string offloaded_response
    offload_adapter_request request s =
        if is_base_model base_id request.adapter_ids
        then (answer false, s)
        else elim (adapter_source_enum_to_string request.adapter_source) [
          | none ↦ (failed unknown_source, s)
          | some source ↦ offloaded_response (offload_adapter request.adapter_index s)
        ]

    -- A sequence of calls.
    unfoldable pub serve_adapters : List AdapterCall → Model W T → Model W T
    unfolding load_adapter_request offload_adapter_request
    serve_adapters [] s = s
    serve_adapters (loads request ∷ calls) s =
        serve_adapters calls (load_adapter_request request s).1
    serve_adapters (offloads request ∷ calls) s =
        serve_adapters calls (offload_adapter_request request s).1
