-- ===== src/Adapters.antt =====
-- The adapters that a model has loaded: `load_adapter`, `offload_adapter` and
-- `register_preloaded_adapters` of server/lorax_server/models/model.py, `LayerAdapterWeights` of
-- server/lorax_server/adapters/weights.py, and `TokenizerManager` of
-- server/lorax_server/utils/tokenizer.py. Layer names are numbered: the code only compares them.
pub mod Weights
pub mod Laws
pub mod Requests
pub mod Preloaded
pub mod Calls
use mathlib.Core.Option
use lorax.Prelude.{
  ℕ, Bool, true, false, ◌&&◌, ◌||◌, not, Option, none, some, List, [], ◌∷◌, ◌++◌, if◌then◌else◌,
  ◌==◌, contains, add, lookup, put, remove, ◌>>=◌,
}

pub data Error : Type 0 where
  no_adapter_loading no_dynamic_loading load_error : Error

pub data Result (A : Type 0) : Type 0 where
  ok : A → Result A
  raised : Error → Result A

-- `W` are AdapterWeights and `T` are tokenizers.
pub record Model (W T : Type 0) : Type 0 where
  pub supports_adapter_loading : Bool
  pub dynamic_adapter_loading_enabled : Bool
  pub adapter_layers : List ℕ
  pub layer_to_adapter_weights : List (ℕ × List (ℕ × W))
  pub loaded_adapters : List ℕ
  pub preloaded_adapter_indices : List ℕ
  pub tokenizers : List (ℕ × T)

-- What `load_and_merge_adapters` returns: the tokenizer, and for each layer what
-- `load_batched_adapter_weights` gives, where `none` inside is a layer without weights.
pub record Loaded (W T : Type 0) : Type 0 where
  pub batched : ℕ → Result (Option W)
  pub tokenizer : Option T

-- `self.layer_to_adapter_weights[layer]`, a defaultdict.
abbrev pub layer_weights {ℓ} : {W : Type ℓ} → Option (List (ℕ × W)) → List (ℕ × W)
layer_weights none = []
layer_weights (some ws) = ws

-- `s.remove(idx)` of the set of loaded adapters.
pub discard : ℕ → List ℕ → List ℕ
discard idx [] = []
discard idx (x ∷ xs) = let rest = discard idx xs in if x == idx then rest else x ∷ rest

module _ {W T : Type 0} where
  unfoldable pub add_adapter : ℕ → ℕ → W → Model W T → Model W T
  add_adapter layer idx w s = record s {
    layer_to_adapter_weights =
        put layer (put idx w (layer_weights (lookup layer s.layer_to_adapter_weights)))
          s.layer_to_adapter_weights;
  }

  -- The loop over the layers; what it added stays if a later layer raises.
  unfoldable pub load_layers : Loaded W T → ℕ → List ℕ → Model W T → Result (Unit {0}) × Model W T
  load_layers l idx [] s = (ok tt, s)
  load_layers l idx (layer ∷ layers) s = elim (l.batched layer) [
    | raised e ↦ (raised e, s)
    | ok none ↦ load_layers l idx layers s
    | ok (some w) ↦ load_layers l idx layers (add_adapter layer idx w s)
  ]

  abbrev pub add_tokenizer : Option T → ℕ → Model W T → Model W T
  add_tokenizer none idx s = s
  add_tokenizer (some t) idx s = record s { tokenizers = put idx t s.tokenizers }

  abbrev pub finish_load :
      Loaded W T → ℕ → Result (Unit {0}) × Model W T → Result (Unit {0}) × Model W T
  finish_load l idx (raised e, s) = (raised e, s)
  finish_load l idx (ok u, s) =
      let s' = add_tokenizer l.tokenizer idx s in
      (ok tt, record s' { loaded_adapters = add idx s'.loaded_adapters })

  -- The first argument is the result of `load_and_merge_adapters`, where `none` is an exception.
  abbrev pub load_merged : Option (Loaded W T) → ℕ → Model W T → Result (Unit {0}) × Model W T
  load_merged none idx s = (raised load_error, s)
  load_merged (some l) idx s = finish_load l idx (load_layers l idx s.adapter_layers s)

  unfoldable pub load_adapter :
      Option (Loaded W T) → ℕ → Bool → Model W T → Result (Unit {0}) × Model W T
  load_adapter merged idx dynamic s =
      if contains s.loaded_adapters idx
      then (ok tt, s)
      else if not s.supports_adapter_loading
      then (raised no_adapter_loading, s)
      else if dynamic && not s.dynamic_adapter_loading_enabled
      then (raised no_dynamic_loading, s)
      else load_merged merged idx s

  -- `remove_adapter` on one layer, if the layer is there.
  unfoldable pub remove_adapter : ℕ → ℕ → Model W T → Model W T
  remove_adapter layer idx s = elim (lookup layer s.layer_to_adapter_weights) [
    | none ↦ s
    | some ws ↦ record s {
      layer_to_adapter_weights = put layer (remove idx ws) s.layer_to_adapter_weights;
    }
  ]

  unfoldable pub remove_layers : ℕ → List ℕ → Model W T → Model W T
  remove_layers idx [] s = s
  remove_layers idx (layer ∷ layers) s = remove_layers idx layers (remove_adapter layer idx s)

  unfoldable pub offload_adapter : ℕ → Model W T → Result Bool × Model W T
  offload_adapter idx s =
      if not (contains s.loaded_adapters idx)
      then (ok false, s)
      else if contains s.preloaded_adapter_indices idx
      then (ok false, s)
      else if not s.supports_adapter_loading
      then (raised no_adapter_loading, s)
      else if not s.dynamic_adapter_loading_enabled
      then (raised no_dynamic_loading, s)
      else let s' = remove_layers idx s.adapter_layers s in
        (ok true, record s' { loaded_adapters = discard idx s'.loaded_adapters })

  -- The indices that `register_preloaded_adapters` keeps from being offloaded.
  pub register_preloaded : List ℕ → Model W T → Model W T
  register_preloaded [] s = s
  register_preloaded (idx ∷ ids) s =
      register_preloaded ids
        (record s { preloaded_adapter_indices = add idx s.preloaded_adapter_indices })

  -- `TokenizerManager.get_tokenizer`
  pub get_tokenizer : ℕ → T → Model W T → T
  get_tokenizer idx default s = elim (lookup idx s.tokenizers) [ none ↦ default | some t ↦ t ]
