-- ===== src/Adapters/Weights.antt =====
-- The weights of a layer as loading and offloading change them, layer by layer.
use lorax.Prelude.{
  ℕ, ◌≡◌, refl, arith, Option, none, some, List, [], ◌∷◌, ◌==◌, ◌&&◌, not, if◌then◌else◌, contains,
  lookup, put, remove, lookup-put, lookup-remove, Option-cases, inl, inr, ◌⊎◌,
}
use lorax.Adapters.{
  Error, Result, ok, raised, Model, Loaded, layer_weights, add_adapter, load_layers, discard,
  remove_adapter, remove_layers,
}

lookup-nil {ℓ} : {V : Type ℓ} (j : ℕ) → lookup {V = V} j [] ≡ none
unfolding lookup
lookup-nil j = refl

pub batched_cases :
    {W : Type 0} (r : Result (Option W))
    → ((e : Error) × (r ≡ raised e)) ⊎ (r ≡ ok none) ⊎ ((w : W) × (r ≡ ok (some w)))
batched_cases (raised e) = inl (e, refl)
batched_cases (ok none) = inr (inl refl)
batched_cases (ok (some w)) = inr (inr (w, refl))

-- What a layer has after a load: the new weights, or what it had if it got none.
abbrev pub override : {W : Type 0} → Result (Option W) → Option W → Option W
override (ok (some w)) old = some w
override (ok none) old = old
override (raised e) old = old

pub contains-discard :
    (k j : ℕ) (xs : List ℕ) → contains (discard k xs) j ≡ (not (k == j) && contains xs j)
unfolding discard contains
contains-discard k j [] = ground arith
contains-discard k j (x ∷ xs) = ground (arith, contains-discard k j xs)

module _ {W T : Type 0} where
  -- The weights of adapter `idx` in a layer.
  abbrev pub weights_at : Model W T → ℕ → ℕ → Option W
  weights_at s layer idx = lookup idx (layer_weights (lookup layer s.layer_to_adapter_weights))

  pub weights_at-add :
      (layer idx : ℕ) (w : W) (s : Model W T) (l j : ℕ)
      → weights_at (add_adapter layer idx w s) l j
        ≡ (if layer == l && idx == j then some w else weights_at s l j)
  unfolding add_adapter
  weights_at-add layer idx w s l j = ground (
    arith,
    lookup-put layer l (put idx w (layer_weights (lookup layer s.layer_to_adapter_weights)))
        s.layer_to_adapter_weights,
    lookup-put idx j w (layer_weights (lookup layer s.layer_to_adapter_weights)),
  )

  weights_at-remove :
      (layer idx : ℕ) (s : Model W T) (l j : ℕ)
      → weights_at (remove_adapter layer idx s) l j
        ≡ (if layer == l && idx == j then none else weights_at s l j)
  unfolding remove_adapter
  weights_at-remove layer idx s l j =
      elim (Option-cases (lookup layer s.layer_to_adapter_weights)) [
        | inl e ↦ rw (e, remove_adapter) (ground (arith, e, lookup-nil {V = W} j))
        | inr (ws, e) ↦
            rw (e, remove_adapter)
              (ground (
                arith,
                lookup-put layer l (remove idx ws) s.layer_to_adapter_weights,
                lookup-remove idx j ws,
              ))
      ]

  pub load_layers-weights :
      (l : Loaded W T) (idx : ℕ) (layers : List ℕ) (s : Model W T) (layer j : ℕ)
      → (load_layers l idx layers s).0 ≡ ok tt
      → weights_at (load_layers l idx layers s).1 layer j ≡ (
          if contains layers layer && idx == j
          then override (l.batched layer) (weights_at s layer j)
          else weights_at s layer j)
  unfolding load_layers contains
  load_layers-weights l idx [] s layer j h = refl
  load_layers-weights l idx (k ∷ layers) s layer j h = elim (batched_cases (l.batched k)) [
    | inl (e, p) ↦ ground (arith, p, h)
    | inr (inl p) ↦ ground (arith, p, h, load_layers-weights l idx layers s layer j)
    | inr (inr (w, p)) ↦ ground (
      arith,
      p,
      h,
      load_layers-weights l idx layers (add_adapter k idx w s) layer j,
      weights_at-add k idx w s layer j,
    )
  ]

  pub load_layers-keeps :
      (l : Loaded W T) (idx : ℕ) (layers : List ℕ) (s : Model W T) (layer : ℕ) (v : W)
      → l.batched layer ≡ ok (some v)
      → weights_at s layer idx ≡ some v
      → weights_at (load_layers l idx layers s).1 layer idx ≡ some v
  unfolding load_layers
  load_layers-keeps l idx [] s layer v b h = h
  load_layers-keeps l idx (k ∷ layers) s layer v b h = elim (batched_cases (l.batched k)) [
    | inl (e, p) ↦ rw (p, load_layers) h
    | inr (inl p) ↦ rw (p, load_layers) (load_layers-keeps l idx layers s layer v b h)
    | inr (inr (w, p)) ↦
        rw (p, load_layers)
          (load_layers-keeps l idx layers (add_adapter k idx w s) layer v b
            (ground (arith, p, b, h, weights_at-add k idx w s layer idx)))
  ]

  pub load_layers-loaded :
      (l : Loaded W T) (idx : ℕ) (layers : List ℕ) (s : Model W T)
      → (load_layers l idx layers s).1.loaded_adapters ≡ s.loaded_adapters
  unfolding load_layers add_adapter
  load_layers-loaded l idx [] s = refl
  load_layers-loaded l idx (k ∷ layers) s = elim (batched_cases (l.batched k)) [
    | inl (e, p) ↦ rw (p, load_layers)
    | inr (inl p) ↦ rw (p, load_layers) (load_layers-loaded l idx layers s)
    | inr (inr (w, p)) ↦
        rw (p, load_layers) (load_layers-loaded l idx layers (add_adapter k idx w s))
  ]

  pub remove_layers-eq :
      (idx : ℕ) (layers : List ℕ) (s : Model W T) (layer j : ℕ)
      → weights_at (remove_layers idx layers s) layer j
        ≡ (if contains layers layer && idx == j then none else weights_at s layer j)
  unfolding remove_layers contains
  remove_layers-eq idx [] s layer j = refl
  remove_layers-eq idx (k ∷ layers) s layer j = ground (
    arith,
    remove_layers-eq idx layers (remove_adapter k idx s) layer j,
    weights_at-remove k idx s layer j,
  )

  pub remove_layers-loaded :
      (idx : ℕ) (layers : List ℕ) (s : Model W T)
      → ((remove_layers idx layers s).loaded_adapters ≡ s.loaded_adapters)
        × ((remove_layers idx layers s).tokenizers ≡ s.tokenizers)
  unfolding remove_layers remove_adapter
  remove_layers-loaded idx [] s = (refl, refl)
  remove_layers-loaded idx (k ∷ layers) s =
      ground (arith, remove_layers-loaded idx layers (remove_adapter k idx s))
