-- ===== src/Adapters/Preloaded.antt =====
-- Requests on a model's adapters leave the preloaded ones as they are.
use lorax.Prelude.{
  ℕ, ◌≡◌, refl, ap, sym, subst, ◌∙◌, arith, Bool, true, false, Option, none, some, List, [], ◌∷◌,
  ◌==◌, ◌&&◌, not, contains, contains-add, Option-cases, Bool-cases, inl, inr, ◌⊎◌,
}
use lorax.Adapters.{
  Result, ok, raised, Model, Loaded, add_adapter, load_layers, finish_load, load_merged,
  load_adapter, discard, remove_adapter, remove_layers, offload_adapter,
}
use lorax.Adapters.Weights.{
  batched_cases, weights_at, load_layers-loaded, remove_layers-eq, remove_layers-loaded,
  contains-discard, weights_at-add,
}

not_same : (xs : List ℕ) (i j : ℕ) → contains xs i ≡ false → contains xs j ≡ true → (i == j) ≡ false
not_same xs i j h g = elim (Bool-cases (i == j)) [ inl e ↦ ground (arith, e, h, g) | inr e ↦ e ]

module _ {W T : Type 0} where
  load_layers-others :
      (l : Loaded W T) (idx j : ℕ) (layers : List ℕ) (s : Model W T)
      → (idx == j) ≡ false
      → ((layer : ℕ) → weights_at (load_layers l idx layers s).1 layer j ≡ weights_at s layer j)
        × ((load_layers l idx layers s).1.preloaded_adapter_indices ≡ s.preloaded_adapter_indices)
  unfolding load_layers add_adapter
  load_layers-others l idx j [] s h = (λ layer. refl, refl)
  load_layers-others l idx j (k ∷ layers) s h = elim (batched_cases (l.batched k)) [
    | inl (e, p) ↦ rw (p, load_layers) (λ layer. refl, refl)
    | inr (inl p) ↦ rw (p, load_layers) (load_layers-others l idx j layers s h)
    | inr (inr (w, p)) ↦
        let (same, kept) = load_layers-others l idx j layers (add_adapter k idx w s) h in
        rw (p, load_layers)
          (λ layer. same layer ∙ ground (arith, h, weights_at-add k idx w s layer j), kept)
  ]

  remove_layers-preloaded :
      (idx : ℕ) (layers : List ℕ) (s : Model W T)
      → (remove_layers idx layers s).preloaded_adapter_indices ≡ s.preloaded_adapter_indices
  unfolding remove_layers remove_adapter
  remove_layers-preloaded idx [] s = refl
  remove_layers-preloaded idx (k ∷ layers) s =
      ground (arith, remove_layers-preloaded idx layers (remove_adapter k idx s))

  -- Adapter `j` is preloaded and loaded, with the weights that it has in `s`.
  unfoldable pub IsKept : ℕ → Model W T → Model W T → Type 0
  IsKept j s t =
      (contains t.loaded_adapters j ≡ true)
      × (contains t.preloaded_adapter_indices j ≡ true)
      × ((layer : ℕ) → weights_at t layer j ≡ weights_at s layer j)

  finish_load-IsKept :
      (l : Loaded W T) (idx j : ℕ) (s t : Model W T) (r : Result (Unit {0}))
      → IsKept j s t
      → IsKept j s (finish_load l idx (r, t)).1
  unfolding IsKept
  finish_load-IsKept l idx j s t (raised e) kept = kept
  finish_load-IsKept l idx j s t (ok tt) (loaded, pre, same) = elim (Option-cases l.tokenizer) [
    | inl e ↦ rw e (ground (arith, loaded, contains-add idx j t.loaded_adapters), pre, same)
    | inr (k, e) ↦ rw e (ground (arith, loaded, contains-add idx j t.loaded_adapters), pre, same)
  ]

  load_merged-IsKept :
      (merged : Option (Loaded W T)) (idx j : ℕ) (s t : Model W T)
      → (idx == j) ≡ false
      → IsKept j s t
      → IsKept j s (load_merged merged idx t).1
  unfolding IsKept
  load_merged-IsKept none idx j s t h kept = kept
  load_merged-IsKept (some l) idx j s t h kept =
      finish_load-IsKept l idx j s (load_layers l idx t.adapter_layers t).1
        (load_layers l idx t.adapter_layers t).0 (after kept)
    where
      after : IsKept j s t → IsKept j s (load_layers l idx t.adapter_layers t).1
      after (loaded, pre, same) =
          let (others, kept) = load_layers-others l idx j t.adapter_layers t h in
          (
            ap (λ xs. contains xs j) (load_layers-loaded l idx t.adapter_layers t) ∙ loaded,
            ap (λ xs. contains xs j) kept ∙ pre,
            λ layer. others layer ∙ same layer,
          )

  -- A load leaves the model as it is, or it is of an adapter that was not loaded.
  load_adapter-either :
      (merged : Option (Loaded W T)) (idx : ℕ) (dynamic : Bool) (t : Model W T)
      → ((load_adapter merged idx dynamic t).1 ≡ t)
        ⊎ ((contains t.loaded_adapters idx ≡ false)
            × ((load_adapter merged idx dynamic t).1 ≡ (load_merged merged idx t).1))
  unfolding load_adapter
  load_adapter-either merged idx dynamic t = elim (Bool-cases (contains t.loaded_adapters idx)) [
    | inl e ↦ inl (ground (arith, e))
    | inr e ↦ elim (Bool-cases (not t.supports_adapter_loading)) [
      | inl f ↦ inl (ground (arith, e, f))
      | inr f ↦ elim (Bool-cases (dynamic && not t.dynamic_adapter_loading_enabled)) [
        | inl g ↦ inl (ground (arith, e, f, g))
        | inr g ↦ inr (e, ground (arith, e, f, g))
      ]
    ]
  ]

  -- An offload leaves the model as it is, or it is of an adapter that is not preloaded.
  offload_adapter-either :
      (idx : ℕ) (t : Model W T)
      → ((offload_adapter idx t).1 ≡ t)
        ⊎ ((contains t.preloaded_adapter_indices idx ≡ false)
            × ((offload_adapter idx t).1 ≡ record (remove_layers idx t.adapter_layers t) {
              loaded_adapters = discard idx (remove_layers idx t.adapter_layers t).loaded_adapters;
            }))
  unfolding offload_adapter
  offload_adapter-either idx t = elim (Bool-cases (not (contains t.loaded_adapters idx))) [
    | inl e ↦ inl (ground (arith, e))
    | inr e ↦ elim (Bool-cases (contains t.preloaded_adapter_indices idx)) [
      | inl f ↦ inl (ground (arith, e, f))
      | inr f ↦ elim (Bool-cases (not t.supports_adapter_loading)) [
        | inl g ↦ inl (ground (arith, e, f, g))
        | inr g ↦ elim (Bool-cases (not t.dynamic_adapter_loading_enabled)) [
          | inl k ↦ inl (ground (arith, e, f, g, k))
          | inr k ↦ inr (f, ground (arith, e, f, g, k))
        ]
      ]
    ]
  ]

  pub load_adapter-IsKept :
      (merged : Option (Loaded W T)) (idx j : ℕ) (dynamic : Bool) (s t : Model W T)
      → IsKept j s t
      → IsKept j s (load_adapter merged idx dynamic t).1
  unfolding IsKept
  load_adapter-IsKept merged idx j dynamic s t kept =
      elim (load_adapter-either merged idx dynamic t) [
        | inl e ↦ subst (IsKept j s) (sym e) kept
        | inr (h, e) ↦
            subst (IsKept j s) (sym e)
              (load_merged-IsKept merged idx j s t (not_same t.loaded_adapters idx j h kept.0) kept)
      ]

  pub offload_adapter-IsKept :
      (idx j : ℕ) (s t : Model W T) → IsKept j s t → IsKept j s (offload_adapter idx t).1
  unfolding IsKept
  offload_adapter-IsKept idx j s t kept = elim (offload_adapter-either idx t) [
    | inl e ↦ subst (IsKept j s) (sym e) kept
    | inr (h, e) ↦
        let other = not_same t.preloaded_adapter_indices idx j h kept.1 in
        subst (IsKept j s) (sym e) (removed kept other)
  ]
    where
      removed :
          IsKept j s t
          → (idx == j) ≡ false
          → IsKept j s (record (remove_layers idx t.adapter_layers t) {
            loaded_adapters = discard idx (remove_layers idx t.adapter_layers t).loaded_adapters;
          })
      removed (loaded, pre, same) other = (
        ground (
          arith,
          other,
          loaded,
          contains-discard idx j t.loaded_adapters,
          remove_layers-loaded idx t.adapter_layers t,
        ),
        ap (λ xs. contains xs j) (remove_layers-preloaded idx t.adapter_layers t) ∙ pre,
        λ layer. ground (arith, other, same layer, remove_layers-eq idx t.adapter_layers t layer j),
      )
