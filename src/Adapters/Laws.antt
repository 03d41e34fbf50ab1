-- ===== src/Adapters/Laws.antt =====
-- Loading and offloading as seen in the weights of a layer.
use lorax.Prelude.{
  ℕ, ◌≡◌, refl, ap, ==_iff, sym, subst, ◌∙◌, arith, Bool, true, false, Option, none, some, List, [],
  ◌∷◌, ◌==◌, ◌||◌, ◌&&◌, not, if◌then◌else◌, contains, Option-cases, inl, inr, contains-add,
}
use lorax.Adapters.{
  Error, Result, ok, raised, Model, Loaded, add_adapter, load_layers, finish_load, load_adapter,
  discard, remove_layers, offload_adapter,
}
use lorax.Adapters.Weights.{
  batched_cases, weights_at, override, load_layers-weights, load_layers-keeps, load_layers-loaded,
  remove_layers-eq, remove_layers-loaded, contains-discard, weights_at-add,
}

restored :
    {W : Type 0} (idx layer j : ℕ) (layers layers' : List ℕ)
    → layers' ≡ layers
    → (old new now : Option W) → ((idx == j) ≡ true → old ≡ none)
    → now ≡ (if contains layers layer && idx == j then new else old)
    → (if contains layers' layer && idx == j then none else now) ≡ old
restored idx layer j layers layers' e old new now fresh h = ground (arith, e, fresh, h)

same_loaded :
    (idx j : ℕ) (old now : Bool)
    → now ≡ (idx == j || old)
    → ((idx == j) ≡ true → old ≡ false)
    → (not (idx == j) && now) ≡ old
same_loaded idx j old now h fresh = ground (arith, h, fresh)

module _ {W T : Type 0} where
  loaded_of :
      (l : Loaded W T) (idx : ℕ) (s : Model W T) (r : Result (Unit {0}) × Model W T)
      → r.1.loaded_adapters ≡ s.loaded_adapters
      → (finish_load l idx r).0 ≡ ok tt
      → (r.0 ≡ ok tt)
        × ((layer j : ℕ) → weights_at (finish_load l idx r).1 layer j ≡ weights_at r.1 layer j)
        × ((j : ℕ)
            → contains (finish_load l idx r).1.loaded_adapters j
              ≡ (idx == j || contains s.loaded_adapters j))
  loaded_of l idx s (raised e, t) h p = ground (arith, p)
  loaded_of l idx s (ok tt, t) h p = elim (Option-cases l.tokenizer) [
    | inl e ↦ (refl, λ layer j. rw e, λ j. rw (e, h) (contains-add idx j s.loaded_adapters))
    | inr (k, e) ↦ (refl, λ layer j. rw e, λ j. rw (e, h) (contains-add idx j s.loaded_adapters))
  ]

  -- A load that succeeds passed the guards.
  load_adapter-open :
      (l : Loaded W T) (idx : ℕ) (dynamic : Bool) (s : Model W T)
      → contains s.loaded_adapters idx ≡ false
      → (load_adapter (some l) idx dynamic s).0 ≡ ok tt
      → load_adapter (some l) idx dynamic s
        ≡ finish_load l idx (load_layers l idx s.adapter_layers s)
  unfolding load_adapter
  load_adapter-open l idx dynamic s h p = ground (arith, h, p)

  -- When the load of an adapter that was not loaded succeeds, its weights in every adapter layer
  -- are those that the adapter has for that layer (a layer it has none for keeps what it had), the
  -- weights of all other adapters and layers are as before, and the adapter joins the loaded ones.
  pub load_adapter-weights :
      (l : Loaded W T) (idx : ℕ) (dynamic : Bool) (s : Model W T)
      → contains s.loaded_adapters idx ≡ false
      → (load_adapter (some l) idx dynamic s).0 ≡ ok tt
      → ((layer j : ℕ)
          → weights_at (load_adapter (some l) idx dynamic s).1 layer j ≡ (
              if contains s.adapter_layers layer && idx == j
              then override (l.batched layer) (weights_at s layer j)
              else weights_at s layer j))
        × ((j : ℕ)
            → contains (load_adapter (some l) idx dynamic s).1.loaded_adapters j
              ≡ (idx == j || contains s.loaded_adapters j))
  load_adapter-weights l idx dynamic s h p =
      let e = load_adapter-open l idx dynamic s h p in
      let (q, same, loaded) =
        loaded_of l idx s (load_layers l idx s.adapter_layers s)
          (load_layers-loaded l idx s.adapter_layers s) (subst (λ r. r.0 ≡ ok tt) e p) in
      (
        λ layer j. rw e (same layer j ∙ load_layers-weights l idx s.adapter_layers s layer j q),
        λ j. rw e (loaded j),
      )

  -- An offload that answers true passed the guards.
  offload_adapter-open :
      (idx : ℕ) (s : Model W T)
      → (offload_adapter idx s).0 ≡ ok true
      → offload_adapter idx s ≡ (
        ok true,
        record (remove_layers idx s.adapter_layers s) {
          loaded_adapters = discard idx (remove_layers idx s.adapter_layers s).loaded_adapters;
        },
      )
  unfolding offload_adapter
  offload_adapter-open idx s p = ground (arith, p)

  -- When an offload answers true, the adapter has no weights in any adapter layer any more and is
  -- not among the loaded ones; every other adapter keeps its weights and its place, and the
  -- tokenizers stay, the one of the offloaded adapter included.
  pub offload_adapter-weights :
      (idx : ℕ) (s : Model W T)
      → (offload_adapter idx s).0 ≡ ok true
      → ((layer j : ℕ)
          → weights_at (offload_adapter idx s).1 layer j
            ≡ (if contains s.adapter_layers layer && idx == j then none else weights_at s layer j))
        × ((j : ℕ)
            → contains (offload_adapter idx s).1.loaded_adapters j
              ≡ (not (idx == j) && contains s.loaded_adapters j))
        × ((offload_adapter idx s).1.tokenizers ≡ s.tokenizers)
  offload_adapter-weights idx s p =
      let e = offload_adapter-open idx s p in
      let (loaded, tokens) = remove_layers-loaded idx s.adapter_layers s in
      (
        λ layer j. rw e (remove_layers-eq idx s.adapter_layers s layer j),
        λ j. rw (e, loaded) (contains-discard idx j s.loaded_adapters),
        rw e tokens,
      )

  finish_raised :
      (l : Loaded W T) (idx : ℕ) (e : Error) (r : Result (Unit {0}) × Model W T)
      → r.0 ≡ raised e
      → finish_load l idx r ≡ r
  finish_raised l idx e (raised d, t) p = refl
  finish_raised l idx e (ok tt, t) p = ground (arith, p)

  load_adapter-raised :
      (l : Loaded W T) (idx : ℕ) (dynamic : Bool) (s : Model W T) (e : Error)
      → contains s.loaded_adapters idx ≡ false
      → s.supports_adapter_loading ≡ true
      → (dynamic && not s.dynamic_adapter_loading_enabled) ≡ false
      → (load_layers l idx s.adapter_layers s).0 ≡ raised e
      → load_adapter (some l) idx dynamic s ≡ load_layers l idx s.adapter_layers s
  unfolding load_adapter
  load_adapter-raised l idx dynamic s e h g d p =
      simp (h, g, d) (finish_raised l idx e (load_layers l idx s.adapter_layers s) p)

  load_layers-first :
      (l : Loaded W T) (idx : ℕ) (s : Model W T) (layer : ℕ) (layers : List ℕ) (w : W)
      → l.batched layer ≡ ok (some w)
      → weights_at (load_layers l idx (layer ∷ layers) s).1 layer idx ≡ some w
  unfolding load_layers
  load_layers-first l idx s layer layers w b =
      rw (b, load_layers)
        (load_layers-keeps l idx layers (add_adapter layer idx w s) layer w b
          (ground (arith, weights_at-add layer idx w s layer idx)))

  -- When the first adapter layer gets weights and the load fails at a later layer, the weights
  -- stay in that layer, while the adapter is not among the loaded ones.
  pub load_adapter_leaks :
      (l : Loaded W T) (idx : ℕ) (dynamic : Bool) (s : Model W T) (layer : ℕ) (layers : List ℕ)
      (w : W) (e : Error)
      → contains s.loaded_adapters idx ≡ false
      → s.supports_adapter_loading ≡ true
      → (dynamic && not s.dynamic_adapter_loading_enabled) ≡ false
      → s.adapter_layers ≡ layer ∷ layers
      → l.batched layer ≡ ok (some w)
      → (load_layers l idx (layer ∷ layers) s).0 ≡ raised e
      → ((load_adapter (some l) idx dynamic s).0 ≡ raised e)
        × (weights_at (load_adapter (some l) idx dynamic s).1 layer idx ≡ some w)
        × (contains (load_adapter (some l) idx dynamic s).1.loaded_adapters idx ≡ false)
  load_adapter_leaks l idx dynamic s layer layers w e h g d a b p =
      let q = subst (λ ls. (load_layers l idx ls s).0 ≡ raised e) (sym a) p in
      let r = load_adapter-raised l idx dynamic s e h g d q in
      (
        rw r q,
        rw r (
            subst (λ ls. weights_at (load_layers l idx ls s).1 layer idx ≡ some w) (sym a)
              (load_layers-first l idx s layer layers w b)),
        rw (r, load_layers-loaded l idx s.adapter_layers s) h,
      )

  finish_load-layers :
      (l : Loaded W T) (idx : ℕ) (r : Result (Unit {0}) × Model W T)
      → (finish_load l idx r).1.adapter_layers ≡ r.1.adapter_layers
  finish_load-layers l idx (raised e, t) = refl
  finish_load-layers l idx (ok u, t) = elim (Option-cases l.tokenizer) [
    | inl e ↦ rw e
    | inr (k, e) ↦ rw e
  ]

  load_layers-layers :
      (l : Loaded W T) (idx : ℕ) (layers : List ℕ) (s : Model W T)
      → (load_layers l idx layers s).1.adapter_layers ≡ s.adapter_layers
  unfolding load_layers add_adapter
  load_layers-layers l idx [] s = refl
  load_layers-layers l idx (k ∷ layers) s = elim (batched_cases (l.batched k)) [
    | inl (e, p) ↦ rw (p, load_layers)
    | inr (inl p) ↦ rw (p, load_layers) (load_layers-layers l idx layers s)
    | inr (inr (w, p)) ↦
        rw (p, load_layers) (load_layers-layers l idx layers (add_adapter k idx w s))
  ]

  load_adapter-layers :
      (l : Loaded W T) (idx : ℕ) (dynamic : Bool) (s : Model W T)
      → contains s.loaded_adapters idx ≡ false
      → (load_adapter (some l) idx dynamic s).0 ≡ ok tt
      → (load_adapter (some l) idx dynamic s).1.adapter_layers ≡ s.adapter_layers
  load_adapter-layers l idx dynamic s h p =
      ap (λ r. r.1.adapter_layers) (load_adapter-open l idx dynamic s h p)
      ∙ finish_load-layers l idx (load_layers l idx s.adapter_layers s)
      ∙ load_layers-layers l idx s.adapter_layers s

  fresh_at :
      (s : Model W T) (idx : ℕ)
      → ((layer : ℕ) → weights_at s layer idx ≡ none)
      → (layer j : ℕ) → (idx == j) ≡ true
      → weights_at s layer j ≡ none
  fresh_at s idx fresh layer j e =
      subst (λ k. weights_at s layer k ≡ none) ((==_iff idx j).0 e) (fresh layer)

  not_loaded :
      (s : Model W T) (idx : ℕ)
      → contains s.loaded_adapters idx ≡ false
      → (j : ℕ) → (idx == j) ≡ true
      → contains s.loaded_adapters j ≡ false
  not_loaded s idx h j e = subst (λ k. contains s.loaded_adapters k ≡ false) ((==_iff idx j).0 e) h

  -- To load an adapter that was not loaded and had no weights, and then to offload it, leaves every
  -- layer with the weights that it had and the same adapters loaded, if both succeed.
  pub offload_adapter-load_adapter :
      (l : Loaded W T) (idx : ℕ) (dynamic : Bool) (s : Model W T)
      → contains s.loaded_adapters idx ≡ false
      → ((layer : ℕ) → weights_at s layer idx ≡ none)
      → (load_adapter (some l) idx dynamic s).0 ≡ ok tt
      → (offload_adapter idx (load_adapter (some l) idx dynamic s).1).0 ≡ ok true
      → ((layer j : ℕ)
          → weights_at (offload_adapter idx (load_adapter (some l) idx dynamic s).1).1 layer j
            ≡ weights_at s layer j)
        × ((j : ℕ)
            → contains
                (offload_adapter idx (load_adapter (some l) idx dynamic s).1).1.loaded_adapters
                j
              ≡ contains s.loaded_adapters j)
  offload_adapter-load_adapter l idx dynamic s h fresh p q =
      let s' = (load_adapter (some l) idx dynamic s).1 in
      let (loaded_weights, loaded) = load_adapter-weights l idx dynamic s h p in
      let (left_weights, left, _) = offload_adapter-weights idx s' q in
      let layers = load_adapter-layers l idx dynamic s h p in
      (
        λ layer j.
            left_weights layer j
            ∙ restored idx layer j s.adapter_layers s'.adapter_layers layers _ _ _
                (fresh_at s idx fresh layer j) (loaded_weights layer j),
        λ j. left j ∙ same_loaded idx j _ _ (loaded j) (not_loaded s idx h j),
      )
