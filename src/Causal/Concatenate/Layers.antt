-- ===== src/Causal/Concatenate/Layers.antt =====
-- The joined past: the model attends to what it did.
use mathlib.Core.List.{flatten}
use lorax.Prelude.{
  ℕ, suc, ◌+◌, ◌-◌, ◌<◌, ◌≤◌, ◌≡◌, refl, sym, ap, ap₂, ◌∙◌, arith, some, List, [], ◌∷◌, map, length,
}
use lorax.Flash.Concatenate.Slots.{some-inj}
use lorax.Causal.{Layer, CausalLmBatch}
use lorax.Causal.Rows.{All}
use lorax.Causal.Padded.{IsWide, attended_layer}
use lorax.Causal.Views.{join_attended_layer, join_attended}
use lorax.Causal.Concatenate.{join_layer, join_layers}
use lorax.Causal.Concatenate.Ready.{IsReady}
use lorax.Causal.Concatenate.Side.{views_of, masks_of, join-batches}

module _ {C K : Type 0} (blank : K) (k m p : ℕ) (bs : List (CausalLmBatch C K))
    (ready : All (IsReady k m p) bs) where
  abbrev total : ℕ
  total = length (flatten (map (λ b. b.requests) bs))

  abbrev pub JoinsLayer : ℕ → Layer K → Type 0
  JoinsLayer j l =
      (join_layer blank m bs j ≡ some l)
      × (join_attended_layer j (map (λ v. v.attended) (views_of k m p bs ready))
          ≡ some (attended_layer (masks_of k m p bs) l))
      × IsWide total (m - 1) l

  join_layer-attended : (j : ℕ) → j < k → (l : Layer K) × JoinsLayer j l
  unfolding join_layer join_attended_layer attended_layer
  join_layer-attended j h =
      let ks =
        join-batches k m p blank (λ l. l.keys) (λ size width l w. w.key_rows)
          (λ size width l w. w.key_width) (λ mask l. refl) j bs ready h in
      let vs =
        join-batches k m p blank (λ l. l.values) (λ size width l w. w.value_rows)
          (λ size width l w. w.value_width) (λ mask l. refl) j bs ready h in
      let same : ks.layers ≡ vs.layers = some-inj ks.layers vs.layers (sym ks.seen ∙ vs.seen) in
      (
        record { keys = flatten ks.rows; values = flatten vs.rows },
        (
          rw (ks.joined, vs.joined) refl,
          rw (ks.seen) (
              ap₂ (λ keys values. some (record { keys = keys; values = values })) (sym ks.same)
                (ap (λ ls. flatten (map (λ l. l.values) ls)) same ∙ sym vs.same)),
          record {
            key_rows = ks.count;
            value_rows = vs.count;
            key_width = ks.width;
            value_width = vs.width;
          },
        ),
      )

  -- The layers from `j` on; `firsts` and `seen` are those of the first batch, which only count.
  pub join_layers-attended :
      (j : ℕ) (firsts : List (Layer K))
      → j + length firsts ≤ k
      → (layers : List (Layer K)) × (join_layers blank m bs j firsts ≡ some layers)
        × All (IsWide total (m - 1)) layers
        × (length layers ≡ length firsts)
        × ((seen : List (Layer K))
            → length seen ≡ length firsts
            → join_attended j seen (map (λ v. v.attended) (views_of k m p bs ready))
              ≡ some (map (attended_layer (masks_of k m p bs)) layers))
  unfolding join_layers join_attended All
  join_layers-attended j [] l = ([], refl, tt, refl, none_seen)
    where
      none_seen :
          (seen : List (Layer K))
          → length seen ≡ 0
          → join_attended j seen (map (λ v. v.attended) (views_of k m p bs ready)) ≡ some []
      none_seen [] h = refl
      none_seen (s ∷ seen) h = absurd (omega (arith, h))
  join_layers-attended j (f ∷ firsts) l =
      let (layer, (here, there, wide)) = join_layer-attended j (omega (arith, l)) in
      let (layers, rest, wides, count, behind) =
        join_layers-attended (j + 1) firsts (omega (arith, l)) in
      (
        layer ∷ layers,
        rw (here, rest) refl,
        (wide, wides),
        ap suc count,
        some_seen layer layers there behind,
      )
    where
      some_seen :
          (layer : Layer K) (layers : List (Layer K))
          → join_attended_layer j (map (λ v. v.attended) (views_of k m p bs ready))
            ≡ some (attended_layer (masks_of k m p bs) layer)
          → ((seen : List (Layer K))
              → length seen ≡ length firsts
              → join_attended (j + 1) seen (map (λ v. v.attended) (views_of k m p bs ready))
                ≡ some (map (attended_layer (masks_of k m p bs)) layers))
          → (seen : List (Layer K)) → length seen ≡ suc (length firsts)
          → join_attended j seen (map (λ v. v.attended) (views_of k m p bs ready))
            ≡ some (
                attended_layer (masks_of k m p bs) layer
                ∷ map (attended_layer (masks_of k m p bs)) layers)
      some_seen layer layers there behind [] h = absurd (omega (arith, h))
      some_seen layer layers there behind (s ∷ seen) h =
          rw (there, behind seen (omega (arith, h))) refl
