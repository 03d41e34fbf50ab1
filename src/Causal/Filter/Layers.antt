-- ===== src/Causal/Filter/Layers.antt =====
-- The past of the kept requests, cut to a shorter padding: the model attends to what it did.
use lorax.Prelude.{
  ℕ, suc, ◌+◌, ◌-◌, ◌<◌, ◌≤◌, ◌≡◌, refl, sym, ap, ap₂, subst, ◌∙◌, arith, some, List, [], ◌∷◌, map,
  length, length-map, length-drop, drop, drop-drop, gather, Option-cases, inl, inr,
}
use lorax.Prelude.Int.{pos, neg_ℤ}
use lorax.Flash.Texts.{slice_from, slice_index}
use lorax.Tokens.Chooser.Laws.{gather-map}
use lorax.Causal.{Layer}
use lorax.Causal.Rows.{
  mask_row, attend, attend-mask_row, zip_with, All, All-map, map-All, gather-All, gather-zip_with,
  length-gather,
}
use lorax.Causal.Padded.{IsWide, attended_layer}
use lorax.Causal.Views.{gather_layer, gather_layers}
use lorax.Causal.Filter.{filter_layer, filter_layers}

pub slice_from-last :
    {K : Type 0} (w : ℕ) (row : List K)
    → 0 < w
    → slice_from (neg_ℤ (pos w)) row ≡ drop (length row - w) row
slice_from-last w row h =
    let e : slice_index (length row) (neg_ℤ (pos w)) ≡ length row - w = ground arith in
    ap (λ i. drop i row) e

-- `m` is the old padded length, and `m'` the new one.
module _ {K : Type 0} (m p m' q : ℕ) (shorter : m' ≤ m) (grown : 2 ≤ m') where
  attend-cut :
      (n : ℕ) (row : List K)
      → n ≤ m'
      → length row ≡ m - 1
      → attend (mask_row m' q n) (slice_from (neg_ℤ (pos (m' - 1))) row)
        ≡ attend (mask_row m p n) row
  attend-cut n row l h =
      let cut = slice_from-last (m' - 1) row (omega (arith, grown)) in
      let e : length row - (m' - 1) ≡ m - m' = omega (arith, h, shorter, grown) in
      let e' : m - m' + (m' - n) ≡ m - n = omega (arith, l, shorter) in
      let short : length (drop (m - m') row) ≤ m' - 1 =
        omega (arith, length-drop (m - m') row, h, shorter, grown) in
      ap (attend (mask_row m' q n)) (cut ∙ ap (λ k. drop k row) e)
      ∙ attend-mask_row m' q n (drop (m - m') row) short l
      ∙ sym (drop-drop (m - m') (m' - n) row)
      ∙ ap (λ k. drop k row) e'
      ∙ sym (attend-mask_row m p n row (omega (arith, h)) (omega (arith, l, shorter)))

  attend-cuts :
      (ns : List ℕ) (rows : List (List K))
      → All (λ n. n ≤ m') ns
      → All (λ row. length row ≡ m - 1) rows
      → zip_with attend (map (mask_row m' q) ns) (map (slice_from (neg_ℤ (pos (m' - 1)))) rows)
        ≡ zip_with attend (map (mask_row m p) ns) rows
  unfolding zip_with All
  attend-cuts [] rows h k = refl
  attend-cuts (n ∷ ns) [] h k = refl
  attend-cuts (n ∷ ns) (row ∷ rows) (h, hs) (k, ks) =
      ap₂ (◌∷◌) (attend-cut n row h k) (attend-cuts ns rows hs ks)

  cut-width :
      (row : List K) → length row ≡ m - 1 → length (slice_from (neg_ℤ (pos (m' - 1))) row) ≡ m' - 1
  cut-width row h =
      ap length (slice_from-last (m' - 1) row (omega (arith, grown)))
      ∙ omega (arith, h, shorter, length-drop (length row - (m' - 1)) row)

  module _ (ns ns' indices : List ℕ) (kept_ns : gather ns indices ≡ some ns')
      (low : All (λ n. n ≤ m') ns') where
    gather-attend :
        (rows kept : List (List K))
        → All (λ row. length row ≡ m - 1) rows
        → gather rows indices ≡ some kept
        → gather (zip_with attend (map (mask_row m p) ns) rows) indices
          ≡ some (
              zip_with attend
                (map (mask_row m' q) ns')
                (map (slice_from (neg_ℤ (pos (m' - 1)))) kept))
    gather-attend rows kept wide h =
        gather-zip_with attend (map (mask_row m p) ns) rows indices (map (mask_row m p) ns') kept
          (gather-map (mask_row m p) ns ns' indices kept_ns) h
        ∙ ap some (
            sym (
              attend-cuts ns' kept low
                (gather-All (λ row. length row ≡ m - 1) rows indices kept wide h)))

    cut-rows :
        (rows kept : List (List K))
        → All (λ row. length row ≡ m - 1) rows
        → gather rows indices ≡ some kept
        → (length (map (slice_from (neg_ℤ (pos (m' - 1)))) kept) ≡ length indices)
          × All (λ row. length row ≡ m' - 1) (map (slice_from (neg_ℤ (pos (m' - 1)))) kept)
    cut-rows rows kept wide h = (
      length-map (slice_from (neg_ℤ (pos (m' - 1)))) kept ∙ length-gather rows indices kept h,
      All-map (λ row. length row ≡ m' - 1) (slice_from (neg_ℤ (pos (m' - 1)))) kept
          (map-All (λ row. length row ≡ m - 1)
            (λ row. length (slice_from (neg_ℤ (pos (m' - 1))) row) ≡ m' - 1) kept cut-width
            (gather-All (λ row. length row ≡ m - 1) rows indices kept wide h)),
    )

    filter_layer-attended :
        (size : ℕ) (layer layer' : Layer K)
        → IsWide size (m - 1) layer
        → filter_layer indices (m' - 1) layer ≡ some layer'
        → (gather_layer indices (attended_layer (map (mask_row m p) ns) layer)
            ≡ some (attended_layer (map (mask_row m' q) ns') layer'))
          × IsWide (length indices) (m' - 1) layer'
    unfolding filter_layer gather_layer attended_layer
    filter_layer-attended size layer layer' wide h =
        elim (Option-cases (gather layer.keys indices)) [
          | inl e ↦ absurd (ground (arith, e, h))
          | inr (keys, e) ↦ elim (Option-cases (gather layer.values indices)) [
            | inl g ↦ absurd (ground (arith, e, g, h))
            | inr (values, g) ↦
                let same : record {
                  keys = map (slice_from (neg_ℤ (pos (m' - 1)))) keys;
                  values = map (slice_from (neg_ℤ (pos (m' - 1)))) values;
                }
                    ≡ layer' =
                  ground (arith, e, g, h) in
                let (keys_rows, keys_wide) = cut-rows layer.keys keys wide.key_width e in
                let (values_rows, values_wide) = cut-rows layer.values values wide.value_width g in
                subst
                  (λ l.
                    (gather_layer indices (attended_layer (map (mask_row m p) ns) layer)
                      ≡ some (attended_layer (map (mask_row m' q) ns') l))
                    × IsWide (length indices) (m' - 1) l)
                  same
                  (
                    rw
                        (
                          gather-attend layer.keys keys wide.key_width e,
                          gather-attend layer.values values wide.value_width g,
                        )
                        refl,
                    record {
                      key_rows = keys_rows;
                      value_rows = values_rows;
                      key_width = keys_wide;
                      value_width = values_wide;
                    },
                  )
          ]
        ]

    pub filter_layers-attended :
        (size : ℕ) (layers layers' : List (Layer K))
        → All (IsWide size (m - 1)) layers
        → filter_layers indices (m' - 1) layers ≡ some layers'
        → (gather_layers indices (map (attended_layer (map (mask_row m p) ns)) layers)
            ≡ some (map (attended_layer (map (mask_row m' q) ns')) layers'))
          × All (IsWide (length indices) (m' - 1)) layers'
          × (length layers' ≡ length layers)
    unfolding filter_layers gather_layers All
    filter_layers-attended size [] layers' wide h =
        let e : [] ≡ layers' = ground (arith, h) in
        subst
          (λ ls.
            (some [] ≡ some (map (attended_layer (map (mask_row m' q) ns')) ls))
            × All (IsWide (length indices) (m' - 1)) ls
            × (length ls ≡ 0))
          e (refl, tt, refl)
    filter_layers-attended size (layer ∷ layers) layers' (w, ws) h =
        elim (Option-cases (filter_layer indices (m' - 1) layer)) [
          | inl e ↦ absurd (ground (arith, e, h))
          | inr (kept, e) ↦ elim (Option-cases (filter_layers indices (m' - 1) layers)) [
            | inl g ↦ absurd (ground (arith, e, g, h))
            | inr (rest, g) ↦
                let same : kept ∷ rest ≡ layers' = ground (arith, e, g, h) in
                let (here, wide) = filter_layer-attended size layer kept w e in
                let (behind, wides, counted) = filter_layers-attended size layers rest ws g in
                subst
                  (λ ls.
                    (gather_layers indices
                        (map (attended_layer (map (mask_row m p) ns)) (layer ∷ layers))
                      ≡ some (map (attended_layer (map (mask_row m' q) ns')) ls))
                    × All (IsWide (length indices) (m' - 1)) ls
                    × (length ls ≡ suc (length layers)))
                  same (rw (here, behind) refl, (wide, wides), ap suc counted)
          ]
        ]
