-- ===== src/Causal/Concatenate/Past.antt =====
-- What the past of a batch adds to the joined past.
use lorax.Prelude.{
  ℕ, zero, suc, ◌+◌, ◌-◌, ◌≤◌, ◌≡◌, refl, sym, ap, ap₂, ◌∙◌, arith, some, List, [], ◌∷◌, ◌++◌,
  append-nil, map, length, length-append, length-replicate, replicate, drop, drop-drop,
}
use lorax.Prelude.Int.{pos, neg_ℤ}
use lorax.Flash.Texts.{slice_from, slice_index}
use lorax.Causal.Rows.{mask_row, attend, attend-mask_row, zip_with, All}
use lorax.Causal.Filter.Layers.{slice_from-last}
use lorax.Causal.Concatenate.{each, write_row}
use lorax.Causal.Concatenate.Rows.{write_row-whole}

-- The rows of a past, padded on the left.
module _ {K : Type 0} (blank : K) (m m' : ℕ) (grown : 2 ≤ m) (shorter : m ≤ m') where
  write-past :
      (row : List K)
      → length row ≡ m - 1
      → write_row blank
          (m' - 1)
          (neg_ℤ (pos (m - 1)))
          (pos (m' - 1))
          (slice_from (neg_ℤ (pos (m - 1))) row)
        ≡ some (replicate (m' - m) blank ++ row)
  write-past row h =
      let whole : slice_from (neg_ℤ (pos (m - 1))) row ≡ row =
        slice_from-last (m - 1) row (omega (arith, grown)) ∙ ap (λ i. drop i row) (nothing h) in
      let start : slice_index (m' - 1) (neg_ℤ (pos (m - 1))) ≡ m' - m =
        ground (arith, grown, shorter) in
      ap (write_row blank (m' - 1) (neg_ℤ (pos (m - 1))) (pos (m' - 1))) whole
      ∙ write_row-whole blank (m' - 1) (m' - m) (m' - 1) (neg_ℤ (pos (m - 1))) (pos (m' - 1)) row
          start refl (omega (arith, h, grown, shorter)) (omega arith)
      ∙ ap (λ k. some (replicate (m' - m) blank ++ (row ++ replicate k blank))) (none_left)
      ∙ ap (λ r. some (replicate (m' - m) blank ++ r)) (append-nil row)
    where
      nothing : length row ≡ m - 1 → length row - (m - 1) ≡ 0
      nothing h = omega (arith, h)

      none_left : m' - 1 - (m' - 1) ≡ 0
      none_left = omega arith

  pub write_pasts :
      (rows : List (List K))
      → All (λ row. length row ≡ m - 1) rows
      → each
          (λ row.
            write_row blank
              (m' - 1)
              (neg_ℤ (pos (m - 1)))
              (pos (m' - 1))
              (slice_from (neg_ℤ (pos (m - 1))) row))
          rows
        ≡ some (map (λ row. replicate (m' - m) blank ++ row) rows)
  unfolding each All
  write_pasts [] h = refl
  write_pasts (row ∷ rows) (h, hs) = rw (write-past row h, write_pasts rows hs) refl

  attend-past :
      (p p' n : ℕ) (row : List K)
      → n ≤ m
      → length row ≡ m - 1
      → attend (mask_row m' p' n) (replicate (m' - m) blank ++ row) ≡ attend (mask_row m p n) row
  attend-past p p' n row h l =
      let len : length (replicate (m' - m) blank ++ row) ≡ m' - m + length row =
        length-append (replicate (m' - m) blank) row
        ∙ ap (λ i. i + length row) (length-replicate (m' - m) blank) in
      attend-mask_row m' p' n (replicate (m' - m) blank ++ row)
        (omega (arith, l, grown, shorter, len)) (omega (arith, h, shorter))
      ∙ ap (λ i. drop i (replicate (m' - m) blank ++ row)) (omega (arith, h, shorter))
      ∙ drop-drop (m' - m) (m - n) (replicate (m' - m) blank ++ row)
      ∙ ap (drop (m - n)) (drop_replicate (m' - m) row)
      ∙ sym (attend-mask_row m p n row (omega (arith, l)) h)
    where
      drop_replicate : (i : ℕ) (row : List K) → drop i (replicate i blank ++ row) ≡ row
      drop_replicate zero row = refl
      drop_replicate (suc i) row = drop_replicate i row

  pub attend-pasts :
      (p p' : ℕ) (ns : List ℕ) (rows : List (List K))
      → All (λ n. n ≤ m) ns
      → All (λ row. length row ≡ m - 1) rows
      → zip_with attend
          (map (mask_row m' p') ns)
          (map (λ row. replicate (m' - m) blank ++ row) rows)
        ≡ zip_with attend (map (mask_row m p) ns) rows
  unfolding zip_with All
  attend-pasts p p' [] rows h l = refl
  attend-pasts p p' (n ∷ ns) [] h l = refl
  attend-pasts p p' (n ∷ ns) (row ∷ rows) (h, hs) (l, ls) =
      ap₂ (◌∷◌) (attend-past p p' n row h l) (attend-pasts p p' ns rows hs ls)

  pub padded_width :
      (row : List K) → length row ≡ m - 1 → length (replicate (m' - m) blank ++ row) ≡ m' - 1
  padded_width row h =
      length-append (replicate (m' - m) blank) row
      ∙ ap (λ i. i + length row) (length-replicate (m' - m) blank)
      ∙ omega (arith, h, grown, shorter)
