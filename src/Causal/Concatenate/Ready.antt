-- ===== src/Causal/Concatenate/Ready.antt =====
-- What a batch adds to the joined mask.
use lorax.Prelude.{
  ℕ, zero, suc, ◌+◌, ◌-◌, ◌<◌, ◌≤◌, ◌≡◌, refl, sym, ap, ap₂, subst, ◌∙◌, arith, some, List, [], ◌∷◌,
  ◌++◌, map, length, length-map, replicate, ◌>>=◌,
}
use lorax.Prelude.Int.{pos, negsuc, neg_ℤ, sub_ℕ, ◌+ℤ◌}
use lorax.Flash.Concatenate.{assign}
use lorax.Flash.Texts.{slice}
use lorax.Causal.{Layer, CausalLmBatch, width_of}
use lorax.Causal.Rows.{mask_row, mask_row_behind, mask_row_before, All, maximum-All, maximum-grown}
use lorax.Causal.Padded.{IsPadded, HasPast}
use lorax.Causal.Filter.Rows.{length-mask_row, cut-mask_row}
use lorax.Causal.Generate.Members.{IsFull}
use lorax.Causal.Concatenate.{each, write_row, column, mask_rows}
use lorax.Causal.Concatenate.Rows.{write_row-whole, each-map, assign_whole}

-- A padded batch that has done a step, with `k` layers, which has room and goes into rows of `m`
-- tokens with `p` places to the right.
pub record IsReady {C K : Type 0} (k m p : ℕ) (b : CausalLmBatch C K) : Type 0 where
  pub own : ℕ
  pub layer : Layer K
  pub layers : List (Layer K)
  pub padded : IsPadded b own
  pub full : IsFull b
  pub past : HasPast b layer layers
  pub counted : length (layer ∷ layers) ≡ k
  pub nonempty : 0 < length b.requests
  pub positive : 0 < own
  pub shorter : b.max_input_length ≤ m
  pub less : own ≤ p

write-mask_row :
    (m' m p' p n : ℕ)
    → n ≤ m
    → m ≤ m'
    → write_row 0
        (m' + suc p')
        (pos (m' - m))
        (negsuc p')
        (slice (pos 0) (neg_ℤ (pos (suc p))) (mask_row m (suc p) n))
      ≡ some (mask_row m' (suc p') n)
write-mask_row m' m p' p n l h =
    let room : m' + suc p' - m' ≡ suc p' = omega arith in
    ap (write_row 0 (m' + suc p') (pos (m' - m)) (negsuc p')) (cut-mask_row m p n l)
    ∙ write_row-whole 0 (m' + suc p') (m' - m) m' (pos (m' - m)) (negsuc p') (mask_row m 0 n) refl
        (omega arith) (omega (arith, h, length-mask_row m 0 n l)) (omega arith)
    ∙ ap some (
        ap (λ k. replicate (m' - m) 0 ++ (mask_row m 0 n ++ replicate k 0)) room
        ∙ ap (λ r. replicate (m' - m) 0 ++ r) (mask_row_behind m (suc p') n)
        ∙ mask_row_before m m' (suc p') n l h)

left_offset : (w m p : ℕ) → w ≡ m + p → pos w +ℤ neg_ℤ (pos m) +ℤ neg_ℤ (pos p) ≡ pos 0
left_offset w m p h = ground (arith, h)

write_masks :
    (m' m p' p w : ℕ) (ns : List ℕ)
    → (0 < length ns → w ≡ m + p)
    → All (λ n. n ≤ m) ns
    → m ≤ m'
    → 0 < p
    → 0 < p'
    → each
        (λ row.
          write_row 0
            (m' + p')
            (sub_ℕ m' m)
            (neg_ℤ (pos p'))
            (slice (pos w +ℤ neg_ℤ (pos m) +ℤ neg_ℤ (pos p)) (neg_ℤ (pos p)) row))
        (map (mask_row m p) ns)
      ≡ some (map (mask_row m' p') ns)
unfolding each
write_masks m' m p' p w [] width low l h h' = refl
write_masks m' m p' zero w (n ∷ ns) width low l h h' = absurd (omega (arith, h))
write_masks m' m zero (suc p) w (n ∷ ns) width low l h h' = absurd (omega (arith, h'))
write_masks m' m (suc p') (suc p) w (n ∷ ns) width low l h h' =
    each-map
      (λ row.
        write_row 0 (m' + suc p') (sub_ℕ m' m) (neg_ℤ (pos (suc p')))
          (slice (pos w +ℤ neg_ℤ (pos m) +ℤ neg_ℤ (pos (suc p))) (neg_ℤ (pos (suc p))) row))
      (mask_row m (suc p)) (mask_row m' (suc p')) (λ k. k ≤ m) (n ∷ ns) write low
  where
    start : sub_ℕ m' m ≡ pos (m' - m)
    start = ground (arith, l)

    end : neg_ℤ (pos (suc p')) ≡ negsuc p'
    end = ground arith

    write :
        (k : ℕ)
        → k ≤ m
        → write_row 0 (m' + suc p') (sub_ℕ m' m) (neg_ℤ (pos (suc p'))) (
            slice
              (pos w +ℤ neg_ℤ (pos m) +ℤ neg_ℤ (pos (suc p)))
              (neg_ℤ (pos (suc p)))
              (mask_row m (suc p) k))
          ≡ some (mask_row m' (suc p') k)
    write k low =
        ap
          (λ o.
            write_row 0 (m' + suc p') (sub_ℕ m' m) (neg_ℤ (pos (suc p')))
              (slice o (neg_ℤ (pos (suc p))) (mask_row m (suc p) k)))
          (left_offset w m (suc p) (width (omega arith)))
        ∙ ap₂
            (λ i j.
              write_row 0 (m' + suc p') i j
                (slice (pos 0) (neg_ℤ (pos (suc p))) (mask_row m (suc p) k)))
            start end
        ∙ write-mask_row m' m p' p k low l

module _ {C K : Type 0} (k m p : ℕ) (b : CausalLmBatch C K) (ready : IsReady k m p b) where
  pub low : All (λ n. n ≤ b.max_input_length) b.input_lengths
  low =
      subst (λ m. All (λ n. n ≤ m) b.input_lengths) (sym ready.padded.longest)
        (maximum-All b.input_lengths)

  pub grown : 2 ≤ b.max_input_length
  grown =
      subst (λ n. 2 ≤ n) (sym ready.padded.longest)
        (maximum-grown b.input_lengths ready.past.grown
          (omega (arith, ready.nonempty, ready.padded.counted)))

  pub mask_rows-mask_row : mask_rows m (pos p) b ≡ some (map (mask_row m p) b.input_lengths)
  unfolding mask_rows All
  mask_rows-mask_row =
      ap₂
        (λ o rows.
          each
            (λ row. write_row 0 (m + p) (sub_ℕ m b.max_input_length) (neg_ℤ (pos p)) (
              slice (pos (width_of rows) +ℤ neg_ℤ (pos b.max_input_length) +ℤ neg_ℤ o) (neg_ℤ o)
                row))
            rows
          >>= λ rows. assign (length b.requests) rows)
        ready.padded.padding ready.padded.mask
      ∙ ap (λ rows. rows >>= λ rows. assign (length b.requests) rows)
          (write_masks m b.max_input_length p ready.own
            (width_of (map (mask_row b.max_input_length ready.own) b.input_lengths)) b.input_lengths
            (width b.input_lengths low) low ready.shorter ready.positive
            (omega (arith, ready.positive, ready.less)))
      ∙ assign_whole (length b.requests) (map (mask_row m p) b.input_lengths)
          (length-map (mask_row m p) b.input_lengths ∙ ready.padded.counted)
    where
      width :
          (ns : List ℕ)
          → All (λ n. n ≤ b.max_input_length) ns
          → 0 < length ns
          → width_of (map (mask_row b.max_input_length ready.own) ns)
            ≡ b.max_input_length + ready.own
      width [] h l = absurd (omega (arith, l))
      width (n ∷ ns) (h, hs) l = length-mask_row b.max_input_length ready.own n h

pub column_whole :
    (size : ℕ) (rows : List (List ℕ))
    → length rows ≡ size
    → All (λ row. length row ≡ 1) rows
    → column size rows ≡ some rows
unfolding column All
column_whole size rows h ones = rw (each_assign rows ones) (assign_whole size rows h)
  where
    each_assign :
        (rows : List (List ℕ))
        → All (λ row. length row ≡ 1) rows
        → each (λ row. assign 1 row) rows ≡ some rows
    each_assign [] h = refl
    each_assign (row ∷ rows) (h, hs) = rw (assign_whole 1 row h, each_assign rows hs) refl
