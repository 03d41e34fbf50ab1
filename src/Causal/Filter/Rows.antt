-- ===== src/Causal/Filter/Rows.antt =====
-- Rows that are cut to a shorter padding.
use lorax.Prelude.{
  ℕ, zero, suc, ◌+◌, ◌-◌, ◌<◌, ◌≤◌, ◌≡◌, refl, sym, ap, subst, ◌∙◌, arith, List, [], ◌∷◌, ◌++◌,
  length, append_assoc, length-append, length-replicate, replicate, take, drop,
}
use lorax.Prelude.Int.{pos, ◌+ℤ◌, neg_ℤ}
use lorax.Flash.Texts.{slice, slice_index}
use lorax.Causal.Rows.{mask_row}

take_append : {A : Type 0} (xs ys : List A) (n : ℕ) → n ≡ length xs → take n (xs ++ ys) ≡ xs
take_append [] ys n h = subst (λ k. take k ys ≡ []) (sym h) refl
take_append (x ∷ xs) ys n h =
    subst (λ k. take k (x ∷ xs ++ ys) ≡ x ∷ xs) (sym h)
      (ap (◌∷◌ x) (take_append xs ys (length xs) refl))

take-replicate : {A : Type 0} (q p : ℕ) (x : A) → q ≤ p → take q (replicate p x) ≡ replicate q x
take-replicate zero p x h = refl
take-replicate (suc q) zero x h = absurd (omega (arith, h))
take-replicate (suc q) (suc p) x h = ap (◌∷◌ x) (take-replicate q p x (omega (arith, h)))

-- Of zeros behind a row, fewer.
take-replicate_behind :
    {A : Type 0} (xs : List A) (p q n : ℕ) (x : A)
    → q ≤ p
    → n ≡ length xs + q
    → take n (xs ++ replicate p x) ≡ xs ++ replicate q x
take-replicate_behind [] p q n x h e =
    ap (λ k. take k (replicate p x)) (omega (arith, e)) ∙ take-replicate q p x h
take-replicate_behind (y ∷ xs) p q zero x h e = absurd (omega (arith, e))
take-replicate_behind (y ∷ xs) p q (suc n) x h e =
    ap (◌∷◌ y) (take-replicate_behind xs p q n x h (omega (arith, e)))

drop-replicate :
    {A : Type 0} (k j : ℕ) (x : A) (ys : List A)
    → k ≤ j
    → drop k (replicate j x ++ ys) ≡ replicate (j - k) x ++ ys
drop-replicate zero j x ys h = ap (λ i. replicate i x ++ ys) (omega arith)
drop-replicate (suc k) zero x ys h = absurd (omega (arith, h))
drop-replicate (suc k) (suc j) x ys h =
    drop-replicate k j x ys (omega (arith, h)) ∙ ap (λ i. replicate i x ++ ys) (omega arith)

pub length-mask_row : (m p n : ℕ) → n ≤ m → length (mask_row m p n) ≡ m + p
unfolding mask_row
length-mask_row m p n h =
    let zeros : List ℕ = replicate (m - n) 0 in
    let ones : List ℕ = replicate n 1 in
    let room : List ℕ = replicate p 0 in
    omega (
      arith,
      h,
      length-append zeros (ones ++ room),
      length-append ones room,
      length-replicate {A = ℕ} (m - n) 0,
      length-replicate {A = ℕ} n 1,
      length-replicate {A = ℕ} p 0,
    )

take-mask_row : (m p q n : ℕ) → n ≤ m → q ≤ p → take (m + q) (mask_row m p n) ≡ mask_row m q n
unfolding mask_row
take-mask_row m p q n l h =
    let zeros : List ℕ = replicate (m - n) 0 in
    let ones : List ℕ = replicate n 1 in
    let len = length-append zeros ones in
    ap (take (m + q)) (sym (append_assoc zeros ones (replicate p 0)))
    ∙ take-replicate_behind (zeros ++ ones) p q (m + q) 0 h
        (omega (arith, l, len, length-replicate {A = ℕ} (m - n) 0, length-replicate {A = ℕ} n 1))
    ∙ append_assoc zeros ones (replicate q 0)

drop-mask_row : (m q m' n : ℕ) → n ≤ m' → m' ≤ m → drop (m - m') (mask_row m q n) ≡ mask_row m' q n
unfolding mask_row
drop-mask_row m q m' n l h =
    drop-replicate (m - m') (m - n) 0 (replicate n 1 ++ replicate q 0) (omega (arith, l, h))
    ∙ ap (λ k. replicate k 0 ++ (replicate n 1 ++ replicate q 0)) (omega (arith, l, h))

slice_end : (m p q : ℕ) → pos (m + p) +ℤ neg_ℤ (pos p) +ℤ pos q ≡ pos (m + q)
slice_end m p q = ground arith

slice_start : (n p m' : ℕ) → 0 < m' → slice_index n (neg_ℤ (pos p +ℤ pos m')) ≡ n - (p + m')
slice_start n p m' h = ground arith

-- The slice that `filter` takes of a row of the mask.
pub slice-mask_row :
    (m p m' q n : ℕ)
    → n ≤ m'
    → m' ≤ m
    → 0 < m'
    → q ≤ p
    → slice (neg_ℤ (pos p +ℤ pos m')) (pos (m + p) +ℤ neg_ℤ (pos p) +ℤ pos q) (mask_row m p n)
      ≡ mask_row m' q n
slice-mask_row m p m' q n l l' l'' h =
    let row = mask_row m p n in
    let len = length-mask_row m p n (omega (arith, l, l')) in
    let start = slice_start (length row) p m' l'' in
    let e : length row - (p + m') ≡ m - m' = omega (arith, len) in
    ap (λ i. drop i (take (slice_index (length row) (pos (m + p) +ℤ neg_ℤ (pos p) +ℤ pos q)) row))
      (start ∙ e)
    ∙ ap (λ z. drop (m - m') (take (slice_index (length row) z) row)) (slice_end m p q)
    ∙ ap (drop (m - m')) (take-mask_row m p q n (omega (arith, l, l')) h)
    ∙ drop-mask_row m q m' n l l'

-- The row without the places to its right.
pub cut-mask_row :
    (m p n : ℕ)
    → n ≤ m
    → slice (pos 0) (neg_ℤ (pos (suc p))) (mask_row m (suc p) n) ≡ mask_row m 0 n
cut-mask_row m p n l =
    let row = mask_row m (suc p) n in
    let len = length-mask_row m (suc p) n l in
    let offset : slice_index (length row) (neg_ℤ (pos (suc p))) ≡ m + 0 = ground (arith, len) in
    ap (λ i. take i row) offset ∙ take-mask_row m (suc p) 0 n l (omega arith)
