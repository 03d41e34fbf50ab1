-- ===== src/Causal/Generate/Rows.antt =====
-- The row of the mask once its request has a new token.
use lorax.Prelude.{
  ℕ, zero, suc, ◌+◌, ◌-◌, ◌<◌, ◌≤◌, ◌≡◌, refl, sym, ap, ap₂, subst, ◌∙◌, arith, some, List, [], ◌∷◌,
  ◌++◌, map, true, ltb, length, append_assoc, length-append, length-replicate, replicate,
}
use lorax.Prelude.Int.{pos, negsuc, neg_ℤ}
use lorax.Flash.Generate.{set_at}
use lorax.Causal.Concatenate.{each}
use lorax.Flash.Texts.{slice}
use lorax.Causal.{CausalLmBatch}
use lorax.Causal.Padded.{IsPadded}
use lorax.Causal.Rows.{mask_row, All, maximum-All}
use lorax.Causal.Filter.Rows.{length-mask_row, cut-mask_row}
use lorax.Causal.Generate.{set_one}

set_at_behind :
    (i x : ℕ) (xs : List ℕ) (y : ℕ) (ys : List ℕ)
    → i ≡ length xs
    → set_at i x (xs ++ y ∷ ys) ≡ some (xs ++ x ∷ ys)
unfolding set_at
set_at_behind zero x [] y ys h = refl
set_at_behind (suc i) x [] y ys h = absurd (omega (arith, h))
set_at_behind zero x (z ∷ xs) y ys h = absurd (omega (arith, h))
set_at_behind (suc i) x (z ∷ xs) y ys h = rw (set_at_behind i x xs y ys (omega (arith, h))) refl

replicate_behind :
    {A : Type 0} (n : ℕ) (x : A) (ys : List A) → replicate n x ++ x ∷ ys ≡ replicate (suc n) x ++ ys
replicate_behind zero x ys = refl
replicate_behind (suc n) x ys = ap (◌∷◌ x) (replicate_behind n x ys)

-- The first place to the right of the tokens is set.
set_at-mask_row :
    (m q n : ℕ) → n ≤ m → set_at m 1 (mask_row m (suc q) n) ≡ some (mask_row (suc m) q (suc n))
unfolding mask_row
set_at-mask_row m q n h =
    let zeros : List ℕ = replicate (m - n) 0 in
    let ones : List ℕ = replicate n 1 in
    let room : List ℕ = replicate q 0 in
    let len = length-append zeros ones in
    ap (set_at m 1) (sym (append_assoc zeros ones (0 ∷ room)))
    ∙ set_at_behind m 1 (zeros ++ ones) 0 room
        (omega (arith, h, len, length-replicate {A = ℕ} (m - n) 0, length-replicate {A = ℕ} n 1))
    ∙ ap some (
        append_assoc zeros ones (1 ∷ room)
        ∙ ap (λ r. zeros ++ r) (replicate_behind n 1 room)
        ∙ ap (λ k. replicate k 0 ++ (replicate (suc n) 1 ++ room)) (omega arith))

pub set_one-mask_row :
    (m q n : ℕ)
    → n ≤ m
    → set_one (negsuc q) (mask_row m (suc q) n) ≡ some (mask_row (suc m) q (suc n))
unfolding set_one
set_one-mask_row m q n h =
    let len = length-mask_row m (suc q) n h in
    let inside : ltb q (length (mask_row m (suc q) n)) ≡ true = ground (arith, len) in
    let place : length (mask_row m (suc q) n) - (q + 1) ≡ m = omega (arith, len) in
    rw (inside, place) (set_at-mask_row m q n h)

pub set_ones-mask_row :
    (m q : ℕ) (ns : List ℕ)
    → All (λ n. n ≤ m) ns
    → each (set_one (negsuc q)) (map (mask_row m (suc q)) ns)
      ≡ some (map (mask_row (suc m) q) (map suc ns))
unfolding each All
set_ones-mask_row m q [] h = refl
set_ones-mask_row m q (n ∷ ns) (h, hs) =
    rw (set_one-mask_row m q n h, set_ones-mask_row m q ns hs) refl

cut-mask_rows :
    (m p : ℕ) (ns : List ℕ)
    → All (λ n. n ≤ m) ns
    → map (slice (pos 0) (neg_ℤ (pos (suc p)))) (map (mask_row m (suc p)) ns)
      ≡ map (mask_row m 0) ns
unfolding All
cut-mask_rows m p [] h = refl
cut-mask_rows m p (n ∷ ns) (h, hs) = ap₂ (◌∷◌) (cut-mask_row m p n h) (cut-mask_rows m p ns hs)

-- What the model is handed as its mask: a batch with room has 1 at the tokens of each request and 0
-- at its padding, and nothing of the room.
pub seen_mask :
    {C K : Type 0} (b : CausalLmBatch C K) (p : ℕ)
    → IsPadded b p
    → 0 < p
    → map (slice (pos 0) (neg_ℤ b.padding_right_offset)) b.attention_mask
      ≡ map (mask_row b.max_input_length 0) b.input_lengths
seen_mask b zero padded h = absurd (omega (arith, h))
seen_mask b (suc p) padded h =
    ap₂ (λ o rows. map (slice (pos 0) (neg_ℤ o)) rows) padded.padding padded.mask
    ∙ cut-mask_rows b.max_input_length p b.input_lengths (
        subst (λ m. All (λ n. n ≤ m) b.input_lengths) (sym padded.longest)
          (maximum-All b.input_lengths))
