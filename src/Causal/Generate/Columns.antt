-- ===== src/Causal/Generate/Columns.antt =====
-- The columns of the batch that goes on.
use lorax.Prelude.{
  ℕ, zero, suc, ◌+◌, ◌-◌, ◌<◌, ◌≤◌, ◌≡◌, refl, sym, ap, ap₂, subst, ◌∙◌, arith, some, List, [], ◌∷◌,
  ◌++◌, append-nil, map, length, length-map, take, drop,
}
use lorax.Prelude.Int.{pos, negsuc, neg_ℤ}
use lorax.Flash.Filter.{maximum}
use lorax.Flash.Prefill.{last_n}
use lorax.Causal.{CausalLmBatch}
use lorax.Causal.Rows.{All, maximum-All, mask_row}
use lorax.Causal.Padded.{IsPadded}
use lorax.Causal.Concatenate.{each}
use lorax.Causal.Generate.{overwrite, set_first, set_firsts, set_one}
use lorax.Causal.Generate.Rows.{set_ones-mask_row}
use lorax.Causal.Generate.Members.{map-map}

drop_whole : {A : Type 0} (n : ℕ) (xs : List A) → n ≡ length xs → drop n xs ≡ []
drop_whole zero [] h = refl
drop_whole zero (x ∷ xs) h = absurd (omega (arith, h))
drop_whole (suc n) [] h = refl
drop_whole (suc n) (x ∷ xs) h = drop_whole n xs (omega (arith, h))

pub overwrite_whole :
    {A : Type 0} (news olds : List A) → length news ≡ length olds → overwrite news olds ≡ news
unfolding overwrite
overwrite_whole news olds h =
    ap (λ xs. news ++ xs) (drop_whole (length news) olds h) ∙ append-nil news

pub overwrite-length :
    {A B : Type 0} (f : B → A) (ss : List B) (olds : List A) (n : ℕ)
    → length ss ≡ n
    → length olds ≡ n
    → length (overwrite (map f ss) olds) ≡ n
overwrite-length f ss olds n h k =
    ap length (overwrite_whole (map f ss) olds (length-map f ss ∙ h ∙ sym k)) ∙ length-map f ss ∙ h

pub maximum-grow : (ns : List ℕ) → 0 < length ns → maximum (map suc ns) ≡ suc (maximum ns)
unfolding maximum
maximum-grow [] h = absurd (omega (arith, h))
maximum-grow (n ∷ []) h = omega arith
maximum-grow (n ∷ k ∷ ns) h = omega (arith, maximum-grow (k ∷ ns) (omega arith))

pub move_places :
    (rows : List (List ℕ)) (ns : List ℕ)
    → map (last_n 1) rows ≡ map (λ n. (n - 1) ∷ []) ns
    → All (λ n. 1 ≤ n) ns
    → map (last_n 1) (map (λ row. map (λ p. p + 1) (last_n 1 row)) rows)
      ≡ map (λ n. (n - 1) ∷ []) (map suc ns)
unfolding last_n All
move_places rows ns h all =
    ap (map (last_n 1)) (
      sym (map-map (map (λ p. p + 1)) (last_n 1) rows)
      ∙ ap (map (map (λ p. p + 1))) h
      ∙ map-map (map (λ p. p + 1)) (λ n. (n - 1) ∷ []) ns)
    ∙ moved ns all
  where
    moved :
        (ns : List ℕ)
        → All (λ n. 1 ≤ n) ns
        → map (last_n 1) (map (λ n. (n - 1 + 1) ∷ []) ns) ≡ map (λ n. (n - 1) ∷ []) (map suc ns)
    moved [] h = refl
    moved (n ∷ ns) (h, hs) = ap₂ (◌∷◌) (ap (λ k. k ∷ []) (omega (arith, h))) (moved ns hs)

pub set_firsts-column :
    (ids : List ℕ) (rows : List (List ℕ))
    → length ids ≡ length rows
    → All (λ row. 1 ≤ length row) rows
    → (length (map (take 1) (set_firsts ids rows)) ≡ length rows)
      × All (λ row. length row ≡ 1) (map (take 1) (set_firsts ids rows))
unfolding set_firsts set_first All
set_firsts-column [] [] h all = (refl, tt)
set_firsts-column [] (row ∷ rows) h all = absurd (omega (arith, h))
set_firsts-column (id ∷ ids) [] h all = absurd (omega (arith, h))
set_firsts-column (id ∷ ids) ([] ∷ rows) h (l, all) = absurd (omega (arith, l))
set_firsts-column (id ∷ ids) ((x ∷ row) ∷ rows) h (l, all) =
    let (count, ones) = set_firsts-column ids rows (omega (arith, h)) all in
    (ap suc count, (refl, ones))

pub new_mask :
    {C K : Type 0} (b : CausalLmBatch C K) (q : ℕ)
    → IsPadded b (suc q)
    → each (set_one (neg_ℤ b.padding_right_offset)) b.attention_mask
      ≡ some (map (mask_row (suc b.max_input_length) q) (map suc b.input_lengths))
new_mask b q padded =
    let offset : neg_ℤ (pos (suc q)) ≡ negsuc q = ground arith in
    ap₂ (λ o rows. each (set_one o) rows) (ap neg_ℤ padded.padding ∙ offset) padded.mask
    ∙ set_ones-mask_row b.max_input_length q b.input_lengths (
        subst (λ m. All (λ n. n ≤ m) b.input_lengths) (sym padded.longest)
          (maximum-All b.input_lengths))
