-- ===== src/Causal/Concatenate/Rows.antt =====
-- Rows that are written over zeros.
use lorax.Prelude.{
  ℕ, suc, ◌+◌, ◌-◌, ◌≤◌, ◌≡◌, refl, sym, ap, arith, min, Option, some, List, [], ◌∷◌, ◌++◌,
  append_assoc, map, ◌==◌, true, length, replicate,
}
use lorax.Prelude.Int.{ℤ}
use lorax.Flash.Concatenate.{assign}
use lorax.Flash.Texts.{slice_index}
use lorax.Causal.Concatenate.{each, write_row}
use lorax.Causal.Rows.{All}

pub assign_whole : {A : Type 0} (n : ℕ) (xs : List A) → length xs ≡ n → assign n xs ≡ some xs
assign_whole n [] h = ground (arith, h)
assign_whole n (x ∷ []) h = ap (λ k. some (replicate k x)) (sym h)
assign_whole n (x ∷ y ∷ xs) h =
    let same : (length (x ∷ y ∷ xs) == n) ≡ true = ground (arith, h) in rw same refl

pub write_row-whole :
    {A : Type 0} (blank : A) (width i j : ℕ) (start end : ℤ) (xs : List A)
    → slice_index width start ≡ i
    → slice_index width end ≡ j
    → i + length xs ≡ j
    → j ≤ width
    → write_row blank width start end xs
      ≡ some (replicate i blank ++ (xs ++ replicate (width - j) blank))
unfolding write_row
write_row-whole blank width i j start end xs h k len l =
    let from : min width (slice_index width start) ≡ i = omega (arith, h, len, l) in
    let count : min width (slice_index width end) - i ≡ length xs = omega (arith, k, len, l) in
    let behind : i + length xs ≡ j = len in
    rw (from, count, assign_whole (length xs) xs refl, behind)
      (ap some (append_assoc (replicate i blank) xs (replicate (width - j) blank)))

pub each-map :
    {A B D : Type 0} (f : B → Option D) (g : A → B) (h : A → D) (P : A → Type 0) (xs : List A)
    → ((x : A) → P x → f (g x) ≡ some (h x))
    → All P xs
    → each f (map g xs) ≡ some (map h xs)
unfolding each All
each-map f g h P [] same all = refl
each-map f g h P (x ∷ xs) same (p, ps) = rw (same x p, each-map f g h P xs same ps) refl

pub length-each :
    {A B : Type 0} (f : A → Option B) (xs : List A) (ys : List B)
    → each f xs ≡ some ys
    → length ys ≡ length xs
unfolding each
length-each f [] ys h = ground (arith, h)
length-each f (x ∷ xs) [] h = absurd (ground (arith, h))
length-each f (x ∷ xs) (y ∷ ys) h =
    let rest : each f xs ≡ some ys = ground (arith, h) in ap suc (length-each f xs ys rest)
