-- ===== src/Flash/Filter/Mask.antt =====
-- The mask of `filter` selects, of each kept request, the slots that it still needs.
use mathlib.Core.List.{flatten}
use lorax.Prelude.{
  ℕ, zero, suc, ◌+◌, ◌≤◌, ◌≡◌, refl, ap, ◌∙◌, arith, Bool, true, false, List, [], ◌∷◌, ◌++◌, length,
  length-append, length-replicate, replicate, take,
}
use Prim.Native.Nat.add
use native.Mathlib.Nat.{zero-add}
use lorax.Flash.Filter.{set_true, mask_spans, select}

-- A request of the batch: whether it is kept, how many slots it still needs, and its slots.
abbrev pub Chunk : Type 0
Chunk = Bool × ℕ × List ℕ

abbrev pub Fits : List Chunk → Type 0
Fits [] = Unit
Fits ((kept, n, xs) ∷ rows) = (n ≤ length xs) × Fits rows

abbrev pub all_slots : List Chunk → List ℕ
all_slots [] = []
all_slots ((kept, n, xs) ∷ rows) = xs ++ all_slots rows

abbrev pub kept_starts : ℕ → List Chunk → List ℕ
kept_starts i [] = []
kept_starts i ((true, n, xs) ∷ rows) = i ∷ kept_starts (i + length xs) rows
kept_starts i ((false, n, xs) ∷ rows) = kept_starts (i + length xs) rows

abbrev pub kept_spans : List Chunk → List ℕ
kept_spans [] = []
kept_spans ((true, n, xs) ∷ rows) = n ∷ kept_spans rows
kept_spans ((false, n, xs) ∷ rows) = kept_spans rows

abbrev pub kept_chunks : List Chunk → List (List ℕ)
kept_chunks [] = []
kept_chunks ((true, n, xs) ∷ rows) = take n xs ∷ kept_chunks rows
kept_chunks ((false, n, xs) ∷ rows) = kept_chunks rows

set_true-append :
    (i s e : ℕ) (xs ys : List Bool)
    → set_true i s e (xs ++ ys) ≡ set_true i s e xs ++ set_true (i + length xs) s e ys
unfolding set_true
set_true-append i s e [] ys = ground arith
set_true-append i s e (x ∷ xs) ys = ground (arith, set_true-append (i + 1) s e xs ys)

length-set_true : (i s e : ℕ) (xs : List Bool) → length (set_true i s e xs) ≡ length xs
unfolding set_true
length-set_true i s e [] = refl
length-set_true i s e (x ∷ xs) = ap suc (length-set_true (i + 1) s e xs)

set_true_behind : (i s e : ℕ) (xs : List Bool) → i + length xs ≤ s → set_true i s e xs ≡ xs
unfolding set_true
set_true_behind i s e [] h = refl
set_true_behind i s e (x ∷ xs) h = ground (arith, set_true_behind (i + 1) s e xs)

set_true_before : (i s e : ℕ) (xs : List Bool) → e ≤ i → set_true i s e xs ≡ xs
unfolding set_true
set_true_before i s e [] h = refl
set_true_before i s e (x ∷ xs) h = ground (arith, set_true_before (i + 1) s e xs)

mask_spans-append :
    (i : ℕ) (ss ns : List ℕ) (xs ys : List Bool)
    → mask_spans i ss ns (xs ++ ys) ≡ mask_spans i ss ns xs ++ mask_spans (i + length xs) ss ns ys
unfolding mask_spans
mask_spans-append i [] ns xs ys = refl
mask_spans-append i (s ∷ ss) [] xs ys = refl
mask_spans-append i (s ∷ ss) (n ∷ ns) xs ys = rw (set_true-append i s (s + n) xs ys) (
    mask_spans-append i ss ns (set_true i s (s + n) xs) (set_true (i + length xs) s (s + n) ys)
    ∙ rw length-set_true)

mask_spans_behind :
    (i j : ℕ) (rows : List Chunk) (ns : List ℕ) (xs : List Bool)
    → i + length xs ≤ j
    → mask_spans i (kept_starts j rows) ns xs ≡ xs
unfolding mask_spans
mask_spans_behind i j [] ns xs h = refl
mask_spans_behind i j ((true, n, cs) ∷ rows) [] xs h = refl
mask_spans_behind i j ((true, n, cs) ∷ rows) (m ∷ ns) xs h =
    ap (mask_spans i (kept_starts (j + length cs) rows) ns) (set_true_behind i j (j + m) xs h)
    ∙ mask_spans_behind i (j + length cs) rows ns xs (omega arith)
mask_spans_behind i j ((false, n, cs) ∷ rows) ns xs h =
    mask_spans_behind i (j + length cs) rows ns xs (omega arith)

select-append :
    (xs ys : List ℕ) (ms ns : List Bool)
    → length ms ≡ length xs
    → select (xs ++ ys) (ms ++ ns) ≡ select xs ms ++ select ys ns
unfolding select
select-append [] ys [] ns h = refl
select-append [] ys (m ∷ ms) ns h = absurd (omega arith)
select-append (x ∷ xs) ys [] ns h = absurd (omega arith)
select-append (x ∷ xs) ys (m ∷ ms) ns h = ground (arith, select-append xs ys ms ns (omega arith))

select_none : (xs : List ℕ) → select xs (replicate (length xs) false) ≡ []
unfolding select
select_none [] = refl
select_none (x ∷ xs) = select_none xs

select_span :
    (i s n : ℕ) (xs : List ℕ)
    → s ≤ i
    → select xs (set_true i s (i + n) (replicate (length xs) false)) ≡ take n xs
unfolding select set_true
select_span i s zero xs h =
    ap (select xs) (set_true_before i s (i + 0) (replicate (length xs) false) (omega arith))
    ∙ select_none xs
select_span i s (suc n) [] h = refl
select_span i s (suc n) (x ∷ xs) h = ground (arith, select_span (i + 1) s n xs)

replicate-add : (m n : ℕ) → replicate (m + n) false ≡ replicate m false ++ replicate n false
replicate-add zero n = rw zero-add
replicate-add (suc m) n = rw add.suc (ap (λ (bs : List Bool). false ∷ bs) (replicate-add m n))

-- One request ahead of `rows`, whose part of the mask is `ms`, where `rows` are done.
rest_lem :
    (i : ℕ) (xs : List ℕ) (rows : List Chunk) (ms : List Bool)
    → length ms ≡ length xs
    → select (all_slots rows) (
        mask_spans
          (i + length xs)
          (kept_starts (i + length xs) rows)
          (kept_spans rows)
          (replicate (length (all_slots rows)) false))
      ≡ flatten (kept_chunks rows)
    → select (xs ++ all_slots rows) (
        mask_spans i
          (kept_starts (i + length xs) rows)
          (kept_spans rows)
          (ms ++ replicate (length (all_slots rows)) false))
      ≡ select xs ms ++ flatten (kept_chunks rows)
rest_lem i xs rows ms e done =
    let ss = kept_starts (i + length xs) rows in
    let there = replicate (length (all_slots rows)) false in
    rw
      (
        mask_spans-append i ss (kept_spans rows) ms there,
        mask_spans_behind i (i + length xs) rows (kept_spans rows) ms (omega arith),
        select-append xs (all_slots rows) ms (mask_spans (i + length ms) ss (kept_spans rows) there)
            e,
        e,
      )
      (ap (◌++◌ (select xs ms)) done)

set_true_ahead :
    (i n : ℕ) (xs : List ℕ) (there : List Bool)
    → n ≤ length xs
    → set_true i i (i + n) (replicate (length xs) false ++ there)
      ≡ set_true i i (i + n) (replicate (length xs) false) ++ there
set_true_ahead i n xs there h =
    let here = replicate (length xs) false in
    set_true-append i i (i + n) here there
    ∙ ap (◌++◌ (set_true i i (i + n) here)) (
        set_true_before (i + length here) i (i + n) there
          (omega (arith, length-replicate (length xs) false)))

-- The mask built from the kept requests' starts and spans selects their slots, a span of each.
pub select-mask_spans :
    (i : ℕ) (rows : List Chunk)
    → Fits rows
    → select (all_slots rows) (
        mask_spans i
          (kept_starts i rows)
          (kept_spans rows)
          (replicate (length (all_slots rows)) false))
      ≡ flatten (kept_chunks rows)
unfolding flatten mask_spans
select-mask_spans i [] h = unfold select in refl
select-mask_spans i ((true, n, xs) ∷ rows) h =
    let span = set_true i i (i + n) (replicate (length xs) false) in
    rw (length-append xs (all_slots rows), replicate-add (length xs) (length (all_slots rows)))
      (ap
          (λ ms.
            select (xs ++ all_slots rows)
              (mask_spans i (kept_starts (i + length xs) rows) (kept_spans rows) ms))
          (set_true_ahead i n xs (replicate (length (all_slots rows)) false) h.0)
        ∙ rest_lem i xs rows span
            (length-set_true i i (i + n) _ ∙ length-replicate (length xs) false)
            (select-mask_spans (i + length xs) rows h.1)
        ∙ ap (λ ys. ys ++ flatten (kept_chunks rows)) (select_span i i n xs (omega arith)))
select-mask_spans i ((false, n, xs) ∷ rows) h =
    rw (length-append xs (all_slots rows), replicate-add (length xs) (length (all_slots rows)))
      (rest_lem i xs rows (replicate (length xs) false) (length-replicate (length xs) false)
          (select-mask_spans (i + length xs) rows h.1)
        ∙ ap (λ ys. ys ++ flatten (kept_chunks rows)) (select_none xs))
