-- ===== src/Segments/Runs.antt =====
-- The runs of equal values in a list, as `find_segments` finds them.
use lorax.Prelude.{
  ℕ, ◌+◌, ◌<◌, ◌≡◌, refl, arith, List, [], ◌∷◌, ◌++◌, map, ◌==◌, if◌then◌else◌, length, drop,
  append_assoc,
}
use lorax.Segments.{Scan, scan, scan_step, close, find_segments}

-- The inner boundaries of `previous ∷ xs`, where `i` items are before `xs`.
unfoldable pub breaks : ℕ → ℕ → List ℕ → List ℕ
breaks previous i [] = []
breaks previous i (x ∷ xs) =
    let rest = breaks x (i + 1) xs in if x == previous then rest else i ∷ rest

-- The values of the runs of `previous ∷ xs` but the last, and the last value.
unfoldable pub closed_values : ℕ → List ℕ → List ℕ
closed_values previous [] = []
closed_values previous (x ∷ xs) =
    let rest = closed_values x xs in if x == previous then rest else previous ∷ rest

unfoldable pub final : ℕ → List ℕ → ℕ
final previous [] = previous
final previous (x ∷ xs) = final x xs

close-scan :
    (previous i : ℕ) (xs : List ℕ) (s : Scan)
    → s.start_index < i
    → close (i + length xs) (scan previous i xs s).0 (scan previous i xs s).1 ≡ (
      s.segments ++ (breaks previous i xs ++ (i + length xs) ∷ []),
      s.segment_indices ++ (closed_values previous xs ++ final previous xs ∷ []),
    )
unfolding scan close scan_step breaks closed_values final
close-scan previous i [] s h = ground arith
close-scan previous i (x ∷ xs) s h = ground (
  arith,
  append_assoc s.segments (i ∷ []) (breaks x (i + 1) xs ++ (i + 1 + length xs) ∷ []),
  append_assoc s.segment_indices (previous ∷ []) (closed_values x xs ++ final x xs ∷ []),
  close-scan x (i + 1) xs (scan_step previous x i s),
)

-- `find_segments` returns 0, each boundary between unequal neighbours and the length, with the
-- value of each run.
pub find_segments-breaks :
    (x : ℕ) (xs : List ℕ)
    → find_segments (x ∷ xs)
      ≡ (0 ∷ (breaks x 1 xs ++ (1 + length xs) ∷ []), closed_values x xs ++ final x xs ∷ [])
unfolding find_segments
find_segments-breaks x xs =
    ground (
      arith,
      close-scan x 1 xs (record { segments = 0 ∷ []; segment_indices = []; start_index = 0 }),
    )

pub breaks-append :
    (p i : ℕ) (xs : List ℕ) (y : ℕ) (ys : List ℕ)
    → breaks p i (xs ++ y ∷ ys)
      ≡ breaks p i xs
        ++ (if final p xs == y
            then breaks y (i + length xs + 1) ys
            else (i + length xs) ∷ breaks y (i + length xs + 1) ys)
unfolding breaks final
breaks-append p i [] y ys = ground arith
breaks-append p i (x ∷ xs) y ys = ground (arith, breaks-append x (i + 1) xs y ys)

pub closed_values-append :
    (p : ℕ) (xs : List ℕ) (y : ℕ) (ys : List ℕ)
    → closed_values p (xs ++ y ∷ ys)
      ≡ closed_values p xs
        ++ (if final p xs == y then closed_values y ys else final p xs ∷ closed_values y ys)
unfolding closed_values final
closed_values-append p [] y ys = ground arith
closed_values-append p (x ∷ xs) y ys = ground (arith, closed_values-append x xs y ys)

pub final-append : (p : ℕ) (xs : List ℕ) (y : ℕ) (ys : List ℕ) → final p (xs ++ y ∷ ys) ≡ final y ys
unfolding final
final-append p [] y ys = refl
final-append p (x ∷ xs) y ys = final-append x xs y ys

pub breaks-add : (p k i : ℕ) (xs : List ℕ) → map (λ s. s + k) (breaks p i xs) ≡ breaks p (i + k) xs
unfolding breaks
breaks-add p k i [] = refl
breaks-add p k i (x ∷ xs) = ground (arith, breaks-add x k (i + 1) xs)

-- The first of the values is the first item's.
pub values_head :
    (y : ℕ) (ys : List ℕ)
    → closed_values y ys ++ final y ys ∷ [] ≡ y ∷ drop 1 (closed_values y ys ++ final y ys ∷ [])
unfolding closed_values final
values_head y [] = refl
values_head y (x ∷ xs) = ground (arith, values_head x xs)
