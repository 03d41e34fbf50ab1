-- ===== src/Sizes/Shards.antt =====
-- The shards of a tensor put together again.
use lorax.Prelude.{
  ℕ, zero, suc, ◌+◌, ◌-◌, ◌*◌, ◌/◌, ◌%◌, ◌<◌, ◌≡◌, sym, ap, ◌∙◌, refl, arith, List, [], ◌∷◌, ◌++◌,
  Option, some, take, drop, drop-drop, ◌>>=◌,
}
use lorax.Sizes.{start_stop, slice_rows, get_sharded, range_or_all}

module _ {Row : Type 0} where
  take-suc : (m n : ℕ) (x : Row) (t : List Row) → take (suc m + n) (x ∷ t) ≡ x ∷ take (m + n) t
  take-suc m n x t = let e : suc m + n ≡ suc (m + n) = omega arith in ap (λ k. take k (x ∷ t)) e

  take_nil : (n : ℕ) → take {A = Row} n [] ≡ []
  take_nil zero = refl
  take_nil (suc n) = refl

  take-add : (m n : ℕ) (t : List Row) → take (m + n) t ≡ take m t ++ take n (drop m t)
  take-add zero n t = ap (λ k. take k t) (omega arith)
  take-add (suc m) n [] = take_nil (suc m + n) ∙ sym (take_nil n)
  take-add (suc m) n (x ∷ t) = take-suc m n x t ∙ ap (◌∷◌ x) (take-add m n t)

  -- The shards of the first `n` ranks, one after the other.
  pub gathered : List Row → Option (ℕ × ℕ) → ℕ → ℕ → Option (List Row)
  gathered t range world_size zero = some []
  gathered t range world_size (suc n) = do
    before ← gathered t range world_size n
    shard ← get_sharded t range n world_size
    some (before ++ shard)

  shard-slice :
      (t : List Row) (offset size n world_size : ℕ)
      → slice_rows (start_stop offset size n world_size) t
        ≡ take (size / world_size) (drop (n * (size / world_size)) (drop offset t))
  unfolding slice_rows start_stop
  shard-slice t offset size n world_size =
      let b = size / world_size in
      let e : offset + (n + 1) * b - (offset + n * b) ≡ b = grind arith in
      ap (λ k. take k (drop (offset + n * b) t)) e ∙ ap (take b) (drop-drop offset (n * b) t)

  get_sharded-take :
      (t : List Row) (range : Option (ℕ × ℕ)) (world_size n : ℕ)
      → 0 < world_size
      → (range_or_all t range).1 % world_size ≡ 0
      → let b = (range_or_all t range).1 / world_size in
        get_sharded t range n world_size
        ≡ some (take b (drop (n * b) (drop (range_or_all t range).0 t)))
  unfolding get_sharded
  get_sharded-take t range world_size n pos even =
      let (offset, size) = range_or_all t range in
      ground (arith, pos, even, shard-slice t offset size n world_size)

  gathered-take :
      (t : List Row) (range : Option (ℕ × ℕ)) (world_size n : ℕ)
      → 0 < world_size
      → (range_or_all t range).1 % world_size ≡ 0
      → let b = (range_or_all t range).1 / world_size in
        gathered t range world_size n ≡ some (take (n * b) (drop (range_or_all t range).0 t))
  unfolding gathered
  gathered-take t range world_size zero pos even =
      let b = (range_or_all t range).1 / world_size in
      let e : 0 * b ≡ 0 = grind arith in
      ap (λ k. some (take k (drop (range_or_all t range).0 t))) (sym e)
  gathered-take t range world_size (suc n) pos even =
      let (offset, size) = range_or_all t range in
      let b = size / world_size in
      let e : n * b + b ≡ suc n * b = grind arith in
      rw
        (
          gathered-take t range world_size n pos even,
          get_sharded-take t range world_size n pos even,
        )
        (ap some (sym (take-add (n * b) b (drop offset t)) ∙ ap (λ k. take k (drop offset t)) e))

  -- Where the size of the range is a multiple of the positive size of the world, `get_sharded`
  -- succeeds for every rank, and the shards of all ranks one after the other are the range.
  pub gathered-range :
      (t : List Row) (range : Option (ℕ × ℕ)) (world_size : ℕ)
      → 0 < world_size
      → (range_or_all t range).1 % world_size ≡ 0
      → gathered t range world_size world_size
        ≡ some (take (range_or_all t range).1 (drop (range_or_all t range).0 t))
  gathered-range t range world_size pos even =
      let (offset, size) = range_or_all t range in
      let e : world_size * (size / world_size) ≡ size = grind arith in
      gathered-take t range world_size world_size pos even
      ∙ ap (λ k. some (take k (drop offset t))) e
