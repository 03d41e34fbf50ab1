-- ===== src/Sizes/Ranks.antt =====
-- The rank that the LoRA weights are padded to.
use lorax.Prelude.{ℕ, ◌+◌, ◌*◌, ◌%◌, ◌<◌, ◌≤◌, ◌≡◌, ◌⊎◌, arith}
use lorax.Sizes.{min_sgmv_rank, sgmv_block_size, target_rank}

-- The padded rank is at least the rank, and at least the least rank of the kernels for each of
-- `world_size` devices. It is that least rank, or a multiple of the block size that is less than a
-- block above the rank, and to pad it again keeps it.
target_rank-bounds :
    (world_size rank : ℕ)
    → (rank ≤ target_rank world_size rank)
      × (min_sgmv_rank * world_size ≤ target_rank world_size rank)
      × ((target_rank world_size rank ≡ min_sgmv_rank * world_size)
          ⊎ ((target_rank world_size rank % sgmv_block_size ≡ 0)
              × (target_rank world_size rank < rank + sgmv_block_size)))
      × (target_rank world_size (target_rank world_size rank) ≡ target_rank world_size rank)
unfolding target_rank
target_rank-bounds world_size rank = ground arith
