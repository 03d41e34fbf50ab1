-- ===== src/Sizes.antt =====
-- The sizes that tensors are padded and cut to: the ranks of the LoRA weights
-- (server/lorax_server/utils/sgmv.py), the batches of the CUDA graphs
-- (server/lorax_server/utils/graph.py) and the shards of the weights
-- (server/lorax_server/utils/weights.py).
pub mod Ranks
pub mod Graphs
pub mod Shards
use lorax.Prelude.{
  ℕ, ◌+◌, ◌-◌, ◌*◌, ◌/◌, ◌%◌, Bool, true, false, ◌&&◌, ◌||◌, Option, none, some, List, [], ◌∷◌,
  ◌++◌, map, ◌==◌, ltb, leb, if◌then◌else◌, contains, length, take, drop, replicate,
}
use lorax.Flash.Filter.{maximum}
use lorax.Lora.Load.{bgmv_max_rank}

abbrev pub min_sgmv_rank : ℕ
min_sgmv_rank = 8

abbrev pub sgmv_block_size : ℕ
sgmv_block_size = 16

-- The `target_rank` of `pad_rank`.
unfoldable pub target_rank : ℕ → ℕ → ℕ
target_rank world_size current_rank =
    let min_rank = min_sgmv_rank * world_size in
    if leb current_rank min_rank
    then min_rank
    else (current_rank + sgmv_block_size - 1) / sgmv_block_size * sgmv_block_size

-- `pad_rank` on the rows of a tensor along the dimension that is padded; `zero_row` is a row of
-- zeros.
unfoldable pub pad_rank : {Row : Type 0} → Bool → Row → ℕ → List Row → List Row
unfolding target_rank
pad_rank has_sgmv zero_row world_size t =
    if has_sgmv
    then if length t == target_rank world_size (length t)
      then t
      else t ++ replicate (target_rank world_size (length t) - length t) zero_row
    else t

abbrev pub max_batch_size : ℕ
max_batch_size = 256

abbrev pub batch_size_increment : ℕ
batch_size_increment = 32

abbrev pub cached_batch_sizes : List ℕ
cached_batch_sizes = 1 ∷ 2 ∷ 4 ∷ 8 ∷ 16 ∷ 32 ∷ 64 ∷ 96 ∷ 128 ∷ 160 ∷ 192 ∷ 224 ∷ 256 ∷ []

abbrev pub cached_max_ranks : List ℕ
cached_max_ranks = 0 ∷ 8 ∷ 16 ∷ 32 ∷ 64 ∷ []

unfoldable pub get_cached_batch_size : ℕ → ℕ
get_cached_batch_size batch_size =
    if batch_size == 1
    then 1
    else if batch_size == 2
    then 2
    else if leb batch_size 4
    then 4
    else if leb batch_size 8
    then 8
    else if leb batch_size 16
    then 16
    else (batch_size + batch_size_increment - 1) / batch_size_increment * batch_size_increment

-- The tests of `can_use_graph` on the size of the batch (`batch.input_ids.shape[0]`), its longest
-- sequence, the ranks of its adapters, and whether all its adapters are LoRA adapters.
unfoldable pub can_use_graph : Bool → ℕ → ℕ → ℕ → List ℕ → Bool → Bool
can_use_graph cuda_is_available max_total_tokens batch_size max_s ranks all_lora =
    cuda_is_available
    && leb batch_size max_batch_size
    && leb max_s max_total_tokens
    && leb (maximum ranks) bgmv_max_rank
    && leb (length ranks) 1
    && contains cached_max_ranks (maximum ranks)
    && all_lora

-- The key of the graph that `forward` runs on as many ids as it is handed, those that are
-- speculated included; `max_rank` is the largest of the ranks, or 0.
unfoldable pub graph_key : ℕ → List ℕ → ℕ × ℕ
unfolding get_cached_batch_size
graph_key batch_size ranks = (get_cached_batch_size batch_size, maximum ranks)

-- The keys of the graphs that `warmup` traces, sizes and ranks each from the last.
unfoldable pub keys_with : ℕ → List ℕ → List (ℕ × ℕ)
keys_with batch_size [] = []
keys_with batch_size (rank ∷ ranks) = keys_with batch_size ranks ++ (batch_size, rank) ∷ []

unfoldable pub keys_of : List ℕ → List ℕ → List (ℕ × ℕ)
unfolding keys_with
keys_of [] ranks = []
keys_of (batch_size ∷ sizes) ranks = keys_of sizes ranks ++ keys_with batch_size ranks

unfoldable pub warmup : List (ℕ × ℕ)
unfolding keys_of
warmup = keys_of cached_batch_sizes cached_max_ranks

-- Whether `self.cache` has a graph for the key.
unfoldable pub has_graph : List (ℕ × ℕ) → ℕ × ℕ → Bool
has_graph [] key = false
has_graph ((b, r) ∷ keys) (batch_size, rank) =
    b == batch_size && r == rank || has_graph keys (batch_size, rank)

-- `get_start_stop_idxs_for_rank`
unfoldable pub start_stop : ℕ → ℕ → ℕ → ℕ → ℕ × ℕ
start_stop offset size rank world_size =
    let block_size = size / world_size in
    (offset + rank * block_size, offset + (rank + 1) * block_size)

-- `t[start:stop]`
unfoldable pub slice_rows : {Row : Type 0} → ℕ × ℕ → List Row → List Row
slice_rows (start, stop) t = take (stop - start) (drop start t)

-- `shard_on_dim`, on the rows along the dimension.
unfoldable pub shard_on_dim : {Row : Type 0} → List Row → ℕ → ℕ → List Row
unfolding start_stop slice_rows
shard_on_dim t rank world_size = slice_rows (start_stop 0 (length t) rank world_size) t

-- The offset and the size of the range, or of the whole tensor.
unfoldable pub range_or_all : {Row : Type 0} → List Row → Option (ℕ × ℕ) → ℕ × ℕ
range_or_all t none = (0, length t)
range_or_all t (some range) = range

-- `get_sharded` of a tensor, where `range` is an offset and a size. `none` is the failed assertion,
-- or the ZeroDivisionError of a world of size 0.
unfoldable pub get_sharded : {Row : Type 0} → List Row → Option (ℕ × ℕ) → ℕ → ℕ → Option (List Row)
unfolding start_stop slice_rows range_or_all
get_sharded t range rank world_size =
    let (offset, size) = range_or_all t range in
    if world_size == 0
    then none
    else if size % world_size == 0
    then some (slice_rows (start_stop offset size rank world_size) t)
    else none
