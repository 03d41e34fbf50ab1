-- ===== src/Sizes/Graphs.antt =====
-- The graph that a batch runs on has been traced.
use lorax.Prelude.{
  ℕ, ◌<◌, ◌≤◌, ◌≡◌, refl, ap, ◌∙◌, arith, none, some, leb, length, Bool, true, List, [], ◌∷◌, ◌++◌,
  ◌==◌, ◌&&◌, ◌||◌, contains,
}
use lorax.Flash.{FlashCausalLmBatch}
use lorax.Flash.Filter.{maximum}
use lorax.Flash.Forward.{ForwardInputs, forward_inputs}
use lorax.Sizes.{
  max_batch_size, cached_batch_sizes, cached_max_ranks, get_cached_batch_size, can_use_graph,
  graph_key, keys_with, keys_of, warmup, has_graph,
}

-- For up to 256 requests `get_cached_batch_size` is the least of the traced sizes that holds them.
pub get_cached_batch_size-least :
    (n : ℕ)
    → 0 < n
    → n ≤ max_batch_size
    → (contains cached_batch_sizes (get_cached_batch_size n) ≡ true)
      × (n ≤ get_cached_batch_size n)
      × ((m : ℕ) → contains cached_batch_sizes m ≡ true → n ≤ m → get_cached_batch_size n ≤ m)
unfolding get_cached_batch_size contains
get_cached_batch_size-least n pos low = (ground arith, ground arith, λ m h l. ground arith)

has_graph-append :
    (xs ys : List (ℕ × ℕ)) (k : ℕ × ℕ) → has_graph (xs ++ ys) k ≡ (has_graph xs k || has_graph ys k)
unfolding has_graph
has_graph-append [] ys k = refl
has_graph-append (x ∷ xs) ys k = ground (arith, has_graph-append xs ys k)

has_graph-keys_with :
    (b : ℕ) (ranks : List ℕ) (n r : ℕ)
    → has_graph (keys_with b ranks) (n, r) ≡ (b == n && contains ranks r)
unfolding has_graph keys_with contains
has_graph-keys_with b [] n r = ground arith
has_graph-keys_with b (x ∷ ranks) n r = ground (
  arith,
  has_graph-keys_with b ranks n r,
  has_graph-append (keys_with b ranks) ((b, x) ∷ []) (n, r),
)

has_graph-keys_of :
    (sizes ranks : List ℕ) (n r : ℕ)
    → has_graph (keys_of sizes ranks) (n, r) ≡ (contains sizes n && contains ranks r)
unfolding has_graph keys_of contains
has_graph-keys_of [] ranks n r = refl
has_graph-keys_of (b ∷ sizes) ranks n r = ground (
  arith,
  has_graph-keys_of sizes ranks n r,
  has_graph-keys_with b ranks n r,
  has_graph-append (keys_of sizes ranks) (keys_with b ranks) (n, r),
)

get_cached_batch_size-traced :
    (n : ℕ) → contains cached_batch_sizes (get_cached_batch_size n) ≡ leb n max_batch_size
unfolding get_cached_batch_size contains
get_cached_batch_size-traced n = ground arith

allowed :
    (cuda_is_available : Bool) (max_total_tokens batch_size max_s : ℕ) (ranks : List ℕ)
    (all_lora : Bool)
    → can_use_graph cuda_is_available max_total_tokens batch_size max_s ranks all_lora ≡ true
    → (contains cached_max_ranks (maximum ranks) ≡ true) × (leb batch_size max_batch_size ≡ true)
unfolding can_use_graph
allowed cuda max_total_tokens n max_s ranks all_lora h = ground (arith, h)

module _ {F Schema : Type 0} (b : FlashCausalLmBatch F Schema) (inputs : ForwardInputs)
    (handed : forward_inputs b ≡ some inputs) where
  own_ids : b.speculative_ids ≡ none → inputs.input_ids ≡ b.input_ids
  unfolding forward_inputs
  own_ids h = ground (arith, handed, h)

  -- Where `can_use_graph` holds of a batch, the lookup that `forward` makes with the ids that it is
  -- handed finds a graph that `warmup` has traced exactly if those ids are at most 256. Without
  -- speculation they are those that `can_use_graph` has tested, and the lookup does not miss.
  pub can_use_graph-traced :
      (cuda_is_available : Bool) (max_total_tokens : ℕ) (ranks : List ℕ) (all_lora : Bool)
      → can_use_graph cuda_is_available max_total_tokens
          (length b.input_ids)
          b.max_seqlen
          ranks
          all_lora
        ≡ true
      → (has_graph warmup (graph_key (length inputs.input_ids) ranks)
          ≡ leb (length inputs.input_ids) max_batch_size)
        × (b.speculative_ids ≡ none
            → has_graph warmup (graph_key (length inputs.input_ids) ranks) ≡ true)
  unfolding graph_key warmup
  can_use_graph-traced cuda max_total_tokens ranks all_lora h =
      let n = length inputs.input_ids in
      let (rank, low) =
        allowed cuda max_total_tokens (length b.input_ids) b.max_seqlen ranks all_lora h in
      let found =
        has_graph-keys_of cached_batch_sizes cached_max_ranks (get_cached_batch_size n)
          (maximum ranks) in
      let hits : has_graph warmup (graph_key n ranks) ≡ leb n max_batch_size =
        ground (arith, rank, found, get_cached_batch_size-traced n) in
      (hits, λ alone. hits ∙ ap (λ ids. leb (length ids) max_batch_size) (own_ids alone) ∙ low)
