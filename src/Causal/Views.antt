-- ===== src/Causal/Views.antt =====
-- What a padded batch stands for: its requests one by one, without the padding.
use mathlib.Core.List.{flatten}
use lorax.Prelude.{ℕ, Option, none, some, List, [], ◌∷◌, ◌+◌, map, gather, get_elem?, ◌>>=◌}
use lorax.Prelude.Int.{ℤ}
use lorax.Tokens.Stopping.{StoppingCriteria}
use lorax.Causal.{Request, Layer, CausalLmBatch}
use lorax.Causal.Padded.{attended}
use lorax.Causal.Concatenate.{each}

-- Of each request, and of each layer what the model attends to. The lists are as long as there are
-- requests.
pub record View (C K : Type 0) : Type 0 where
  pub requests : List Request
  pub input_ids : List (List ℕ)
  pub position_ids : List (List ℕ)
  pub all_input_ids : List (List ℕ)
  pub input_lengths : List ℕ
  pub prefix_offsets : List ℤ
  pub read_offsets : List ℤ
  pub next_token_choosers : List C
  pub stopping_criterias : List StoppingCriteria
  pub attended : List (Layer K)

unfoldable pub gather_layer : {K : Type 0} → List ℕ → Layer K → Option (Layer K)
gather_layer indices layer = do
  keys ← gather layer.keys indices
  values ← gather layer.values indices
  some (record { keys = keys; values = values })

unfoldable pub gather_layers : {K : Type 0} → List ℕ → List (Layer K) → Option (List (Layer K))
unfolding gather_layer
gather_layers indices [] = some []
gather_layers indices (layer ∷ layers) = do
  kept ← gather_layer indices layer
  rest ← gather_layers indices layers
  some (kept ∷ rest)

module _ {C K : Type 0} where
  -- A batch that has a past.
  unfoldable pub view : CausalLmBatch C K → Option (View C K)
  unfolding attended
  view b = do
    attended ← attended b
    some (record {
      requests = b.requests;
      input_ids = b.input_ids;
      position_ids = b.position_ids;
      all_input_ids = b.all_input_ids;
      input_lengths = b.input_lengths;
      prefix_offsets = b.prefix_offsets;
      read_offsets = b.read_offsets;
      next_token_choosers = b.next_token_choosers;
      stopping_criterias = b.stopping_criterias;
      attended = attended;
    })

  -- The requests at the indices, in their order.
  unfoldable pub select_view : List ℕ → View C K → Option (View C K)
  unfolding gather_layers
  select_view indices v = do
    requests ← gather v.requests indices
    input_ids ← gather v.input_ids indices
    position_ids ← gather v.position_ids indices
    all_input_ids ← gather v.all_input_ids indices
    input_lengths ← gather v.input_lengths indices
    prefix_offsets ← gather v.prefix_offsets indices
    read_offsets ← gather v.read_offsets indices
    next_token_choosers ← gather v.next_token_choosers indices
    stopping_criterias ← gather v.stopping_criterias indices
    attended ← gather_layers indices v.attended
    some (record {
      requests = requests;
      input_ids = input_ids;
      position_ids = position_ids;
      all_input_ids = all_input_ids;
      input_lengths = input_lengths;
      prefix_offsets = prefix_offsets;
      read_offsets = read_offsets;
      next_token_choosers = next_token_choosers;
      stopping_criterias = stopping_criterias;
      attended = attended;
    })

-- Layer `j` of the requests of all views, one view after the other.
unfoldable pub join_attended_layer : {K : Type 0} → ℕ → List (List (Layer K)) → Option (Layer K)
unfolding each
join_attended_layer j attended = do
  layers ← each (λ layers. get_elem? layers j) attended
  some (record {
    keys = flatten (map (λ l. l.keys) layers);
    values = flatten (map (λ l. l.values) layers);
  })

-- The layers from `j` on, as many as are in the list.
unfoldable pub join_attended :
    {K : Type 0} → ℕ → List (Layer K) → List (List (Layer K)) → Option (List (Layer K))
unfolding join_attended_layer
join_attended j [] attended = some []
join_attended j (layer ∷ layers) attended = do
  joined ← join_attended_layer j attended
  rest ← join_attended (j + 1) layers attended
  some (joined ∷ rest)

module _ {C K : Type 0} where
  -- The requests of one view after those of the other.
  unfoldable pub join_views : List (View C K) → Option (View C K)
  unfolding join_attended
  join_views [] = none
  join_views (first ∷ others) = do
    let views = first ∷ others
    attended ← join_attended 0 first.attended (map (λ v. v.attended) views)
    some (record {
      requests = flatten (map (λ v. v.requests) views);
      input_ids = flatten (map (λ v. v.input_ids) views);
      position_ids = flatten (map (λ v. v.position_ids) views);
      all_input_ids = flatten (map (λ v. v.all_input_ids) views);
      input_lengths = flatten (map (λ v. v.input_lengths) views);
      prefix_offsets = flatten (map (λ v. v.prefix_offsets) views);
      read_offsets = flatten (map (λ v. v.read_offsets) views);
      next_token_choosers = flatten (map (λ v. v.next_token_choosers) views);
      stopping_criterias = flatten (map (λ v. v.stopping_criterias) views);
      attended = attended;
    })
