-- ===== src/Causal/Concatenate/Side.antt =====
-- The keys, or the values, of a layer of all batches.
use mathlib.Core.List.{flatten}
use lorax.Prelude.{
  ℕ, zero, suc, ◌+◌, ◌-◌, ◌<◌, ◌≡◌, refl, sym, ap, ap₂, ◌∙◌, arith, some, List, [], ◌∷◌, ◌++◌, map,
  length, length-map, replicate, length-append, get_elem?, get_elem?-map, ◌>>=◌,
}
use lorax.Flash.Concatenate.{assign}
use lorax.Causal.{Layer, CausalLmBatch}
use lorax.Causal.Rows.{
  mask_row, attend, zip_with, All, All-map, map-All, get_elem?-All, append-All, zip_with-append,
}
use lorax.Causal.Padded.{IsWide, attended_layer}
use lorax.Causal.Views.{View}
use lorax.Causal.Concatenate.{each, layer_of, past_rows}
use lorax.Causal.Concatenate.Rows.{assign_whole}
use lorax.Causal.Concatenate.Ready.{IsReady, low, grown}
use lorax.Causal.Concatenate.Past.{write_pasts, attend-pasts, padded_width}

get_elem?-inside :
    {A : Type 0} (xs : List A) (i : ℕ) → i < length xs → (x : A) × (get_elem? xs i ≡ some x)
get_elem?-inside [] i h = absurd (omega (arith, h))
get_elem?-inside (x ∷ xs) zero h = (x, refl)
get_elem?-inside (x ∷ xs) (suc i) h = get_elem?-inside xs i (omega (arith, h))

module _ {C K : Type 0} (k m p : ℕ) where
  abbrev pub view_of : (b : CausalLmBatch C K) → IsReady k m p b → View C K
  view_of b ready = record {
    requests = b.requests;
    input_ids = b.input_ids;
    position_ids = b.position_ids;
    all_input_ids = b.all_input_ids;
    input_lengths = b.input_lengths;
    prefix_offsets = b.prefix_offsets;
    read_offsets = b.read_offsets;
    next_token_choosers = b.next_token_choosers;
    stopping_criterias = b.stopping_criterias;
    attended =
        map (attended_layer (map (mask_row b.max_input_length ready.own) b.input_lengths))
          (ready.layer ∷ ready.layers);
  }

  unfoldable pub views_of :
      (bs : List (CausalLmBatch C K)) → All (IsReady k m p) bs → List (View C K)
  unfolding All
  views_of [] ready = []
  views_of (b ∷ bs) (r, ready) = view_of b r ∷ views_of bs ready

  unfoldable pub masks_of : List (CausalLmBatch C K) → List (List ℕ)
  masks_of bs = flatten (map (λ b. map (mask_row m p) b.input_lengths) bs)

  module _ (blank : K) (side : Layer K → List (List K))
      (side_count : (size width : ℕ) (l : Layer K) → IsWide size width l → length (side l) ≡ size)
      (side_width : (size width : ℕ) (l : Layer K)
        → IsWide size width l
        → All (λ row. length row ≡ width) (side l))
      (side_attended : (mask : List (List ℕ)) (l : Layer K)
        → side (attended_layer mask l) ≡ zip_with attend mask (side l)) where
    -- Layer `j` of the batches, joined, and what the model attends to of it.
    pub record Joined (j : ℕ) (bs : List (CausalLmBatch C K)) (ready : All (IsReady k m p) bs)
        : Type 0 where
      pub rows : List (List (List K))
      pub layers : List (Layer K)
      pub joined : each (λ b. layer_of j b >>= λ l. past_rows blank m b (side l)) bs ≡ some rows
      pub seen :
          each (λ ls. get_elem? ls j) (map (λ v. v.attended) (views_of bs ready)) ≡ some layers
      pub same : zip_with attend (masks_of bs) (flatten rows) ≡ flatten (map side layers)
      pub count : length (flatten rows) ≡ length (flatten (map (λ b. b.requests) bs))
      pub width : All (λ row. length row ≡ m - 1) (flatten rows)

    module _ (b : CausalLmBatch C K) (l : Layer K) (ready : IsReady k m p b)
        (wide : IsWide (length b.requests) (b.max_input_length - 1) l) where
      own_width : All (λ row. length row ≡ b.max_input_length - 1) (side l)
      own_width = side_width (length b.requests) (b.max_input_length - 1) l wide

      own_count : length (side l) ≡ length b.requests
      own_count = side_count (length b.requests) (b.max_input_length - 1) l wide

      abbrev padded_rows : List (List K)
      padded_rows = map (λ row. replicate (m - b.max_input_length) blank ++ row) (side l)

      padded_count : length padded_rows ≡ length b.requests
      padded_count =
          length-map (λ row. replicate (m - b.max_input_length) blank ++ row) (side l) ∙ own_count

      past_rows-padded : past_rows blank m b (side l) ≡ some padded_rows
      unfolding past_rows
      past_rows-padded =
          ap (λ rows. rows >>= λ rows. assign (length b.requests) rows)
            (write_pasts blank b.max_input_length m (grown k m p b ready) ready.shorter (side l)
              own_width)
          ∙ assign_whole (length b.requests) padded_rows padded_count

      padded-attended :
          zip_with attend (map (mask_row m p) b.input_lengths) padded_rows
          ≡ side (attended_layer (map (mask_row b.max_input_length ready.own) b.input_lengths) l)
      padded-attended =
          attend-pasts blank b.max_input_length m (grown k m p b ready) ready.shorter ready.own p
            b.input_lengths (side l) (low k m p b ready) own_width
          ∙ sym (side_attended (map (mask_row b.max_input_length ready.own) b.input_lengths) l)

      padded-width : All (λ row. length row ≡ m - 1) padded_rows
      padded-width =
          All-map (λ row. length row ≡ m - 1)
            (λ row. replicate (m - b.max_input_length) blank ++ row) (side l)
            (map-All (λ row. length row ≡ b.max_input_length - 1)
              (λ row. length (replicate (m - b.max_input_length) blank ++ row) ≡ m - 1) (side l)
              (padded_width blank b.max_input_length m (grown k m p b ready) ready.shorter)
              own_width)

    -- The layer of a batch.
    layer_at :
        (j : ℕ) (b : CausalLmBatch C K) (ready : IsReady k m p b)
        → j < k
        → (l : Layer K) × (layer_of j b ≡ some l)
          × (get_elem? (view_of b ready).attended j
              ≡ some
                  (attended_layer (map (mask_row b.max_input_length ready.own) b.input_lengths) l))
          × IsWide (length b.requests) (b.max_input_length - 1) l
    unfolding layer_of
    layer_at j b ready h =
        let layers = ready.layer ∷ ready.layers in
        let (l, e) = get_elem?-inside layers j (omega (arith, h, ready.counted)) in
        (
          l,
          ap (λ past. past >>= λ layers. get_elem? layers j) ready.past.past ∙ e,
          get_elem?-map
              (attended_layer (map (mask_row b.max_input_length ready.own) b.input_lengths)) layers
              j l e,
          get_elem?-All (IsWide (length b.requests) (b.max_input_length - 1)) layers j l
              ready.past.wide e,
        )

    pub join-batches :
        (j : ℕ) (bs : List (CausalLmBatch C K)) (ready : All (IsReady k m p) bs)
        → j < k
        → Joined j bs ready
    unfolding All each views_of masks_of zip_with flatten
    join-batches j [] ready h = record {
      rows = [];
      layers = [];
      joined = refl;
      seen = refl;
      same = refl;
      count = refl;
      width = tt;
    }
    join-batches j (b ∷ bs) (r, ready) h =
        let rest = join-batches j bs ready h in
        let (l, here, there, wide) = layer_at j b r h in
        let rows = padded_rows b l r wide in
        record {
          rows = rows ∷ rest.rows;
          layers =
              attended_layer (map (mask_row b.max_input_length r.own) b.input_lengths) l
              ∷ rest.layers;
          joined = rw (here, past_rows-padded b l r wide, rest.joined) refl;
          seen = rw (there, rest.seen) refl;
          same =
              zip_with-append attend (map (mask_row m p) b.input_lengths) (masks_of bs) rows
                (flatten rest.rows)
                (length-map (mask_row m p) b.input_lengths
                  ∙ r.padded.counted
                  ∙ sym (padded_count b l r wide))
              ∙ ap₂ (◌++◌) (padded-attended b l r wide) rest.same;
          count =
              length-append rows (flatten rest.rows)
              ∙ ap₂ (◌+◌) (padded_count b l r wide) rest.count
              ∙ sym (length-append b.requests (flatten (map (λ b. b.requests) bs)));
          width =
              append-All (λ row. length row ≡ m - 1) rows (flatten rest.rows)
                (padded-width b l r wide) rest.width;
        }
