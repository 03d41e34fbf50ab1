-- ===== src/Tests/PaddedJoins.antt =====
-- Two padded batches of different lengths are joined.
use mathlib.Core.List.{flatten}
use lorax.Prelude.{ℕ, ◌≡◌, refl, arith, true, some, [], ◌∷◌, put, add, ◌>>=◌}
use lorax.Prelude.Int.{pos}
use lorax.Segments.{
  concat_all, concat, build, offset_segments, merge_segments, trim_last, torch_concat,
}
use lorax.Flash.Concatenate.{offset_mapping, union}
use lorax.Flash.Filter.{maximum}
use lorax.Flash.Prefill.{last_n}
use lorax.Causal.{CausalLmBatch}
use lorax.Causal.Rows.{mask_row, All}
use lorax.Causal.Views.{view, join_views}
use lorax.Causal.Concatenate.{
  each, concatenate, maximum_padding, maximum_length, write_row, column, mask_rows, past_rows,
  layer_of, join_layer, join_layers, join_mappings, join_sets, join_max_tokens,
}
use lorax.Causal.Concatenate.Ready.{IsReady}
use lorax.Causal.Concatenate.Columns.{IsJoinable}
use lorax.Causal.Concatenate.Refines.{concatenate-joins}
use lorax.Tests.PaddedBatches.{
  request, criteria, one_adapter, running, running-IsPadded, running-IsFull, seen, running-HasPast,
  kept,
}

abbrev other : CausalLmBatch ℕ ℕ
other = record kept { batch_id = 1; requests = request 6 ∷ []; requests_idx_mapping = (6, 0) ∷ [] }

running-IsReady : IsReady 1 3 2 running
running-IsReady = record {
  own = 2;
  layer = seen;
  layers = [];
  padded = running-IsPadded;
  full = running-IsFull;
  past = running-HasPast;
  counted = refl;
  nonempty = omega arith;
  positive = omega arith;
  shorter = omega arith;
  less = omega arith;
}

other-IsReady : IsReady 1 2 1 other
unfolding maximum mask_row last_n All
other-IsReady = record {
  own = 1;
  layer = record { keys = (1 ∷ []) ∷ []; values = (1 ∷ []) ∷ [] };
  layers = [];
  padded = record {
    padding = refl;
    longest = refl;
    mask = refl;
    placed = refl;
    counted = refl;
    room = (omega arith, tt);
  };
  full = record {
    lengths = refl;
    prefixes = refl;
    reads = refl;
    choosers = refl;
    criterias = refl;
    texts = refl;
    inputs = refl;
    begun = (omega arith, tt);
    positive = (omega arith, tt);
  };
  past = record {
    past = refl;
    wide = (
      record {
        key_rows = refl;
        value_rows = refl;
        key_width = (refl, tt);
        value_width = (refl, tt);
      },
      tt,
    );
    grown = (omega arith, tt);
    inputs = refl;
    input_column = (refl, tt);
    position_column = (refl, tt);
  };
  counted = refl;
  nonempty = omega arith;
  positive = omega arith;
  shorter = omega arith;
  less = omega arith;
}

-- The rows of the shorter batch are padded.
abbrev three : CausalLmBatch ℕ ℕ
three = record {
  batch_id = 0;
  requests = request 4 ∷ request 5 ∷ request 6 ∷ [];
  requests_idx_mapping = (4, 0) ∷ (5, 1) ∷ (6, 2) ∷ [];
  input_ids = (9 ∷ []) ∷ (9 ∷ []) ∷ (9 ∷ []) ∷ [];
  attention_mask =
      (1 ∷ 1 ∷ 1 ∷ 0 ∷ 0 ∷ []) ∷ (0 ∷ 1 ∷ 1 ∷ 0 ∷ 0 ∷ []) ∷ (0 ∷ 1 ∷ 1 ∷ 0 ∷ 0 ∷ []) ∷ [];
  position_ids = (2 ∷ []) ∷ (1 ∷ []) ∷ (1 ∷ []) ∷ [];
  past_key_values = some (
      record {
        keys = (1 ∷ 1 ∷ []) ∷ (0 ∷ 1 ∷ []) ∷ (7 ∷ 1 ∷ []) ∷ [];
        values = (1 ∷ 1 ∷ []) ∷ (0 ∷ 1 ∷ []) ∷ (7 ∷ 1 ∷ []) ∷ [];
      }
      ∷ []);
  all_input_ids = (1 ∷ 3 ∷ 9 ∷ []) ∷ (0 ∷ 7 ∷ 9 ∷ []) ∷ (0 ∷ 7 ∷ 9 ∷ []) ∷ [];
  input_lengths = 3 ∷ 2 ∷ 2 ∷ [];
  prefix_offsets = pos 2 ∷ pos 2 ∷ pos 2 ∷ [];
  read_offsets = pos 3 ∷ pos 3 ∷ pos 3 ∷ [];
  next_token_choosers = 0 ∷ 0 ∷ 0 ∷ [];
  stopping_criterias = criteria 3 1 ∷ criteria 2 1 ∷ criteria 2 1 ∷ [];
  adapter_meta = one_adapter 3;
  max_input_length = 3;
  padding_right_offset = pos 2;
  max_tokens = pos 18;
  keys_head_dim_last = true;
}

joined_three : concatenate 7 (running ∷ other ∷ []) ≡ some three
unfolding concatenate maximum_padding maximum_length write_row column mask_rows past_rows layer_of
    join_layer join_layers join_mappings join_sets join_max_tokens each offset_mapping union flatten
    concat_all concat build offset_segments merge_segments trim_last torch_concat put add
joined_three = refl

concatenate-joins_example : (each view (running ∷ other ∷ []) >>= join_views) ≡ view three
unfolding All IsJoinable
concatenate-joins_example =
    concatenate-joins 7 1 running three (other ∷ [])
      ((2, running-IsReady), ((1, other-IsReady), tt)) joined_three
