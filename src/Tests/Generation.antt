-- ===== src/Tests/Generation.antt =====
-- Tokens of a decode step: speculation, stopping, and the adapter segments of a joined batch.
use lorax.Prelude.{
  ℕ, zero, suc, ◌-◌, ◌≤◌, ◌<◌, ◌≡◌, ◌≢◌, ◌↔◌, refl, max, arith, Bool, true, false, ◌||◌, some, List,
  [], ◌∷◌, length, get_elem?, ◌>>=◌, if◌then◌else◌,
}
use lorax.Segments.{scan, scan_step, close, empty_builder, find_segments, concat_all, build}
use lorax.Segments.Concat.{build-concat_all}
use lorax.Segments.Expand.{expand, expand-find_segments}
use lorax.Tokens.Speculation.{speculative_accept}
use lorax.Tokens.Speculation.Rows.{agreeing, speculative_accept-rows}
use lorax.Tokens.Speculation.Decoding.{speculative_accept-decode}
use lorax.Tokens.Ngram.{speculate_row}
use lorax.Tokens.Ngram.Laws.{IsFirstMax, Follows, speculate_row-first}
use lorax.Tokens.Stopping.{StoppingCriteria, FinishReason, StopSequenceCriteria_call, call, run}
use lorax.Tokens.Stopping.Laws.{
  EndsWith, Answer, StopSequenceCriteria_call-EndsWith, call-Answer, run-stops,
}

expand-find_segments_example : expand (find_segments (2 ∷ 2 ∷ 5 ∷ [])) ≡ 2 ∷ 2 ∷ 5 ∷ []
expand-find_segments_example = expand-find_segments (2 ∷ 2 ∷ 5 ∷ [])

build-concat_all_example :
    (concat_all empty_builder
        (find_segments (2 ∷ 5 ∷ []) ∷ find_segments (5 ∷ 5 ∷ 1 ∷ []) ∷ find_segments (4 ∷ []) ∷ [])
      >>= build)
    ≡ some (0 ∷ 1 ∷ 4 ∷ 5 ∷ 6 ∷ [], 2 ∷ 5 ∷ 1 ∷ 4 ∷ [])
unfolding find_segments scan scan_step close
build-concat_all_example = build-concat_all 2 (5 ∷ []) ((5, 5 ∷ 1 ∷ []) ∷ (4, []) ∷ [])

-- A model whose choice is the length of the context.
abbrev counting : List ℕ → ℕ
counting context = length context

speculative_accept-decode_example :
    speculative_accept 3 (2 ∷ 3 ∷ 4 ∷ 1 ∷ 2 ∷ 3 ∷ []) ((2 ∷ 9 ∷ []) ∷ (1 ∷ 2 ∷ []) ∷ [])
    ≡ some (2 ∷ 3 ∷ 1 ∷ 2 ∷ 3 ∷ [], 2 ∷ 3 ∷ [])
unfolding agreeing
speculative_accept-decode_example =
    speculative_accept-decode counting 2 ((8 ∷ 8 ∷ [], 2 ∷ 9 ∷ []) ∷ (7 ∷ [], 1 ∷ 2 ∷ []) ∷ [])
      (refl, (refl, tt))

speculative_accept-rows_example :
    speculative_accept 3 (4 ∷ 5 ∷ 6 ∷ 7 ∷ 8 ∷ 9 ∷ []) ((4 ∷ 0 ∷ []) ∷ (0 ∷ 8 ∷ []) ∷ [])
    ≡ some (4 ∷ 5 ∷ 7 ∷ [], 2 ∷ 1 ∷ [])
unfolding agreeing
speculative_accept-rows_example =
    speculative_accept-rows 2 ((4, 5 ∷ 6 ∷ [], 4 ∷ 0 ∷ []) ∷ (7, 8 ∷ 9 ∷ [], 0 ∷ 8 ∷ []) ∷ [])
      (refl, refl, (refl, refl, tt))

abbrev five_six : List ℕ
five_six = 5 ∷ 6 ∷ []

abbrev five_six_five : List ℕ
five_six_five = 5 ∷ 6 ∷ 5 ∷ 7 ∷ []

abbrev criteria : StoppingCriteria
criteria = record {
  eos_token_ids = 2 ∷ [];
  stop_sequence_criterias = (65 ∷ 66 ∷ []) ∷ [];
  max_new_tokens = 3;
  current_tokens = 0;
  current_output = [];
  ignore_eos_token = false;
}

abbrev three_tokens : List (ℕ × List ℕ)
three_tokens = (7, 65 ∷ []) ∷ (8, 66 ∷ 10 ∷ []) ∷ (9, 67 ∷ []) ∷ []

StopSequenceCriteria_call-EndsWith_example :
    (StopSequenceCriteria_call (65 ∷ 66 ∷ []) (64 ∷ 65 ∷ 66 ∷ 10 ∷ []) ≡ true)
    ↔ EndsWith (65 ∷ 66 ∷ []) (64 ∷ 65 ∷ 66 ∷ 10 ∷ [])
StopSequenceCriteria_call-EndsWith_example =
    StopSequenceCriteria_call-EndsWith (65 ∷ 66 ∷ []) (64 ∷ 65 ∷ 66 ∷ 10 ∷ [])

call-Answer_example :
    Answer criteria 7
      (65 ∷ 66 ∷ [])
      (call criteria 7 (65 ∷ 66 ∷ [])).0
      (call criteria 7 (65 ∷ 66 ∷ [])).1
call-Answer_example = call-Answer criteria 7 (65 ∷ 66 ∷ [])

run-stops_example :
    (r : FinishReason) × ((run criteria three_tokens).2 ≡ some r)
    × ((run criteria three_tokens).0 ≤ max 1 (3 - 0))
run-stops_example = run-stops criteria three_tokens (omega arith) (omega arith)

-- The index of the first `true`, or 0 if there is none.
any_true : List Bool → Bool
any_true [] = false
any_true (b ∷ bs) = b || any_true bs

first_true : List Bool → ℕ
unfolding any_true
first_true [] = 0
first_true (true ∷ bs) = 0
first_true (false ∷ bs) = let i = first_true bs in if any_true bs then suc i else 0

any_true-get : (row : List Bool) (i : ℕ) → get_elem? row i ≡ some true → any_true row ≡ true
unfolding any_true
any_true-get [] i h = ground arith
any_true-get (b ∷ row) zero h = ground arith
any_true-get (b ∷ row) (suc i) h = ground (arith, any_true-get row i h)

first_true-is : (row : List Bool) → any_true row ≡ true → get_elem? row (first_true row) ≡ some true
unfolding any_true first_true
first_true-is [] h = ground arith
first_true-is (true ∷ row) h = refl
first_true-is (false ∷ row) h = ground (arith, first_true-is row)

first_true-none : (row : List Bool) → any_true row ≡ false → first_true row ≡ 0
unfolding any_true first_true
first_true-none [] h = refl
first_true-none (true ∷ row) h = refl
first_true-none (false ∷ row) h = ground arith

no_true : (row : List Bool) → ((i : ℕ) → get_elem? row i ≢ some true) → any_true row ≡ false
unfolding any_true
no_true [] h = refl
no_true (true ∷ row) h = absurd (h 0 refl)
no_true (false ∷ row) h = no_true row (λ i. h (suc i))

first_true-range : (row : List Bool) → 0 < length row → first_true row < length row
unfolding any_true first_true
first_true-range [] h = absurd (omega arith)
first_true-range (true ∷ row) h = omega arith
first_true-range (false ∷ []) h = omega arith
first_true-range (false ∷ b ∷ row) h = ground (arith, first_true-range (b ∷ row))

first_true-first : (row : List Bool) (i : ℕ) → i < first_true row → get_elem? row i ≢ some true
unfolding any_true first_true
first_true-first [] i h = absurd (omega arith)
first_true-first (true ∷ row) i h = absurd (omega arith)
first_true-first (false ∷ row) zero h = ground arith
first_true-first (false ∷ row) (suc i) h = first_true-first row i (ground arith)

first_true-IsFirstMax : IsFirstMax first_true
first_true-IsFirstMax = record {
  in_range = first_true-range;
  is_max = λ row i e. first_true-is row (any_true-get row i e);
  is_first = λ row i h e. first_true-first row i h;
  no_max = λ row h. first_true-none row (no_true row h);
}

earlier_six : (i : ℕ) → i < 1 → get_elem? five_six_five i ≢ some 6
earlier_six zero h = ground arith
earlier_six (suc i) h = absurd (omega arith)

absent_nine : (i : ℕ) → get_elem? five_six i ≢ some 9
absent_nine zero = ground arith
absent_nine (suc zero) = ground arith
absent_nine (suc (suc i)) = ground arith

speculate_row-first_example :
    (ys : List ℕ) × (speculate_row first_true 3 five_six_five 6 ≡ some ys)
    × (length ys ≡ 3)
    × Follows five_six_five 2 ys
speculate_row-first_example =
    speculate_row-first first_true first_true-IsFirstMax five_six_five 6 1 3 refl earlier_six
