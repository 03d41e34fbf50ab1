-- ===== src/Causal/Prefill/Keeps.antt =====
-- The batch of new requests is padded.
use lorax.Prelude.{
  ℕ, zero, suc, ◌+◌, ◌-◌, ◌<◌, ◌≤◌, ◌≡◌, refl, sym, ap, ap₂, subst, ◌∙◌, arith, some, List, [], ◌∷◌,
  ◌++◌, append-nil, map, length, length-map, length-append, replicate, drop, Option-cases, inl, inr,
}
use lorax.Prelude.Int.{pos, sub_ℕ}
use lorax.Tokens.Stopping.{Text, StoppingCriteria, from_pb as criteria_of}
use lorax.Flash.Filter.{sum, maximum}
use lorax.Flash.Prefill.{last_n}
use lorax.Causal.{CausalLmBatch, width_of}
use lorax.Causal.Rows.{mask_row, mask_row_behind, All, map-All, All-of_map, maximum-All}
use lorax.Causal.Padded.{IsPadded}
use lorax.Causal.Concatenate.{each, write_row}
use lorax.Causal.Concatenate.Rows.{write_row-whole, each-map, length-each}
use lorax.Causal.Filter.Rows.{length-mask_row}
use lorax.Causal.Generate.Members.{IsFull}
use lorax.Causal.Prefill.{PbRequest, Tokenizer, largest, positions, max_new_tokens_of, from_pb}

-- The tokenizer's answer on the texts: rows that are padded on the left to the longest text, each
-- with a token at least.
pub record PadsLeft (inputs : List Text) (input_ids mask : List (List ℕ)) (ns : List ℕ)
    : Type 0 where
  pub rows : length input_ids ≡ length inputs
  pub tokens : length ns ≡ length inputs
  pub masked : mask ≡ map (mask_row (maximum ns) 0) ns
  pub begun : All (λ row. 1 ≤ length row) input_ids
  pub positive : All (λ n. 1 ≤ n) ns

sum-replicate : (n : ℕ) (xs : List ℕ) → sum (replicate n 1 ++ xs) ≡ n + sum xs
unfolding sum
sum-replicate zero xs = omega arith
sum-replicate (suc n) xs = omega (arith, sum-replicate n xs)

sum_zeros : (j : ℕ) (xs : List ℕ) → sum (replicate j 0 ++ xs) ≡ sum xs
unfolding sum
sum_zeros zero xs = refl
sum_zeros (suc j) xs = omega (arith, sum_zeros j xs)

sum-mask_row : (m n : ℕ) → sum (mask_row m 0 n) ≡ n
unfolding mask_row sum
sum-mask_row m n = sum_zeros (m - n) (replicate n 1 ++ []) ∙ sum-replicate n [] ∙ omega arith

sums-mask_row : (m : ℕ) (ns : List ℕ) → map sum (map (mask_row m 0) ns) ≡ ns
sums-mask_row m [] = refl
sums-mask_row m (n ∷ ns) = ap₂ (◌∷◌) (sum-mask_row m n) (sums-mask_row m ns)

-- The positions of a row of `n` tokens end in `n - 1`.
length-positions : (t : ℕ) (row : List ℕ) → length (positions t row) ≡ length row
unfolding positions
length-positions t [] = refl
length-positions t (m ∷ row) = ap suc (length-positions (t + m) row)

last_n-cons : (x : ℕ) (xs : List ℕ) → 0 < length xs → last_n 1 (x ∷ xs) ≡ last_n 1 xs
unfolding last_n
last_n-cons x [] h = absurd (omega (arith, h))
last_n-cons x (y ∷ xs) h =
    let e : length (x ∷ y ∷ xs) - 1 ≡ suc (length (y ∷ xs) - 1) = omega arith in
    ap (λ k. drop k (x ∷ y ∷ xs)) e

last-positions_ones : (t n : ℕ) → last_n 1 (positions t (replicate (suc n) 1)) ≡ (t + n) ∷ []
unfolding positions last_n
last-positions_ones t zero = ap (λ k. k ∷ []) (omega arith)
last-positions_ones t (suc n) =
    last_n-cons (t + 1 - 1) (positions (t + 1) (replicate (suc n) 1))
      (omega (arith, length-positions (t + 1) (replicate (suc n) 1)))
    ∙ last-positions_ones (t + 1) n
    ∙ ap (λ k. k ∷ []) (omega arith)

last-positions_row :
    (j n : ℕ) → last_n 1 (positions 0 (replicate j 0 ++ replicate (suc n) 1)) ≡ n ∷ []
unfolding positions
last-positions_row zero n = last-positions_ones 0 n ∙ ap (λ k. k ∷ []) (omega arith)
last-positions_row (suc j) n =
    let row : List ℕ = replicate j 0 ++ replicate (suc n) 1 in
    last_n-cons 1 (positions 0 row) (
      omega (
        arith,
        length-positions 0 row,
        length-append {A = ℕ} (replicate j 0) (replicate (suc n) 1),
      ))
    ∙ last-positions_row j n

last-positions :
    (m : ℕ) (ns : List ℕ)
    → All (λ n. 1 ≤ n) ns
    → map (last_n 1) (map (positions 0) (map (mask_row m 0) ns)) ≡ map (λ n. (n - 1) ∷ []) ns
unfolding mask_row All
last-positions m [] h = refl
last-positions m (zero ∷ ns) (h, hs) = absurd (omega (arith, h))
last-positions m (suc n ∷ ns) (h, hs) =
    ap₂ (◌∷◌)
      (ap (λ row. last_n 1 (positions 0 (replicate (m - suc n) 0 ++ row)))
          (append-nil (replicate (suc n) 1))
        ∙ last-positions_row (m - suc n) n
        ∙ ap (λ k. k ∷ []) (omega arith))
      (last-positions m ns hs)

-- The tokenizer's mask with room to the right.
widen-mask_row :
    (m p n : ℕ)
    → n ≤ m
    → write_row 0 (m + p) (pos 0) (pos m) (mask_row m 0 n) ≡ some (mask_row m p n)
unfolding mask_row
widen-mask_row m p n h =
    let len = length-mask_row m 0 n h in
    write_row-whole 0 (m + p) 0 m (pos 0) (pos m) (mask_row m 0 n) refl refl (omega (arith, len))
      (omega arith)
    ∙ ap some (ap (λ k. mask_row m 0 n ++ replicate k 0) (omega arith) ∙ mask_row_behind m p n)

module _ {P C : Type 0} (K : Type 0) (t : Tokenizer P C) (batch_id : ℕ)
    (requests : List (PbRequest P)) (input_ids mask : List (List ℕ)) (ns : List ℕ)
    (choosers : List C) (b : CausalLmBatch C K)
    (tokenized : t.tokenize
        (map (λ r. r.inputs) requests)
        (maximum (map (λ r. r.truncate) requests))
      ≡ some (input_ids, mask))
    (pads : PadsLeft (map (λ r. r.inputs) requests) input_ids mask ns)
    (chosen : each (λ r. t.chooser_of r.parameters) requests ≡ some choosers)
    (made : from_pb K t batch_id requests ≡ some b) where
  abbrev criterias : List StoppingCriteria
  criterias = map (λ r. criteria_of r.stopping_parameters t.eos_token_id) requests

  abbrev p : ℕ
  p = maximum (max_new_tokens_of criterias)

  sums : map sum mask ≡ ns
  sums = ap (map sum) pads.masked ∙ sums-mask_row (maximum ns) ns

  largest-sum : (m : ℕ) → largest (map sum mask) ≡ some m → m ≡ maximum ns
  unfolding largest maximum
  largest-sum m h = some_largest ns m (ap largest (sym sums) ∙ h)
    where
      some_largest : (ns : List ℕ) (m : ℕ) → largest ns ≡ some m → m ≡ maximum ns
      some_largest [] m h = absurd (ground (arith, h))
      some_largest (n ∷ ns) m h = ground (arith, h)

  rows :
      each (λ row. write_row 0 (maximum ns + p) (pos 0) (pos (maximum ns)) row) mask
      ≡ some (map (mask_row (maximum ns) p) ns)
  rows =
      ap (each (λ row. write_row 0 (maximum ns + p) (pos 0) (pos (maximum ns)) row)) pads.masked
      ∙ each-map (λ row. write_row 0 (maximum ns + p) (pos 0) (pos (maximum ns)) row)
          (mask_row (maximum ns) 0) (mask_row (maximum ns) p) (λ n. n ≤ maximum ns) ns
          (widen-mask_row (maximum ns) p) (maximum-All ns)

  columns₁ :
      (b.requests ≡ map (λ r. r.request) requests)
      × (b.input_lengths ≡ map sum mask)
      × (b.position_ids ≡ map (positions 0) mask)
      × (b.stopping_criterias ≡ criterias)
      × (b.next_token_choosers ≡ choosers)
      × (b.all_input_ids ≡ input_ids)
      × (b.padding_right_offset ≡ pos p)
      × (b.input_ids ≡ input_ids)
  unfolding from_pb
  columns₁ = ground (arith, tokenized, chosen, made)

  lengths : b.input_lengths ≡ ns
  lengths = columns₁.1 ∙ sums

  columns₂ :
      (b.prefix_offsets ≡ map (λ r. sub_ℕ (width_of input_ids) 5) requests)
      × (b.read_offsets ≡ map (λ r. pos (width_of input_ids)) requests)
  unfolding from_pb
  columns₂ = ground (arith, tokenized, chosen, made)

  longest_row : largest (map sum mask) ≡ some (maximum ns)
  unfolding from_pb
  longest_row = elim (Option-cases (largest (map sum mask))) [
    | inl e ↦ absurd (ground (arith, tokenized, chosen, made, e))
    | inr (m, e) ↦ e ∙ ap some (largest-sum m e)
  ]

  columns₃ :
      (b.max_input_length ≡ maximum ns) × (b.attention_mask ≡ map (mask_row (maximum ns) p) ns)
  unfolding from_pb
  columns₃ = ground (arith, tokenized, chosen, made, longest_row, rows)

  count : length ns ≡ length b.requests
  count =
      pads.tokens
      ∙ length-map (λ r. r.inputs) requests
      ∙ sym (length-map (λ r. r.request) requests)
      ∙ ap length (sym columns₁.0)

  room : All (λ s. s.max_new_tokens ≤ s.current_tokens + p) criterias
  unfolding max_new_tokens_of
  room =
      map-All (λ s. s.max_new_tokens ≤ p) (λ s. s.max_new_tokens ≤ s.current_tokens + p) criterias
        (λ s h. omega (arith, h))
        (All-of_map (λ n. n ≤ p) (λ s. s.max_new_tokens) criterias
          (maximum-All (max_new_tokens_of criterias)))

  -- doc
  pub from_pb-IsPadded : IsPadded b p × IsFull b
  from_pb-IsPadded =
      let (requested, summed, positioned, criteria, choosers', texts, padding, inputs) = columns₁ in
      let (prefixes, reads) = columns₂ in
      let (longest, masks) = columns₃ in
      let total : length requests ≡ length b.requests =
        sym (length-map (λ r. r.request) requests) ∙ ap length (sym requested) in
      (
        record {
          padding = padding;
          longest = longest ∙ ap maximum (sym lengths);
          mask = masks ∙ ap₂ (λ m ns. map (mask_row m p) ns) (sym longest) (sym lengths);
          placed =
              ap (map (last_n 1)) (positioned ∙ ap (map (positions 0)) pads.masked)
              ∙ last-positions (maximum ns) ns pads.positive
              ∙ ap (map (λ n. (n - 1) ∷ [])) (sym lengths);
          counted = ap length lengths ∙ count;
          room = subst (All (λ s. s.max_new_tokens ≤ s.current_tokens + p)) (sym criteria) room;
        },
        record {
          lengths = ap length lengths ∙ count;
          prefixes =
              ap length prefixes ∙ length-map (λ r. sub_ℕ (width_of input_ids) 5) requests ∙ total;
          reads = ap length reads ∙ length-map (λ r. pos (width_of input_ids)) requests ∙ total;
          choosers =
              ap length choosers'
              ∙ length-each (λ r. t.chooser_of r.parameters) requests choosers chosen
              ∙ total;
          criterias =
              ap length criteria
              ∙ length-map (λ r. criteria_of r.stopping_parameters t.eos_token_id) requests
              ∙ total;
          texts = ap length texts ∙ pads.rows ∙ length-map (λ r. r.inputs) requests ∙ total;
          inputs = ap length inputs ∙ pads.rows ∙ length-map (λ r. r.inputs) requests ∙ total;
          begun = subst (All (λ row. 1 ≤ length row)) (sym inputs) pads.begun;
          positive = subst (All (λ n. 1 ≤ n)) (sym lengths) pads.positive;
        },
      )
