-- ===== src/Causal/Life.antt =====
-- The padded batches of a server: made from requests, stepped, filtered, joined and dropped, in any
-- order and with any of them at a time.
use lorax.Prelude.{ℕ, ◌-◌, ◌<◌, ◌≡◌, subst, arith, inl, inr, some, List, [], ◌∷◌, ◌++◌, map, length}
use lorax.Flash.Filter.{maximum}
use lorax.Flash.Generate.{Generation}
use lorax.Causal.{Layer, CausalLmBatch}
use lorax.Causal.Rows.{All}
use lorax.Causal.Padded.{IsPadded}
use lorax.Causal.Filter.{filter}
use lorax.Causal.Filter.Keeps.{filter-IsJoinable}
use lorax.Causal.Concatenate.{each, concatenate}
use lorax.Causal.Concatenate.Ready.{IsReady}
use lorax.Causal.Concatenate.Columns.{IsJoinable}
use lorax.Causal.Concatenate.Keeps.{concatenate-IsJoinable}
use lorax.Causal.Generate.{Engine, generate_token}
use lorax.Causal.Generate.Members.{IsFull}
use lorax.Causal.Generate.Next.{Answers}
use lorax.Causal.Generate.Keeps.{generate_token-IsPadded}
use lorax.Causal.Prefill.{PbRequest, Tokenizer, max_new_tokens_of, from_pb}
use lorax.Tokens.Stopping.{from_pb as criteria_of}
use lorax.Causal.Prefill.Keeps.{PadsLeft, from_pb-IsPadded}

-- The batches that are held, where the model has `k` layers. Prefill makes one from requests that
-- the tokenizer pads on the left, and steps it; Decode takes some, joins them if they are more than
-- one, and steps; FilterBatch takes one and keeps requests that have tokens left.
pub data Live {P C K L : Type 0} (t : Tokenizer P C) (e : Engine C K L) (blank : K) (k : ℕ)
    : List (CausalLmBatch C K) → Type 0 where
  idle : Live t e blank k []
  prefilled :
      {bs : List (CausalLmBatch C K)} (batch_id : ℕ) (requests : List (PbRequest P))
      (input_ids mask : List (List ℕ)) (ns : List ℕ) (choosers : List C) (b c : CausalLmBatch C K)
      (logits : List L) (layer : Layer K) (layers : List (Layer K)) (generations : List Generation)
      → Live t e blank k bs
      → t.tokenize (map (λ r. r.inputs) requests) (maximum (map (λ r. r.truncate) requests))
        ≡ some (input_ids, mask)
      → PadsLeft (map (λ r. r.inputs) requests) input_ids mask ns
      → each (λ r. t.chooser_of r.parameters) requests ≡ some choosers
      → from_pb K t batch_id requests ≡ some b
      → Answers e b logits layer layers
      → length (layer ∷ layers) ≡ k
      → generate_token e b ≡ some (generations, some c)
      → Live t e blank k (c ∷ bs)
  decoded :
      {bs : List (CausalLmBatch C K)} (b c : CausalLmBatch C K) (logits : List L) (layer : Layer K)
      (layers : List (Layer K)) (generations : List Generation)
      → Live t e blank k (b ∷ bs)
      → Answers e b logits layer layers
      → length (layer ∷ layers) ≡ k
      → generate_token e b ≡ some (generations, some c)
      → Live t e blank k (c ∷ bs)
  filtered :
      {bs : List (CausalLmBatch C K)} (b c : CausalLmBatch C K) (request_ids : List ℕ)
      → Live t e blank k (b ∷ bs)
      → All (λ s. s.current_tokens < s.max_new_tokens) c.stopping_criterias
      → filter b request_ids ≡ some c
      → Live t e blank k (c ∷ bs)
  joined :
      (first : CausalLmBatch C K) (others rest : List (CausalLmBatch C K)) (c : CausalLmBatch C K)
      → Live t e blank k (first ∷ others ++ rest)
      → concatenate blank (first ∷ others) ≡ some c
      → Live t e blank k (c ∷ rest)
  dropped :
      {bs : List (CausalLmBatch C K)} (b : CausalLmBatch C K)
      → Live t e blank k (b ∷ bs)
      → Live t e blank k bs
  chosen :
      (before behind : List (CausalLmBatch C K)) (b : CausalLmBatch C K)
      → Live t e blank k (before ++ b ∷ behind)
      → Live t e blank k (b ∷ before ++ behind)

append-All_left : {A : Type 0} (P : A → Type 0) (xs ys : List A) → All P (xs ++ ys) → All P xs
unfolding All
append-All_left P [] ys h = tt
append-All_left P (x ∷ xs) ys (h, hs) = (h, append-All_left P xs ys hs)

append-All_right : {A : Type 0} (P : A → Type 0) (xs ys : List A) → All P (xs ++ ys) → All P ys
unfolding All
append-All_right P [] ys h = h
append-All_right P (x ∷ xs) ys (h, hs) = append-All_right P xs ys hs

choose-All :
    {A : Type 0} (P : A → Type 0) (xs ys : List A) (x : A)
    → All P (xs ++ x ∷ ys)
    → All P (x ∷ xs ++ ys)
unfolding All
choose-All P [] ys x h = h
choose-All P (z ∷ xs) ys x (h, hs) = let (p, ps) = choose-All P xs ys x hs in (p, (h, ps))

module _ {C K L : Type 0} (e : Engine C K L) (k : ℕ) where
  -- The batch that a step returns goes on.
  step-IsJoinable :
      (b c : CausalLmBatch C K) (p : ℕ) (logits : List L) (layer : Layer K)
      (layers : List (Layer K)) (generations : List Generation)
      → IsPadded b p
      → IsFull b
      → Answers e b logits layer layers
      → length (layer ∷ layers) ≡ k
      → generate_token e b ≡ some (generations, some c)
      → IsJoinable k c
  unfolding IsJoinable
  step-IsJoinable b c p logits layer layers generations padded full answers counted made =
      let (generations', outcome) =
        generate_token-IsPadded e b p logits layer layers padded full answers in
      elim outcome [
        | inl (ends, _) ↦ absurd (ground (arith, ends, made))
        | inr (_, on) ↦
            let returned = on.returned in
            let same : on.next ≡ c = ground (arith, returned, made) in
            subst (λ c. (p : ℕ) × IsReady k c.max_input_length p c) same
              (
                p - 1,
                record {
                  own = p - 1;
                  layer = layer;
                  layers = layers;
                  padded = on.padded;
                  full = on.full;
                  past = on.past;
                  counted = counted;
                  nonempty = on.nonempty;
                  positive = on.left;
                  shorter = omega arith;
                  less = omega arith;
                },
              )
      ]

module _ {P C K L : Type 0} (t : Tokenizer P C) (e : Engine C K L) (blank : K) (k : ℕ) where
  -- Of the batches that a server holds, in whatever order they were made from requests, stepped,
  -- filtered, joined and dropped, each is padded, has a column entry for each of its requests and
  -- at least one request, has a past of all layers, and has room for a token. This takes a
  -- tokenizer that pads on the left, a model that answers on the batches it is stepped with, and
  -- filters that keep requests with tokens left.
  pub Live-IsJoinable :
      {bs : List (CausalLmBatch C K)} → Live t e blank k bs → All (IsJoinable k) bs
  unfolding All IsJoinable
  Live-IsJoinable idle = tt
  Live-IsJoinable
        (prefilled id requests input_ids mask ns choosers b c logits layer layers generations live
          tokenized pads choice made answers counted stepped) =
      let (padded, full) =
        from_pb-IsPadded K t id requests input_ids mask ns choosers b tokenized pads choice made in
      (
        step-IsJoinable e k b c
            (maximum (
              max_new_tokens_of
                (map (λ r. criteria_of r.stopping_parameters t.eos_token_id) requests)))
            logits layer layers generations padded full answers counted stepped,
        Live-IsJoinable live,
      )
  Live-IsJoinable (decoded b c logits layer layers generations live answers counted stepped) =
      let ((p, r), all) = Live-IsJoinable live in
      (
        step-IsJoinable e k b c r.own logits layer layers generations r.padded r.full answers
            counted stepped,
        all,
      )
  Live-IsJoinable (filtered b c request_ids live left kept) =
      let (joinable, all) = Live-IsJoinable live in
      (filter-IsJoinable k b c request_ids left joinable kept, all)
  Live-IsJoinable (joined first others rest c live made) =
      let all = Live-IsJoinable live in
      (
        concatenate-IsJoinable blank k first c others
            (append-All_left (IsJoinable k) (first ∷ others) rest all) made,
        append-All_right (IsJoinable k) (first ∷ others) rest all,
      )
  Live-IsJoinable (dropped b live) = let (_, all) = Live-IsJoinable live in all
  Live-IsJoinable (chosen before behind b live) =
      choose-All (IsJoinable k) before behind b (Live-IsJoinable live)
