-- ===== src/Causal/Generate/Members.antt =====
-- The requests of a batch in the loop: one for each, if the columns are as long as there are
-- requests.
use lorax.Prelude.{
  ℕ, suc, ◌+◌, ◌-◌, ◌<◌, ◌≤◌, ◌≡◌, refl, sym, ap, ap₂, subst, ◌∙◌, arith, max, false, inl, inr,
  none, List, [], ◌∷◌, ◌++◌, Option-cases, map, length,
}
use lorax.Tokens.Stopping.{StoppingCriteria}
use lorax.Tokens.Stopping.Laws.{call-Answer, call-limit}
use lorax.Flash.Filter.{maximum}
use lorax.Flash.Texts.{decode_token}
use lorax.Causal.{CausalLmBatch}
use lorax.Causal.Rows.{All}
use lorax.Causal.Generate.{
  Engine, Member, Stepped, zip, members_of, step_member, all_stopped, maximum_stepped,
}

-- A batch with a column entry for each request, of one token at least.
pub record IsFull {C K : Type 0} (b : CausalLmBatch C K) : Type 0 where
  pub lengths : length b.input_lengths ≡ length b.requests
  pub prefixes : length b.prefix_offsets ≡ length b.requests
  pub reads : length b.read_offsets ≡ length b.requests
  pub choosers : length b.next_token_choosers ≡ length b.requests
  pub criterias : length b.stopping_criterias ≡ length b.requests
  pub texts : length b.all_input_ids ≡ length b.requests
  pub inputs : length b.input_ids ≡ length b.requests
  pub begun : All (λ row. 1 ≤ length row) b.input_ids
  pub positive : All (λ n. 1 ≤ n) b.input_lengths

module _ {A B : Type 0} where
  length-zip : (xs : List A) (ys : List B) → length xs ≡ length ys → length (zip xs ys) ≡ length ys
  unfolding zip
  length-zip [] ys h = omega (arith, h)
  length-zip (x ∷ xs) [] h = refl
  length-zip (x ∷ xs) (y ∷ ys) h = ap suc (length-zip xs ys (omega (arith, h)))

  map-zip_first :
      {D : Type 0} (f : A → D) (xs : List A) (ys : List B)
      → length xs ≡ length ys
      → map (λ z. f z.0) (zip xs ys) ≡ map f xs
  unfolding zip
  map-zip_first f [] ys h = refl
  map-zip_first f (x ∷ xs) [] h = absurd (omega (arith, h))
  map-zip_first f (x ∷ xs) (y ∷ ys) h = ap (◌∷◌ (f x)) (map-zip_first f xs ys (omega (arith, h)))

  map-zip_second :
      {D : Type 0} (f : B → D) (xs : List A) (ys : List B)
      → length xs ≡ length ys
      → map (λ z. f z.1) (zip xs ys) ≡ map f ys
  unfolding zip
  map-zip_second f [] [] h = refl
  map-zip_second f [] (y ∷ ys) h = absurd (omega (arith, h))
  map-zip_second f (x ∷ xs) [] h = refl
  map-zip_second f (x ∷ xs) (y ∷ ys) h = ap (◌∷◌ (f y)) (map-zip_second f xs ys (omega (arith, h)))

pub map-map :
    {A B D : Type 0} (f : B → D) (g : A → B) (xs : List A)
    → map f (map g xs) ≡ map (λ x. f (g x)) xs
map-map f g [] = refl
map-map f g (x ∷ xs) = ap (◌∷◌ (f (g x))) (map-map f g xs)

map_self : {A : Type 0} (xs : List A) → map (λ x. x) xs ≡ xs
map_self [] = refl
map_self (x ∷ xs) = ap (◌∷◌ x) (map_self xs)

-- No request has more tokens left than there is room, and one that goes on has some left.
unfoldable pub Counted : {C : Type 0} → ℕ → Stepped C → Type 0
Counted p s =
    (s.member.criteria.max_new_tokens ≤ s.member.criteria.current_tokens + p)
    × (s.reason ≡ none → s.member.criteria.current_tokens < s.member.criteria.max_new_tokens)

step_member-Counted :
    {C K L : Type 0} (e : Engine C K L) (p : ℕ) (m : Member C) (l : L)
    → m.criteria.max_new_tokens ≤ m.criteria.current_tokens + p
    → Counted (p - 1) (step_member e (m, l))
unfolding step_member Counted
step_member-Counted e p m l h =
    let id = e.choose m.chooser m.all_input_ids l in
    let (text, offsets) =
      decode_token e.tokenizer_decode (m.all_input_ids ++ id ∷ []) m.prefix_offset m.read_offset in
    let answer = call-Answer m.criteria id text in
    (
      omega (arith, h, answer.counted, call-limit m.criteria id text),
      λ go.
          let (_, _, low) = answer.goes_on go in omega (arith, low, call-limit m.criteria id text),
    )

module _ {C K L : Type 0} (e : Engine C K L) (b : CausalLmBatch C K) (logits : List L)
    (full : IsFull b) (scored : length logits ≡ length b.requests) where
  criterias_even : length b.stopping_criterias ≡ length b.all_input_ids
  criterias_even = omega (arith, full.criterias, full.texts)

  choosers_even : length b.next_token_choosers ≡ length (zip b.stopping_criterias b.all_input_ids)
  choosers_even = omega (
    arith,
    full.choosers,
    full.texts,
    length-zip b.stopping_criterias b.all_input_ids criterias_even,
  )

  abbrev scores : List (L × (C × (StoppingCriteria × List ℕ)))
  scores = zip logits (zip b.next_token_choosers (zip b.stopping_criterias b.all_input_ids))

  logits_even :
      length logits ≡ length (zip b.next_token_choosers (zip b.stopping_criterias b.all_input_ids))
  logits_even = omega (
    arith,
    scored,
    full.choosers,
    choosers_even,
    length-zip b.next_token_choosers (zip b.stopping_criterias b.all_input_ids) choosers_even,
  )

  scores-length : length scores ≡ length b.requests
  scores-length = omega (
    arith,
    scored,
    logits_even,
    length-zip logits (zip b.next_token_choosers (zip b.stopping_criterias b.all_input_ids))
        logits_even,
  )

  reads_even : length b.read_offsets ≡ length scores
  reads_even = omega (arith, full.reads, scores-length)

  prefixes_even : length b.prefix_offsets ≡ length (zip b.read_offsets scores)
  prefixes_even =
      omega (arith, full.prefixes, scores-length, length-zip b.read_offsets scores reads_even)

  lengths_even : length b.input_lengths ≡ length (zip b.prefix_offsets (zip b.read_offsets scores))
  lengths_even = omega (
    arith,
    full.lengths,
    full.prefixes,
    prefixes_even,
    length-zip b.prefix_offsets (zip b.read_offsets scores) prefixes_even,
  )

  requests_even :
      length b.requests
      ≡ length (zip b.input_lengths (zip b.prefix_offsets (zip b.read_offsets scores)))
  requests_even = omega (
    arith,
    full.lengths,
    lengths_even,
    length-zip b.input_lengths (zip b.prefix_offsets (zip b.read_offsets scores)) lengths_even,
  )

  pub members-lengths : map (λ m. m.0.input_length) (members_of e b logits) ≡ b.input_lengths
  unfolding members_of
  members-lengths =
      let behind = zip b.prefix_offsets (zip b.read_offsets scores) in
      map-map _ _ (zip b.requests (zip b.input_lengths behind))
      ∙ map-zip_second (λ z. z.0) b.requests (zip b.input_lengths behind) requests_even
      ∙ map-zip_first (λ n. n) b.input_lengths behind lengths_even
      ∙ map_self b.input_lengths

  pub members-criterias : map (λ m. m.0.criteria) (members_of e b logits) ≡ b.stopping_criterias
  unfolding members_of
  members-criterias =
      let choosers = zip b.next_token_choosers (zip b.stopping_criterias b.all_input_ids) in
      let reads = zip b.read_offsets scores in
      let prefixes = zip b.prefix_offsets reads in
      let lengths = zip b.input_lengths prefixes in
      map-map _ _ (zip b.requests lengths)
      ∙ map-zip_second (λ z. z.1.1.1.1.1.0) b.requests lengths requests_even
      ∙ map-zip_second (λ z. z.1.1.1.1.0) b.input_lengths prefixes lengths_even
      ∙ map-zip_second (λ z. z.1.1.1.0) b.prefix_offsets reads prefixes_even
      ∙ map-zip_second (λ z. z.1.1.0) b.read_offsets scores reads_even
      ∙ map-zip_second (λ z. z.1.0) logits choosers logits_even
      ∙ map-zip_second (λ z. z.0) b.next_token_choosers (zip b.stopping_criterias b.all_input_ids)
          choosers_even
      ∙ map-zip_first (λ s. s) b.stopping_criterias b.all_input_ids criterias_even
      ∙ map_self b.stopping_criterias

  pub stepped-lengths :
      map (λ s. s.member.input_length) (map (step_member e) (members_of e b logits))
      ≡ map suc b.input_lengths
  unfolding step_member
  stepped-lengths = step_lengths (members_of e b logits) ∙ ap (map suc) members-lengths
    where
      step_lengths :
          (ms : List (Member C × L))
          → map (λ s. s.member.input_length) (map (step_member e) ms)
            ≡ map suc (map (λ m. m.0.input_length) ms)
      step_lengths [] = refl
      step_lengths ((m, l) ∷ ms) = ap₂ (◌∷◌) (omega arith) (step_lengths ms)

  pub stepped-Counted :
      (p : ℕ)
      → All (λ s. s.max_new_tokens ≤ s.current_tokens + p) b.stopping_criterias
      → All (Counted (p - 1)) (map (step_member e) (members_of e b logits))
  unfolding All
  stepped-Counted p h =
      counted (members_of e b logits)
        (subst (All (λ s. s.max_new_tokens ≤ s.current_tokens + p)) (sym members-criterias) h)
    where
      counted :
          (ms : List (Member C × L))
          → All (λ s. s.max_new_tokens ≤ s.current_tokens + p) (map (λ m. m.0.criteria) ms)
          → All (Counted (p - 1)) (map (step_member e) ms)
      counted [] h = tt
      counted ((m, l) ∷ ms) (h, hs) = (step_member-Counted e p m l h, counted ms hs)

pub all_stopped-room :
    {C K L : Type 0} (e : Engine C K L) (p : ℕ) (ss : List (Stepped C))
    → All (Counted p) ss
    → all_stopped e ss ≡ false
    → 0 < p
unfolding all_stopped All Counted
all_stopped-room e p [] h k = absurd (ground (arith, k))
all_stopped-room e p (s ∷ ss) ((l, go), hs) k = elim (Option-cases s.reason) [
  | inl unfinished ↦ omega (arith, l, go unfinished)
  | inr (r, finished) ↦ all_stopped-room e p ss hs (ground (arith, finished, k))
]

pub maximum_stepped-eq :
    {C K L : Type 0} (e : Engine C K L) (n : ℕ) (ss : List (Stepped C))
    → maximum_stepped e n ss ≡ max n (maximum (map (λ s. s.member.input_length) ss))
unfolding maximum_stepped maximum
maximum_stepped-eq e n [] = omega arith
maximum_stepped-eq e n (s ∷ ss) =
    omega (arith, maximum_stepped-eq e (max n s.member.input_length) ss)
