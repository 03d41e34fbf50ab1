-- ===== src/Flash/Generate/Slots.antt =====
-- The slots of a batch through a step: each request keeps its own, and uses no other.
use lorax.Prelude.{
  ℕ, zero, suc, ◌+◌, ◌-◌, ◌<◌, ◌≡◌, refl, ap, ap₂, sym, subst, ◌∙◌, arith, some, List, [], ◌∷◌,
  ◌++◌, map, append_assoc, length, length-append, length-map, get_elem?, gather, Option-cases, inl,
  inr,
}
use lorax.Tokens.Stopping.{StoppingCriteria}
use lorax.Tokens.Stopping.Laws.{call-Answer, call-limit}
use lorax.Flash.{FlashCausalLmBatch}
use lorax.Flash.Filter.{last_slots, span, spans, starts}
use lorax.Flash.Filter.Mask.{Chunk, Fits, all_slots}
use lorax.Flash.Filter.Layout.{IsLaidOut, lengths_of, spans_of}
use lorax.Flash.Prefill.Ends.{AllPositive, get_elem?-append}
use lorax.Flash.Generate.{Engine, Member, Turn, take_token, take_tokens, turn_of, turn, members_of}
use lorax.Flash.Generate.Step.{next_batch, new_length, turn_after}
use lorax.Flash.Generate.Members.{pairs, members_of-pairs, map-pairs}
use lorax.Flash.Generate.Coherent.{IsCoherent, Stepped, length-accepted}

module _ {F Schema : Type 0} (e : Engine F Schema) where
  take_token-counts :
      (id : ℕ) (t : Turn)
      → ((take_token e id t).criteria.current_tokens ≡ t.criteria.current_tokens + 1)
        × ((take_token e id t).criteria.max_new_tokens ≡ t.criteria.max_new_tokens)
  unfolding take_token
  take_token-counts id t = ((call-Answer t.criteria id _).counted, call-limit t.criteria id _)

  -- The tokens that are taken are counted; those that are left are not.
  pub take_tokens-counts :
      (ids : List ℕ) (t : Turn)
      → ((take_tokens e ids t).1.criteria.current_tokens + (take_tokens e ids t).0
          ≡ t.criteria.current_tokens + length ids)
        × ((take_tokens e ids t).1.criteria.max_new_tokens ≡ t.criteria.max_new_tokens)
  unfolding take_tokens
  take_tokens-counts [] t = (refl, refl)
  take_tokens-counts (id ∷ ids) t =
      let t' = take_token e id t in
      let (counted, limit) = take_token-counts id t in
      elim (Option-cases t'.reason) [
        | inl p ↦
            let (c, l) = take_tokens-counts ids t' in rw (p, take_tokens) (omega arith, l ∙ limit)
        | inr (r, p) ↦ rw (p, take_tokens) (omega arith, limit)
      ]

  -- No request stops before the last of its accepted tokens.
  abbrev pub AllTaken : List (Member F × List ℕ) → Type 0
  AllTaken [] = Unit
  AllTaken (m ∷ ms) = ((turn e m).0 ≡ 0) × AllTaken ms

  spans-taken :
      (ps : List (Member F × List ℕ))
      → AllTaken ps
      → spans (map new_length ps) (map (λ m. (turn_after e m).criteria) ps)
        ≡ spans (map (λ m. m.0.input_length) ps) (map (λ m. m.0.criteria) ps)
  unfolding spans span
  spans-taken [] h = refl
  spans-taken ((m, ids) ∷ ps) h =
      let (counted, limit) = take_tokens-counts ids (turn_of e m) in
      ap₂ (λ (n : ℕ) (ns : List ℕ). n ∷ ns) (omega (arith, h.0)) (spans-taken ps h.1)

  -- Where no request of a coherent batch stops before the last of its accepted tokens, a step leaves the slots laid out
  -- as they were: what a request still needs is what it needed, counted from the start of its slots.
  pub generate_token-IsLaidOut :
      (b b' : FlashCausalLmBatch F Schema) (ms : List (Member F)) (rows : List Chunk)
      (s : Stepped e b b')
      → IsCoherent b ms
      → AllTaken (members_of b s.advanced.accepted)
      → IsLaidOut b rows
      → IsLaidOut b' rows
  unfolding next_batch
  generate_token-IsLaidOut b b' ms rows s coherent taken laid =
      let h = coherent.members in
      let n = length-accepted e b b' ms s h coherent.tensor in
      let ps = pairs ms s.advanced.accepted in
      let members = members_of-pairs e b ms s.advanced.accepted h in
      let lens : b'.input_lengths ≡ map new_length ps =
        ap (λ c. c.input_lengths) s.result ∙ ap (map new_length) members in
      let crits : b'.stopping_criterias ≡ map (λ m. (turn_after e m).criteria) ps =
        ap (λ c. c.stopping_criterias) s.result ∙ ap (map _) members in
      let old_lens : b.input_lengths ≡ map (λ m. m.0.input_length) ps =
        h.lengths
        ∙ map-pairs (λ m. m.input_length) (λ m. m.0.input_length) (λ m a. refl) ms
            s.advanced.accepted n in
      let old_crits : b.stopping_criterias ≡ map (λ m. m.0.criteria) ps =
        h.criterias
        ∙ map-pairs (λ m. m.criteria) (λ m. m.0.criteria) (λ m a. refl) ms s.advanced.accepted n in
      record {
        slots = ap (λ c. c.slots) s.result ∙ laid.slots;
        starts = ap (λ c. c.start_slots) s.result ∙ laid.starts;
        needs =
            ap₂ spans lens crits
            ∙ spans-taken ps (subst AllTaken members taken)
            ∙ sym (ap₂ spans old_lens old_crits)
            ∙ laid.needs;
        lengths =
            ap length lens
            ∙ length-map new_length ps
            ∙ sym (length-map (λ m. m.0.input_length) ps)
            ∙ sym (ap length old_lens)
            ∙ laid.lengths;
        criterias =
            ap length crits
            ∙ length-map _ ps
            ∙ sym (length-map (λ m. m.0.criteria) ps)
            ∙ sym (ap length old_crits)
            ∙ laid.criterias;
        fits = laid.fits;
      }

-- A request below its limit has a token to come.
abbrev pub AllGoOn : List StoppingCriteria → Type 0
AllGoOn [] = Unit
AllGoOn (s ∷ ss) = (s.current_tokens < s.max_new_tokens) × AllGoOn ss

-- The slot of each request's last token is among its own.
abbrev pub OwnSlots : List Chunk → List ℕ → List ℕ → Type 0
OwnSlots [] [] [] = Unit
OwnSlots ((kept, n, xs) ∷ rows) (len ∷ lens) (y ∷ ys) =
    (get_elem? xs (len - 1) ≡ some y) × OwnSlots rows lens ys
OwnSlots _ _ _ = ⊥

get_some : (xs : List ℕ) (i : ℕ) → i < length xs → (x : ℕ) × (get_elem? xs i ≡ some x)
get_some [] i h = absurd (omega arith)
get_some (x ∷ xs) zero h = (x, refl)
get_some (x ∷ xs) (suc i) h = get_some xs i (omega arith)

get_within : (xs ys : List ℕ) (i : ℕ) → i < length xs → get_elem? (xs ++ ys) i ≡ get_elem? xs i
get_within [] ys i h = absurd (omega arith)
get_within (x ∷ xs) ys zero h = refl
get_within (x ∷ xs) ys (suc i) h = get_within xs ys i (omega arith)

gather-OwnSlots :
    (pre : List ℕ) (rows : List Chunk) (lens : List ℕ) (ss : List StoppingCriteria)
    → length lens ≡ length rows
    → spans lens ss ≡ spans_of rows
    → AllGoOn ss
    → AllPositive lens
    → Fits rows
    → (ys : List ℕ) × (gather
          (pre ++ all_slots rows)
          (last_slots (starts (length pre) (lengths_of rows)) lens)
        ≡ some ys)
      × OwnSlots rows lens ys
unfolding gather last_slots starts spans span
gather-OwnSlots pre [] [] ss e needs go pos fits = ([], refl, tt)
gather-OwnSlots pre [] (n ∷ lens) ss e needs go pos fits = absurd (omega arith)
gather-OwnSlots pre (r ∷ rows) [] ss e needs go pos fits = absurd (omega arith)
gather-OwnSlots pre ((kept, n, xs) ∷ rows) (len ∷ lens) [] e needs go pos fits =
    ground (arith, needs)
gather-OwnSlots pre ((kept, n, xs) ∷ rows) (len ∷ lens) (s ∷ ss) e needs go pos fits =
    let enough : n ≡ len + s.max_new_tokens - s.current_tokens - 1 = sym (head_of needs) in
    let inside : len - 1 < length xs = omega (arith, enough, go.0, pos.0, fits.0) in
    let (y, own) = get_some xs (len - 1) inside in
    let here : get_elem? (pre ++ (xs ++ all_slots rows)) (length pre + len - 1) ≡ some y =
      subst (λ i. get_elem? (pre ++ (xs ++ all_slots rows)) i ≡ some y) (omega (arith, pos.0))
        (get_elem?-append pre (xs ++ all_slots rows) (len - 1)
          ∙ get_within xs (all_slots rows) (len - 1) inside
          ∙ own) in
    let (ys, rest, owns) =
      gather-OwnSlots (pre ++ xs) rows lens ss (omega (arith, e)) (tail_of needs) go.1 pos.1
        fits.1 in
    let total : length (pre ++ xs) ≡ length pre + length xs = length-append pre xs in
    (y ∷ ys, ground (arith, here, rest, total, append_assoc pre xs (all_slots rows)), (own, owns))
  where
    head_of : {x y : ℕ} {xs ys : List ℕ} → x ∷ xs ≡ y ∷ ys → x ≡ y
    head_of h = ground (arith, h)

    tail_of : {x y : ℕ} {xs ys : List ℕ} → x ∷ xs ≡ y ∷ ys → xs ≡ ys
    tail_of h = ground (arith, h)

-- Each request of a coherent batch that is laid out, all of them below their limits, reads and
-- writes one slot in a decode step, and it is that of its last token, among its own.
pub slot_indices-OwnSlots :
    {F Schema : Type 0} (b : FlashCausalLmBatch F Schema) (ms : List (Member F)) (rows : List Chunk)
    → IsCoherent b ms
    → IsLaidOut b rows
    → AllGoOn b.stopping_criterias
    → (ys : List ℕ) × (gather b.slots b.slot_indices ≡ some ys) × OwnSlots rows b.input_lengths ys
slot_indices-OwnSlots b ms rows h laid go =
    let (ys, e, own) =
      gather-OwnSlots [] rows b.input_lengths b.stopping_criterias laid.lengths laid.needs go
        h.positive laid.fits in
    (
      ys,
      ap₂ gather laid.slots (h.last ∙ ap (λ ss. last_slots ss b.input_lengths) laid.starts) ∙ e,
      own,
    )
