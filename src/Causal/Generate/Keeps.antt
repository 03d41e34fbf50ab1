-- ===== src/Causal/Generate/Keeps.antt =====
-- One step of a padded batch.
use lorax.Prelude.{
  ℕ, suc, ◌-◌, ◌<◌, ◌≡◌, ◌⊎◌, refl, ap, subst, arith, true, false, Bool-cases, [], inl, inr, none,
  some, List, ◌∷◌, Option-cases, map, length,
}
use lorax.Tokens.Stopping.{FinishReason}
use lorax.Flash.Generate.{Generation}
use lorax.Causal.{Layer, CausalLmBatch}
use lorax.Causal.Padded.{IsPadded, HasPast}
use lorax.Causal.Generate.{
  Engine, Stepped, members_of, step_member, all_stopped, next_batch, generations_of, generate_token,
}
use lorax.Causal.Generate.Members.{IsFull, stepped-Counted, all_stopped-room}
use lorax.Causal.Generate.Columns.{new_mask}
use lorax.Causal.Generate.Next.{
  Answers, some_requests, size, next-IsPadded, next-IsFull, next-HasPast,
}

-- The stopping criteria give each request a reason.
abbrev pub EachStops : {C : Type 0} → List (Stepped C) → Type 0
EachStops [] = Unit
EachStops (s ∷ ss) = ((reason : FinishReason) × (s.reason ≡ some reason)) × EachStops ss

abbrev pub AllStop : {C K L : Type 0} → Engine C K L → CausalLmBatch C K → List L → Type 0
AllStop e b logits = EachStops (map (step_member e) (members_of e b logits))

all_stopped→EachStops :
    {C K L : Type 0} (e : Engine C K L) (ss : List (Stepped C))
    → all_stopped e ss ≡ true
    → EachStops ss
unfolding all_stopped
all_stopped→EachStops e [] h = tt
all_stopped→EachStops e (s ∷ ss) h = elim (Option-cases s.reason) [
  | inl none_yet ↦ absurd (ground (arith, none_yet, h))
  | inr (r, given) ↦ ((r, given), all_stopped→EachStops e ss (ground (arith, given, h)))
]

EachStops→all_stopped :
    {C K L : Type 0} (e : Engine C K L) (ss : List (Stepped C))
    → EachStops ss
    → all_stopped e ss ≡ false
    → ⊥
unfolding all_stopped
EachStops→all_stopped e [] all h = ground (arith, h)
EachStops→all_stopped e (s ∷ ss) ((r, given), all) h =
    EachStops→all_stopped e ss all (ground (arith, given, h))

-- The step returns a batch that goes on.
pub record GoesOn {C K L : Type 0} (e : Engine C K L) (b : CausalLmBatch C K) (p : ℕ)
    (layer : Layer K) (layers : List (Layer K)) (generations : List Generation) : Type 0 where
  pub next : CausalLmBatch C K
  pub returned : generate_token e b ≡ some (generations, some next)
  pub left : 0 < p - 1
  pub nonempty : 0 < length next.requests
  pub padded : IsPadded next (p - 1)
  pub full : IsFull next
  pub past : HasPast next layer layers
  pub same : next.requests ≡ b.requests

module _ {C K L : Type 0} (e : Engine C K L) (b : CausalLmBatch C K) (p : ℕ) (logits : List L)
    (layer : Layer K) (layers : List (Layer K)) (padded : IsPadded b p) (full : IsFull b)
    (answers : Answers e b logits layer layers) where
  EachStops→unfinished :
      AllStop e b logits → all_stopped e (map (step_member e) (members_of e b logits)) ≡ false → ⊥
  EachStops→unfinished all h =
      EachStops→all_stopped e (map (step_member e) (members_of e b logits)) all h

  abbrev loop : List (Stepped C)
  loop = map (step_member e) (members_of e b logits)

  enough : all_stopped e loop ≡ false → 0 < p - 1
  enough h =
      all_stopped-room e (p - 1) loop (stepped-Counted e b logits full answers.scored p padded.room)
        h

  advance :
      (q : ℕ)
      → p ≡ suc q
      → all_stopped e loop ≡ false
      → (c : CausalLmBatch C K) × (next_batch e b loop (layer ∷ layers) ≡ some c)
        × IsPadded c q
        × IsFull c
        × HasPast c layer layers
        × (c.requests ≡ b.requests)
        × (0 < length b.requests)
  unfolding next_batch
  advance q h unfinished = elim (Option-cases (next_batch e b loop (layer ∷ layers))) [
    | inl fails ↦ absurd (succeeds fails)
    | inr (c, made) ↦ (
      c,
      made,
      next-IsPadded e b c q logits layer layers wide full answers loop refl unfinished made,
      next-IsFull e b c q logits layer layers wide full answers loop refl unfinished made,
      next-HasPast e b c q logits layer layers wide full answers loop refl unfinished made,
      size e b c q logits layer layers wide full answers loop refl unfinished made,
      some_requests e b c q logits layer layers wide full answers loop refl unfinished made,
    )
  ]
    where
      wide : IsPadded b (suc q)
      wide = subst (IsPadded b) h padded

      succeeds : next_batch e b loop (layer ∷ layers) ≡ none → ⊥
      succeeds fails = ground (arith, new_mask b q wide, fails)

  -- Let a batch be padded, with a column entry for each request, and let the model answer on it
  -- with logits for each request and the keys and values of the tokens that it has seen. Then
  -- `generate_token` returns: either the stopping criteria give every request a reason and no batch is
  -- returned, or they do not, and a batch of the same requests is returned that is padded with one
  -- place less to the right, has a past, and has at least one place left.
  pub generate_token-IsPadded :
      (generations : List Generation) × (((generate_token e b ≡ some (generations, none))
          × AllStop e b logits)
        ⊎ ((AllStop e b logits → ⊥) × GoesOn e b p layer layers generations))
  unfolding generate_token
  generate_token-IsPadded = elim (Bool-cases (all_stopped e loop)) [
    | inl stops ↦ (
      generations_of e 0 loop,
      inl (rw (answers.ran, stops) refl, all_stopped→EachStops e loop stops),
    )
    | inr unfinished ↦ (
      generations_of e 0 loop,
      inr (
        (λ all. EachStops→unfinished all unfinished),
        let left = enough unfinished in
            let (c, made, padded', full', past', same, more) =
              advance (p - 1) (omega (arith, left)) unfinished in
            record {
              next = c;
              returned = rw (answers.ran, unfinished, made) refl;
              left = left;
              nonempty = omega (arith, more, ap length same);
              padded = padded';
              full = full';
              past = past';
              same = same;
            },
      ),
    )
  ]
