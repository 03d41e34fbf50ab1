-- ===== src/Causal/Generate/Ends.antt =====
-- The steps of a padded batch until it ends.
use lorax.Prelude.{ℕ, zero, suc, ◌-◌, ◌<◌, ◌≤◌, ◌≡◌, subst, arith, inl, inr, none, some, List}
use lorax.Flash.Generate.{Generation}
use lorax.Causal.{Layer, CausalLmBatch}
use lorax.Causal.Padded.{IsPadded}
use lorax.Causal.Generate.{Engine, generate_token}
use lorax.Causal.Generate.Members.{IsFull}
use lorax.Causal.Generate.Next.{Answers}
use lorax.Causal.Generate.Keeps.{generate_token-IsPadded}

-- `n` steps after the batch there is no batch that goes on.
pub data Ends {C K L : Type 0} (e : Engine C K L) : CausalLmBatch C K → ℕ → Type 0 where
  last :
      (b : CausalLmBatch C K) (generations : List Generation)
      → generate_token e b ≡ some (generations, none)
      → Ends e b 1
  more :
      (b c : CausalLmBatch C K) (generations : List Generation) (n : ℕ)
      → generate_token e b ≡ some (generations, some c)
      → Ends e c n
      → Ends e b (suc n)

-- A model that answers on every padded batch with room for a token.
unfoldable pub Serves : {C K L : Type 0} → Engine C K L → Type 0
Serves {C} {K} {L} e =
    (b : CausalLmBatch C K) (p : ℕ)
    → IsPadded b p
    → IsFull b
    → 0 < p
    → (logits : List L) × (layer : Layer K) × (layers : List (Layer K)) × Answers e b logits layer
        layers

module _ {C K L : Type 0} (e : Engine C K L) where
  -- If the model answers on every padded batch with room for a token, then from a padded batch with
  -- `p` places to the right, `p` positive, and a column entry for each request, steps follow one
  -- another without an exception until a step returns no batch, and there are at most `p` of them.
  pub generate_token-Ends :
      (b : CausalLmBatch C K) (p : ℕ)
      → Serves e
      → IsPadded b p
      → IsFull b
      → 0 < p
      → (n : ℕ) × (n ≤ p) × Ends e b n
  unfolding Serves
  generate_token-Ends b zero serves padded full h = absurd (omega (arith, h))
  generate_token-Ends b (suc p) serves padded full h =
      let (logits, layer, layers, answers) = serves b (suc p) padded full h in
      let (generations, outcome) =
        generate_token-IsPadded e b (suc p) logits layer layers padded full answers in
      elim outcome [
        | inl (ends, _) ↦ (1, omega arith, last b generations ends)
        | inr (_, on) ↦
            let same : suc p - 1 ≡ p = omega arith in
            let (n, low, ends) =
              generate_token-Ends on.next p serves (subst (IsPadded on.next) same on.padded) on.full
                (omega (arith, on.left)) in
            (suc n, omega (arith, low), more b on.next generations n on.returned ends)
      ]
