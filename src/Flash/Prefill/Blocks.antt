-- ===== src/Flash/Prefill/Blocks.antt =====
-- The blocks and slots that a new request is given.
use lorax.Prelude.{
  ℕ, zero, suc, ◌+◌, ◌-◌, ◌*◌, ◌/◌, ◌≤◌, ◌≡◌, refl, ap, ◌∙◌, arith, List, [], ◌∷◌, ◌++◌, length,
  length-take, take,
}
use lorax.Tokens.Ngram.{arange}
use lorax.Flash.Prefill.{block_size, slots_of_blocks, blocks_or}

pub length-arange : (start n : ℕ) → length (arange start n) ≡ n
unfolding arange
length-arange start zero = refl
length-arange start (suc n) = ap suc (length-arange (start + 1) n)

arange-append : (start m n : ℕ) → arange start m ++ arange (start + m) n ≡ arange start (m + n)
unfolding arange
arange-append start zero n = ground arith
arange-append start (suc m) n =
    let from : start + suc m ≡ start + 1 + m = omega arith in
    let count : suc m + n ≡ suc (m + n) = omega arith in
    rw (from, count) (ap (λ xs. start ∷ xs) (arange-append (start + 1) m n))

take-arange : (start n m : ℕ) → n ≤ m → take n (arange start m) ≡ arange start n
unfolding arange
take-arange start zero m h = refl
take-arange start (suc n) zero h = absurd (omega arith)
take-arange start (suc n) (suc m) h =
    ap (λ xs. start ∷ xs) (take-arange (start + 1) n m (omega arith))

-- The slots of adjacent blocks are consecutive.
slots_of_blocks-arange :
    (b k : ℕ) → slots_of_blocks (arange b k) ≡ arange (b * block_size) (k * block_size)
unfolding slots_of_blocks arange
slots_of_blocks-arange b zero = refl
slots_of_blocks-arange b (suc k) =
    let from : (b + 1) * block_size ≡ b * block_size + block_size = omega arith in
    let count : block_size + k * block_size ≡ suc k * block_size = omega arith in
    ap (λ xs. arange (b * block_size) block_size ++ xs)
      (slots_of_blocks-arange (b + 1) k ∙ ap (λ s. arange s (k * block_size)) from)
    ∙ arange-append (b * block_size) block_size (k * block_size)
    ∙ ap (arange (b * block_size)) count

-- The slots that a request with `total` tokens is to have: the first of those that the router gave
-- it, or without a block consecutive ones from the block `num_blocks` on.
abbrev pub slots_for : ℕ → ℕ → List ℕ → List ℕ → List ℕ
slots_for num_blocks total [] slots = arange (num_blocks * 16) total
slots_for num_blocks total (b ∷ blocks) slots = take total slots

-- The first block behind it: enough blocks of 16 tokens are left out.
abbrev pub block_behind : ℕ → ℕ → List ℕ → ℕ
block_behind num_blocks total [] = num_blocks + (total + 15) / 16
block_behind num_blocks total (b ∷ blocks) = num_blocks + length (b ∷ blocks)

pub slots_for-blocks_or :
    (num_blocks total : ℕ) (blocks slots : List ℕ)
    → take total (blocks_or num_blocks total blocks slots).1
      ≡ slots_for num_blocks total blocks slots
slots_for-blocks_or num_blocks total [] slots =
    let k = (total + block_size - 1) / block_size in
    ap (take total) (slots_of_blocks-arange num_blocks k)
    ∙ take-arange (num_blocks * block_size) total (k * block_size) (omega arith)
slots_for-blocks_or num_blocks total (b ∷ blocks) slots = refl

pub block_behind-blocks_or :
    (num_blocks total : ℕ) (blocks slots : List ℕ)
    → num_blocks + length (blocks_or num_blocks total blocks slots).0
      ≡ block_behind num_blocks total blocks
block_behind-blocks_or num_blocks total [] slots =
    let k = (total + block_size - 1) / block_size in omega (arith, length-arange num_blocks k)
block_behind-blocks_or num_blocks total (b ∷ blocks) slots = refl

length_of_room :
    (total : ℕ) (slots : List ℕ) → total ≤ length slots → length (take total slots) ≡ total
length_of_room total slots h = omega (arith, length-take total slots)

pub length-slots_for :
    (num_blocks total : ℕ) (blocks slots : List ℕ)
    → ((b : ℕ) (bs : List ℕ) → blocks ≡ b ∷ bs → total ≤ length slots)
    → length (slots_for num_blocks total blocks slots) ≡ total
length-slots_for num_blocks total [] slots h = length-arange (num_blocks * 16) total
length-slots_for num_blocks total (b ∷ bs) slots h = length_of_room total slots (h b bs refl)
