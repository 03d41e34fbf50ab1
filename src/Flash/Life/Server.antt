-- ===== src/Flash/Life/Server.antt =====
-- Every batch that a server holds is coherent.
use lorax.Prelude.{false, List, [], ◌∷◌, ◌++◌, map}
use lorax.Tokens.Chooser.{FloatTests}
use lorax.Flash.{FlashCausalLmBatch}
use lorax.Flash.Prefill.{Tokenizer, Settings, zip_prompts}
use lorax.Flash.Generate.{Engine, Member}
use lorax.Flash.Generate.Coherent.{IsCoherent, generate_token-IsCoherent, prefill-IsCoherent}
use lorax.Flash.Life.{Live, idle, prefilled, decoded, filtered, joined, dropped, chosen}
use lorax.Flash.Life.Filter.{filter_batch-IsCoherent}
use lorax.Flash.Life.Concatenate.{AllCoherent, concatenate-IsCoherent, join_members, renewed}
use lorax.Flash.Life.Prefill.{member_of, from_pb-IsPrompted}

module _ {F Schema : Type 0} where
  -- Each batch has members with which it is coherent.
  abbrev pub EachCoherent : List (FlashCausalLmBatch F Schema) → Type 0
  EachCoherent [] = Unit
  EachCoherent (b ∷ bs) = ((ms : List (Member F)) × IsCoherent b ms) × EachCoherent bs

  EachCoherent-split :
      (bs rest : List (FlashCausalLmBatch F Schema))
      → EachCoherent (bs ++ rest)
      → ((mss : List (List (Member F))) × AllCoherent bs mss) × EachCoherent rest
  EachCoherent-split [] rest h = (([], tt), h)
  EachCoherent-split (b ∷ bs) rest h =
      let ((mss, all), k) = EachCoherent-split bs rest h.1 in ((h.0.0 ∷ mss, (h.0.1, all)), k)

  EachCoherent-chosen :
      (before behind : List (FlashCausalLmBatch F Schema)) (b : FlashCausalLmBatch F Schema)
      → EachCoherent (before ++ b ∷ behind)
      → EachCoherent (b ∷ before ++ behind)
  EachCoherent-chosen [] behind b h = h
  EachCoherent-chosen (a ∷ before) behind b h =
      let k = EachCoherent-chosen before behind b h.1 in (k.0, (h.0, k.1))

module _ {F Schema : Type 0} (f : FloatTests F) (settings : Settings)
    (tokenizer : Tokenizer F Schema) (e : Engine F Schema) where
  -- Let batches be made by `from_pb` with a step, stepped, filtered, joined, dropped and reordered
  -- in whatever order, where each prefill has one tokenized row for each of its requests and no
  -- empty prompt, and where every operation returns a batch. Then every batch that is held is
  -- coherent with some members: it is no prefill, each list that the second loop of
  -- `generate_token` reads has an entry for each member, the input lengths are positive and equal
  -- to `input_lengths_tensor`, each position id is the input length less 1, and each slot index is
  -- the start slot and the input length less 1. Nothing is said of `input_ids`, of
  -- `all_input_ids_tensor` and of the block tables.
  pub Live-EachCoherent :
      {bs : List (FlashCausalLmBatch F Schema)} → Live f settings tokenizer e bs → EachCoherent bs
  Live-EachCoherent idle = tt
  Live-EachCoherent (prefilled id requests inputs b b' gens live t size positive made stepped) = (
    prefill-IsCoherent e false b b' gens
        (map (member_of f settings tokenizer) (zip_prompts requests inputs))
        (from_pb-IsPrompted f settings tokenizer id requests inputs b t size positive made) stepped,
    Live-EachCoherent live,
  )
  Live-EachCoherent (decoded b b' gens live stepped) =
      let h = Live-EachCoherent live in
      (generate_token-IsCoherent e false b b' gens h.0.0 h.0.1 stepped, h.1)
  Live-EachCoherent (filtered b c ids live kept) =
      let h = Live-EachCoherent live in (filter_batch-IsCoherent f b c ids h.0.0 h.0.1 kept, h.1)
  Live-EachCoherent (joined bs rest c live made) =
      let ((mss, all), k) = EachCoherent-split bs rest (Live-EachCoherent live) in
      ((map (renewed f) (join_members mss), concatenate-IsCoherent f bs mss c all made), k)
  Live-EachCoherent (dropped b live) = (Live-EachCoherent live).1
  Live-EachCoherent (chosen before behind b live) =
      EachCoherent-chosen before behind b (Live-EachCoherent live)
