-- ===== src/Lib.antt =====
-- Verification of the LoRAX inference server, server/lorax_server.
--
-- The router sends requests to the Python service. `LoraxService` (server.py) keeps running batches
-- in a `Cache` (cache.py) between the calls Prefill, Decode, FilterBatch and ClearCache. A batch of
-- `FlashCausalLMBatch` (models/flash_causal_lm.py) holds for each request its slots in the paged
-- cache, its `StoppingCriteria` and the row of the `HeterogeneousNextTokenChooser` (utils/tokens.py,
-- utils/logits_process.py), and the adapter of each token as segments (utils/segments.py), which
-- the kernels of the adapters read (adapters/lora.py). A model (models/model.py) loads and offloads
-- adapters. A model without paged attention has batches of `CausalLMBatch` (models/causal_lm.py),
-- which hold the keys and values themselves, with a mask.
--
-- Files, with paths below server/lorax_server:
--   Prelude        natural numbers, lists, dicts and sets as the code uses them
--   Segments       utils/segments.py: find_segments, SegmentConcatBuilder
--   Tokens         utils/tokens.py: Stopping (StopSequenceCriteria, StoppingCriteria), Speculation
--                  (the acceptance in HeterogeneousNextTokenChooser.__call__), Ngram
--                  (ngram_speculate), Chooser (HeterogeneousNextTokenChooser and the filters of
--                  utils/logits_process.py)
--   Flash          models/flash_causal_lm.py: the fields of FlashCausalLMBatch, and its methods:
--                  Prefill (from_pb), Filter (filter), Concatenate (concatenate); FlashCausalLM's
--                  Forward (what forward hands to the model) and Generate (generate_token); Texts
--                  (decode_token of models/model.py); Life, the batches that a server holds
--   Causal         models/causal_lm.py: the fields of CausalLMBatch, whose rows are padded on the left
--                  to one length, and its methods: Prefill (from_pb), Filter (filter), Concatenate
--                  (concatenate); CausalLM's Generate (generate_token). Padded says what a padded
--                  batch is, Views what it stands for without its padding; Life, the batches that a
--                  server holds
--   Server         cache.py and the handlers ClearCache, FilterBatch, Prefill, Decode of server.py
--   Adapters       models/model.py (load_adapter, offload_adapter, register_preloaded_adapters),
--                  adapters/weights.py (LayerAdapterWeights), utils/tokenizer.py;
--                  Requests, the handlers LoadAdapter and OffloadAdapter of server.py with the
--                  sources of utils/adapter.py
--   Lora           adapters/lora.py: BatchLoraWeights, in Load its method load
--   Sizes          pad_rank of utils/sgmv.py, the batch sizes of utils/graph.py, and the shards of
--                  utils/weights.py
--   Ner            utils/token_classification.py: format_ner_output
--   Tests          concrete inputs on which the theorems apply
--
-- Conventions. A tensor of one dimension is the list of its entries, one of two dimensions the list
-- of its rows. An object that is mutated is a record that is passed on. `none`, or a `Result`, is a
-- Python exception. Token ids, positions and slots are natural numbers without bound, as Python's
-- are; int32 and int64 tensors of positions do not reach their bounds. A text is the list of its
-- code points. Floats are a type with the tests that the code makes on them. Every loop is a
-- recursion on the list that it runs over, so no fuel is needed. Of a key or a value the position
-- is the only dimension that is written out. What torch, a tokenizer or a model's forward pass
-- computes is a parameter; the one law that is used of torch, that the index of a maximum is the
-- first, is the record IsFirstMax of Tokens/Ngram/Laws.
--
-- Not modelled: the arithmetic on scores and hidden states, kernels, the capture of CUDA graphs,
-- downloads and merging of adapter weights, the batches of sequence-to-sequence models and of BERT,
-- log probabilities and alternative tokens, the warmup of the cache, the Python client, and the
-- Rust router and launcher.
pub mod Prelude
pub mod Segments
pub mod Tokens
pub mod Flash
pub mod Server
pub mod Adapters
pub mod Lora
pub mod Ner
pub mod Sizes
pub mod Causal
pub mod Tests
