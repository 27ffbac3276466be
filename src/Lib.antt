-- ===== src/Lib.antt =====
-- nanovllm: the scheduling core of an inference engine that serves many sequences from one paged
-- key/value cache, and the pure data structures beside it.
--
-- How the parts interact. `LLMEngine` (src/llm_engine.cpp) takes requests as token ids, or as texts that
-- its `Tokenizer` (src/tokenizer.cpp) encodes, and turns each into a `Sequence` (include/nanovllm/sequence.hpp) in the scheduler's waiting queue. A step asks
-- `Scheduler::schedule` (src/scheduler.cpp) for a batch, lets `ModelRunner::run`
-- (src/model_runner.cpp) compute one token for each of its sequences, and gives the tokens back by
-- `Scheduler::postprocess`. The scheduler keeps the blocks of the cache in its `BlockManager`
-- (src/block_manager.cpp), which shares blocks with equal prefixes by their hashes.
--
-- Which file models what:
--   Base         shared names, Boolean tests, lists over the native numbers, counting
--   Result       the exceptions, as values
--   Text         texts as bytes: literals, searches, character classes
--   Sequence     include/nanovllm/sequence.hpp and `SamplingParams` of config.hpp
--   BlockManager src/block_manager.cpp, include/nanovllm/block_manager.hpp; the 64-bit hash in
--                BlockManager/Hash, the invariant and its preservation in the other children
--   Scheduler    src/scheduler.cpp; one function per loop and round of `schedule`
--   Runner       src/model_runner.cpp and the host half of include/nanovllm/context.hpp
--   Engine       src/llm_engine.cpp: `add_request` by token ids, `step`; the requests by
--                text in Engine/Prompts, with the Tokenizer
--   RadixCache   include/nanovllm/cache.hpp
--   KvPolicy     include/nanovllm/kv_policy.hpp, plugin_manager.hpp, `streaming_keep` of rope_scale.hpp
--   Json         include/nanovllm/json.hpp, the values; JsonParser, the parser
--   JsonShape    include/nanovllm/gen.hpp
--   Gguf         src/gguf.cpp, include/nanovllm/gguf.hpp: `add_file` (Gguf/Loader), the
--                metadata by key (Gguf/Lookup) and the bytes of a tensor (Gguf/Data); Gguf/Format is
--                a writer of such files
--   Tokenizer    src/tokenizer.cpp: bytes, UTF-8, merges, decoding; Tokenizer/Split is `default_split`,
--                Tokenizer/Encode `encode_text`
--   Http         include/nanovllm/http_server.hpp: escapes and fields; Http/Server, the answer to a
--                request
--   Mcp          include/nanovllm/mcp_client.hpp: requests; Mcp/Reply, the reading of answers
--   Agent        include/nanovllm/agent.hpp
--   Bm25         include/nanovllm/bm25.hpp
--   Drafter      include/nanovllm/drafter.hpp
--   ExpertCache  include/nanovllm/edge0/stream.h
--   Reason       include/nanovllm/reason.hpp
--   Quant        include/nanovllm/quant_extra.hpp
--
-- How state is modelled. A `shared_ptr<Sequence>` is a number, and `Scheduler.store` gives the
-- sequence it points to, so that queues, batch and engine see the same object. A method that changes
-- its object returns the new one. An exception is `err` of Result. Integers are natural numbers where
-- the source never lets them be negative, with the guards of the source written out; the hash wraps
-- at 64 bits, and the sum that `add_request` compares with `max_model_len` at 32. A map is a function to `Option` or an association list.
--
-- Words of the statements. `Phase bs batch s` says that the scheduler `s` is in order while `batch` is
-- out: no sequence is queued twice, every used block counts exactly the tables it stands in, every
-- free block is on the free list once, and the counters of each queued sequence fit its place.
-- `Phase bs [] s` is a scheduler at rest. `Invariant m owners` says the same of a block manager alone,
-- against the block tables strung together as `owners`.
--
-- Bounds and fuel. The loops of `schedule` are bounded by `max_num_seqs`, as in the source. `schedule`
-- calls itself; `depth` bounds those calls, and `none` says that there are more. The loops over texts
-- that jump to what a search finds (`strip_thinking`, `json_extract_last_user`, `find_call`, the objects
-- of an MCP answer) have a round for each character and one more; the JSON parser has two calls for
-- each character; `encode_text` has a round for each byte, and its merges one for each part. That this
-- is enough is proved for each of them. All other loops recurse on what is
-- left of their range or list. The block size is above 1 where a theorem needs it (`can_append` never
-- asks for a block of size 1).
--
-- What is a parameter: the network's `forward_logits` and the sampler, with the one hypothesis that
-- the network returns a row of logits for each sequence; the system's library loader in KvPolicy; the
-- doubles of Bm25 with their operations, of whose comparisons the ranking needs three laws; the
-- floats of Quant; `std::stod` in the parser; the handlers of the server, its page and what its socket
-- receives; what the pipe of the MCP client delivers.
--
-- What is not modelled: the GPU code (src/model.cpp, src/hip_ops.hip, src/vulkan_model.cpp,
-- src/vulkan_backend.cpp, include/nanovllm/spv.h), src/safetensors.cpp, the loading of tokenizers and
-- their unigram and pre-tokenizer halves, the loading and dequantisation of tensors behind
-- `read_tensor_data`, the samplers (floats), the loops of `generate`, the reading of config.json, sockets
-- and processes, and the command lines.
pub mod Base
pub mod Result
pub mod Text
pub mod Tokenizer
pub mod Sequence
pub mod BlockManager
pub mod Scheduler
pub mod Runner
pub mod Engine
pub mod RadixCache
pub mod KvPolicy
pub mod Json
pub mod JsonParser
pub mod JsonShape
pub mod Http
pub mod Mcp
pub mod Agent
pub mod Bm25
pub mod Gguf
pub mod Drafter
pub mod ExpertCache
pub mod Reason
pub mod Quant
