-- ===== src/KvPolicy.antt =====
-- include/nanovllm/kv_policy.hpp, include/nanovllm/plugin_manager.hpp and `streaming_keep` of
-- include/nanovllm/rope_scale.hpp: which positions a sink and a window keep. Positions and sinks are
-- not negative, and 0 stands for a window that is not positive. The library loader is a parameter.
pub mod Streaming
pub mod Tests
use nano_v_llm_cpp.Base.{
  ℕ, zero, suc, ◌+◌, ◌-◌, ◌/◌, min, Bool, true, false, not, ◌||◌, List, [], ◌∷◌, ◌++◌, Option, none,
  some, ◌==◌, ltb, leb, if◌then◌else◌,
}
use nano_v_llm_cpp.BlockManager.{ℤ, pos, negsuc}

-- `pos + 1 - sink` is negative where the sink is longer; the sum with the sink is `pos + 1` then.
pub streaming_key_len : ℕ → ℕ → ℕ → ℕ
streaming_key_len p window sink =
    if window == 0
    then p + 1
    else if leb sink (p + 1)
    then sink + min window (p + 1 - sink)
    else p + 1

-- The loop that writes `i / block_size`, with `rounds` left.
abbrev pub mapped : ℕ → ℕ → ℕ → List ℤ
mapped block_size zero i = []
mapped block_size (suc rounds) i = pos (i / block_size) ∷ mapped block_size rounds (i + 1)

-- The loop that fills with -1.
abbrev pub filled : ℕ → List ℤ
filled zero = []
filled (suc rounds) = negsuc 0 ∷ filled rounds

-- The slot, and the entries written to the table, in order.
pub streaming_map : ℕ → ℕ → ℕ → ℕ → ℕ × List ℤ
streaming_map p key_len block_size max_blocks =
    (p, mapped block_size key_len 0 ++ filled (max_blocks - key_len))

pub data Source : Type 0 where
  builtin dll : Source

pub record Policy : Type 0 where
  pub source : Source
  pub key_len : ℕ → ℕ → ℕ → ℕ
  pub map : ℕ → ℕ → ℕ → ℕ → ℕ × List ℤ

pub builtin_streaming : Policy
builtin_streaming = record { source = builtin; key_len = streaming_key_len; map = streaming_map }

-- What a library's `edge_plugin_desc` returns; a null pointer is `none`.
pub record EdgeKvPolicy : Type 0 where
  pub abi : ℕ
  pub key_len : Option (ℕ → ℕ → ℕ → ℕ)
  pub map : Option (ℕ → ℕ → ℕ → ℕ → ℕ × List ℤ)

-- A library: its symbol `edge_plugin_desc`, when it has one, and what a call of that returns.
abbrev pub Library : Type 0
Library = Option (Option EdgeKvPolicy)

abbrev pub edge_plugin_abi : ℕ
edge_plugin_abi = 1

-- The second path is tried when the first has no library.
abbrev pub either : Option Library → Option Library → Option Library
either none by_name = by_name
either (some library) by_name = some library

-- The policy of a description that has the right ABI and both functions.
pub policy_of : EdgeKvPolicy → Policy
policy_of desc =
    if not (desc.abi == edge_plugin_abi) then builtin_streaming else elim desc.key_len [
      | none ↦ builtin_streaming
      | some key_len ↦ elim desc.map [
        | none ↦ builtin_streaming
        | some map ↦ record { source = dll; key_len = key_len; map = map }
      ]
    ]

-- `load`, with `in_dir` and `by_name` what the system's loader finds under the two paths.
pub load : Option Library → Option Library → Policy
load in_dir by_name = elim (either in_dir by_name) [
  | none ↦ builtin_streaming
  | some none ↦ builtin_streaming
  | some (some none) ↦ builtin_streaming
  | some (some (some desc)) ↦ policy_of desc
]

-- `for (i = first; i < end; ++i) keep.push_back(i)`, with `rounds` left.
abbrev pub push_range : ℕ → ℕ → List ℕ
push_range zero i = []
push_range (suc rounds) i = i ∷ push_range rounds (i + 1)

pub streaming_keep : ℕ → ℕ → ℕ → List ℕ
streaming_keep total_len sink window =
    if total_len == 0
    then []
    else (let start = if ltb (total_len - window) sink then sink else total_len - window in
        push_range (min sink total_len) 0 ++ push_range (total_len - start) start)
