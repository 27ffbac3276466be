-- ===== src/KvPolicy/Streaming.antt =====
-- The streaming policy of include/nanovllm/kv_policy.hpp and plugin_manager.hpp against
-- `streaming_keep` of include/nanovllm/rope_scale.hpp, and the plugin that is loaded.
use nano_v_llm_cpp.Base.{
  ℕ, zero, suc, ◌+◌, ◌-◌, ◌≤◌, ◌<◌, min, ◌≡◌, ap, ◌⊎◌, inl, inr, refl, ◌++◌, Option, none, some,
  arith, ◌==◌, ltb, if◌then◌else◌, Bool-cases, Option-cases, length, length-append, count,
  count-append,
}
use nano_v_llm_cpp.KvPolicy.{
  streaming_key_len, mapped, filled, streaming_map, EdgeKvPolicy, Library, edge_plugin_abi,
  builtin_streaming, either, policy_of, load, push_range, streaming_keep,
}

length-push_range : (rounds i : ℕ) → length (push_range rounds i) ≡ rounds
length-push_range zero i = refl
length-push_range (suc rounds) i = ap suc (length-push_range rounds (i + 1))

count-push_range :
    (rounds i q : ℕ)
    → count q (push_range rounds i) ≡ (if ltb q i then 0 else (if ltb q (i + rounds) then 1 else 0))
count-push_range zero i q = ground arith
count-push_range (suc rounds) i q = ground (arith, count-push_range rounds (i + 1) q)

-- The positions that `streaming_keep` gives are those in the sink or in the window, each once; and
-- the policy's key length at the last position is how many they are, for a window that is positive.
pub streaming_keep-key_len :
    (p sink window : ℕ)
    → 0 < window
    → (length (streaming_keep (p + 1) sink window) ≡ streaming_key_len p window sink)
      × ((q : ℕ)
          → count q (streaming_keep (p + 1) sink window) ≡ (
              if ltb q (p + 1)
              then (if ltb q sink then 1 else (if ltb p (q + window) then 1 else 0))
              else 0))
unfolding streaming_keep streaming_key_len
streaming_keep-key_len p sink window h = (
  ground (
    arith,
    length-append (push_range (min sink (p + 1)) 0) (push_range (p + 1 - start) start),
    length-push_range (min sink (p + 1)) 0,
    length-push_range (p + 1 - start) start,
  ),
  λ q. ground (
    arith,
    count-append q (push_range (min sink (p + 1)) 0) (push_range (p + 1 - start) start),
    count-push_range (min sink (p + 1)) 0 q,
    count-push_range (p + 1 - start) start q,
  ),
)
  where
    start : ℕ
    start = if ltb (p + 1 - window) sink then sink else p + 1 - window

length-mapped : (bs rounds i : ℕ) → length (mapped bs rounds i) ≡ rounds
length-mapped bs zero i = refl
length-mapped bs (suc rounds) i = ap suc (length-mapped bs rounds (i + 1))

length-filled : (rounds : ℕ) → length (filled rounds) ≡ rounds
length-filled zero = refl
length-filled (suc rounds) = ap suc (length-filled rounds)

-- The key length is at most the number of positions so far. The policy writes exactly the table's
-- entries where the key length is at most their number, and more than the table has where it is
-- larger.
pub streaming_map-writes :
    (p window sink bs max_blocks : ℕ)
    → let key_len = streaming_key_len p window sink in
      (key_len ≤ p + 1)
      × (key_len ≤ max_blocks → length (streaming_map p key_len bs max_blocks).1 ≡ max_blocks)
      × (max_blocks < key_len → max_blocks < length (streaming_map p key_len bs max_blocks).1)
unfolding streaming_key_len streaming_map
streaming_map-writes p window sink bs max_blocks = (
  ground arith,
  λ h. ground (arith, written (streaming_key_len p window sink)),
  λ h. omega (arith, written (streaming_key_len p window sink)),
)
  where
    written : (n : ℕ) → length (mapped bs n 0 ++ filled (max_blocks - n)) ≡ n + (max_blocks - n)
    written n = omega (
      arith,
      length-append (mapped bs n 0) (filled (max_blocks - n)),
      length-mapped bs n 0,
      length-filled (max_blocks - n),
    )

-- Whatever the loader finds, the policy is the library's own with both of its functions, or the
-- built-in one; and it is the built-in one whenever the description is missing, is for another ABI,
-- or lacks a function.
pub load_complete :
    (in_dir by_name : Option Library)
    → (load in_dir by_name ≡ builtin_streaming)
      ⊎ ((desc : EdgeKvPolicy) × (either in_dir by_name ≡ some (some (some desc)))
          × (desc.abi ≡ edge_plugin_abi)
          × (desc.key_len ≡ some (load in_dir by_name).key_len)
          × (desc.map ≡ some (load in_dir by_name).map))
unfolding load policy_of
load_complete in_dir by_name = found (either in_dir by_name) refl
  where
    found :
        (library : Option Library)
        → either in_dir by_name ≡ library
        → (load in_dir by_name ≡ builtin_streaming)
          ⊎ ((desc : EdgeKvPolicy) × (either in_dir by_name ≡ some (some (some desc)))
              × (desc.abi ≡ edge_plugin_abi)
              × (desc.key_len ≡ some (load in_dir by_name).key_len)
              × (desc.map ≡ some (load in_dir by_name).map))
    found none e = inl (rw (e, load) refl)
    found (some none) e = inl (rw (e, load) refl)
    found (some (some none)) e = inl (rw (e, load) refl)
    found (some (some (some desc))) e = elim (Bool-cases (desc.abi == edge_plugin_abi)) [
      | inr n ↦ inl (ground (arith, e))
      | inl y ↦ elim (Option-cases desc.key_len) [
        | inl k ↦ inl (ground (arith, e))
        | inr (key_len, k) ↦ elim (Option-cases desc.map) [
          | inl m ↦ inl (ground (arith, e))
          | inr (map, m) ↦ inr (desc, e, ground arith, ground (arith, e), ground (arith, e))
        ]
      ]
    ]
