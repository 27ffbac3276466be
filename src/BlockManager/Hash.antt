-- ===== src/BlockManager/Hash.antt =====
-- `splitmix64` and `BlockManager::compute_hash` of src/block_manager.cpp, on 64-bit patterns.
use Prim.Native.Nat.{bit_xor}
use nano_v_llm_cpp.Base.{ℕ, ◌+◌, ◌*◌, ◌/◌, ◌%◌, ◌^◌, List, [], ◌∷◌, ◌==◌, if◌then◌else◌, length}

abbrev pub u64 : ℕ → ℕ
u64 n = n % 2 ^ 64

pub splitmix64 : ℕ → ℕ
splitmix64 x0 =
    let x1 : ℕ = u64 (x0 + 0x9e3779b97f4a7c15) in
    let x2 : ℕ = u64 (bit_xor x1 (x1 / 2 ^ 30) * 0xbf58476d1ce4e5b9) in
    let x3 : ℕ = u64 (bit_xor x2 (x2 / 2 ^ 27) * 0x94d049bb133111eb) in bit_xor x3 (x3 / 2 ^ 31)

-- `int64_t prefix = -1`
abbrev pub no_prefix : ℕ
no_prefix = 0xffffffffffffffff

hash_tokens : ℕ → List ℕ → ℕ
hash_tokens h [] = h
hash_tokens h (t ∷ ts) = hash_tokens (splitmix64 (bit_xor h t)) ts

unfoldable pub compute_hash : List ℕ → ℕ → ℕ
unfolding hash_tokens splitmix64
compute_hash token_ids prefix =
    let h : ℕ = if prefix == no_prefix then 0x243f6a8885a308d3 else prefix in
    hash_tokens (bit_xor h (u64 (0x1c6e4a8dc4b3f8a1 + u64 (length token_ids * 0x9e3779b97f4a7c15))))
      token_ids
