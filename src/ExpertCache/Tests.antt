-- ===== src/ExpertCache/Tests.antt =====
-- The caches of include/nanovllm/edge0/stream.h on two experts.
use nano_v_llm_cpp.Base.{ℕ, ◌≡◌, ◌≢◌, refl, [], ◌∷◌, none, some, arith}
use nano_v_llm_cpp.BlockManager.{pos}
use nano_v_llm_cpp.ExpertCache.{
  SharedExpertCache, PrefetchBuffer, find, remove_key, put_key, oldest, evict, put_slot, put,
}
use nano_v_llm_cpp.ExpertCache.Bounds.{Valid, put_slot-Valid}

-- Two slots, taken by the keys 5 and 6 at the clocks 1 and 2.
abbrev full : SharedExpertCache
full = record {
  slots = 2;
  map = (6, 1) ∷ (5, 0) ∷ [];
  lru = 1 ∷ 2 ∷ [];
  order = (5, 1) ∷ (6, 2) ∷ [];
}

full_Valid : Valid full 3
full_Valid = record {
  same = λ q. omega arith;
  once = λ q. ground arith;
  same_length = refl;
  before = (omega arith, (omega arith, _));
  fits = omega arith;
}

evicts_oldest : (put full 0 7 (pos 0) 3).1 ≡ some (0, 5)
unfolding put put_slot evict find remove_key put_key oldest
evicts_oldest = refl

put_slot-Valid_example :
    Valid (put_slot full 7 0 3).0 3
    × (find 7 (put_slot full 7 0 3).0.map ≡ some 0)
    × ((k : ℕ)
        → (put_slot full 7 0 3).1 ≡ some k
        → (k ≢ 7) × (find k (put_slot full 7 0 3).0.map ≡ none))
put_slot-Valid_example = put_slot-Valid full 7 0 3 full_Valid (omega arith)

abbrev buffer : PrefetchBuffer
buffer = record { cap = 1; buf = (5, 1) ∷ [] }
