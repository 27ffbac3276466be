-- ===== src/RadixCache/Tests.antt =====
-- include/nanovllm/cache.hpp on two sequences with a common prefix.
use nano_v_llm_cpp.Base.{ℕ, ◌+◌, ◌≡◌, refl, List, [], ◌∷◌, ◌++◌, none, some, length}
use nano_v_llm_cpp.RadixCache.{
  Block, RadixCache, find, put_child, insert_from, insert, lookup, count_nodes, root_or_new, size,
}
use nano_v_llm_cpp.RadixCache.Lookup.{slots, fresh, insert-lookup}

abbrev empty : RadixCache
empty = record { root = none; next_slot = 0 }

abbrev one : RadixCache
one = (insert empty (7 ∷ 8 ∷ [])).0

shares_prefix : slots (insert one (7 ∷ 9 ∷ [])).1 ≡ 0 ∷ 2 ∷ []
unfolding insert insert_from find put_child
shares_prefix = refl

insert-lookup_example :
    (length (insert one (7 ∷ 9 ∷ [])).1 ≡ 2)
    × ((found : List Block) × (lookup (insert one (7 ∷ 9 ∷ [])).0 (7 ∷ 9 ∷ []) ≡ some found)
        × (slots found ≡ slots (insert one (7 ∷ 9 ∷ [])).1))
    × ((xs : List ℕ) (found : List Block)
        → lookup one xs ≡ some found
        → (rest : List Block) × (lookup (insert one (7 ∷ 9 ∷ [])).0 xs ≡ some (found ++ rest)))
    × (size (insert one (7 ∷ 9 ∷ [])).0
        ≡ count_nodes (root_or_new one) + fresh (insert one (7 ∷ 9 ∷ [])).1)
    × ((insert one (7 ∷ 9 ∷ [])).0.next_slot ≡ one.next_slot + fresh (insert one (7 ∷ 9 ∷ [])).1)
insert-lookup_example = insert-lookup one (7 ∷ 9 ∷ [])
