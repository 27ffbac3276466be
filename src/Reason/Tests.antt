-- ===== src/Reason/Tests.antt =====
-- include/nanovllm/reason.hpp with the tags `[` and `]`.
use nano_v_llm_cpp.Base.{ℕ, ◌≤◌, ◌≡◌, refl, List, [], ◌∷◌, some, length}
use nano_v_llm_cpp.Text.{is_space, starts_with, find_in, find}
use nano_v_llm_cpp.Reason.{
  TagPair, block_of, best_block, extract_thinking, erase_block, strip, strip_thinking, words_from,
  join, budget_thinking,
}
use nano_v_llm_cpp.Reason.Strip.{strip_thinking_ends}

abbrev tags : List TagPair
tags = record { open_tag = 91 ∷ []; close_tag = 93 ∷ [] } ∷ []

-- `a[b]c[d]`
abbrev text : List ℕ
text = 97 ∷ 91 ∷ 98 ∷ 93 ∷ 99 ∷ 91 ∷ 100 ∷ 93 ∷ []

strips_both : strip_thinking tags text ≡ some (97 ∷ 99 ∷ [])
unfolding strip_thinking strip best_block block_of find find_in starts_with erase_block
strips_both = refl

two_words : budget_thinking (97 ∷ 32 ∷ 98 ∷ 10 ∷ 99 ∷ []) 2 ≡ 97 ∷ 32 ∷ 98 ∷ []
unfolding budget_thinking words_from join is_space
two_words = refl

strip_thinking_ends_example :
    (result : List ℕ) × (strip_thinking tags text ≡ some result)
    × (length result ≤ 8)
    × (extract_thinking tags result ≡ [])
    × (strip_thinking tags result ≡ some result)
strip_thinking_ends_example = strip_thinking_ends tags text
