-- ===== src/Reason.antt =====
-- include/nanovllm/reason.hpp: the blocks of thinking in a generated text. A string is the list of
-- its characters' codes, and the registered pairs of tags are an argument.
pub mod Strip
pub mod Tests
use nano_v_llm_cpp.Base.{
  ℕ, zero, suc, ◌+◌, ◌-◌, Bool, true, false, not, ◌&&◌, ◌||◌, List, [], ◌∷◌, ◌++◌, reverse, Option,
  none, some, ◌==◌, ltb, if◌then◌else◌, length, take, drop, is_empty,
}
use nano_v_llm_cpp.Text.{is_space, starts_with, find}

pub record TagPair : Type 0 where
  pub open_tag : List ℕ
  pub close_tag : List ℕ

-- The registered pairs: an empty one, and `[thinking]` with `[/thinking]`.
abbrev pub reset_pairs : List TagPair
reset_pairs =
    record { open_tag = []; close_tag = [] }
    ∷ record {
      open_tag = 91 ∷ 116 ∷ 104 ∷ 105 ∷ 110 ∷ 107 ∷ 105 ∷ 110 ∷ 103 ∷ 93 ∷ [];
      close_tag = 91 ∷ 47 ∷ 116 ∷ 104 ∷ 105 ∷ 110 ∷ 107 ∷ 105 ∷ 110 ∷ 103 ∷ 93 ∷ [];
    }
    ∷ []

abbrev pub add_pair : List TagPair → TagPair → List TagPair
add_pair pairs p = pairs ++ (p ∷ [])

-- `best_open` and its companions.
pub record Found : Type 0 where
  pub best_open : ℕ
  pub best_close : ℕ
  pub open_len : ℕ
  pub close_len : ℕ

-- The block of one pair.
pub block_of : List ℕ → TagPair → Option Found
block_of text tp =
    if is_empty tp.open_tag && is_empty tp.close_tag then none else elim (find tp.open_tag 0 text) [
      | none ↦ none
      | some o ↦ elim (find tp.close_tag (o + length tp.open_tag) text) [
        | none ↦ none
        | some c ↦ some (record {
          best_open = o;
          best_close = c;
          open_len = length tp.open_tag;
          close_len = length tp.close_tag;
        })
      ]
    ]

-- `best_open == npos || o < best_open`
abbrev pub better : Option Found → Found → Found
better none new = new
better (some old) new = if ltb new.best_open old.best_open then new else old

-- The loop over the pairs, with the best block so far.
pub best_block : List ℕ → List TagPair → Option Found → Option Found
best_block text [] best = best
best_block text (tp ∷ pairs) best = elim (block_of text tp) [
  | none ↦ best_block text pairs best
  | some new ↦ best_block text pairs (some (better best new))
]

abbrev pub skip_spaces : List ℕ → List ℕ
skip_spaces [] = []
skip_spaces (c ∷ cs) = let rest = skip_spaces cs in if is_space c then rest else c ∷ cs

pub trim : List ℕ → List ℕ
trim text = reverse (skip_spaces (reverse (skip_spaces text)))

pub extract_thinking : List TagPair → List ℕ → List ℕ
extract_thinking pairs text = elim (best_block text pairs none) [
  | none ↦ []
  | some f ↦
      let first = f.best_open + f.open_len in trim (take (f.best_close - first) (drop first text))
]

-- `result.erase(...)`
pub erase_block : List ℕ → Found → List ℕ
erase_block text f = take f.best_open text ++ drop (f.best_close + f.close_len) text

-- The loop of `strip_thinking`; `none` says that it runs more often than `rounds`.
pub strip : List TagPair → ℕ → List ℕ → Option (List ℕ)
strip pairs zero result = none
strip pairs (suc rounds) result = elim (best_block result pairs none) [
  | none ↦ some result
  | some f ↦ strip pairs rounds (erase_block result f)
]

-- Every round erases a character at least.
pub strip_thinking : List TagPair → List ℕ → Option (List ℕ)
strip_thinking pairs text = strip pairs (suc (length text)) text

-- `iss >> token` over and over: the words of a text, with the word so far.
pub words_from : List ℕ → List ℕ → List (List ℕ)
words_from word [] = if is_empty word then [] else word ∷ []
words_from word (c ∷ cs) =
    let ended = words_from [] cs in
    let longer = words_from (word ++ (c ∷ [])) cs in
    if is_space c then (if is_empty word then ended else word ∷ ended) else longer

pub join : List (List ℕ) → List ℕ
join [] = []
join (w ∷ []) = w
join (w ∷ (v ∷ ws)) = w ++ (32 ∷ join (v ∷ ws))

pub budget_thinking : List ℕ → ℕ → List ℕ
budget_thinking thinking max_tokens = join (take max_tokens (words_from [] thinking))
