-- ===== src/Drafter.antt =====
-- include/nanovllm/drafter.hpp: drafting by the n-grams of a sequence of token ids.
pub mod Suggest
pub mod Tests
use nano_v_llm_cpp.Base.{
  ℕ, zero, suc, ◌+◌, ◌-◌, Bool, true, false, List, [], ◌∷◌, ◌++◌, Option, none, some, ◌==◌, ltb,
  if◌then◌else◌, length, take, drop, get_or, is_empty,
}
use nano_v_llm_cpp.BlockManager.{same_tokens}

-- `succ` is the map from n-gram to successor.
pub record NgramIndex : Type 0 where
  pub n : ℕ
  pub succ : List (List ℕ × ℕ)

-- `succ_.find(key)`
pub find : List ℕ → List (List ℕ × ℕ) → Option ℕ
find key [] = none
find key ((gram, next) ∷ rest) = if same_tokens gram key then some next else find key rest

-- The loop of `build` from position `i` on, with `rounds` left: the first successor stays.
pub record_grams : List ℕ → ℕ → ℕ → ℕ → List (List ℕ × ℕ) → List (List ℕ × ℕ)
record_grams tokens n zero i succ = succ
record_grams tokens n (suc rounds) i succ =
    let gram = take (n - 1) (drop i tokens) in
    let next = get_or tokens (i + n - 1) 0 in
    record_grams tokens n rounds (i + 1)
      (elim (find gram succ) [ none ↦ succ ++ ((gram, next) ∷ []) | some old ↦ succ ])

-- The loop runs while `i + n <= tokens.size()`.
pub build : List ℕ → ℕ → NgramIndex
build tokens n =
    if ltb n 2
    then record { n = 0; succ = [] }
    else if ltb (length tokens) n
    then record { n = n; succ = [] }
    else record { n = n; succ = record_grams tokens n (length tokens + 1 - n) 0 [] }

pub record Match : Type 0 where
  pub found : Bool
  pub token : ℕ
  pub draft : List ℕ

abbrev pub no_match : Match
no_match = record { found = false; token = 0; draft = [] }

-- The last `k` of the tail.
abbrev pub last_of : ℕ → List ℕ → List ℕ
last_of k tail = drop (length tail - k) tail

-- The loop of `suggest` with `len` from `suc (suc rounds)` down to 2.
pub shrink : List (List ℕ × ℕ) → List ℕ → ℕ → Match
shrink succ tail zero = no_match
shrink succ tail (suc rounds) =
    let shorter = shrink succ tail rounds in
    if ltb (length tail) (suc rounds)
    then shorter
    else elim (find (last_of (suc rounds) tail) succ) [
      | none ↦ shorter
      | some next ↦ record {
        found = true;
        token = next;
        draft = last_of (suc rounds) tail ++ (next ∷ []);
      }
    ]

pub suggest : NgramIndex → List ℕ → Match
suggest idx recent_tail =
    if ltb idx.n 2
    then no_match
    else if is_empty recent_tail
    then no_match
    else shrink idx.succ recent_tail (idx.n - 1)

-- The number of tokens appended, and the sequence with them.
pub extend : List ℕ → List ℕ → List ℕ → List ℕ × ℕ
extend out [] corpus = (out, 0)
extend out (d ∷ draft) [] = (out, 0)
extend out (d ∷ draft) (c ∷ corpus) =
    let (out', appended) = extend (out ++ (d ∷ [])) draft corpus in
    if d == c then (out', suc appended) else (out, 0)
