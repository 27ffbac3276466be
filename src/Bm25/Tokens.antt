-- ===== src/Bm25/Tokens.antt =====
-- The tokenizer of include/nanovllm/bm25.hpp against a description of the characters that it keeps.
use nano_v_llm_cpp.Base.{
  ℕ, Bool, zero, suc, ◌≤◌, ◌<◌, ◌≡◌, inl, inr, refl, true, false, List, [], ◌∷◌, ◌++◌, arith, leb,
  if◌then◌else◌, Bool-cases, length, drop, length-drop, map, is_empty,
}
use nano_v_llm_cpp.Base.Tables.{passes_to, passes_to-test}
use nano_v_llm_cpp.Text.{Bytes}
use nano_v_llm_cpp.Bm25.{
  is_alnum, to_lower, is_continuation, continuation_run, alnum_run, toks_loop, toks,
}

-- The characters that stand in some token: letters and digits, in lower case, and every byte that is
-- not ASCII.
abbrev pub kept : Bytes → Bytes
kept [] = []
kept (c ∷ s) = (if leb 0x80 c then c ∷ [] else if is_alnum c then to_lower c ∷ [] else []) ++ kept s

abbrev pub concat : List Bytes → Bytes
concat [] = []
concat (t ∷ ts) = t ++ concat ts

-- Every character is a byte.
abbrev pub AllBytes : Bytes → Type 0
AllBytes [] = Unit
AllBytes (c ∷ s) = (c < 256) × AllBytes s

AllBytes-drop : (n : ℕ) (s : Bytes) → AllBytes s → AllBytes (drop n s)
AllBytes-drop zero s h = h
AllBytes-drop (suc n) [] h = tt
AllBytes-drop (suc n) (c ∷ s) h = AllBytes-drop n s h.1

-- A continuation byte is not ASCII.
abbrev high_if_continuation : ℕ → Bool
high_if_continuation c = if is_continuation c then leb 0x80 c else true

high_table : passes_to high_if_continuation 256 ≡ true
unfolding passes_to is_continuation
high_table = refl

is_continuation-high : (c : ℕ) → c < 256 → is_continuation c ≡ true → leb 0x80 c ≡ true
is_continuation-high c h e = ground (arith, passes_to-test high_if_continuation 256 c h high_table)

kept-continuation_run :
    (s : Bytes)
    → AllBytes s
    → continuation_run s ++ kept (drop (length (continuation_run s)) s) ≡ kept s
unfolding continuation_run
kept-continuation_run [] h = refl
kept-continuation_run (c ∷ s) h =
    ground (arith, is_continuation-high c h.0, kept-continuation_run s h.1)

kept-alnum_run :
    (s : Bytes) → map to_lower (alnum_run s) ++ kept (drop (length (alnum_run s)) s) ≡ kept s
unfolding alnum_run
kept-alnum_run [] = refl
kept-alnum_run (c ∷ s) = ground (arith, kept-alnum_run s)

alnum_run-cons :
    (c : ℕ) (s : Bytes)
    → leb 0x80 c ≡ false
    → is_alnum c ≡ true
    → alnum_run (c ∷ s) ≡ c ∷ alnum_run s
unfolding alnum_run
alnum_run-cons c s h k = ground (arith, h, k)

concat-toks_loop :
    (fuel : ℕ) (s : Bytes) → AllBytes s → length s ≤ fuel → concat (toks_loop fuel s) ≡ kept s
unfolding toks_loop
concat-toks_loop zero [] b h = refl
concat-toks_loop zero (c ∷ s) b h = absurd (omega arith)
concat-toks_loop (suc fuel) [] b h = refl
concat-toks_loop (suc fuel) (c ∷ s) b h = elim (Bool-cases (leb 0x80 c)) [
  | inl high ↦
      let n = length (continuation_run s) in
      ground (
        arith,
        high,
        kept-continuation_run s b.1,
        concat-toks_loop fuel (drop n s) (AllBytes-drop n s b.1) (omega (arith, length-drop n s)),
      )
  | inr low ↦ elim (Bool-cases (is_alnum c)) [
    | inl word ↦
        let n = length (alnum_run s) in
        ground (
          arith,
          low,
          word,
          alnum_run-cons c s low word,
          kept-alnum_run s,
          concat-toks_loop fuel (drop n s) (AllBytes-drop n s b.1) (omega (arith, length-drop n s)),
        )
    | inr other ↦ ground (arith, low, other, concat-toks_loop fuel s b.1 (omega arith))
  ]
]

-- No token is empty.
abbrev pub NonEmpty : List Bytes → Type 0
NonEmpty [] = Unit
NonEmpty (t ∷ ts) = (is_empty t ≡ false) × NonEmpty ts

NonEmpty-toks_loop : (fuel : ℕ) (s : Bytes) → NonEmpty (toks_loop fuel s)
unfolding toks_loop
NonEmpty-toks_loop zero s = tt
NonEmpty-toks_loop (suc fuel) [] = tt
NonEmpty-toks_loop (suc fuel) (c ∷ s) = elim (Bool-cases (leb 0x80 c)) [
  | inl high ↦ rw high (refl, NonEmpty-toks_loop fuel _)
  | inr low ↦ elim (Bool-cases (is_alnum c)) [
    | inl word ↦ rw (low, word) (rw (alnum_run-cons c s low word) (refl, NonEmpty-toks_loop fuel _))
    | inr other ↦ rw (low, other) (NonEmpty-toks_loop fuel s)
  ]
]

-- The tokens of a text, strung together, are its letters and digits in lower case and its bytes that
-- are not ASCII, in their order, none lost and none twice; and no token is empty.
pub toks-kept : (s : Bytes) → AllBytes s → (concat (toks s) ≡ kept s) × NonEmpty (toks s)
unfolding toks
toks-kept s b = (concat-toks_loop (length s) s b (omega arith), NonEmpty-toks_loop (length s) s)
