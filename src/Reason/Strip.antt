-- ===== src/Reason/Strip.antt =====
-- The loop of `strip_thinking` of include/nanovllm/reason.hpp, by the length of the text.
use nano_v_llm_cpp.Base.{
  ℕ, zero, suc, ◌+◌, ◌≤◌, ◌<◌, ◌≡◌, subst, inl, inr, refl, false, ◌&&◌, List, [], ◌∷◌, Option, none,
  some, arith, ltb, Bool-cases, Option-cases, length, take, drop, length-append, length-take,
  length-drop, is_empty,
}
use nano_v_llm_cpp.Text.{find}
use nano_v_llm_cpp.Text.Find.{find-within}
use nano_v_llm_cpp.Reason.{
  TagPair, Found, block_of, better, best_block, extract_thinking, erase_block, strip,
  strip_thinking,
}

-- A block lies in the text, and is not empty.
record Inside (text : List ℕ) (f : Found) : Type 0 where
  ordered : f.best_open + f.open_len ≤ f.best_close
  within : f.best_close + f.close_len ≤ length text
  nonempty : 0 < f.open_len + f.close_len

is_empty-pair : (xs ys : List ℕ) → (is_empty xs && is_empty ys) ≡ false → 0 < length xs + length ys
is_empty-pair [] [] h = absurd (cc)
is_empty-pair [] (y ∷ ys) h = omega arith
is_empty-pair (x ∷ xs) ys h = omega arith

block_of-Inside :
    (text : List ℕ) (tp : TagPair) (f : Found) → block_of text tp ≡ some f → Inside text f
unfolding block_of
block_of-Inside text tp f h = elim (Bool-cases (is_empty tp.open_tag && is_empty tp.close_tag)) [
  | inl e ↦ absurd (ground (arith, h, e))
  | inr n ↦ elim (Option-cases (find tp.open_tag 0 text)) [
    | inl e ↦ absurd (ground (arith, h, n, e))
    | inr (o, e1) ↦ elim (Option-cases (find tp.close_tag (o + length tp.open_tag) text)) [
      | inl e ↦ absurd (ground (arith, h, n, e1, e))
      | inr (c, e2) ↦ subst (Inside text) (ground (arith, h, n, e1, e2)) (placed o c n e2)
    ]
  ]
]
  where
    placed :
        (o c : ℕ)
        → (is_empty tp.open_tag && is_empty tp.close_tag) ≡ false
        → find tp.close_tag (o + length tp.open_tag) text ≡ some c
        → Inside text (record {
          best_open = o;
          best_close = c;
          open_len = length tp.open_tag;
          close_len = length tp.close_tag;
        })
    placed o c n e = record {
      ordered = omega (arith, find-within tp.close_tag (o + length tp.open_tag) text c e);
      within = omega (arith, find-within tp.close_tag (o + length tp.open_tag) text c e);
      nonempty = is_empty-pair tp.open_tag tp.close_tag n;
    }

abbrev AllInside : List ℕ → Option Found → Type 0
AllInside text none = Unit {0}
AllInside text (some f) = Inside text f

best_block-Inside :
    (text : List ℕ) (pairs : List TagPair) (best : Option Found)
    → AllInside text best
    → AllInside text (best_block text pairs best)
unfolding best_block
best_block-Inside text [] best v = v
best_block-Inside text (tp ∷ pairs) best v = elim (Option-cases (block_of text tp)) [
  | inl e ↦ rw (e, best_block) (best_block-Inside text pairs best v)
  | inr (f, e) ↦
      rw (e, best_block)
        (best_block-Inside text pairs (some (better best f))
          (chosen best v f (block_of-Inside text tp f e)))
]
  where
    chosen :
        (b : Option Found)
        → AllInside text b
        → (f : Found) → Inside text f
        → Inside text (better b f)
    chosen none v f g = g
    chosen (some old) v f g = elim (Bool-cases (ltb f.best_open old.best_open)) [
      | inl t ↦ rw t g
      | inr n ↦ rw n v
    ]

erase_block-shorter :
    (text : List ℕ) (f : Found) → Inside text f → length (erase_block text f) < length text
unfolding erase_block
erase_block-shorter text f v = omega (
  arith,
  v.ordered,
  v.within,
  v.nonempty,
  length-append (take f.best_open text) (drop (f.best_close + f.close_len) text),
  length-take f.best_open text,
  length-drop (f.best_close + f.close_len) text,
)

strip-enough :
    (pairs : List TagPair) (rounds : ℕ) (text : List ℕ)
    → length text < rounds
    → (result : List ℕ) × (strip pairs rounds text ≡ some result)
      × (best_block result pairs none ≡ none)
      × (length result ≤ length text)
unfolding strip
strip-enough pairs zero text h = absurd (omega arith)
strip-enough pairs (suc rounds) text h = elim (Option-cases (best_block text pairs none)) [
  | inl e ↦ (text, rw (e, strip) refl, e, omega arith)
  | inr (f, e) ↦
      let inside : Inside text f = subst (AllInside text) e (best_block-Inside text pairs none _) in
      let shorter = erase_block-shorter text f inside in
      let (result, runs, none_left, le) =
        strip-enough pairs rounds (erase_block text f) (omega arith) in
      (result, rw (e, strip) runs, none_left, omega arith)
]

-- `strip_thinking` ends for every text and every list of tag pairs. Its result is no longer than the
-- text; nothing can be extracted from it as thinking; and stripping it again changes nothing.
pub strip_thinking_ends :
    (pairs : List TagPair) (text : List ℕ)
    → (result : List ℕ) × (strip_thinking pairs text ≡ some result)
      × (length result ≤ length text)
      × (extract_thinking pairs result ≡ [])
      × (strip_thinking pairs result ≡ some result)
unfolding strip_thinking extract_thinking strip
strip_thinking_ends pairs text =
    let (result, runs, none_left, le) = strip-enough pairs (suc (length text)) text (omega arith) in
    (
      result,
      runs,
      le,
      rw (none_left, extract_thinking) refl,
      rw (none_left, strip_thinking, strip) refl,
    )
