-- ===== src/Bm25/Stuff.antt =====
-- The length of a prompt that `stuff` of include/nanovllm/bm25.hpp has filled up.
use nano_v_llm_cpp.Base.{
  ℕ, zero, suc, ◌+◌, ◌-◌, ◌%◌, ◌^◌, ◌≤◌, ◌<◌, ◌≡◌, ap, ◌∙◌, sym, subst, inl, inr, refl, Bool, true,
  false, List, [], ◌∷◌, ◌++◌, some, arith, ◌==◌, leb, if◌then◌else◌, Option-cases, length, take,
  length-append, length-take, map, reverse,
}
use native.Mathlib.Nat.{add_comm}
use mathlib.Core.List.{append_assoc}
use nano_v_llm_cpp.Text.{Bytes}
use nano_v_llm_cpp.Bm25.{
  Doubles, Doc, find_doc, header, truncated, stuff_loop, Index, search, stuff,
}

-- `text` is `result` with something before it, and no longer than `max_chars`.
pub record Filled (max_chars : ℕ) (result text : Bytes) : Type 0 where
  pub before : Bytes
  pub ends : text ≡ before ++ result
  pub within : length text ≤ max_chars

Filled-onto :
    (max_chars : ℕ) (chunk result text : Bytes)
    → Filled max_chars (chunk ++ result) text
    → Filled max_chars result text
Filled-onto max_chars chunk result text f = record {
  before = f.before ++ chunk;
  ends = ground (arith, f.ends, append_assoc f.before chunk result);
  within = f.within;
}

Filled-if :
    {max_chars : ℕ} {result : Bytes} (b : Bool) {x y : Bytes}
    → (b ≡ true → Filled max_chars result x)
    → (b ≡ false → Filled max_chars result y)
    → Filled max_chars result (if b then x else y)
Filled-if true h k = h refl
Filled-if false h k = k refl

-- What `left` characters hold of a chunk, before `result`.
cut_header-Filled :
    (id : Bytes) (max_chars left : ℕ) (result : Bytes)
    → length result + left ≤ max_chars
    → Filled max_chars result (take left (header id) ++ result)
cut_header-Filled id max_chars left result h = record {
  before = take left (header id);
  ends = refl;
  within =
      omega (arith, length-append (take left (header id)) result, length-take left (header id));
}

cut_text-Filled :
    (id text : Bytes) (max_chars left : ℕ) (result : Bytes)
    → length result + left ≤ max_chars
    → length (header id) ≤ left
    → Filled max_chars result (header id ++ (take (left - length (header id)) text ++ result))
cut_text-Filled id text max_chars left result h le =
    let kept = take (left - length (header id)) text in
    record {
      before = header id ++ kept;
      ends = sym (append_assoc (header id) kept result);
      within = omega (
        arith,
        length-append (header id) (kept ++ result),
        length-append kept result,
        length-take (left - length (header id)) text,
      );
    }

truncated-Filled :
    (doc : Doc) (id : Bytes) (max_chars : ℕ) (result : Bytes)
    → length result ≤ max_chars
    → max_chars < 2 ^ 64
    → Filled max_chars result (truncated doc id max_chars (length result) result)
unfolding truncated
truncated-Filled doc id max_chars result h w =
    let left = (max_chars + 2 ^ 64 - length result) % 2 ^ 64 in
    Filled-if (left == 0) (λ e. record { before = []; ends = refl; within = h })
      (λ e.
        Filled-if (leb left (length (header id)))
          (λ short. cut_header-Filled id max_chars left result (omega arith))
          (λ long.
            cut_text-Filled id doc.text max_chars left result (omega arith) (ground (arith, long))))

stuff_loop-Filled :
    (docs : List Doc) (max_chars : ℕ) (result : Bytes) (ids : List Bytes)
    → length result ≤ max_chars
    → max_chars < 2 ^ 64
    → Filled max_chars result (stuff_loop docs max_chars (length result) result ids)
unfolding stuff_loop
stuff_loop-Filled docs max_chars result [] h w = record { before = []; ends = refl; within = h }
stuff_loop-Filled docs max_chars result (id ∷ ids) h w = elim (Option-cases (find_doc id docs)) [
  | inl n ↦ rw (n, stuff_loop) (stuff_loop-Filled docs max_chars result ids h w)
  | inr (doc, e) ↦
      rw (e, stuff_loop)
        (Filled-if (leb (length result + length (header id ++ doc.text)) max_chars)
          (λ fits. Filled-onto max_chars (header id ++ doc.text) result _ (
            subst
              (λ n.
                Filled max_chars ((header id ++ doc.text) ++ result)
                  (stuff_loop docs max_chars n ((header id ++ doc.text) ++ result) ids))
              (length-append (header id ++ doc.text) result ∙ add_comm _ _)
              (stuff_loop-Filled docs max_chars ((header id ++ doc.text) ++ result) ids
                (ground (arith, fits, length-append (header id ++ doc.text) result)) w)))
          (λ full. truncated-Filled doc id max_chars result h w))
]

module _ (f : Doubles) where
  -- A prompt that is no longer than the cap stays whole at the end of what `stuff` returns, and the
  -- result is no longer than the cap, whatever the index holds and finds.
  pub stuff-Filled :
      (ix : Index f) (prompt query : Bytes) (top_k max_chars : ℕ)
      → length prompt ≤ max_chars
      → max_chars < 2 ^ 64
      → Filled max_chars prompt (stuff f ix prompt query top_k max_chars)
  unfolding stuff
  stuff-Filled ix prompt query top_k max_chars h w =
      stuff_loop-Filled ix.docs max_chars prompt
        (reverse (map (λ h. h.id) (search f ix query top_k))) h w

take_all : (n : ℕ) (s : Bytes) → length s ≤ n → take n s ≡ s
take_all zero [] h = refl
take_all zero (c ∷ s) h = absurd (omega arith)
take_all (suc n) [] h = refl
take_all (suc n) (c ∷ s) h = ap (λ t. c ∷ t) (take_all n s (omega arith))

-- A prompt that is longer than the cap gets the last hit's document whole, as long as the sizes stay
-- below 2^64 together: what is left of the cap wraps around to a number near 2^64.
pub stuff_loop-over_cap :
    (docs : List Doc) (max_chars : ℕ) (prompt id : Bytes) (ids : List Bytes) (doc : Doc)
    → find_doc id docs ≡ some doc
    → max_chars < length prompt
    → length (header id) + length doc.text + length prompt < 2 ^ 64 + max_chars
    → stuff_loop docs max_chars (length prompt) prompt (id ∷ ids)
      ≡ header id ++ (doc.text ++ prompt)
unfolding stuff_loop truncated
stuff_loop-over_cap docs max_chars prompt id ids doc e over fits =
    let left = (max_chars + 2 ^ 64 - length prompt) % 2 ^ 64 in
    let value : left ≡ max_chars + 2 ^ 64 - length prompt = omega arith in
    ground (arith, e, value, take_all (left - length (header id)) doc.text (omega arith))
