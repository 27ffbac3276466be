-- ===== src/Tokenizer/Ends.antt =====
-- `encode_text` of src/tokenizer.cpp comes to an end.
use nano_v_llm_cpp.Base.{
  ℕ, zero, suc, ◌≤◌, ◌<◌, ◌≡◌, refl, List, [], ◌∷◌, ◌++◌, Option, none, some, arith, ltb, length,
  length-drop, take, drop, Bool-cases, inl, inr,
}
use nano_v_llm_cpp.Text.{Bytes}
use nano_v_llm_cpp.Tokenizer.{Tokenizer}
use nano_v_llm_cpp.Tokenizer.Split.{default_split}
use nano_v_llm_cpp.Tokenizer.Encode.{
  insert_longer, longest_first, special_at, span_length, pieces_ids, encode_loop, with_bos,
  encode_text,
}

-- No special token is the empty string.
unfoldable pub NoneEmpty : List (Bytes × ℕ) → Type 0
NoneEmpty [] = Unit {0}
NoneEmpty (sp ∷ rest) = (0 < length sp.0) × NoneEmpty rest

insert_longer-NoneEmpty :
    (sp : Bytes × ℕ) (rest : List (Bytes × ℕ))
    → 0 < length sp.0
    → NoneEmpty rest
    → NoneEmpty (insert_longer sp rest)
unfolding insert_longer NoneEmpty
insert_longer-NoneEmpty sp [] h hs = (h, tt)
insert_longer-NoneEmpty sp (other ∷ rest) h (o, hs) =
    elim (Bool-cases (ltb (length other.0) (length sp.0))) [
      | inl longer ↦ rw longer (h, (o, hs))
      | inr not_longer ↦ rw not_longer (o, insert_longer-NoneEmpty sp rest h hs)
    ]

longest_first-NoneEmpty :
    (specials : List (Bytes × ℕ)) → NoneEmpty specials → NoneEmpty (longest_first specials)
unfolding longest_first NoneEmpty
longest_first-NoneEmpty [] h = h
longest_first-NoneEmpty (sp ∷ rest) (h, hs) =
    insert_longer-NoneEmpty sp (longest_first rest) h (longest_first-NoneEmpty rest hs)

special_at-pos :
    (specials : List (Bytes × ℕ)) (text : Bytes) (sp : Bytes × ℕ)
    → NoneEmpty specials
    → special_at specials text ≡ some sp
    → 0 < length sp.0
unfolding special_at NoneEmpty
special_at-pos [] text sp h e = ground (arith, e)
special_at-pos (other ∷ rest) text sp (h, hs) e =
    ground (arith, h, e, special_at-pos rest text sp hs)

module _ (t : Tokenizer) (specials : List (Bytes × ℕ)) (h : NoneEmpty specials) where
  encode_loop-some :
      (n : ℕ) (text : Bytes)
      → length text ≤ n
      → (ids : List ℕ) × (encode_loop t specials n text ≡ some ids)
  unfolding encode_loop
  encode_loop-some n [] l = ([], refl)
  encode_loop-some zero (c ∷ text) l = absurd (omega (arith, l))
  encode_loop-some (suc n) (c ∷ text) l =
      round (special_at specials (c ∷ text)) refl (encode_loop-some n)
    where
      round :
          (o : Option (Bytes × ℕ))
          → special_at specials (c ∷ text) ≡ o
          → ((s : Bytes) → length s ≤ n → (ids : List ℕ) × (encode_loop t specials n s ≡ some ids))
          → (ids : List ℕ) × (encode_loop t specials (suc n) (c ∷ text) ≡ some ids)
      round (some sp) e rest =
          let shorter : length (drop (length sp.0) (c ∷ text)) ≤ n = omega (
            arith,
            l,
            special_at-pos specials (c ∷ text) sp h e,
            length-drop (length sp.0) (c ∷ text),
          ) in
          let (ids, found) = rest (drop (length sp.0) (c ∷ text)) shorter in
          (sp.1 ∷ ids, rw (encode_loop, e, found) refl)
      round none e rest =
          let j = span_length specials text in
          let shorter : length (drop j text) ≤ n = omega (arith, l, length-drop j text) in
          let (ids, found) = rest (drop j text) shorter in
          (
            pieces_ids t (default_split (take (suc j) (c ∷ text))) ++ ids,
            rw (encode_loop, e, found) refl,
          )

-- Where no special token is the empty string, `encode_text` ends with the ids of every text.
pub encode_text-some :
    (t : Tokenizer) (text : Bytes)
    → NoneEmpty t.specials
    → (ids : List ℕ) × (encode_text t text ≡ some ids)
unfolding encode_text
encode_text-some t text h =
    let (ids, found) =
      encode_loop-some t (longest_first t.specials) (longest_first-NoneEmpty t.specials h)
        (length text) text (omega arith) in
    (with_bos t ids, rw (encode_text, found) refl)
