-- ===== src/Tokenizer/Whole.antt =====
-- Whole texts through `encode_text` and `decode_tokens` of src/tokenizer.cpp.
use nano_v_llm_cpp.Base.{
  ℕ, zero, suc, ◌≤◌, ◌<◌, ◌≡◌, inl, inr, refl, ap, sym, subst, ◌∙◌, Bool, true, false, not, List,
  [], ◌∷◌, ◌++◌, Option, none, some, arith, ◌==◌, if◌then◌else◌, length, length-drop, take, drop,
  Bool-cases,
}
use mathlib.Core.List.{append_assoc, append-nil}
use nano_v_llm_cpp.Text.{Bytes, starts_with}
use nano_v_llm_cpp.Tokenizer.{
  Tokenizer, encode_utf8, decode_utf8, bytes_to_byte_level, encode_piece, decode_token,
  decode_tokens,
}
use nano_v_llm_cpp.Tokenizer.Utf8.{AllBytes, decode_utf8-encode_utf8}
use nano_v_llm_cpp.Tokenizer.Split.{
  piece_length, group_length, contraction, encode_all, split_loop, default_split,
}
use nano_v_llm_cpp.Tokenizer.Encode.{
  insert_longer, longest_first, special_at, span_length, pieces_ids, encode_loop, with_bos,
  encode_text, first_is,
}
use nano_v_llm_cpp.Tokenizer.RoundTrip.{
  ByteLevel, flatten, AllBytes-append, decode_tokens-append, decode_tokens-encode_piece,
}

take-drop : {A : Type 0} (n : ℕ) (xs : List A) → take n xs ++ drop n xs ≡ xs
take-drop zero xs = refl
take-drop (suc n) [] = refl
take-drop (suc n) (x ∷ xs) = ap (λ ys. x ∷ ys) (take-drop n xs)

encode_all-append : (xs ys : List ℕ) → encode_all (xs ++ ys) ≡ encode_all xs ++ encode_all ys
unfolding encode_all
encode_all-append [] ys = refl
encode_all-append (cp ∷ xs) ys =
    ap (λ s. encode_utf8 cp ++ s) (encode_all-append xs ys)
    ∙ sym (append_assoc (encode_utf8 cp) (encode_all xs) (encode_all ys))

group_length-pos : (cp : ℕ) (cps : List ℕ) → 0 < group_length cp cps
unfolding group_length
group_length-pos cp cps = ground arith

contraction-pos : (cps : List ℕ) (n : ℕ) → contraction cps ≡ some n → 0 < n
unfolding contraction
contraction-pos [] n e = ground (arith, e)
contraction-pos (cp ∷ cps) n e = ground (arith, e)

piece_length-pos : (cp : ℕ) (cps : List ℕ) → 0 < piece_length cp cps
unfolding piece_length
piece_length-pos cp cps = chosen (cp == 39) (contraction cps) refl
  where
    chosen :
        (quote : Bool) (o : Option ℕ)
        → contraction cps ≡ o
        → 0 < (
            if quote
            then (elim o [ none ↦ group_length cp cps | some n ↦ n ])
            else group_length cp cps)
    chosen true none e = group_length-pos cp cps
    chosen true (some n) e = contraction-pos cps n e
    chosen false o e = group_length-pos cp cps

-- The pieces of a split are the text, one behind the other.
flatten-split_loop :
    (n : ℕ) (cps : List ℕ) → length cps ≤ n → flatten (split_loop n cps) ≡ encode_all cps
unfolding flatten split_loop encode_all
flatten-split_loop zero [] h = refl
flatten-split_loop zero (cp ∷ cps) h = absurd (omega (arith, h))
flatten-split_loop (suc n) [] h = refl
flatten-split_loop (suc n) (cp ∷ cps) h =
    let k = piece_length cp cps in
    let shorter : length (drop k (cp ∷ cps)) ≤ n =
      omega (arith, h, piece_length-pos cp cps, length-drop k (cp ∷ cps)) in
    ap (λ s. encode_all (take k (cp ∷ cps)) ++ s) (flatten-split_loop n (drop k (cp ∷ cps)) shorter)
    ∙ sym (encode_all-append (take k (cp ∷ cps)) (drop k (cp ∷ cps)))
    ∙ ap encode_all (take-drop k (cp ∷ cps))

-- A text is the UTF-8 of code points of at most 21 bits.
unfoldable pub AllPoints : List ℕ → Type 0
AllPoints [] = Unit {0}
AllPoints (cp ∷ cps) = (cp < 2097152) × AllPoints cps

unfoldable pub IsUtf8 : Bytes → Type 0
IsUtf8 text = (cps : List ℕ) × AllPoints cps × (encode_all cps ≡ text)

decode_utf8-encode_all : (cps : List ℕ) → AllPoints cps → decode_utf8 (encode_all cps) ≡ cps
unfolding decode_utf8 encode_all AllPoints
decode_utf8-encode_all [] h = refl
decode_utf8-encode_all (cp ∷ cps) (l, h) =
    decode_utf8-encode_utf8 cp (encode_all cps) l
    ∙ ap (λ ds. cp ∷ ds) (decode_utf8-encode_all cps h)

flatten-default_split : (text : Bytes) → IsUtf8 text → flatten (default_split text) ≡ text
unfolding default_split IsUtf8
flatten-default_split text (cps, h, e) =
    flatten-split_loop (length (decode_utf8 text)) (decode_utf8 text) (omega arith)
    ∙ ap encode_all (ap decode_utf8 (sym e) ∙ decode_utf8-encode_all cps h)
    ∙ e

-- No special token of the list stands anywhere in the text.
unfoldable pub Absent : List (Bytes × ℕ) → Bytes → Type 0
Absent [] text = Unit {0}
Absent (sp ∷ rest) text = ((k : ℕ) → starts_with sp.0 (drop k text) ≡ false) × Absent rest text

special_at-insert_longer :
    (sp : Bytes × ℕ) (rest : List (Bytes × ℕ)) (text : Bytes)
    → starts_with sp.0 text ≡ false
    → special_at rest text ≡ none
    → special_at (insert_longer sp rest) text ≡ none
unfolding special_at insert_longer
special_at-insert_longer sp [] text h r = ground (arith, h)
special_at-insert_longer sp (other ∷ rest) text h r =
    ground (arith, h, r, special_at-insert_longer sp rest text h)

special_at-Absent :
    (specials : List (Bytes × ℕ)) (text : Bytes) (k : ℕ)
    → Absent specials text
    → special_at (longest_first specials) (drop k text) ≡ none
unfolding special_at longest_first Absent
special_at-Absent [] text k h = refl
special_at-Absent (sp ∷ rest) text k (h, hs) =
    special_at-insert_longer sp (longest_first rest) (drop k text) (h k)
      (special_at-Absent rest text k hs)

span_length-all :
    (specials : List (Bytes × ℕ)) (text : Bytes)
    → ((k : ℕ) → special_at specials (drop k text) ≡ none)
    → span_length specials text ≡ length text
unfolding span_length
span_length-all specials [] h = refl
span_length-all specials (c ∷ text) h =
    rw (span_length, h 0) (ap suc (span_length-all specials text (λ k. h (suc k))))

take-length : (text : Bytes) → take (length text) text ≡ text
take-length [] = refl
take-length (c ∷ text) = ap (λ s. c ∷ s) (take-length text)

drop-length : (text : Bytes) → drop (length text) text ≡ []
drop-length [] = refl
drop-length (c ∷ text) = drop-length text

module _ (t : Tokenizer) (v : ByteLevel t) where
  decode_tokens-pieces_ids :
      (pieces : List Bytes)
      → AllBytes (flatten pieces)
      → decode_tokens t (pieces_ids t pieces) ≡ flatten pieces
  unfolding decode_tokens pieces_ids flatten
  decode_tokens-pieces_ids [] h = refl
  decode_tokens-pieces_ids (p ∷ pieces) h =
      let parts = AllBytes-append p (flatten pieces) h in
      decode_tokens-append t v (encode_piece t (bytes_to_byte_level p)) (pieces_ids t pieces)
      ∙ ap (λ s. s ++ decode_tokens t (pieces_ids t pieces))
          (decode_tokens-encode_piece t v p parts.0)
      ∙ ap (λ s. p ++ s) (decode_tokens-pieces_ids pieces parts.1)

  decode_tokens-with_bos :
      (ids : List ℕ)
      → ((id : ℕ) → t.bos_id ≡ some id → decode_token t id ≡ [])
      → decode_tokens t (with_bos t ids) ≡ decode_tokens t ids
  unfolding with_bos decode_tokens
  decode_tokens-with_bos ids silent = inserted t.add_bos t.bos_id refl
    where
      inserted :
          (add : Bool) (o : Option ℕ)
          → t.bos_id ≡ o
          → decode_tokens t (
              if not add
              then ids
              else (elim o [ none ↦ ids | some id ↦ if first_is id ids then ids else id ∷ ids ]))
            ≡ decode_tokens t ids
      inserted false o e = refl
      inserted true none e = refl
      inserted true (some id) e = elim (Bool-cases (first_is id ids)) [
        | inl first ↦ rw first refl
        | inr other ↦ rw other (ap (λ s. s ++ decode_tokens t ids) (silent id e))
      ]

  -- One span, from the first character to the last.
  encode_loop-Absent :
      (text : Bytes)
      → Absent t.specials text
      → encode_loop t (longest_first t.specials) (length text) text
        ≡ some (pieces_ids t (default_split text))
  unfolding encode_loop pieces_ids default_split split_loop decode_utf8
  encode_loop-Absent [] h = refl
  encode_loop-Absent (c ∷ text) h =
      let specials = longest_first t.specials in
      let none_at : (k : ℕ) → special_at specials (drop k (c ∷ text)) ≡ none =
        λ k. special_at-Absent t.specials (c ∷ text) k h in
      let all = span_length-all specials text (λ k. none_at (suc k)) in
      rw (encode_loop, none_at 0, all, drop-length text)
        (ap some (
          append-nil
            (pieces_ids t (default_split (take (suc (span_length specials text)) (c ∷ text))))
          ∙ ap (λ n. pieces_ids t (default_split (take (suc n) (c ∷ text)))) all
          ∙ ap (λ s. pieces_ids t (default_split (c ∷ s))) (take-length text)))

  -- With a vocabulary of byte-level pieces, every UTF-8 text in which no special token stands is encoded,
  -- and its ids are decoded to the text itself, whatever the merges are and however it is split; the
  -- token that may be put before a text must decode to nothing.
  pub decode_tokens-encode_text :
      (text : Bytes)
      → IsUtf8 text
      → AllBytes text
      → Absent t.specials text
      → ((id : ℕ) → t.bos_id ≡ some id → decode_token t id ≡ [])
      → (ids : List ℕ) × (encode_text t text ≡ some ids) × (decode_tokens t ids ≡ text)
  unfolding encode_text
  decode_tokens-encode_text text utf8 bytes absent silent =
      let pieces = default_split text in
      let whole = flatten-default_split text utf8 in
      (
        with_bos t (pieces_ids t pieces),
        rw (encode_text, encode_loop-Absent text absent) refl,
        decode_tokens-with_bos (pieces_ids t pieces) silent
            ∙ decode_tokens-pieces_ids pieces (subst AllBytes (sym whole) bytes)
            ∙ whole,
      )
