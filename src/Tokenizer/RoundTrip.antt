-- ===== src/Tokenizer/RoundTrip.antt =====
-- `encode_piece` and `decode_tokens` of src/tokenizer.cpp, one after the other.
use nano_v_llm_cpp.Base.{
  ℕ, zero, suc, ◌<◌, ◌≡◌, refl, ap, sym, subst, ◌∙◌, List, [], ◌∷◌, ◌++◌, Option, none, some,
  length, map, get_elem?,
}
use mathlib.Core.List.{append_assoc, append-nil}
use nano_v_llm_cpp.Text.{Bytes}
use nano_v_llm_cpp.Tokenizer.{
  Tokenizer, special_id, encode_utf8, byte_to_codepoint, utf8_chars, bytes_to_byte_level, merge_key,
  merge_at, merge_parts, char_ids, part_ids, encode_piece, decode_token, decode_tokens,
}
use nano_v_llm_cpp.Tokenizer.Utf8.{
  AllBytes, decode_utf8-bytes_to_byte_level, byte_level_to_bytes-bytes_to_byte_level,
  bytes_to_byte_level-append,
}
use nano_v_llm_cpp.Tokenizer.Merge.{rank_at, merge_parts-keeps}

unfoldable pub flatten : List Bytes → Bytes
flatten [] = []
flatten (g ∷ gs) = g ++ flatten gs

abbrev singles : Bytes → List Bytes
singles [] = []
singles (b ∷ s) = (b ∷ []) ∷ singles s

flatten-merge_at : (i : ℕ) (gs : List Bytes) → flatten (merge_at i gs) ≡ flatten gs
unfolding flatten merge_at
flatten-merge_at i [] = refl
flatten-merge_at i (p ∷ []) = refl
flatten-merge_at zero (p ∷ (q ∷ gs)) = append_assoc p q (flatten gs)
flatten-merge_at (suc i) (p ∷ (q ∷ gs)) = ap (λ s. p ++ s) (flatten-merge_at i (q ∷ gs))

map-merge_at :
    (i : ℕ) (gs : List Bytes)
    → map bytes_to_byte_level (merge_at i gs) ≡ merge_at i (map bytes_to_byte_level gs)
unfolding merge_at
map-merge_at i [] = refl
map-merge_at i (p ∷ []) = refl
map-merge_at zero (p ∷ (q ∷ gs)) =
    ap (λ x. x ∷ map bytes_to_byte_level gs) (bytes_to_byte_level-append p q)
map-merge_at (suc i) (p ∷ (q ∷ gs)) = ap (λ x. bytes_to_byte_level p ∷ x) (map-merge_at i (q ∷ gs))

flatten-singles : (s : Bytes) → flatten (singles s) ≡ s
unfolding flatten
flatten-singles [] = refl
flatten-singles (b ∷ s) = ap (λ x. b ∷ x) (flatten-singles s)

spelled_alone : (b : ℕ) → encode_utf8 (byte_to_codepoint b) ≡ bytes_to_byte_level (b ∷ [])
unfolding bytes_to_byte_level
spelled_alone b = sym (append-nil (encode_utf8 (byte_to_codepoint b)))

spelled_singles :
    (s : Bytes) → map encode_utf8 (map byte_to_codepoint s) ≡ map bytes_to_byte_level (singles s)
spelled_singles [] = refl
spelled_singles (b ∷ s) =
    ap (λ c. c ∷ map encode_utf8 (map byte_to_codepoint s)) (spelled_alone b)
    ∙ ap (λ cs. bytes_to_byte_level (b ∷ []) ∷ cs) (spelled_singles s)

utf8_chars-bytes_to_byte_level :
    (s : Bytes) → utf8_chars (bytes_to_byte_level s) ≡ map bytes_to_byte_level (singles s)
utf8_chars-bytes_to_byte_level s =
    ap (map encode_utf8) (decode_utf8-bytes_to_byte_level s) ∙ spelled_singles s

pub AllBytes-append : (s u : Bytes) → AllBytes (s ++ u) → AllBytes s × AllBytes u
AllBytes-append [] u h = (tt, h)
AllBytes-append (b ∷ s) u (l, h) = let parts = AllBytes-append s u h in ((l, parts.0), parts.1)

-- A vocabulary of byte-level pieces: it has a piece for each byte, `id_to_piece` inverts it, and no
-- special token is spelled as a byte or as what a merge makes.
pub record ByteLevel (t : Tokenizer) : Type 0 where
  pub known : (b : ℕ) → b < 256 → (id : ℕ) × (t.vocab (bytes_to_byte_level (b ∷ [])) ≡ some id)
  pub inverse : (p : Bytes) (id : ℕ) → t.vocab p ≡ some id → get_elem? t.id_to_piece id ≡ some p
  pub plain_byte : (b : ℕ) → b < 256 → special_id t (bytes_to_byte_level (b ∷ [])) ≡ none
  pub plain_merge :
      (p q : Bytes) (rank : ℕ)
      → t.merge_rank (merge_key p q) ≡ some rank
      → special_id t (p ++ q) ≡ none

module _ (t : Tokenizer) (v : ByteLevel t) where
  AllPlain : List Bytes → Type 0
  AllPlain [] = Unit {0}
  AllPlain (p ∷ parts) = (special_id t p ≡ none) × AllPlain parts

  AllPlain-merge_at :
      (parts : List Bytes) (i rank : ℕ)
      → rank_at t i parts ≡ some rank
      → AllPlain parts
      → AllPlain (merge_at i parts)
  unfolding rank_at merge_at AllPlain
  AllPlain-merge_at [] i rank e h = tt
  AllPlain-merge_at (p ∷ []) i rank e h = h
  AllPlain-merge_at (p ∷ (q ∷ parts)) zero rank e (h, (k, hs)) = (v.plain_merge p q rank e, hs)
  AllPlain-merge_at (p ∷ (q ∷ parts)) (suc i) rank e (h, hs) =
      (h, AllPlain-merge_at (q ∷ parts) i rank e hs)

  AllPlain-singles : (s : Bytes) → AllBytes s → AllPlain (map bytes_to_byte_level (singles s))
  unfolding AllPlain
  AllPlain-singles [] h = tt
  AllPlain-singles (b ∷ s) (l, h) = (v.plain_byte b l, AllPlain-singles s h)

  -- Parts that spell the groups of a text.
  Spells : Bytes → List Bytes → Type 0
  Spells s parts =
      (gs : List Bytes) × (map bytes_to_byte_level gs ≡ parts) × (flatten gs ≡ s) × AllPlain parts

  merge_parts-Spells :
      (s : Bytes) (n : ℕ) (parts : List Bytes) → Spells s parts → Spells s (merge_parts t n parts)
  unfolding Spells
  merge_parts-Spells s = merge_parts-keeps t (Spells s) λ parts i rank e (gs, spells, flat, plain).
      (
        merge_at i gs,
        map-merge_at i gs ∙ ap (merge_at i) spells,
        flatten-merge_at i gs ∙ flat,
        AllPlain-merge_at parts i rank e plain,
      )

  pub decode_tokens-append :
      (xs ys : List ℕ) → decode_tokens t (xs ++ ys) ≡ decode_tokens t xs ++ decode_tokens t ys
  unfolding decode_tokens
  decode_tokens-append [] ys = refl
  decode_tokens-append (x ∷ xs) ys =
      ap (λ s. decode_token t x ++ s) (decode_tokens-append xs ys)
      ∙ sym (append_assoc (decode_token t x) (decode_tokens t xs) (decode_tokens t ys))

  decode_token-vocab :
      (s : Bytes) (id : ℕ)
      → AllBytes s
      → t.vocab (bytes_to_byte_level s) ≡ some id
      → special_id t (bytes_to_byte_level s) ≡ none
      → decode_token t id ≡ s
  unfolding decode_token
  decode_token-vocab s id h e plain =
      rw (decode_token, v.inverse (bytes_to_byte_level s) id e, plain)
        (byte_level_to_bytes-bytes_to_byte_level s h)

  decode_tokens-char_ids :
      (s : Bytes) → AllBytes s → decode_tokens t (char_ids t (map byte_to_codepoint s)) ≡ s
  unfolding decode_tokens char_ids
  decode_tokens-char_ids [] h = refl
  decode_tokens-char_ids (b ∷ s) (l, h) =
      let found = v.known b l in
      let id = found.0 in
      let alone : t.vocab (encode_utf8 (byte_to_codepoint b)) ≡ some id =
        ap t.vocab (spelled_alone b) ∙ found.1 in
      let token : decode_token t id ≡ b ∷ [] =
        decode_token-vocab (b ∷ []) id (l, tt) found.1 (v.plain_byte b l) in
      rw (char_ids, alone, decode_tokens, token) (ap (λ u. b ∷ u) (decode_tokens-char_ids s h))

  decode_tokens-part_ids :
      (gs : List Bytes)
      → AllBytes (flatten gs)
      → AllPlain (map bytes_to_byte_level gs)
      → decode_tokens t (part_ids t (map bytes_to_byte_level gs)) ≡ flatten gs
  unfolding decode_tokens part_ids flatten AllPlain
  decode_tokens-part_ids [] h p = refl
  decode_tokens-part_ids (g ∷ gs) h (p, ps) =
      let parts = AllBytes-append g (flatten gs) h in
      part (t.vocab (bytes_to_byte_level g)) refl parts.0 (decode_tokens-part_ids gs parts.1 ps)
    where
      part :
          (o : Option ℕ)
          → t.vocab (bytes_to_byte_level g) ≡ o
          → AllBytes g
          → decode_tokens t (part_ids t (map bytes_to_byte_level gs)) ≡ flatten gs
          → decode_tokens t (part_ids t (bytes_to_byte_level g ∷ map bytes_to_byte_level gs))
            ≡ g ++ flatten gs
      part (some id) e hg rest =
          rw (part_ids, e, decode_tokens, decode_token-vocab g id hg e p) (ap (λ u. g ++ u) rest)
      part none e hg rest =
          rw
            (
              part_ids,
              e,
              decode_utf8-bytes_to_byte_level g,
              decode_tokens-append (char_ids t (map byte_to_codepoint g))
                  (part_ids t (map bytes_to_byte_level gs)),
              decode_tokens-char_ids g hg,
            )
            (ap (λ u. g ++ u) rest)

  -- With a vocabulary of byte-level pieces, the ids of a text, which `encode_piece` makes of its
  -- byte-level spelling, are decoded to the text, whatever the merges are.
  pub decode_tokens-encode_piece :
      (s : Bytes) → AllBytes s → decode_tokens t (encode_piece t (bytes_to_byte_level s)) ≡ s
  unfolding encode_piece Spells
  decode_tokens-encode_piece s h =
      let parts = map bytes_to_byte_level (singles s) in
      let (gs, spells, flat, plain) =
        merge_parts-Spells s (length parts) parts
          (singles s, refl, flatten-singles s, AllPlain-singles s h) in
      let whole =
        decode_tokens-part_ids gs (subst AllBytes (sym flat) h)
          (subst AllPlain (sym spells) plain) in
      ap (λ ps. decode_tokens t (part_ids t (merge_parts t (length ps) ps)))
        (utf8_chars-bytes_to_byte_level s)
      ∙ ap (λ ps. decode_tokens t (part_ids t ps)) (sym spells)
      ∙ whole
      ∙ flat
