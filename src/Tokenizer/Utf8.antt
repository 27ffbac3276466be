-- ===== src/Tokenizer/Utf8.antt =====
-- The characters that src/tokenizer.cpp gives the bytes, written as UTF-8 and read back.
use nano_v_llm_cpp.Base.{
  ℕ, zero, suc, ◌+◌, ◌*◌, ◌/◌, ◌%◌, ◌<◌, ◌≡◌, refl, ap, sym, ◌∙◌, [], ◌∷◌, ◌++◌, none, some, arith,
  ltb, map, get_or, Bool-cases, inl, inr,
}
use mathlib.Core.List.{append_assoc}
use nano_v_llm_cpp.Text.{Bytes}
use nano_v_llm_cpp.Tokenizer.{
  codepoints_from, byte_to_codepoint, last_byte, codepoint_to_byte, encode_utf8, decode_rest,
  decode_utf8, bytes_to_byte_level, bytes_of, byte_level_to_bytes, extra, first_bits,
}

-- No byte from `b` on gets the code point of a byte before it.
below_none : (n b r cp : ℕ) → cp < b → cp < 256 → last_byte cp b (codepoints_from n b r) ≡ none
unfolding codepoints_from
below_none zero b r cp h k = refl
below_none (suc n) b r cp h k =
    ground (arith, h, k, below_none n (suc b) r cp, below_none n (suc b) (suc r) cp)

used_none : (n b r i : ℕ) → i < r → last_byte (256 + i) b (codepoints_from n b r) ≡ none
unfolding codepoints_from
used_none zero b r i h = refl
used_none (suc n) b r i h =
    ground (arith, h, used_none n (suc b) r i, used_none n (suc b) (suc r) i)

last_byte-codepoints_from :
    (n b r i : ℕ)
    → i < n
    → last_byte (get_or (codepoints_from n b r) i 0) b (codepoints_from n b r) ≡ some (b + i)
unfolding codepoints_from
last_byte-codepoints_from (suc n) b r zero h =
    ground (arith, below_none n (suc b) r b, used_none n (suc b) (suc r) r)
last_byte-codepoints_from (suc n) b r (suc i) h = ground (
  arith,
  h,
  last_byte-codepoints_from n (suc b) r i,
  last_byte-codepoints_from n (suc b) (suc r) i,
)
last_byte-codepoints_from zero b r i h = absurd (omega (arith, h))

codepoints_small : (n b r i : ℕ) → get_or (codepoints_from n b r) i 0 < 257 + r + n
unfolding codepoints_from
codepoints_small zero b r i = omega arith
codepoints_small (suc n) b r zero = ground arith
codepoints_small (suc n) b r (suc i) =
    ground (arith, codepoints_small n (suc b) r i, codepoints_small n (suc b) (suc r) i)

pub codepoint_to_byte-byte_to_codepoint :
    (b : ℕ) → b < 256 → codepoint_to_byte (byte_to_codepoint b) ≡ some b
unfolding codepoint_to_byte byte_to_codepoint
codepoint_to_byte-byte_to_codepoint b h = ground (arith, last_byte-codepoints_from 256 0 0 b h)

pub byte_to_codepoint-small : (b : ℕ) → byte_to_codepoint b < 2048
unfolding byte_to_codepoint
byte_to_codepoint-small b = omega (arith, codepoints_small 256 0 0 b)

decode_rest-zero : (cp : ℕ) (s : Bytes) → decode_rest 0 cp s ≡ cp ∷ decode_utf8 s
unfolding decode_rest decode_utf8
decode_rest-zero cp [] = refl
decode_rest-zero cp (c ∷ s) = refl

two_bytes :
    (cp : ℕ) → cp < 2048 → (extra (192 + cp / 64) ≡ 1) × (first_bits (192 + cp / 64) ≡ cp / 64)
two_bytes cp h = (ground arith, ground arith)

three_bytes :
    (cp : ℕ)
    → cp < 65536
    → (extra (224 + cp / 4096) ≡ 2) × (first_bits (224 + cp / 4096) ≡ cp / 4096)
three_bytes cp h = (ground arith, ground arith)

four_bytes :
    (cp : ℕ)
    → cp < 2097152
    → (extra (240 + cp / 262144 % 8) ≡ 3) × (first_bits (240 + cp / 262144 % 8) ≡ cp / 262144)
four_bytes cp h = (ground arith, ground arith)

-- A byte that goes on gives back six bits.
six_bits : (n : ℕ) → n / 64 * 64 + (128 + n % 64) % 64 ≡ n
six_bits n = omega arith

twelve_bits : (n : ℕ) → n / 64 / 64 ≡ n / 4096
twelve_bits n = omega arith

eighteen_bits : (n : ℕ) → n / 4096 / 64 ≡ n / 262144
eighteen_bits n = omega arith

-- Behind a character the decoder is at a first byte again.
pub decode_utf8-encode_utf8 :
    (cp : ℕ) (s : Bytes) → cp < 2097152 → decode_utf8 (encode_utf8 cp ++ s) ≡ cp ∷ decode_utf8 s
unfolding decode_utf8 encode_utf8 decode_rest
decode_utf8-encode_utf8 cp s h = elim (Bool-cases (ltb cp 128)) [
  | inl small ↦ rw (small, encode_utf8, decode_utf8, small) (decode_rest-zero cp s)
  | inr big ↦ elim (Bool-cases (ltb cp 2048)) [
    | inl wide ↦
        let parts = two_bytes cp (ground arith) in
        rw (encode_utf8, big, wide, decode_utf8, parts.0, parts.1, decode_rest, six_bits cp)
          (decode_rest-zero cp s)
    | inr wider ↦ elim (Bool-cases (ltb cp 65536)) [
      | inl third ↦
          let parts = three_bytes cp (ground arith) in
          rw
            (
              encode_utf8,
              big,
              wider,
              third,
              decode_utf8,
              parts.0,
              parts.1,
              decode_rest,
              sym (twelve_bits cp),
              six_bits (cp / 64),
              six_bits cp,
            )
            (decode_rest-zero cp s)
      | inr fourth ↦
          let parts = four_bytes cp h in
          rw
            (
              encode_utf8,
              big,
              wider,
              fourth,
              decode_utf8,
              parts.0,
              parts.1,
              decode_rest,
              sym (eighteen_bits cp),
              six_bits (cp / 4096),
              sym (twelve_bits cp),
              six_bits (cp / 64),
              six_bits cp,
            )
            (decode_rest-zero cp s)
    ]
  ]
]

abbrev pub AllBytes : Bytes → Type 0
AllBytes [] = Unit {0}
AllBytes (b ∷ s) = (b < 256) × AllBytes s

pub decode_utf8-bytes_to_byte_level :
    (s : Bytes) → decode_utf8 (bytes_to_byte_level s) ≡ map byte_to_codepoint s
unfolding bytes_to_byte_level decode_utf8
decode_utf8-bytes_to_byte_level [] = refl
decode_utf8-bytes_to_byte_level (b ∷ s) =
    decode_utf8-encode_utf8 (byte_to_codepoint b) (bytes_to_byte_level s)
      (omega (arith, byte_to_codepoint-small b))
    ∙ ap (λ cps. byte_to_codepoint b ∷ cps) (decode_utf8-bytes_to_byte_level s)

bytes_of-map : (s : Bytes) → AllBytes s → bytes_of (map byte_to_codepoint s) ≡ s
unfolding bytes_of
bytes_of-map [] h = refl
bytes_of-map (b ∷ s) (l, h) =
    rw (bytes_of, codepoint_to_byte-byte_to_codepoint b l) (ap (λ t. b ∷ t) (bytes_of-map s h))

pub byte_level_to_bytes-bytes_to_byte_level :
    (s : Bytes) → AllBytes s → byte_level_to_bytes (bytes_to_byte_level s) ≡ s
unfolding byte_level_to_bytes
byte_level_to_bytes-bytes_to_byte_level s h =
    ap bytes_of (decode_utf8-bytes_to_byte_level s) ∙ bytes_of-map s h

pub bytes_to_byte_level-append :
    (s u : Bytes) → bytes_to_byte_level (s ++ u) ≡ bytes_to_byte_level s ++ bytes_to_byte_level u
unfolding bytes_to_byte_level
bytes_to_byte_level-append [] u = refl
bytes_to_byte_level-append (b ∷ s) u =
    ap (λ t. encode_utf8 (byte_to_codepoint b) ++ t) (bytes_to_byte_level-append s u)
    ∙ sym (
        append_assoc (encode_utf8 (byte_to_codepoint b)) (bytes_to_byte_level s)
          (bytes_to_byte_level u))
