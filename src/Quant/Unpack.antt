-- ===== src/Quant/Unpack.antt =====
-- Which nibble of include/nanovllm/quant_extra.hpp stands where in the output, and with which zero
-- point and scale.
use nano_v_llm_cpp.Base.{
  ℕ, zero, suc, ◌+◌, ◌*◌, ◌/◌, ◌%◌, ◌<◌, ◌≡◌, ◌∙◌, ap, refl, List, [], ◌∷◌, ◌++◌, Option, some,
  arith, length, length-append, get_or,
}
use nano_v_llm_cpp.BlockManager.{pos}
use nano_v_llm_cpp.Quant.{
  int_minus, Floats, byte_at, low_nibble, high_nibble, Header, unpack, unpack_blocks, header_mxfp4,
  dequant_mxfp4, header_awq, dequant_awq, header_gptq, dequant_gptq,
}

get_or-append_left :
    {A : Type 0} (xs ys : List A) (i : ℕ) (d : A)
    → i < length xs
    → get_or (xs ++ ys) i d ≡ get_or xs i d
get_or-append_left [] ys i d h = absurd (omega arith)
get_or-append_left (x ∷ xs) ys zero d h = refl
get_or-append_left (x ∷ xs) ys (suc i) d h = get_or-append_left xs ys i d (omega arith)

get_or-append_right :
    {A : Type 0} (xs ys : List A) (i : ℕ) (d : A)
    → get_or (xs ++ ys) (length xs + i) d ≡ get_or ys i d
get_or-append_right [] ys i d = ap (λ k. get_or ys k d) {x = 0 + i} (omega arith)
get_or-append_right (x ∷ xs) ys i d =
    ap (λ k. get_or (x ∷ (xs ++ ys)) k d) {x = suc (length xs) + i} {y = suc (length xs + i)}
      (omega arith)
    ∙ get_or-append_right xs ys i d

module _ (f : Floats) where
  length-unpack :
      (raw : List ℕ) (h : Header f.F) (rounds i : ℕ) → length (unpack f raw h rounds i) ≡ rounds * 2
  unfolding unpack
  length-unpack raw h zero i = refl
  length-unpack raw h (suc rounds) i = omega (arith, length-unpack raw h rounds (i + 1))

  -- `(quant - zero_point) * scale`
  abbrev pub scaled : ℕ → ℕ → f.F → f.F
  scaled quant zero_point scale = f.mul (f.of_int (int_minus quant zero_point)) scale

  abbrev low_value : List ℕ → Header f.F → ℕ → f.F
  low_value raw h i = scaled (low_nibble (byte_at raw (h.nibbles + i))) h.zero_low h.scale

  abbrev high_value : List ℕ → Header f.F → ℕ → f.F
  high_value raw h i = scaled (high_nibble (byte_at raw (h.nibbles + i))) h.zero_high h.scale

  get_or-unpack :
      (raw : List ℕ) (h : Header f.F) (rounds i j : ℕ) (d : f.F)
      → j < rounds
      → (get_or (unpack f raw h rounds i) (j * 2) d ≡ low_value raw h (i + j))
        × (get_or (unpack f raw h rounds i) (j * 2 + 1) d ≡ high_value raw h (i + j))
  unfolding unpack
  get_or-unpack raw h zero i j d g = absurd (omega arith)
  get_or-unpack raw h (suc rounds) i zero d g =
      (ap (low_value raw h) {x = i} (omega arith), ap (high_value raw h) {x = i} (omega arith))
  get_or-unpack raw h (suc rounds) i (suc j) d g =
      let ih = get_or-unpack raw h rounds (i + 1) j d (omega arith) in
      (
        ap (λ k. get_or (unpack f raw h (suc rounds) i) k d) {y = suc (suc (j * 2))} (omega arith)
            ∙ ih.0
            ∙ ap (low_value raw h) (omega arith),
        ap (λ k. get_or (unpack f raw h (suc rounds) i) k d) {y = suc (suc (j * 2 + 1))}
              (omega arith)
            ∙ ih.1
            ∙ ap (high_value raw h) (omega arith),
      )

  length-unpack_blocks :
      (raw : List ℕ) (header : ℕ → Header f.F) (rounds b : ℕ)
      → length (unpack_blocks f raw header rounds b) ≡ rounds * 32
  unfolding unpack_blocks
  length-unpack_blocks raw header zero b = refl
  length-unpack_blocks raw header (suc rounds) b = omega (
    arith,
    length-append (unpack f raw (header b) 16 0) (unpack_blocks f raw header rounds (b + 1)),
    length-unpack raw (header b) 16 0,
    length-unpack_blocks raw header rounds (b + 1),
  )

  -- The 16 bytes of nibbles of block `c` give the values 32 * c and on, of each byte the low one first.
  unpack_blocks-places :
      (raw : List ℕ) (header : ℕ → Header f.F) (rounds b c j : ℕ) (d : f.F)
      → c < rounds
      → j < 16
      → (length (unpack_blocks f raw header rounds b) ≡ rounds * 32)
        × (get_or (unpack_blocks f raw header rounds b) (c * 32 + j * 2) d
            ≡ low_value raw (header (b + c)) j)
        × (get_or (unpack_blocks f raw header rounds b) (c * 32 + (j * 2 + 1)) d
            ≡ high_value raw (header (b + c)) j)
  unfolding unpack_blocks
  unpack_blocks-places raw header zero b c j d h g = absurd (omega arith)
  unpack_blocks-places raw header (suc rounds) b zero j d h g =
      let xs : List f.F = unpack f raw (header b) 16 0 in
      let ys : List f.F = unpack_blocks f raw header rounds (b + 1) in
      let here = get_or-unpack raw (header b) 16 0 j d g in
      (
        length-unpack_blocks raw header (suc rounds) b,
        ap (λ k. get_or (xs ++ ys) k d) {x = 0 + j * 2} {y = j * 2} (omega arith)
            ∙ get_or-append_left xs ys (j * 2) d (omega (arith, length-unpack raw (header b) 16 0))
            ∙ here.0
            ∙ ap (low_value raw (header b)) {x = 0 + j} (omega arith)
            ∙ ap (λ x. low_value raw (header x) j) {x = b} (omega arith),
        ap (λ k. get_or (xs ++ ys) k d) {x = 0 + (j * 2 + 1)} {y = j * 2 + 1} (omega arith)
            ∙ get_or-append_left xs ys (j * 2 + 1) d
                (omega (arith, length-unpack raw (header b) 16 0))
            ∙ here.1
            ∙ ap (high_value raw (header b)) {x = 0 + j} (omega arith)
            ∙ ap (λ x. high_value raw (header x) j) {x = b} (omega arith),
      )
  unpack_blocks-places raw header (suc rounds) b (suc c) j d h g =
      let ih = unpack_blocks-places raw header rounds (b + 1) c j d (omega arith) g in
      (
        length-unpack_blocks raw header (suc rounds) b,
        further (j * 2) ∙ ih.1 ∙ ap (λ x. low_value raw (header x) j) {x = b + 1 + c} (omega arith),
        further (j * 2 + 1)
            ∙ ih.2
            ∙ ap (λ x. high_value raw (header x) j) {x = b + 1 + c} (omega arith),
      )
    where
      further :
          (k : ℕ)
          → get_or
              (unpack f raw (header b) 16 0 ++ unpack_blocks f raw header rounds (b + 1))
              (suc c * 32 + k)
              d
            ≡ get_or (unpack_blocks f raw header rounds (b + 1)) (c * 32 + k) d
      further k =
          let xs : List f.F = unpack f raw (header b) 16 0 in
          let ys : List f.F = unpack_blocks f raw header rounds (b + 1) in
          ap (λ i. get_or (xs ++ ys) i d) {x = suc c * 32 + k} {y = length xs + (c * 32 + k)}
            (omega (arith, length-unpack raw (header b) 16 0))
          ∙ get_or-append_right xs ys (c * 32 + k) d

  -- Each block of `result` gives 32 values: value 32 * c + 2 * j comes from the low nibble of the
  -- number `byte c j`, with the zero point `zero_low c`, and the next one from its high nibble.
  pub record Unpacked (result : Option (List f.F)) (blocks : ℕ) (byte : ℕ → ℕ → ℕ)
      (zero_low zero_high : ℕ → ℕ) (scale : ℕ → f.F) : Type 0 where
    pub values : List f.F
    pub is_values : result ≡ some values
    pub size : length values ≡ blocks * 32
    pub low :
        (c j : ℕ) (d : f.F)
        → c < blocks
        → j < 16
        → get_or values (c * 32 + j * 2) d ≡ scaled (byte c j % 16) (zero_low c) (scale c)
    pub high :
        (c j : ℕ) (d : f.F)
        → c < blocks
        → j < 16
        → get_or values (c * 32 + (j * 2 + 1)) d
          ≡ scaled (byte c j / 16 % 16) (zero_high c) (scale c)

  unpack_blocks-Unpacked :
      (raw : List ℕ) (header : ℕ → Header f.F) (blocks : ℕ)
      → Unpacked
          (some (unpack_blocks f raw header blocks 0))
          blocks
          (λ c j. byte_at raw ((header c).nibbles + j))
          (λ c. (header c).zero_low)
          (λ c. (header c).zero_high)
          (λ c. (header c).scale)
  unpack_blocks-Unpacked raw header blocks = record {
    values = unpack_blocks f raw header blocks 0;
    is_values = refl;
    size = length-unpack_blocks raw header blocks 0;
    low = λ c j d h g.
        (unpack_blocks-places raw header blocks 0 c j d h g).1
        ∙ ap (λ x. low_value raw (header x) j) {x = 0 + c} (omega arith);
    high = λ c j d h g.
        (unpack_blocks-places raw header blocks 0 c j d h g).2
        ∙ ap (λ x. high_value raw (header x) j) {x = 0 + c} (omega arith);
  }

  -- The three formats give 32 values for each block (the first one only for whole blocks): value
  -- 32 * c + 2 * j is the low nibble of one byte, and the next one its high nibble, less a zero point
  -- and times a scale. With 17 bytes for a block, MXFP4 has the scale in byte 0, in quarters, and the
  -- nibbles from byte 1 on; the zero point is 7. With 19 bytes, AWQ has the scale in bytes 0 and 1, in
  -- 256ths, the zero point in byte 2 and the nibbles from byte 3 on. GPTQ has the nibbles first, the
  -- scale in bytes 16 and 17, and in byte 18 the zero point of the low nibbles below that of the high
  -- ones. The operations on floats are parameters.
  pub dequant-places :
      (raw : List ℕ) (blocks : ℕ)
      → Unpacked
          (dequant_mxfp4 f (some raw) (blocks * 32))
          blocks
          (λ c j. byte_at raw (c * 17 + 1 + j))
          (λ c. 7)
          (λ c. 7)
          (λ c. f.mul (f.of_int (pos (byte_at raw (c * 17)))) (f.decimal 25 2))
        × Unpacked
            (dequant_awq f (some raw) blocks)
            blocks
            (λ c j. byte_at raw (c * 19 + 3 + j))
            (λ c. byte_at raw (c * 19 + 2))
            (λ c. byte_at raw (c * 19 + 2))
            (λ c.
              f.div
                (f.of_int (pos (byte_at raw (c * 19) + byte_at raw (c * 19 + 1) * 256)))
                (f.decimal 2560 1))
        × Unpacked
            (dequant_gptq f (some raw) blocks)
            blocks
            (λ c j. byte_at raw (c * 19 + j))
            (λ c. byte_at raw (c * 19 + 18) % 16)
            (λ c. byte_at raw (c * 19 + 18) / 16 % 16)
            (λ c.
              f.div
                (f.of_int (pos (byte_at raw (c * 19 + 16) + byte_at raw (c * 19 + 16 + 1) * 256)))
                (f.decimal 2560 1))
  unfolding dequant_mxfp4 dequant_awq dequant_gptq
  dequant-places raw blocks =
      let rest : blocks * 32 % 32 ≡ 0 = omega arith in
      let number : blocks * 32 / 32 ≡ blocks = omega arith in
      (
        rw (rest, number) (unpack_blocks-Unpacked raw (header_mxfp4 f raw) blocks),
        unpack_blocks-Unpacked raw (header_awq f raw) blocks,
        unpack_blocks-Unpacked raw (header_gptq f raw) blocks,
      )
