-- ===== src/Quant.antt =====
-- include/nanovllm/quant_extra.hpp: the unpacking of three formats of 4-bit weights. Bytes are
-- numbers below 256. A `float` is a value of the type `F` of a record of the operations that the
-- source uses.
pub mod Unpack
pub mod Tests
use nano_v_llm_cpp.Base.{
  ℕ, zero, suc, ◌+◌, ◌-◌, ◌*◌, ◌/◌, ◌%◌, Bool, true, false, not, List, [], ◌∷◌, ◌++◌, Option, none,
  some, ◌==◌, leb, if◌then◌else◌, get_or,
}
use nano_v_llm_cpp.BlockManager.{ℤ, pos, negsuc}

-- The difference of two `int`s that are not negative.
abbrev pub int_minus : ℕ → ℕ → ℤ
int_minus a b = if leb b a then pos (a - b) else negsuc (b - a - 1)

-- `of_int` is `static_cast<float>`, and `decimal n k` the literal n / 10^k.
pub record Floats : Type 1 where
  pub F : Type 0
  pub of_int : ℤ → F
  pub decimal : ℕ → ℕ → F
  pub mul : F → F → F
  pub div : F → F → F

-- `raw[i]`. The caller passes as many bytes as the blocks take.
abbrev pub byte_at : List ℕ → ℕ → ℕ
byte_at raw i = get_or raw i 0

abbrev pub low_nibble : ℕ → ℕ
low_nibble byte = byte % 16

abbrev pub high_nibble : ℕ → ℕ
high_nibble byte = byte / 16 % 16

-- Two bytes copied into a `uint16_t`, the low one first.
abbrev pub scale_u16 : List ℕ → ℕ → ℕ
scale_u16 raw i = byte_at raw i + byte_at raw (i + 1) * 256

-- What a block says besides its nibbles: where they begin, the scale, and the zero points of the low
-- and of the high nibbles.
pub record Header (F : Type 0) : Type 0 where
  pub nibbles : ℕ
  pub scale : F
  pub zero_low : ℕ
  pub zero_high : ℕ

abbrev pub block_bytes_mxfp4 : ℕ
block_bytes_mxfp4 = 17

abbrev pub block_bytes_awq : ℕ
block_bytes_awq = 19

abbrev pub block_bytes_gptq : ℕ
block_bytes_gptq = 19

module _ (f : Floats) where
  -- `for (int i = 0; i < 16; ++i)`, from byte `i` on with `rounds` left.
  pub unpack : List ℕ → Header f.F → ℕ → ℕ → List f.F
  unpack raw h zero i = []
  unpack raw h (suc rounds) i =
      let byte = byte_at raw (h.nibbles + i) in
      f.mul (f.of_int (int_minus (low_nibble byte) h.zero_low)) h.scale
      ∷ f.mul (f.of_int (int_minus (high_nibble byte) h.zero_high)) h.scale
      ∷ unpack raw h rounds (i + 1)

  -- The loop over the blocks, from block `b` on.
  pub unpack_blocks : List ℕ → (ℕ → Header f.F) → ℕ → ℕ → List f.F
  unpack_blocks raw header zero b = []
  unpack_blocks raw header (suc rounds) b =
      unpack raw (header b) 16 0 ++ unpack_blocks raw header rounds (b + 1)

  abbrev pub header_mxfp4 : List ℕ → ℕ → Header f.F
  header_mxfp4 raw b = record {
    nibbles = b * block_bytes_mxfp4 + 1;
    scale = f.mul (f.of_int (pos (byte_at raw (b * block_bytes_mxfp4)))) (f.decimal 25 2);
    zero_low = 7;
    zero_high = 7;
  }

  -- `none` is the result false: no data, or a number of values that is not a multiple of 32.
  pub dequant_mxfp4 : Option (List ℕ) → ℕ → Option (List f.F)
  dequant_mxfp4 none n_values = none
  dequant_mxfp4 (some raw) n_values =
      if not (n_values % 32 == 0)
      then none
      else some (unpack_blocks raw (header_mxfp4 raw) (n_values / 32) 0)

  abbrev pub header_awq : List ℕ → ℕ → Header f.F
  header_awq raw g = record {
    nibbles = g * block_bytes_awq + 3;
    scale = f.div (f.of_int (pos (scale_u16 raw (g * block_bytes_awq)))) (f.decimal 2560 1);
    zero_low = byte_at raw (g * block_bytes_awq + 2);
    zero_high = byte_at raw (g * block_bytes_awq + 2);
  }

  pub dequant_awq : Option (List ℕ) → ℕ → Option (List f.F)
  dequant_awq none n_groups = none
  dequant_awq (some raw) n_groups = some (unpack_blocks raw (header_awq raw) n_groups 0)

  abbrev pub header_gptq : List ℕ → ℕ → Header f.F
  header_gptq raw g = record {
    nibbles = g * block_bytes_gptq;
    scale = f.div (f.of_int (pos (scale_u16 raw (g * block_bytes_gptq + 16)))) (f.decimal 2560 1);
    zero_low = low_nibble (byte_at raw (g * block_bytes_gptq + 18));
    zero_high = high_nibble (byte_at raw (g * block_bytes_gptq + 18));
  }

  pub dequant_gptq : Option (List ℕ) → ℕ → Option (List f.F)
  dequant_gptq none n_groups = none
  dequant_gptq (some raw) n_groups = some (unpack_blocks raw (header_gptq raw) n_groups 0)
