-- ===== src/Quant/Tests.antt =====
-- include/nanovllm/quant_extra.hpp on one block, with fractions for the floats.
use nano_v_llm_cpp.Base.{
  ℕ, zero, suc, ◌+◌, ◌*◌, ◌/◌, ◌%◌, ◌^◌, ◌≡◌, refl, List, [], ◌∷◌, none, some,
}
use nano_v_llm_cpp.BlockManager.{ℤ, pos, negsuc}
use nano_v_llm_cpp.Quant.{int_minus, Floats, byte_at, dequant_mxfp4, dequant_awq, dequant_gptq}
use nano_v_llm_cpp.Quant.Unpack.{Unpacked, dequant-places}

abbrev bytes : ℕ → ℕ → List ℕ
bytes zero i = []
bytes (suc n) i = (i * 3 + 1) ∷ bytes n (i + 1)

-- 19 bytes: 1, 4, 7 and so on.
abbrev raw : List ℕ
raw = bytes 19 0

abbrev times : ℤ → ℤ → ℤ
times (pos a) (pos b) = pos (a * b)
times (pos a) (negsuc b) = int_minus 0 (a * suc b)
times (negsuc a) (pos b) = int_minus 0 (suc a * b)
times (negsuc a) (negsuc b) = pos (suc a * suc b)

abbrev over : ℤ × ℕ → ℤ × ℕ → ℤ × ℕ
over (a, b) (pos c, d) = (times a (pos d), b * c)
over (a, b) (negsuc c, d) = (times a (int_minus 0 d), b * suc c)

-- A numerator and a denominator.
abbrev fractions : Floats
fractions = record {
  F = ℤ × ℕ;
  of_int = λ n. (n, 1);
  decimal = λ n k. (pos n, 10 ^ k);
  mul = λ x y. (times x.0 y.0, x.1 * y.1);
  div = over;
}

part_of_block : dequant_mxfp4 fractions (some raw) 31 ≡ none
unfolding dequant_mxfp4
part_of_block = refl

dequant-places_example :
    Unpacked fractions
      (dequant_mxfp4 fractions (some raw) 32)
      1
      (λ c j. byte_at raw (c * 17 + 1 + j))
      (λ c. 7)
      (λ c. 7)
      (λ c. (times (pos (byte_at raw (c * 17))) (pos 25), 1 * 100))
    × Unpacked fractions
        (dequant_awq fractions (some raw) 1)
        1
        (λ c j. byte_at raw (c * 19 + 3 + j))
        (λ c. byte_at raw (c * 19 + 2))
        (λ c. byte_at raw (c * 19 + 2))
        (λ c. over (pos (byte_at raw (c * 19) + byte_at raw (c * 19 + 1) * 256), 1) (pos 2560, 10))
    × Unpacked fractions
        (dequant_gptq fractions (some raw) 1)
        1
        (λ c j. byte_at raw (c * 19 + j))
        (λ c. byte_at raw (c * 19 + 18) % 16)
        (λ c. byte_at raw (c * 19 + 18) / 16 % 16)
        (λ c.
          over
            (pos (byte_at raw (c * 19 + 16) + byte_at raw (c * 19 + 16 + 1) * 256), 1)
            (pos 2560, 10))
dequant-places_example = dequant-places fractions raw 1
