-- ===== src/Gguf.antt =====
-- src/gguf.cpp and include/nanovllm/gguf.hpp: the header of a model file. A file is the list of its bytes; a read that fails, after which
-- every other fails too, is `none`. Running out of memory is left out.
pub mod Loader
pub mod Format
pub mod Header
pub mod Readers
pub mod Refused
pub mod Lookup
pub mod Data
pub mod Tests
pub mod Untile
pub mod Load
use nano_v_llm_cpp.Base.{
  ℕ, zero, suc, ◌+◌, ◌-◌, ◌*◌, ◌/◌, ◌%◌, ◌^◌, Bool, true, false, not, ◌&&◌, ◌||◌, List, [], ◌∷◌,
  ◌++◌, Option, none, some, ◌==◌, ltb, leb, if◌then◌else◌, length, take, drop, is_empty, map,
}
use nano_v_llm_cpp.Text.{Bytes, bytes, same}
use nano_v_llm_cpp.Text.Maps.{find_key, assign}
use nano_v_llm_cpp.Mcp.{decimal}

abbrev pub Read {ℓ} : Type ℓ → Type ℓ
Read A = Bytes → Option (A × Bytes)

infixl 5 ◌>>=◌
abbrev pub ◌>>=◌ {ℓ κ} : {A : Type ℓ} {B : Type κ} → Read A → (A → Read B) → Read B
◌>>=◌ r f s = elim (r s) [ none ↦ none | some (a, t) ↦ f a t ]

abbrev pub pure {ℓ} : {A : Type ℓ} → A → Read A
pure a s = some (a, s)

abbrev fail {ℓ} : {A : Type ℓ} → Read A
fail s = none

-- The number that bytes spell, the lowest first.
unfoldable pub number_of : Bytes → ℕ
number_of [] = 0
number_of (c ∷ s) = c + 256 * number_of s

-- `read_bytes`
unfoldable pub read_bytes : ℕ → Read Bytes
read_bytes n s = if ltb (length s) n then none else some (take n s, drop n s)

-- `read` of an unsigned number of `n` bytes, or of the bit pattern of a signed one or a float.
unfoldable pub read_number : ℕ → Read ℕ
read_number n s = elim (read_bytes n s) [ none ↦ none | some (b, t) ↦ some (number_of b, t) ]

unfoldable pub read_string : Read Bytes
read_string = read_number 8 >>= λ len. read_bytes len

-- A `double` is what it was made from: a natural number, or the pattern of a float or double.
pub data Double : Type 0 where
  of_uint of_int64 of_float of_double : ℕ → Double

pub record GgufMetaValue : Type 0 where
  pub type : ℕ
  pub b : Bool
  pub i : ℕ
  pub d : Double
  pub s : Bytes
  pub sarr : List Bytes
  pub iarr : List ℕ
  pub farr : List ℕ

abbrev pub no_value : ℕ → GgufMetaValue
no_value type = record {
  type = type;
  b = false;
  i = 0;
  d = of_uint 0;
  s = [];
  sarr = [];
  iarr = [];
  farr = [];
}

-- The loop over the elements of an array.
unfoldable pub read_many {ℓ} : {A : Type ℓ} → Read A → ℕ → Read (List A)
read_many r zero s = some ([], s)
read_many r (suc n) s = elim (r s) [
  | none ↦ none
  | some (a, t) ↦ elim (read_many r n t) [ none ↦ none | some (as', u) ↦ some (a ∷ as', u) ]
]

-- An `int32_t` as the pattern of an `int64_t`.
abbrev pub sign_extend : ℕ → ℕ
sign_extend n = if ltb n (2 ^ 31) then n else n + (2 ^ 64 - 2 ^ 32)

abbrev pub replicate_zero : ℕ → List ℕ
replicate_zero zero = []
replicate_zero (suc n) = 0 ∷ replicate_zero n

-- The array branch of `read_value`, by the type of the elements.
unfoldable pub read_array : ℕ → ℕ → GgufMetaValue → Read GgufMetaValue
read_array elem_type count v =
    if elem_type == 8
    then read_many read_string count >>= (λ xs. pure (record v { sarr = xs }))
    else if elem_type == 6
    then read_many (read_number 4) count >>= (λ xs. pure (record v { farr = xs }))
    else if elem_type == 5
    then read_many (read_number 4) count >>= (λ xs. pure (record v { iarr = map sign_extend xs }))
    else if elem_type == 4
    then read_many (read_number 4) count >>= (λ xs. pure (record v { iarr = xs }))
    else if elem_type == 11 || elem_type == 10
    then read_many (read_number 8) count >>= (λ xs. pure (record v { iarr = xs }))
    else if elem_type == 7
    then read_many (read_number 1) count >>= (λ xs. pure (record v { iarr = xs }))
    else if elem_type == 12
    then read_many (read_number 8) count >>= (λ xs. pure (record v { iarr = replicate_zero count }))
    else fail

unfoldable pub read_value : ℕ → Read GgufMetaValue
read_value type =
    let v = no_value type in
    if type == 0 || type == 1 || type == 7
    then read_number 1 >>= (λ b. pure (record v { b = not (b == 0); i = b }))
    else if type == 2 || type == 3
    then read_number 2 >>= (λ b. pure (record v { i = b; d = of_uint b }))
    else if type == 4 || type == 5
    then read_number 4 >>= (λ b. pure (record v { i = b; d = of_uint b }))
    else if type == 10 || type == 11
    then read_number 8 >>= (λ b. pure (record v { i = b; d = of_int64 b }))
    else if type == 6
    then read_number 4 >>= (λ b. pure (record v { d = of_float b }))
    else if type == 12
    then read_number 8 >>= (λ b. pure (record v { d = of_double b }))
    else if type == 8
    then read_string >>= (λ s. pure (record v { s = s }))
    else if type == 9
    then read_number 4 >>= (λ elem_type. read_number 8 >>= (λ count. read_array elem_type count v))
    else fail
