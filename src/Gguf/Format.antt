-- ===== src/Gguf/Format.antt =====
-- A writer of the files that src/gguf.cpp reads: numbers lowest byte first, strings and arrays behind
-- their lengths. Each function writes in front of the bytes that follow.
use nano_v_llm_cpp.Base.{
  ℕ, zero, suc, ◌-◌, ◌/◌, ◌%◌, ◌^◌, ◌≤◌, ◌<◌, ◌⊎◌, ◌==◌, not, List, [], ◌∷◌, ◌++◌, length, map,
}
use nano_v_llm_cpp.Text.{Bytes}
use nano_v_llm_cpp.Gguf.{GgufMetaValue, no_value, of_uint, of_int64, of_float, of_double}
use nano_v_llm_cpp.Gguf.Loader.{GgufTensorMeta, ggml_type_name, magic_number}

unfoldable pub number_bytes : ℕ → ℕ → Bytes
number_bytes zero v = []
number_bytes (suc n) v = v % 256 ∷ number_bytes n (v / 256)

abbrev pub put_number : ℕ → ℕ → Bytes → Bytes
put_number n v rest = number_bytes n v ++ rest

unfoldable pub put_string : Bytes → Bytes → Bytes
put_string s rest = put_number 8 (length s) (s ++ rest)

unfoldable pub put_many {ℓ} : {A : Type ℓ} → (A → Bytes → Bytes) → List A → Bytes → Bytes
put_many put [] rest = rest
put_many put (x ∷ xs) rest = put x (put_many put xs rest)

-- The values of which the loader understands the kind, each number as its pattern. The elements of
-- `int32s` are patterns of 64 bits. Arrays of numbers of 8 or 16 bits, and of arrays, are not among
-- them.
pub data Metadata : Type 0 where
  uint8 int8 boolean uint16 int16 uint32 int32 uint64 int64 float32 float64 : ℕ → Metadata
  text : Bytes → Metadata
  texts : List Bytes → Metadata
  booleans uint32s int32s uint64s int64s float32s float64s : List ℕ → Metadata

unfoldable pub put_array {ℓ} : {A : Type ℓ} → ℕ → (A → Bytes → Bytes) → List A → Bytes → Bytes
put_array elem_type put xs rest =
    put_number 4 elem_type (put_number 8 (length xs) (put_many put xs rest))

unfoldable pub kind : Metadata → ℕ
kind (uint8 n) = 0
kind (int8 n) = 1
kind (boolean n) = 7
kind (uint16 n) = 2
kind (int16 n) = 3
kind (uint32 n) = 4
kind (int32 n) = 5
kind (uint64 n) = 10
kind (int64 n) = 11
kind (float32 n) = 6
kind (float64 n) = 12
kind (text s) = 8
kind _ = 9

-- An `int32_t` from the pattern of the same number in 64 bits.
abbrev pub put_int32 : ℕ → Bytes → Bytes
put_int32 n rest = put_number 4 (n % 2 ^ 32) rest

unfoldable pub put_value : Metadata → Bytes → Bytes
put_value (uint8 n) rest = put_number 1 n rest
put_value (int8 n) rest = put_number 1 n rest
put_value (boolean n) rest = put_number 1 n rest
put_value (uint16 n) rest = put_number 2 n rest
put_value (int16 n) rest = put_number 2 n rest
put_value (uint32 n) rest = put_number 4 n rest
put_value (int32 n) rest = put_number 4 n rest
put_value (uint64 n) rest = put_number 8 n rest
put_value (int64 n) rest = put_number 8 n rest
put_value (float32 n) rest = put_number 4 n rest
put_value (float64 n) rest = put_number 8 n rest
put_value (text s) rest = put_string s rest
put_value (texts ss) rest = put_array 8 put_string ss rest
put_value (booleans ns) rest = put_array 7 (put_number 1) ns rest
put_value (uint32s ns) rest = put_array 4 (put_number 4) ns rest
put_value (int32s ns) rest = put_array 5 put_int32 ns rest
put_value (uint64s ns) rest = put_array 10 (put_number 8) ns rest
put_value (int64s ns) rest = put_array 11 (put_number 8) ns rest
put_value (float32s ns) rest = put_array 6 (put_number 4) ns rest
put_value (float64s ns) rest = put_array 12 (put_number 8) ns rest

-- A number of a signed type comes back as an unsigned one, with the same pattern; of an array of
-- doubles only the length comes back.
unfoldable pub seen : Metadata → GgufMetaValue
seen (uint8 n) = record (no_value 0) { b = not (n == 0); i = n }
seen (int8 n) = record (no_value 1) { b = not (n == 0); i = n }
seen (boolean n) = record (no_value 7) { b = not (n == 0); i = n }
seen (uint16 n) = record (no_value 2) { i = n; d = of_uint n }
seen (int16 n) = record (no_value 3) { i = n; d = of_uint n }
seen (uint32 n) = record (no_value 4) { i = n; d = of_uint n }
seen (int32 n) = record (no_value 5) { i = n; d = of_uint n }
seen (uint64 n) = record (no_value 10) { i = n; d = of_int64 n }
seen (int64 n) = record (no_value 11) { i = n; d = of_int64 n }
seen (float32 n) = record (no_value 6) { d = of_float n }
seen (float64 n) = record (no_value 12) { d = of_double n }
seen (text s) = record (no_value 8) { s = s }
seen (texts ss) = record (no_value 9) { sarr = ss }
seen (booleans ns) = record (no_value 9) { iarr = ns }
seen (uint32s ns) = record (no_value 9) { iarr = ns }
seen (int32s ns) = record (no_value 9) { iarr = ns }
seen (uint64s ns) = record (no_value 9) { iarr = ns }
seen (int64s ns) = record (no_value 9) { iarr = ns }
seen (float32s ns) = record (no_value 9) { farr = ns }
seen (float64s ns) = record (no_value 9) { iarr = map (λ n. 0) ns }

abbrev pub Entry : Type 0
Entry = Bytes × Metadata

unfoldable pub put_entry : Entry → Bytes → Bytes
put_entry (k, v) rest = put_string k (put_number 4 (kind v) (put_value v rest))

-- A tensor's header, its type as the number.
pub record TensorHeader : Type 0 where
  pub name : Bytes
  pub shape : List ℕ
  pub type : ℕ
  pub offset : ℕ

unfoldable pub put_tensor : TensorHeader → Bytes → Bytes
put_tensor t rest = put_string t.name (
    put_number 4 (length t.shape)
      (put_many (put_number 8) t.shape (put_number 4 t.type (put_number 8 t.offset rest))))

unfoldable pub meta_of : TensorHeader → GgufTensorMeta
meta_of t = record {
  name = t.name;
  dtype = ggml_type_name t.type;
  shape = t.shape;
  offset = t.offset;
}

-- A file of version `version` with `contents` behind its headers.
unfoldable pub put_file : ℕ → List Entry → List TensorHeader → Bytes → Bytes
put_file version kvs ts contents = put_number 4 magic_number (
    put_number 4 version (
      put_number 8 (length ts)
        (put_number 8 (length kvs) (put_many put_entry kvs (put_many put_tensor ts contents)))))

unfoldable pub Each {ℓ} : {A : Type ℓ} → (A → Type 0) → List A → Type 0
Each P [] = Unit {0}
Each P (x ∷ xs) = P x × Each P xs

-- A number fits its width, and a list its count.
abbrev pub Fits : ℕ → ℕ → Type 0
Fits w n = n < 256 ^ w

abbrev pub Short {ℓ} : {A : Type ℓ} → List A → Type 0
Short xs = length xs < 256 ^ 8

-- The pattern in 64 bits of a number that fits an `int32_t`.
abbrev pub FitsInt32 : ℕ → Type 0
FitsInt32 n = (n < 2 ^ 31) ⊎ ((2 ^ 64 - 2 ^ 31 ≤ n) × (n < 2 ^ 64))

unfoldable pub ValueFits : Metadata → Type 0
ValueFits (uint8 n) = n < 256 ^ 1
ValueFits (int8 n) = n < 256 ^ 1
ValueFits (boolean n) = n < 256 ^ 1
ValueFits (uint16 n) = n < 256 ^ 2
ValueFits (int16 n) = n < 256 ^ 2
ValueFits (uint32 n) = n < 256 ^ 4
ValueFits (int32 n) = n < 256 ^ 4
ValueFits (uint64 n) = n < 256 ^ 8
ValueFits (int64 n) = n < 256 ^ 8
ValueFits (float32 n) = n < 256 ^ 4
ValueFits (float64 n) = n < 256 ^ 8
ValueFits (text s) = Short s
ValueFits (texts ss) = (Short ss) × Each Short ss
ValueFits (booleans ns) = (Short ns) × Each (Fits 1) ns
ValueFits (uint32s ns) = (Short ns) × Each (Fits 4) ns
ValueFits (int32s ns) = (Short ns) × Each FitsInt32 ns
ValueFits (uint64s ns) = (Short ns) × Each (Fits 8) ns
ValueFits (int64s ns) = (Short ns) × Each (Fits 8) ns
ValueFits (float32s ns) = (Short ns) × Each (Fits 4) ns
ValueFits (float64s ns) = (Short ns) × Each (Fits 8) ns

unfoldable pub TensorFits : TensorHeader → Type 0
TensorFits t =
    Short t.name × Fits 4 (length t.shape) × Each (Fits 8) t.shape × Fits 4 t.type × Fits 8 t.offset

unfoldable pub EntryFits : Entry → Type 0
EntryFits (k, v) = Short k × ValueFits v
