-- ===== src/Gguf/Loader.antt =====
-- src/gguf.cpp: the headers of the tensors, and `add_file`.
use nano_v_llm_cpp.Base.{
  ℕ, zero, suc, ◌+◌, ◌-◌, ◌*◌, ◌/◌, ◌%◌, ◌^◌, List, [], ◌∷◌, ◌++◌, Option, none, some, ◌==◌,
  if◌then◌else◌, length,
}
use nano_v_llm_cpp.Text.{Bytes, bytes}
use nano_v_llm_cpp.Text.Maps.{find_key, assign}
use nano_v_llm_cpp.Mcp.{decimal}
use nano_v_llm_cpp.Gguf.{
  ◌>>=◌, Read, pure, read_value, read_many, GgufMetaValue, read_number, read_string,
}

abbrev type_names : List (ℕ × Bytes)
type_names =
    (0, bytes "F32")
    ∷ (1, bytes "F16")
    ∷ (30, bytes "BF16")
    ∷ (8, bytes "Q8_0")
    ∷ (2, bytes "Q4_0")
    ∷ (3, bytes "Q4_1")
    ∷ (6, bytes "Q5_0")
    ∷ (7, bytes "Q5_1")
    ∷ (10, bytes "Q2_K")
    ∷ (11, bytes "Q3_K")
    ∷ (12, bytes "Q4_K")
    ∷ (13, bytes "Q5_K")
    ∷ (14, bytes "Q6_K")
    ∷ (15, bytes "Q8_K")
    ∷ (20, bytes "IQ4_NL")
    ∷ (23, bytes "IQ4_XS")
    ∷ []

abbrev name_in : List (ℕ × Bytes) → ℕ → Option Bytes
name_in [] t = none
name_in ((n, name) ∷ rest) t = if t == n then some name else name_in rest t

unfoldable pub ggml_type_name : ℕ → Bytes
ggml_type_name t = elim (name_in type_names t) [
  | none ↦ bytes "UNKNOWN" ++ decimal t
  | some name ↦ name
]

pub record GgufTensorMeta : Type 0 where
  pub name : Bytes
  pub dtype : Bytes
  pub shape : List ℕ
  pub offset : ℕ

unfoldable pub read_tensor : Read GgufTensorMeta
read_tensor = read_string >>= λ name. read_number 4 >>= λ n_dims.
    read_many (read_number 8) n_dims >>= λ shape. read_number 4 >>= λ type.
    read_number 8 >>= λ offset.
    pure (record { name = name; dtype = ggml_type_name type; shape = shape; offset = offset })

pub record GgufLoader : Type 0 where
  pub file : Bytes
  pub data_offset : ℕ
  pub alignment : ℕ
  pub tensors : List (Bytes × GgufTensorMeta)
  pub meta : List (Bytes × GgufMetaValue)

abbrev pub new_loader : GgufLoader
new_loader = record { file = []; data_offset = 0; alignment = 32; tensors = []; meta = [] }

pub data LoadError : Type 0 where
  cannot_open not_gguf corrupt division_by_zero : LoadError

unfoldable pub read_entry : Read (Bytes × GgufMetaValue)
read_entry = read_string >>= λ key. read_number 4 >>= λ type. read_value type >>= λ v. pure (key, v)

-- The loop over the metadata. What was read before a failing entry stays in the map.
unfoldable pub read_entries :
    ℕ → Bytes → List (Bytes × GgufMetaValue) → List (Bytes × GgufMetaValue) × Option Bytes
read_entries zero s meta = (meta, some s)
read_entries (suc n) s meta = elim (read_entry s) [
  | none ↦ (meta, none)
  | some ((key, v), t) ↦ read_entries n t (assign key v meta)
]

-- The magic number, the version and the two counts.
unfoldable pub read_counts : Read (ℕ × ℕ)
read_counts = read_number 4 >>= λ version.
    read_number 8 >>= λ n_tensors. read_number 8 >>= λ n_kv. pure (n_tensors, n_kv)

abbrev pub magic_number : ℕ
magic_number = 0x46554747

abbrev is_magic : Option (ℕ × Bytes) → Option Bytes
is_magic none = none
is_magic (some (magic, s)) = if magic == magic_number then some s else none

-- `general.alignment`, where it is a `uint32_t`
unfoldable pub alignment_of : List (Bytes × GgufMetaValue) → ℕ → ℕ
alignment_of meta old = elim (find_key (bytes "general.alignment") meta) [
  | none ↦ old
  | some v ↦ if v.type == 4 then v.i % 2 ^ 32 else old
]

unfoldable pub add_tensors :
    List GgufTensorMeta → List (Bytes × GgufTensorMeta) → List (Bytes × GgufTensorMeta)
add_tensors [] tensors = tensors
add_tensors (m ∷ ms) tensors = add_tensors ms (assign m.name m tensors)

-- `pos` rounded up to a multiple of `alignment`.
unfoldable pub align_up : ℕ → ℕ → ℕ
align_up pos alignment = (pos + alignment - 1) / alignment * alignment

-- From the position behind the tensors' headers on; the division by an alignment of 0 traps.
unfoldable pub finish :
    GgufLoader → Bytes → List GgufTensorMeta → Bytes → GgufLoader × Option LoadError
finish l file metas left =
    let alignment = alignment_of l.meta l.alignment in
    if alignment == 0 then (record l { alignment = 0 }, some division_by_zero) else (
      record l {
        file = file;
        alignment = alignment;
        data_offset = align_up (length file - length left) alignment;
        tensors = add_tensors metas l.tensors;
      },
      none,
    )

-- The headers behind the magic number.
unfoldable pub add_headers : GgufLoader → Bytes → Bytes → GgufLoader × Option LoadError
add_headers l file s = elim (read_counts s) [
  | none ↦ (l, some corrupt)
  | some ((n_tensors, n_kv), t) ↦
      let read = read_entries n_kv t l.meta in
      let l' : GgufLoader = record l { meta = read.0 } in
      elim read.1 [
        | none ↦ (l', some corrupt)
        | some u ↦ elim (read_many read_tensor n_tensors u) [
          | none ↦ (l', some corrupt)
          | some (metas, left) ↦ finish l' file metas left
        ]
      ]
]

-- `none` is a file that does not open. The loader that is left, and the exception.
unfoldable pub add_file : GgufLoader → Option Bytes → GgufLoader × Option LoadError
add_file l none = (l, some cannot_open)
add_file l (some file) = elim (is_magic (read_number 4 file)) [
  | none ↦ (l, some not_gguf)
  | some s ↦ add_headers l file s
]
