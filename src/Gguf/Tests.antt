-- ===== src/Gguf/Tests.antt =====
-- Runs of src/gguf.cpp.
use nano_v_llm_cpp.Base.{
  ℕ, zero, suc, ◌-◌, ◌^◌, ◌<◌, ◌≡◌, refl, List, [], ◌∷◌, none, some, arith, inl, inr,
}
use nano_v_llm_cpp.Text.{Bytes, bytes, same}
use nano_v_llm_cpp.Text.Maps.{find_key}
use nano_v_llm_cpp.Gguf.{
  read_number, read_bytes, number_of, read_string, read_many, read_value, read_array,
}
use nano_v_llm_cpp.Gguf.Loader.{
  GgufLoader, new_loader, GgufTensorMeta, corrupt, magic_number, add_file, add_headers, read_counts,
  read_entries, read_entry, read_tensor,
}
use nano_v_llm_cpp.Gguf.Lookup.{meta_str, meta_u32, meta_i64, typed}
use nano_v_llm_cpp.Gguf.Data.{
  Memory, gguf_block_info, loaded, file_byte, tile_shape, tiling, read_tensor_data,
}
use nano_v_llm_cpp.Gguf.Untile.{IsTiled}
use nano_v_llm_cpp.Gguf.Load.{TiledTensor, read_tensor_data-TiledTensor}
use nano_v_llm_cpp.Gguf.Format.{
  number_bytes, put_number, put_string, uint32, int32, int32s, text, seen, kind, put_value, Entry,
  put_entry, TensorHeader, put_file, Each, EntryFits, ValueFits, TensorFits,
}
use nano_v_llm_cpp.Gguf.Header.{Writable, ReadBack, latest, alignment_given, add_file-put_file}
use nano_v_llm_cpp.Gguf.Refused.{SameTensors, add_file-SameTensors}

abbrev name_entry : Entry
name_entry = (bytes "name", text (bytes "x"))

abbrev entries : List Entry
entries =
    name_entry
    ∷ (bytes "general.alignment", uint32 8)
    ∷ (bytes "bias", int32s (5 ∷ (2 ^ 64 - 1) ∷ []))
    ∷ []

abbrev tensors : List TensorHeader
tensors = record { name = bytes "w"; shape = 1 ∷ 2 ∷ []; type = 1; offset = 0 } ∷ []

entries-Writable : Writable 3 entries tensors (7 ∷ [])
unfolding Each EntryFits ValueFits TensorFits latest alignment_given same
entries-Writable = record {
  version_fits = omega arith;
  entries_fit = (
    omega arith,
    (
      (omega arith, omega arith),
      (
        (omega arith, omega arith),
        (
          (omega arith, (omega arith, (inl (omega arith), (inr (omega arith, omega arith), tt)))),
          tt,
        ),
      ),
    ),
  );
  tensors_fit = (
    omega arith,
    ((omega arith, omega arith, (omega arith, (omega arith, tt)), omega arith, omega arith), tt),
  );
  alignment_positive = omega arith;
}

add_file-put_file_example :
    (add_file new_loader (some (put_file 3 entries tensors (7 ∷ [])))).1 ≡ none
    × ReadBack 3 entries tensors
        (7 ∷ [])
        (add_file new_loader (some (put_file 3 entries tensors (7 ∷ [])))).0
add_file-put_file_example = add_file-put_file 3 entries tensors (7 ∷ []) entries-Writable

-- A header that ends where its only tensor should stand.
abbrev cut_off : Bytes
cut_off =
    put_number 4 magic_number
      (put_number 4 3 (put_number 8 1 (put_number 8 1 (put_entry name_entry []))))

cut_off_corrupt : (add_file new_loader (some cut_off)).1 ≡ some corrupt
unfolding add_file add_headers read_counts read_number read_bytes number_of read_entries read_entry
    read_string read_many read_tensor read_value number_bytes put_string put_value kind put_entry
cut_off_corrupt = refl

-- A file whose only entry is an array of one `uint8_t`.
array_of_bytes_corrupt :
    (add_file new_loader (
      some (
        put_number 4 magic_number (
          put_number 4 3 (
            put_number 8 0 (
              put_number 8 1 (
                put_string
                  (bytes "a")
                  (put_number 4 9 (put_number 4 0 (put_number 8 1 (1 ∷ []))))))))))).1
    ≡ some corrupt
unfolding add_file add_headers read_counts read_number read_bytes number_of read_entries read_entry
    read_string read_many read_value read_array number_bytes put_string
array_of_bytes_corrupt = refl

add_file-SameTensors_example : SameTensors new_loader (add_file new_loader (some cut_off)).0
add_file-SameTensors_example =
    add_file-SameTensors new_loader (some cut_off) corrupt cut_off_corrupt

-- Two rows of one block each, in a tile of two by two.
abbrev tiled_loader : GgufLoader
tiled_loader = record new_loader {
  file = 9 ∷ 1 ∷ 2 ∷ 0 ∷ 0 ∷ 3 ∷ 4 ∷ 0 ∷ 0 ∷ [];
  data_offset = 1;
  meta =
      (bytes "vulkan_native.layout", seen (text (bytes "tiled")))
      ∷ (bytes "vulkan_native.tile_block_cols", seen (uint32 2))
      ∷ (bytes "vulkan_native.tile_rows", seen (uint32 2))
      ∷ [];
}

abbrev half_tensor : GgufTensorMeta
half_tensor = record { name = bytes "w"; dtype = bytes "F16"; shape = 1 ∷ 2 ∷ []; offset = 0 }

abbrev rows : Memory
rows = file_byte (1 ∷ 2 ∷ 3 ∷ 4 ∷ [])

abbrev empty : Memory
empty a = 0

rows-IsTiled : IsTiled (tiling 2 1 2 2 2) (file_byte (1 ∷ 2 ∷ 0 ∷ 0 ∷ 3 ∷ 4 ∷ 0 ∷ 0 ∷ [])) rows
unfolding tiling
rows-IsTiled zero zero zero hr hc hk = refl
rows-IsTiled zero zero (suc zero) hr hc hk = refl
rows-IsTiled (suc zero) zero zero hr hc hk = refl
rows-IsTiled (suc zero) zero (suc zero) hr hc hk = refl
rows-IsTiled zero zero (suc (suc k)) hr hc hk = absurd (omega (arith, hk))
rows-IsTiled (suc zero) zero (suc (suc k)) hr hc hk = absurd (omega (arith, hk))
rows-IsTiled (suc (suc r)) zero k hr hc hk = absurd (omega (arith, hr))
rows-IsTiled r (suc c) k hr hc hk = absurd (omega (arith, hc))

rows-TiledTensor : TiledTensor tiled_loader half_tensor empty rows 1 2 1 2 2 2
unfolding tile_shape meta_str meta_u32 typed find_key same seen gguf_block_info
rows-TiledTensor = record {
  tiled = refl;
  rows_pos = omega arith;
  cols_pos = omega arith;
  dtype = refl;
  shape = refl;
  blocks = refl;
  stored = omega arith;
  holds = rows-IsTiled;
}

read_tensor_data-TiledTensor_example :
    (mem : Memory) × (read_tensor_data tiled_loader half_tensor empty 4 ≡ loaded mem)
    × ((a : ℕ) → a < 4 → mem a ≡ rows a)
read_tensor_data-TiledTensor_example =
    read_tensor_data-TiledTensor tiled_loader half_tensor empty rows 1 2 1 2 2 2 rows-TiledTensor

-- A negative `int32_t` among the metadata comes back as a positive number.
negative_int32 :
    meta_i64 (record new_loader { meta = (bytes "n", seen (int32 (2 ^ 32 - 1))) ∷ [] }) (bytes "n")
    ≡ some 4294967295
unfolding meta_i64 typed find_key same seen
negative_int32 = refl
