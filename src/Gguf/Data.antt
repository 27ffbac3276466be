-- ===== src/Gguf/Data.antt =====
-- src/gguf.cpp: the bytes of a tensor, which a file may hold in tiles.
-- The file is read again as it was when its header was read, and sums and products of sizes do not wrap.
use nano_v_llm_cpp.Base.{
  ℕ, zero, suc, ◌+◌, ◌-◌, ◌*◌, ◌/◌, ◌%◌, not, ◌&&◌, ◌||◌, List, [], ◌∷◌, Option, none, some, ◌==◌,
  ltb, leb, if◌then◌else◌, length, drop, is_empty,
}
use nano_v_llm_cpp.Text.{Bytes, bytes, same}
use nano_v_llm_cpp.Text.Maps.{find_key}
use nano_v_llm_cpp.Gguf.Loader.{GgufTensorMeta, GgufLoader}
use nano_v_llm_cpp.Gguf.Lookup.{meta_str, meta_u32}

-- The values and the bytes of a block, by the name of its kind.
abbrev pub block_sizes : List (Bytes × (ℕ × ℕ))
block_sizes =
    (bytes "F32", (1, 4))
    ∷ (bytes "F16", (1, 2))
    ∷ (bytes "BF16", (1, 2))
    ∷ (bytes "Q4_0", (32, 18))
    ∷ (bytes "Q4_1", (32, 20))
    ∷ (bytes "Q5_0", (32, 22))
    ∷ (bytes "Q5_1", (32, 24))
    ∷ (bytes "Q8_0", (32, 34))
    ∷ (bytes "Q2_K", (256, 84))
    ∷ (bytes "Q3_K", (256, 110))
    ∷ (bytes "Q4_K", (256, 144))
    ∷ (bytes "Q5_K", (256, 176))
    ∷ (bytes "Q6_K", (256, 210))
    ∷ (bytes "Q8_K", (256, 292))
    ∷ (bytes "IQ4_NL", (32, 18))
    ∷ (bytes "IQ4_XS", (256, 136))
    ∷ []

unfoldable pub gguf_block_info : Bytes → Option (ℕ × ℕ)
gguf_block_info dtype = find_key dtype block_sizes

-- A buffer gives the byte at each index.
abbrev pub Memory : Type 0
Memory = ℕ → ℕ

-- `memcpy(out + dst, raw + src, n)`
unfoldable pub copy : ℕ → ℕ → ℕ → Memory → Memory → Memory
copy dst src n raw out a = if leb dst a && ltb a (dst + n) then raw (src + (a - dst)) else out a

-- `for (i = 0; i < n; ++i)`
unfoldable pub for_each {ℓ} : {S : Type ℓ} → ℕ → (ℕ → S → S) → S → S
for_each zero body s = s
for_each (suc n) body s = body n (for_each n body s)

-- The numbers of a tensor in tiles: rows and blocks in a row, and bytes in a block, rows and columns of
-- a tile, and tiles down and across.
pub record Tiling : Type 0 where
  pub nrows : ℕ
  pub bpr : ℕ
  pub bb : ℕ
  pub tr : ℕ
  pub tbc : ℕ
  pub ntr : ℕ
  pub ntc : ℕ

-- The body of the four loops.
unfoldable pub place_block : Tiling → Memory → ℕ → ℕ → ℕ → ℕ → Memory → Memory
place_block g raw tyr tyc r c out =
    let lr = tyr * g.tr + r in
    let lbc = tyc * g.tbc + c in
    if leb g.nrows lr || leb g.bpr lbc
    then out
    else copy ((lr * g.bpr + lbc) * g.bb) ((((tyr * g.ntc + tyc) * g.tr + r) * g.tbc + c) * g.bb)
        g.bb raw out

unfoldable pub untile : Tiling → Memory → Memory → Memory
untile g raw = for_each g.ntr λ tyr.
    for_each g.ntc λ tyc. for_each g.tr λ r. for_each g.tbc λ c. place_block g raw tyr tyc r c

pub data DataError : Type 0 where
  unknown_dtype cols_not_multiple size_mismatch truncated : DataError

pub data Loaded : Type 0 where
  loaded : Memory → Loaded
  refused : DataError → Loaded

abbrev pub file_byte : Bytes → Memory
file_byte [] i = 0
file_byte (c ∷ s) zero = c
file_byte (c ∷ s) (suc i) = file_byte s i

-- `read_raw`: the bytes of the tensor's data from its place in the file on.
unfoldable pub read_raw : GgufLoader → GgufTensorMeta → ℕ → Option Memory
read_raw l m n =
    let s = drop (l.data_offset + m.offset) l.file in
    if ltb (length s) n then none else some (file_byte s)

-- The rows and block columns of a tile, where the file says that its tensors are tiled.
unfoldable pub tile_shape : GgufLoader → Option (ℕ × ℕ)
tile_shape l = elim (meta_str l (bytes "vulkan_native.layout")) [
  | none ↦ none
  | some layout ↦
      if not (same layout (bytes "tiled"))
      then none
      else elim (meta_u32 l (bytes "vulkan_native.tile_rows")) [
        | none ↦ none
        | some tr ↦ elim (meta_u32 l (bytes "vulkan_native.tile_block_cols")) [
          | none ↦ none
          | some tbc ↦ if ltb 0 tr && ltb 0 tbc then some (tr, tbc) else none
        ]
      ]
]

-- `(n + m - 1) / m`
abbrev pub tiles : ℕ → ℕ → ℕ
tiles n m = (n + m - 1) / m

unfoldable pub tiling : ℕ → ℕ → ℕ → ℕ → ℕ → Tiling
tiling nrows bpr bb tr tbc = record {
  nrows = nrows;
  bpr = bpr;
  bb = bb;
  tr = tr;
  tbc = tbc;
  ntr = tiles nrows tr;
  ntc = tiles bpr tbc;
}

-- The tiled branch, for `ncols` columns and `nrows` rows.
unfoldable pub read_tiled : GgufLoader → GgufTensorMeta → Memory → ℕ → ℕ → ℕ → ℕ × ℕ → Loaded
read_tiled l m out size ncols nrows shape = elim (gguf_block_info m.dtype) [
  | none ↦ refused unknown_dtype
  | some (bv, bb) ↦
      let g = tiling nrows (ncols / bv) bb shape.0 shape.1 in
      if not (ncols % bv == 0)
      then refused cols_not_multiple
      else if not (size == nrows * g.bpr * bb)
      then refused size_mismatch
      else elim (read_raw l m (g.ntr * g.tr * (g.ntc * g.tbc) * bb)) [
        | none ↦ refused truncated
        | some raw ↦ loaded (untile g raw out)
      ]
]

unfoldable pub read_plain : GgufLoader → GgufTensorMeta → ℕ → Loaded
read_plain l m size = elim (read_raw l m size) [ none ↦ refused truncated | some raw ↦ loaded raw ]

-- `out` is the buffer before the call, of `size` bytes; only these are meant of the result.
unfoldable pub read_tensor_data : GgufLoader → GgufTensorMeta → Memory → ℕ → Loaded
read_tensor_data l m out size = elim (tile_shape l) [
  | none ↦ read_plain l m size
  | some shape ↦ elim m.shape [
    | [] ↦ read_plain l m size
    | ncols ∷ rest ↦ elim rest [
      | [] ↦ read_plain l m size
      | nrows ∷ more ↦
          if is_empty more then read_tiled l m out size ncols nrows shape else read_plain l m size
    ]
  ]
]
