-- ===== src/Gguf/Header.antt =====
-- `add_file` of src/gguf.cpp on a file that a writer of such files wrote.
use nano_v_llm_cpp.Base.{
  ℕ, ◌+◌, ◌-◌, ◌*◌, ◌/◌, ◌%◌, ◌^◌, ◌≤◌, ◌<◌, ◌≡◌, refl, false, List, [], ◌∷◌, Option, none, some,
  arith, ◌==◌, if◌then◌else◌, length, map, sym, ◌∙◌, ap,
}
use native.Mathlib.Nat.{div-add-mod', mod-lt, add-zero}
use nano_v_llm_cpp.Base.Division.{mod-of_parts}
use nano_v_llm_cpp.Text.{Bytes, bytes, same}
use nano_v_llm_cpp.Text.Maps.{find_key, assign, find_key-assign}
use nano_v_llm_cpp.Gguf.{read_number, GgufMetaValue}
use nano_v_llm_cpp.Gguf.Loader.{
  read_entries, read_tensor, read_counts, GgufTensorMeta, GgufLoader, new_loader, magic_number,
  alignment_of, add_tensors, align_up, finish, add_headers, add_file,
}
use nano_v_llm_cpp.Gguf.Lookup.{tensor}
use nano_v_llm_cpp.Gguf.Format.{
  put_number, put_many, Metadata, uint32, seen, Entry, put_entry, TensorHeader, put_tensor, meta_of,
  put_file, Each, Fits, Short, ValueFits, TensorFits, EntryFits,
}
use nano_v_llm_cpp.Gguf.Readers.{
  then_read, read_number-put_number, read_many-put_many, read_tensor-put_tensor,
  read_entry-put_entry,
}

module _ {ℓ} {V : Type ℓ} where
  -- What the last pair with a key holds.
  unfoldable pub latest : Bytes → List (Bytes × V) → Option V
  latest k [] = none
  latest k ((j, v) ∷ kvs) = elim (latest k kvs) [
    | none ↦ if same k j then some v else none
    | some w ↦ some w
  ]

  abbrev or_else : Option V → Option V → Option V
  or_else none w = w
  or_else (some v) w = some v

  unfoldable assign_all : List (Bytes × V) → List (Bytes × V) → List (Bytes × V)
  assign_all [] m = m
  assign_all ((k, v) ∷ kvs) m = assign_all kvs (assign k v m)

  find_key-assign_all :
      (k : Bytes) (kvs m : List (Bytes × V))
      → find_key k (assign_all kvs m) ≡ or_else (latest k kvs) (find_key k m)
  unfolding latest assign_all
  find_key-assign_all k [] m = refl
  find_key-assign_all k ((j, v) ∷ kvs) m =
      ground (arith, find_key-assign_all k kvs (assign j v m), find_key-assign j k v m)

abbrev pub named_tensor : TensorHeader → Bytes × GgufTensorMeta
named_tensor t = (t.name, meta_of t)

abbrev pub seen_entry : Entry → Bytes × GgufMetaValue
seen_entry e = (e.0, seen e.1)

add_tensors-assign_all :
    (ts : List TensorHeader) (m : List (Bytes × GgufTensorMeta))
    → add_tensors (map meta_of ts) m ≡ assign_all (map named_tensor ts) m
unfolding add_tensors assign_all meta_of
add_tensors-assign_all [] m = refl
add_tensors-assign_all (t ∷ ts) m = add_tensors-assign_all ts (assign t.name (meta_of t) m)

read_entries-put_many :
    (kvs : List Entry) (rest : Bytes) (m : List (Bytes × GgufMetaValue))
    → Each EntryFits kvs
    → read_entries (length kvs) (put_many put_entry kvs rest) m
      ≡ (assign_all (map seen_entry kvs) m, some rest)
unfolding read_entries put_many assign_all Each
read_entries-put_many [] rest m h = refl
read_entries-put_many (e ∷ kvs) rest m (f, h) =
    rw (read_entries, put_many, read_entry-put_entry e (put_many put_entry kvs rest) f)
      (read_entries-put_many kvs rest (assign e.0 (seen e.1) m) h)

-- The alignment that the entries give, and 32 where they give none.
unfoldable pub alignment_given : Option Metadata → ℕ
alignment_given (some (uint32 n)) = n
alignment_given _ = 32

-- The data begin at the first multiple of the alignment that is not in the headers.
pub record StartsAt (header alignment offset : ℕ) : Type 0 where
  pub behind : header ≤ offset
  pub first : offset < header + alignment
  pub multiple : offset % alignment ≡ 0

align_up-StartsAt : (p a : ℕ) → 0 < a → StartsAt p a (align_up p a)
unfolding align_up
align_up-StartsAt p a h =
    let x = p + a - 1 in
    let parts = div-add-mod' x a in
    let small = mod-lt x h in
    record {
      behind = omega (arith, h, parts, small);
      first = omega (arith, h, parts, small);
      multiple = ap (λ y. y % a) (sym (add-zero (x / a * a))) ∙ mod-of_parts a (x / a) 0 h;
    }

map_latest :
    (k : Bytes) (kvs : List Entry)
    → latest k (map seen_entry kvs) ≡ (elim (latest k kvs) [ none ↦ none | some v ↦ some (seen v) ])
unfolding latest
map_latest k [] = refl
map_latest k ((j, v) ∷ kvs) = ground (arith, map_latest k kvs)

latest-fits :
    (k : Bytes) (kvs : List Entry) (v : Metadata)
    → Each EntryFits kvs
    → latest k kvs ≡ some v
    → ValueFits v
unfolding latest Each EntryFits
latest-fits k [] v h e = ground arith
latest-fits k ((j, w) ∷ kvs) v ((short, fits), h) e = ground (arith, latest-fits k kvs v h)

-- Only a `uint32_t` counts.
alignment_seen :
    (v : Metadata)
    → ValueFits v
    → (if (seen v).type == 4 then (seen v).i % 2 ^ 32 else 32) ≡ alignment_given (some v)
unfolding alignment_given seen ValueFits
alignment_seen v h = ground (arith, h)

alignment_of-seen :
    (o : Option Metadata) (m : List (Bytes × GgufMetaValue))
    → ((v : Metadata) → o ≡ some v → ValueFits v)
    → find_key (bytes "general.alignment") m ≡ (elim o [ none ↦ none | some v ↦ some (seen v) ])
    → alignment_of m 32 ≡ alignment_given o
unfolding alignment_of alignment_given seen ValueFits
alignment_of-seen none m fits e = rw (alignment_of, e) refl
alignment_of-seen (some v) m fits e = rw (alignment_of, e) (alignment_seen v (fits v refl))

read_counts-put_number :
    (version a b : ℕ) (rest : Bytes)
    → Fits 4 version
    → Fits 8 a
    → Fits 8 b
    → read_counts (put_number 4 version (put_number 8 a (put_number 8 b rest)))
      ≡ some ((a, b), rest)
unfolding read_counts
read_counts-put_number version a b rest hv ha hb =
    then_read (read_number 4) _
      (read_number-put_number 4 version (put_number 8 a (put_number 8 b rest)) hv)
      (then_read (read_number 8) _ (read_number-put_number 8 a (put_number 8 b rest) ha)
        (then_read (read_number 8) _ (read_number-put_number 8 b rest hb) refl))

finish-aligned :
    (l : GgufLoader) (bytes_read : Bytes) (metas : List GgufTensorMeta) (left : Bytes) (a : ℕ)
    → alignment_of l.meta l.alignment ≡ a
    → 0 < a
    → finish l bytes_read metas left ≡ (
      record l {
        file = bytes_read;
        alignment = a;
        data_offset = align_up (length bytes_read - length left) a;
        tensors = add_tensors metas l.tensors;
      },
      none,
    )
unfolding finish
finish-aligned l bytes_read metas left a e h =
    let ne : (a == 0) ≡ false = ground (arith, h) in rw (finish, e, ne) refl

module _ (version : ℕ) (kvs : List Entry) (ts : List TensorHeader) (contents : Bytes) where
  pub record Writable : Type 0 where
    pub version_fits : Fits 4 version
    pub entries_fit : Short kvs × Each EntryFits kvs
    pub tensors_fit : Short ts × Each TensorFits ts
    pub alignment_positive : 0 < alignment_given (latest (bytes "general.alignment") kvs)

  abbrev pub file : Bytes
  file = put_file version kvs ts contents

  pub record ReadBack (l : GgufLoader) : Type 0 where
    pub entries :
        (k : Bytes)
        → find_key k l.meta ≡ (elim (latest k kvs) [ none ↦ none | some v ↦ some (seen v) ])
    pub tensors : (name : Bytes) → tensor l name ≡ latest name (map named_tensor ts)
    pub alignment : l.alignment ≡ alignment_given (latest (bytes "general.alignment") kvs)
    pub starts : StartsAt (length file - length contents) l.alignment l.data_offset
    pub kept : l.file ≡ file

  abbrev entries_read : List (Bytes × GgufMetaValue)
  entries_read = assign_all (map seen_entry kvs) []

  -- The loader that `add_file` has made when it has read the last header.
  add_file-finish :
      Writable
      → add_file new_loader (some file)
        ≡ finish (record new_loader { meta = entries_read }) file (map meta_of ts) contents
  unfolding add_file add_headers put_file
  add_file-finish w =
      let headers = put_many put_tensor ts contents in
      let behind_counts = put_many put_entry kvs headers in
      let behind_magic =
        put_number 4 version (put_number 8 (length ts) (put_number 8 (length kvs) behind_counts)) in
      let magic : read_number 4 file ≡ some (magic_number, behind_magic) =
        read_number-put_number 4 magic_number behind_magic (omega arith) in
      let counts =
        read_counts-put_number version (length ts) (length kvs) behind_counts w.version_fits
          w.tensors_fit.0 w.entries_fit.0 in
      rw
        (
          add_file,
          magic,
          add_headers,
          counts,
          read_entries-put_many kvs headers [] w.entries_fit.1,
          read_many-put_many read_tensor put_tensor meta_of TensorFits read_tensor-put_tensor ts
              contents w.tensors_fit.1,
        )
        (ap (λ r. finish (record new_loader { meta = r.0 }) file (map meta_of ts) contents)
          (read_entries-put_many kvs headers [] w.entries_fit.1))

  entries_found :
      (k : Bytes)
      → find_key k entries_read ≡ (elim (latest k kvs) [ none ↦ none | some v ↦ some (seen v) ])
  unfolding find_key
  entries_found k = ground (arith, find_key-assign_all k (map seen_entry kvs) [], map_latest k kvs)

  alignment_read :
      Writable
      → alignment_of entries_read 32 ≡ alignment_given (latest (bytes "general.alignment") kvs)
  alignment_read w =
      let key = bytes "general.alignment" in
      alignment_of-seen (latest key kvs) entries_read (λ v. latest-fits key kvs v w.entries_fit.1)
        (entries_found key)

  tensors_found :
      (name : Bytes)
      → find_key name (add_tensors (map meta_of ts) []) ≡ latest name (map named_tensor ts)
  unfolding find_key
  tensors_found name = ground (
    arith,
    ap (find_key name) (add_tensors-assign_all ts []),
    find_key-assign_all name (map named_tensor ts) [],
  )

  -- A file that is written in the format, with every number in its width, no array of numbers of 8 or
  -- 16 bits or of arrays, and an alignment above 0, is accepted by a new loader: under each key it has
  -- what the last entry with that key says, under each name the last tensor's header, and its data
  -- begin at the first multiple of the alignment behind the headers. Of what an entry says, a number of
  -- a signed type that stands alone is seen as the unsigned one with its pattern, and an array of
  -- doubles as zeros.
  pub add_file-put_file :
      Writable
      → (add_file new_loader (some file)).1 ≡ none × ReadBack (add_file new_loader (some file)).0
  unfolding tensor
  add_file-put_file w =
      rw
        (
          add_file-finish w,
          finish-aligned (record new_loader { meta = entries_read }) file (map meta_of ts) contents
              (alignment_given (latest (bytes "general.alignment") kvs)) (alignment_read w)
              w.alignment_positive,
        )
        (
          refl,
          record {
            entries = entries_found;
            tensors = tensors_found;
            alignment = refl;
            starts =
                align_up-StartsAt (length file - length contents)
                  (alignment_given (latest (bytes "general.alignment") kvs)) w.alignment_positive;
            kept = refl;
          },
        )
