-- ===== src/Gguf/Readers.antt =====
-- What the readers of src/gguf.cpp make of the numbers, strings, values and tensors' headers that a
-- writer of such files writes.
use nano_v_llm_cpp.Base.{
  ℕ, zero, suc, ◌/◌, ◌^◌, ◌<◌, ◌≡◌, refl, List, [], ◌∷◌, ◌++◌, Option, none, some, arith, length,
  length-append, take-length_append, drop-length_append, map, subst, sym, ap, ◌∙◌, inl, inr, ◌%◌,
}
use mathlib.Core.List.{map-id}
use nano_v_llm_cpp.Text.{Bytes}
use nano_v_llm_cpp.Gguf.{
  ◌>>=◌, Read, number_of, read_bytes, read_number, read_string, read_many, GgufMetaValue, no_value,
  pure, sign_extend, replicate_zero, read_array, read_value,
}
use nano_v_llm_cpp.Gguf.Loader.{read_entry, read_tensor}
use nano_v_llm_cpp.Gguf.Format.{
  number_bytes, put_number, put_string, put_many, put_array, Metadata, uint8, int8, boolean, uint16,
  int16, uint32, int32, uint64, int64, float32, float64, text, texts, booleans, uint32s, int32s,
  uint64s, int64s, float32s, float64s, put_int32, FitsInt32, kind, put_value, seen, Entry,
  put_entry, TensorHeader, put_tensor, meta_of, Each, Fits, Short, ValueFits, TensorFits, EntryFits,
}

pub length-number_bytes : (n v : ℕ) → length (number_bytes n v) ≡ n
unfolding number_bytes
length-number_bytes zero v = refl
length-number_bytes (suc n) v = ground (arith, length-number_bytes n (v / 256))

pub number_of-number_bytes : (n v : ℕ) → v < 256 ^ n → number_of (number_bytes n v) ≡ v
unfolding number_of number_bytes
number_of-number_bytes zero v h = omega arith
number_of-number_bytes (suc n) v h =
    let below : v / 256 < 256 ^ n = ground (arith, h) in
    omega (arith, number_of-number_bytes n (v / 256) below)

pub read_bytes-append : (s rest : Bytes) → read_bytes (length s) (s ++ rest) ≡ some (s, rest)
unfolding read_bytes
read_bytes-append s rest =
    rw (take-length_append s rest, drop-length_append s rest) ground (arith, length-append s rest)

read_bytes-number :
    (n v : ℕ) (rest : Bytes)
    → read_bytes n (number_bytes n v ++ rest) ≡ some (number_bytes n v, rest)
read_bytes-number n v rest =
    subst (λ k. read_bytes k (number_bytes n v ++ rest) ≡ some (number_bytes n v, rest))
      (length-number_bytes n v) (read_bytes-append (number_bytes n v) rest)

pub read_number-put_number :
    (n v : ℕ) (rest : Bytes) → v < 256 ^ n → read_number n (put_number n v rest) ≡ some (v, rest)
unfolding read_number
read_number-put_number n v rest h =
    rw (read_number, read_bytes-number n v rest, number_of-number_bytes n v h) refl

module _ {ℓ κ} {A : Type ℓ} {B : Type κ} where
  -- A reader goes on with what the one before it read.
  pub then_read :
      (r : Read A) (f : A → Read B) {s : Bytes} {a : A} {t : Bytes} {o : Option (B × Bytes)}
      → r s ≡ some (a, t)
      → f a t ≡ o
      → (r >>= f) s ≡ o
  then_read r f {o = o} e h =
      subst (λ x. (elim x [ none ↦ none | some (b, u) ↦ f b u ]) ≡ o) (sym e) h

pub read_string-put_string :
    (s rest : Bytes) → length s < 256 ^ 8 → read_string (put_string s rest) ≡ some (s, rest)
unfolding read_string put_string
read_string-put_string s rest h =
    then_read (read_number 8) (λ len. read_bytes len)
      (read_number-put_number 8 (length s) (s ++ rest) h) (read_bytes-append s rest)

module _ {ℓ κ} {A : Type ℓ} {B : Type κ} (r : Read B) (put : A → Bytes → Bytes) (got : A → B) where
  -- What is written one after the other is read one after the other.
  pub read_many-put_many :
      (P : A → Type 0)
      → ((x : A) (rest : Bytes) → P x → r (put x rest) ≡ some (got x, rest))
      → (xs : List A) (rest : Bytes) → Each P xs
      → read_many r (length xs) (put_many put xs rest) ≡ some (map got xs, rest)
  unfolding read_many put_many Each
  read_many-put_many P one [] rest h = refl
  read_many-put_many P one (x ∷ xs) rest (h, hs) =
      rw (read_many, put_many, one x (put_many put xs rest) h, read_many-put_many P one xs rest hs)
        refl

numbers_read :
    (w : ℕ) (ns : List ℕ) (rest : Bytes)
    → Each (Fits w) ns
    → read_many (read_number w) (length ns) (put_many (put_number w) ns rest) ≡ some (ns, rest)
numbers_read w ns rest h =
    subst
      (λ ms.
        read_many (read_number w) (length ns) (put_many (put_number w) ns rest) ≡ some (ms, rest))
      (map-id ns)
      (read_many-put_many (read_number w) (put_number w) (λ n. n) (Fits w)
        (λ n s f. read_number-put_number w n s f) ns rest h)

texts_read :
    (ss : List Bytes) (rest : Bytes)
    → Each Short ss
    → read_many read_string (length ss) (put_many put_string ss rest) ≡ some (ss, rest)
texts_read ss rest h =
    subst (λ ts. read_many read_string (length ss) (put_many put_string ss rest) ≡ some (ts, rest))
      (map-id ss)
      (read_many-put_many read_string put_string (λ s. s) Short
        (λ s t f. read_string-put_string s t f) ss rest h)

-- The type and the count in front of an array.
array_read :
    {A : Type 0} (elem_type : ℕ) (put : A → Bytes → Bytes) (xs : List A) (rest : Bytes)
    (o : Option (GgufMetaValue × Bytes))
    → elem_type < 256 ^ 4
    → Short xs
    → read_array elem_type (length xs) (no_value 9) (put_many put xs rest) ≡ o
    → (read_number 4 >>= (λ t. read_number 8 >>= (λ count. read_array t count (no_value 9))))
        (put_array elem_type put xs rest)
      ≡ o
unfolding put_array
array_read elem_type put xs rest o small short h =
    then_read (read_number 4) _
      (read_number-put_number 4 elem_type (put_number 8 (length xs) (put_many put xs rest)) small)
      (then_read (read_number 8) _
        (read_number-put_number 8 (length xs) (put_many put xs rest) short) h)

-- A number alone.
number_read :
    (w n : ℕ) (rest : Bytes) (v : ℕ → GgufMetaValue)
    → n < 256 ^ w
    → (read_number w >>= (λ b. pure (v b))) (put_number w n rest) ≡ some (v n, rest)
number_read w n rest v h =
    then_read (read_number w) (λ b. pure (v b)) (read_number-put_number w n rest h) refl

-- The numbers of an array.
numbers_then :
    (w : ℕ) (ns : List ℕ) (rest : Bytes) (v : List ℕ → GgufMetaValue)
    → Each (Fits w) ns
    → (read_many (read_number w) (length ns) >>= (λ xs. pure (v xs)))
        (put_many (put_number w) ns rest)
      ≡ some (v ns, rest)
numbers_then w ns rest v h =
    then_read (read_many (read_number w) (length ns)) (λ xs. pure (v xs)) (numbers_read w ns rest h)
      refl

sign_extend-mod : (n : ℕ) → FitsInt32 n → sign_extend (n % 2 ^ 32) ≡ n
sign_extend-mod n (inl h) = ground (arith, h)
sign_extend-mod n (inr h) = ground (arith, h)

map-sign_extend :
    (ns : List ℕ) → Each FitsInt32 ns → map sign_extend (map (λ n. n % 2 ^ 32) ns) ≡ ns
unfolding Each
map-sign_extend [] h = refl
map-sign_extend (n ∷ ns) (h, hs) = rw (sign_extend-mod n h, map-sign_extend ns hs) refl

int32s_read :
    (ns : List ℕ) (rest : Bytes)
    → read_many (read_number 4) (length ns) (put_many put_int32 ns rest)
      ≡ some (map (λ n. n % 2 ^ 32) ns, rest)
unfolding Each
int32s_read ns rest =
    read_many-put_many (read_number 4) put_int32 (λ n. n % 2 ^ 32) (λ n. Unit)
      (λ n s u. read_number-put_number 4 (n % 2 ^ 32) s (omega arith)) ns rest (all ns)
  where
    all : (xs : List ℕ) → Each (λ n. Unit {0}) xs
    all [] = tt
    all (x ∷ xs) = (tt, all xs)

replicate_zero-map : (ns : List ℕ) → replicate_zero (length ns) ≡ map (λ n. 0) ns
replicate_zero-map [] = refl
replicate_zero-map (n ∷ ns) = rw (replicate_zero-map ns) refl

pub read_value-put_value :
    (v : Metadata) (rest : Bytes)
    → ValueFits v
    → read_value (kind v) (put_value v rest) ≡ some (seen v, rest)
unfolding read_value read_array kind put_value put_array seen ValueFits
read_value-put_value (uint8 n) rest h = number_read 1 n rest _ h
read_value-put_value (int8 n) rest h = number_read 1 n rest _ h
read_value-put_value (boolean n) rest h = number_read 1 n rest _ h
read_value-put_value (uint16 n) rest h = number_read 2 n rest _ h
read_value-put_value (int16 n) rest h = number_read 2 n rest _ h
read_value-put_value (uint32 n) rest h = number_read 4 n rest _ h
read_value-put_value (int32 n) rest h = number_read 4 n rest _ h
read_value-put_value (uint64 n) rest h = number_read 8 n rest _ h
read_value-put_value (int64 n) rest h = number_read 8 n rest _ h
read_value-put_value (float32 n) rest h = number_read 4 n rest _ h
read_value-put_value (float64 n) rest h = number_read 8 n rest _ h
read_value-put_value (text s) rest h =
    then_read read_string _ (read_string-put_string s rest h) refl
read_value-put_value (texts ss) rest (l, h) =
    array_read 8 put_string ss rest _ (omega arith) l
      (then_read (read_many read_string (length ss)) _ (texts_read ss rest h) refl)
read_value-put_value (booleans ns) rest (l, h) =
    array_read 7 (put_number 1) ns rest _ (omega arith) l (numbers_then 1 ns rest _ h)
read_value-put_value (uint32s ns) rest (l, h) =
    array_read 4 (put_number 4) ns rest _ (omega arith) l (numbers_then 4 ns rest _ h)
read_value-put_value (int32s ns) rest (l, h) = array_read 5 put_int32 ns rest _ (omega arith) l (
    then_read (read_many (read_number 4) (length ns)) _ (int32s_read ns rest)
      (ap (λ xs. some (record (no_value 9) { iarr = xs }, rest)) (map-sign_extend ns h)))
read_value-put_value (uint64s ns) rest (l, h) =
    array_read 10 (put_number 8) ns rest _ (omega arith) l (numbers_then 8 ns rest _ h)
read_value-put_value (int64s ns) rest (l, h) =
    array_read 11 (put_number 8) ns rest _ (omega arith) l (numbers_then 8 ns rest _ h)
read_value-put_value (float32s ns) rest (l, h) =
    array_read 6 (put_number 4) ns rest _ (omega arith) l (numbers_then 4 ns rest _ h)
read_value-put_value (float64s ns) rest (l, h) =
    array_read 12 (put_number 8) ns rest _ (omega arith) l (
      numbers_then 8 ns rest _ h
      ∙ ap (λ xs. some (record (no_value 9) { iarr = xs }, rest)) (replicate_zero-map ns))

pub read_tensor-put_tensor :
    (t : TensorHeader) (rest : Bytes)
    → TensorFits t
    → read_tensor (put_tensor t rest) ≡ some (meta_of t, rest)
unfolding read_tensor put_tensor meta_of TensorFits
read_tensor-put_tensor t rest (name, dims, shape, type, offset) =
    let after_type = put_number 8 t.offset rest in
    let after_shape = put_number 4 t.type after_type in
    let after_dims = put_many (put_number 8) t.shape after_shape in
    then_read read_string _
      (read_string-put_string t.name (put_number 4 (length t.shape) after_dims) name)
      (then_read (read_number 4) _ (read_number-put_number 4 (length t.shape) after_dims dims) (
        then_read (read_many (read_number 8) (length t.shape)) _
          (numbers_read 8 t.shape after_shape shape)
          (then_read (read_number 4) _ (read_number-put_number 4 t.type after_type type)
            (then_read (read_number 8) _ (read_number-put_number 8 t.offset rest offset) refl))))

kind_fits : (v : Metadata) → kind v < 256 ^ 4
unfolding kind
kind_fits v = ground arith

pub read_entry-put_entry :
    (e : Entry) (rest : Bytes)
    → EntryFits e
    → read_entry (put_entry e rest) ≡ some ((e.0, seen e.1), rest)
unfolding read_entry put_entry EntryFits
read_entry-put_entry (k, v) rest (short, fits) =
    let after_key = put_number 4 (kind v) (put_value v rest) in
    then_read read_string _ (read_string-put_string k after_key short) (
      then_read (read_number 4) _
        (read_number-put_number 4 (kind v) (put_value v rest) (kind_fits v))
        (then_read (read_value (kind v)) _ (read_value-put_value v rest fits) refl))
