-- ===== src/Bm25.antt =====
-- include/nanovllm/bm25.hpp: an index of documents for retrieval. A `double` is a value of the type
-- `D` of a record of the operations that the source uses. A `std::map` is an association list.
pub mod Tokens
pub mod Stuff
pub mod Score
pub mod Build
pub mod Search
pub mod Tests
use Prim.Native.Nat.{bit_and}
use nano_v_llm_cpp.Base.{
  ℕ, zero, suc, ◌+◌, ◌-◌, ◌%◌, ◌^◌, min, Bool, true, false, not, ◌&&◌, ◌||◌, List, [], ◌∷◌, ◌++◌,
  Option, none, some, ◌==◌, ltb, leb, if◌then◌else◌, length, get_or, take, drop, is_empty, map,
  reverse,
}
use nano_v_llm_cpp.Text.{Bytes, bytes, is_digit, same}

-- `decimal n k` is the literal n / 10^k.
pub record Doubles : Type 1 where
  pub D : Type 0
  pub of_nat : ℕ → D
  pub decimal : ℕ → ℕ → D
  pub add : D → D → D
  pub sub : D → D → D
  pub mul : D → D → D
  pub div : D → D → D
  pub log : D → D
  pub lt : D → D → Bool
  pub ne : D → D → Bool

pub record Doc : Type 0 where
  pub id : Bytes
  pub text : Bytes

-- `std::isalnum` on an ASCII character
unfoldable pub is_alnum : ℕ → Bool
unfolding is_digit
is_alnum c = is_digit c || (leb b'A' c && leb c b'Z') || (leb b'a' c && leb c b'z')

-- `std::tolower`
unfoldable pub to_lower : ℕ → ℕ
to_lower c = if leb b'A' c && leb c b'Z' then c + 32 else c

-- `(next & 0xC0) == 0x80`
unfoldable pub is_continuation : ℕ → Bool
is_continuation c = bit_and c 0xC0 == 0x80

-- The continuation bytes at the front.
unfoldable pub continuation_run : Bytes → Bytes
continuation_run [] = []
continuation_run (c ∷ s) =
    let rest = continuation_run s in if is_continuation c then c ∷ rest else []

-- The ASCII letters and digits at the front.
unfoldable pub alnum_run : Bytes → Bytes
alnum_run [] = []
alnum_run (c ∷ s) = let rest = alnum_run s in if ltb c 0x80 && is_alnum c then c ∷ rest else []

-- The loop of `toks`, for at most `fuel` rounds.
unfoldable pub toks_loop : ℕ → Bytes → List Bytes
toks_loop zero s = []
toks_loop (suc fuel) [] = []
toks_loop (suc fuel) (c ∷ s) =
    let tail_bytes = continuation_run s in
    let run = alnum_run (c ∷ s) in
    let after_multibyte = toks_loop fuel (drop (length tail_bytes) s) in
    let after_run = toks_loop fuel (drop (length run) (c ∷ s)) in
    let after_other = toks_loop fuel s in
    if leb 0x80 c
    then (c ∷ tail_bytes) ∷ after_multibyte
    else if is_alnum c
    then map to_lower run ∷ after_run
    else after_other

-- Each round takes a character at least.
unfoldable pub toks : Bytes → List Bytes
toks s = toks_loop (length s) s

module _ {ℓ} {V : Type ℓ} where
  unfoldable pub lookup : Bytes → List (Bytes × V) → Option V
  lookup k [] = none
  lookup k ((j, v) ∷ m) = if same k j then some v else lookup k m

-- `df[t]++`
unfoldable pub bump : Bytes → List (Bytes × ℕ) → List (Bytes × ℕ)
bump t [] = (t, 1) ∷ []
bump t ((j, n) ∷ m) = if same t j then (j, n + 1) ∷ m else (j, n) ∷ bump t m

unfoldable pub bump_all : List Bytes → List (Bytes × ℕ) → List (Bytes × ℕ)
bump_all [] m = m
bump_all (t ∷ ts) m = bump_all ts (bump t m)

abbrev pub has_key : Bytes → List Bytes → Bool
has_key t [] = false
has_key t (u ∷ us) = same t u || has_key t us

-- The terms of a document, each once, in the order of their first occurrence.
unfoldable pub distinct : List Bytes → List Bytes → List Bytes
distinct seen [] = seen
distinct seen (t ∷ ts) = distinct (if has_key t seen then seen else seen ++ (t ∷ [])) ts

-- In how many documents each term stands.
unfoldable pub document_frequencies : List Doc → List (Bytes × ℕ) → List (Bytes × ℕ)
document_frequencies [] df = df
document_frequencies (d ∷ ds) df = document_frequencies ds (bump_all (distinct [] (toks d.text)) df)

unfoldable pub total_length : List Doc → ℕ
total_length [] = 0
total_length (d ∷ ds) = length (toks d.text) + total_length ds

-- The first document with that id.
unfoldable pub find_doc : Bytes → List Doc → Option Doc
find_doc id [] = none
find_doc id (d ∷ ds) = if same d.id id then some d else find_doc id ds

-- "\n\n[doc:" + id + "]\n"
unfoldable pub header : Bytes → Bytes
header id = (10 ∷ 10 ∷ bytes "[doc:") ++ (id ++ (b']' ∷ 10 ∷ []))

-- The branch that cuts a chunk to what is left of `max_chars`; `-` of `size_t` wraps around.
unfoldable pub truncated : Doc → Bytes → ℕ → ℕ → Bytes → Bytes
truncated doc id max_chars current_len result =
    let available = (max_chars + 2 ^ 64 - current_len) % 2 ^ 64 in
    if available == 0
    then result
    else if leb available (length (header id))
    then take available (header id) ++ result
    else header id ++ (take (available - length (header id)) doc.text ++ result)

-- The loop of `stuff` over the ids of the hits, the last first.
unfoldable pub stuff_loop : List Doc → ℕ → ℕ → Bytes → List Bytes → Bytes
stuff_loop docs max_chars current_len result [] = result
stuff_loop docs max_chars current_len result (id ∷ ids) = elim (find_doc id docs) [
  | none ↦ stuff_loop docs max_chars current_len result ids
  | some doc ↦
      let chunk = header id ++ doc.text in
      let more = stuff_loop docs max_chars (current_len + length chunk) (chunk ++ result) ids in
      if leb (current_len + length chunk) max_chars
      then more
      else truncated doc id max_chars current_len result
]

pub record Hit (D : Type 0) : Type 0 where
  pub id : Bytes
  pub score : D

module _ (f : Doubles) where
  pub record Index : Type 0 where
    pub docs : List Doc
    pub doc_tokens : List (List Bytes)
    pub idf : List (Bytes × f.D)
    pub avgdl : f.D

  unfoldable pub new_index : Index
  new_index = record { docs = []; doc_tokens = []; idf = []; avgdl = f.of_nat 0 }

  unfoldable pub add : Index → Doc → Index
  add ix d = record ix { docs = ix.docs ++ (d ∷ []) }

  -- log(1 + (N - freq + 0.5) / (freq + 0.5))
  unfoldable pub idf_of : ℕ → ℕ → f.D
  idf_of n freq =
      let half = f.decimal 5 1 in
      f.log (
        f.add (f.of_nat 1)
          (f.div (f.add (f.sub (f.of_nat n) (f.of_nat freq)) half) (f.add (f.of_nat freq) half)))

  unfoldable pub idfs : ℕ → List (Bytes × ℕ) → List (Bytes × f.D)
  idfs n [] = []
  idfs n ((t, freq) ∷ df) = (t, idf_of n freq) ∷ idfs n df

  unfoldable pub build : Index → Index
  build ix = record ix {
    doc_tokens = map (λ d. toks d.text) ix.docs;
    idf = idfs (length ix.docs) (document_frequencies ix.docs []);
    avgdl =
        if is_empty ix.docs
        then f.of_nat 0
        else f.div (f.of_nat (total_length ix.docs)) (f.of_nat (length ix.docs));
  }

  -- k1 is 1.2 and b is 0.75.
  unfoldable pub term_score : Index → f.D → ℕ → Bytes → f.D → f.D
  term_score ix doc_len freq qt score =
      let tf = f.of_nat freq in
      let k1 = f.decimal 12 1 in
      let b = f.decimal 75 2 in
      let idf_val : f.D = elim (lookup qt ix.idf) [ none ↦ f.of_nat 0 | some v ↦ v ] in
      let denom =
        f.add tf (f.mul k1 (f.add (f.sub (f.of_nat 1) b) (f.div (f.mul b doc_len) ix.avgdl))) in
      if f.lt (f.of_nat 0) denom
      then f.add score (f.mul idf_val (f.div (f.mul tf (f.add k1 (f.of_nat 1))) denom))
      else score

  -- The loop over the terms of the query.
  unfoldable pub score_from : Index → List (Bytes × ℕ) → f.D → List Bytes → f.D → f.D
  score_from ix term_freq doc_len [] score = score
  score_from ix term_freq doc_len (qt ∷ qts) score = elim (lookup qt term_freq) [
    | none ↦ score_from ix term_freq doc_len qts score
    | some freq ↦ score_from ix term_freq doc_len qts (term_score ix doc_len freq qt score)
  ]

  unfoldable pub doc_score : Index → List Bytes → List Bytes → f.D
  doc_score ix q_tokens tokens =
      score_from ix (bump_all tokens []) (f.of_nat (length tokens)) q_tokens (f.of_nat 0)

  -- The loop over the documents, from number `i` on.
  unfoldable pub scores_from : Index → List Bytes → ℕ → List (List Bytes) → List (f.D × ℕ)
  scores_from ix q_tokens i [] = []
  scores_from ix q_tokens i (tokens ∷ rest) =
      (doc_score ix q_tokens tokens, i) ∷ scores_from ix q_tokens (i + 1) rest

  -- The comparison of `std::sort`.
  unfoldable pub ahead : f.D × ℕ → f.D × ℕ → Bool
  ahead a b = if f.ne a.0 b.0 then f.lt b.0 a.0 else ltb a.1 b.1

  unfoldable pub insert_sorted : f.D × ℕ → List (f.D × ℕ) → List (f.D × ℕ)
  insert_sorted a [] = a ∷ []
  insert_sorted a (b ∷ bs) = if ahead b a then b ∷ insert_sorted a bs else a ∷ b ∷ bs

  -- `std::sort`: no two entries have the same number, so that the order has one outcome.
  unfoldable pub sorted : List (f.D × ℕ) → List (f.D × ℕ)
  sorted [] = []
  sorted (a ∷ as') = insert_sorted a (sorted as')

  abbrev no_doc : Doc
  no_doc = record { id = []; text = [] }

  unfoldable pub hits_of : List Doc → List (f.D × ℕ) → List (Hit f.D)
  hits_of docs [] = []
  hits_of docs ((score, i) ∷ rest) =
      record { id = (get_or docs i no_doc).id; score = score } ∷ hits_of docs rest

  -- A `top_k` below 1 is 0 here. The documents are those that were there at the last `build`.
  unfoldable pub search : Index → Bytes → ℕ → List (Hit f.D)
  search ix query top_k =
      if top_k == 0 || is_empty ix.docs || is_empty query || is_empty (toks query)
      then []
      else let scores = sorted (scores_from ix (toks query) 0 ix.doc_tokens) in
        hits_of ix.docs (take (min top_k (length scores)) scores)

  unfoldable pub stuff : Index → Bytes → Bytes → ℕ → ℕ → Bytes
  stuff ix prompt query top_k max_chars =
      let hits = search ix query top_k in
      stuff_loop ix.docs max_chars (length prompt) prompt (reverse (map (λ h. h.id) hits))
