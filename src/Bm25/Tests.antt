-- ===== src/Bm25/Tests.antt =====
-- Runs of include/nanovllm/bm25.hpp, with natural numbers for the doubles.
use nano_v_llm_cpp.Base.{
  ℕ, ◌+◌, ◌-◌, ◌^◌, ◌<◌, length, is_empty, false, ◌*◌, ◌/◌, ◌≡◌, refl, not, [], ◌∷◌, ◌++◌, none,
  some, if◌then◌else◌, arith, ltb, ◌==◌,
}
use nano_v_llm_cpp.Text.{bytes, same, is_digit}
use nano_v_llm_cpp.Bm25.{
  Doubles, Doc, is_alnum, to_lower, is_continuation, continuation_run, alnum_run, toks_loop, toks,
  find_doc, header, stuff_loop, Index, lookup, build, search, stuff,
}
use nano_v_llm_cpp.Bm25.Build.{containing, reference_idf, build-idf}
use nano_v_llm_cpp.Bm25.Tokens.{concat, kept, NonEmpty, toks-kept}
use nano_v_llm_cpp.Bm25.Stuff.{Filled, stuff-Filled, stuff_loop-over_cap}
use nano_v_llm_cpp.Bm25.Search.{IsOrdered, Ranked, search-Ranked}

-- The letters é and à between two words.
splits :
    toks (bytes "Ab1," ++ (0xC3 ∷ 0xA9 ∷ 0xC3 ∷ 0xA0 ∷ b'x' ∷ []))
    ≡ bytes "ab1" ∷ (0xC3 ∷ 0xA9 ∷ []) ∷ (0xC3 ∷ 0xA0 ∷ []) ∷ bytes "x" ∷ []
unfolding toks toks_loop continuation_run is_continuation alnum_run is_alnum is_digit to_lower
splits = refl

toks-kept_example :
    (concat (toks (bytes "A b")) ≡ kept (bytes "A b")) × NonEmpty (toks (bytes "A b"))
toks-kept_example = toks-kept (bytes "A b") (omega arith)

abbrev naturals : Doubles
naturals = record {
  D = ℕ;
  of_nat = λ n. n;
  decimal = λ n k. n;
  add = λ a b. a + b;
  sub = λ a b. a - b;
  mul = λ a b. a * b;
  div = λ a b. a / b;
  log = λ a. a;
  lt = ltb;
  ne = λ a b. not (a == b);
}

naturals-IsOrdered : IsOrdered naturals
naturals-IsOrdered = record {
  lt_asym = λ x y h. ground (arith, h);
  ne_comm = λ x y. ground arith;
  lt_ne = λ x y h. ground (arith, h);
}

abbrev doc : Doc
doc = record { id = bytes "d"; text = bytes "some text" }

abbrev index : Index naturals
index = record {
  docs = doc ∷ [];
  doc_tokens = (bytes "some" ∷ bytes "text" ∷ []) ∷ [];
  idf = [];
  avgdl = 2;
}

stuff-Filled_example :
    Filled 20 (bytes "PROMPT") (stuff naturals index (bytes "PROMPT") (bytes "text") 1 20)
stuff-Filled_example =
    stuff-Filled naturals index (bytes "PROMPT") (bytes "text") 1 20 (omega arith) (omega arith)

found : find_doc (bytes "d") (doc ∷ []) ≡ some doc
unfolding find_doc same
found = refl

small : length (header (bytes "d")) + length doc.text + length (bytes "PROMPT") < 2 ^ 64 + 2
unfolding header
small = omega arith

-- A cap of 2 and a prompt of 6 characters.
stuff_loop-over_cap_example :
    stuff_loop (doc ∷ []) 2 6 (bytes "PROMPT") (bytes "d" ∷ [])
    ≡ header (bytes "d") ++ (bytes "some text" ++ bytes "PROMPT")
stuff_loop-over_cap_example =
    stuff_loop-over_cap (doc ∷ []) 2 (bytes "PROMPT") (bytes "d") [] doc found (omega arith) small

has_token : is_empty (toks (bytes "text")) ≡ false
unfolding toks toks_loop alnum_run is_alnum is_digit to_lower
has_token = refl

search-Ranked_example :
    Ranked naturals index (toks (bytes "text")) 1 (search naturals index (bytes "text") 1)
search-Ranked_example =
    search-Ranked naturals naturals-IsOrdered index (bytes "text") 1 (omega arith) refl refl
      has_token

build-idf_example : lookup (bytes "text") (build naturals index).idf ≡ (
    if containing (bytes "text") (doc ∷ []) == 0
    then none
    else some (reference_idf naturals 1 (containing (bytes "text") (doc ∷ []))))
build-idf_example = build-idf naturals index (bytes "text")
