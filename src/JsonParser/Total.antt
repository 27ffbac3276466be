-- ===== src/JsonParser/Total.antt =====
-- The parser of include/nanovllm/json.hpp runs to its end: `parse` gives it fuel enough.
use nano_v_llm_cpp.Base.{
  ℕ, zero, suc, ◌+◌, ◌*◌, ◌≤◌, ◌<◌, ◌≢◌, inl, inr, true, false, ◌||◌, Bool, [], ◌∷◌, ◌++◌, Option,
  arith, ltb, ◌==◌, if◌then◌else◌, Bool-cases, Option-cases, length, take, drop, length-drop,
}
use nano_v_llm_cpp.Text.{Bytes, bytes, starts_with}
use nano_v_llm_cpp.Text.Find.{starts_with-length}
use nano_v_llm_cpp.Json
use nano_v_llm_cpp.Json.{Json, Items, Fields, push_back, set_field}
use nano_v_llm_cpp.JsonParser.{
  Parsed, parsed, failed, out_of_fuel, bind, ws, peek_at, peek, expect_at, expect, expect_literal,
  boolean, number_run, number, stoul16, unicode_at, escape_at, char_at, string_loop, string,
  after_item, after_field, opened, key, value_at, value, array, object, parse,
}

-- The call came to an end, and where it returned it left fewer than `n` characters.
data Ends {ℓ} {A : Type ℓ} (n : ℕ) : Parsed A → Type ℓ where
  returns : {a : A} {s : Bytes} → length s < n → Ends n (parsed a s)
  throws : {r : _} → Ends n (failed r)

module _ {ℓ κ} {A : Type ℓ} {B : Type κ} where
  Ends-bind :
      {n m : ℕ} {p : Parsed A} {f : A → Bytes → Parsed B}
      → Ends n p
      → ((a : A) (s : Bytes) → length s < n → Ends m (f a s))
      → Ends m (bind p f)
  Ends-bind (returns {a} {s} h) k = k a s h
  Ends-bind throws k = throws

module _ {ℓ} {A : Type ℓ} where
  Ends-ne : {n : ℕ} {p : Parsed A} → Ends n p → p ≢ out_of_fuel
  Ends-ne (returns h) = cc
  Ends-ne throws = cc

  Ends-weaken : {n m : ℕ} {p : Parsed A} → n ≤ m → Ends n p → Ends m p
  Ends-weaken le (returns h) = returns (omega arith)
  Ends-weaken le throws = throws

  Ends-if : {n : ℕ} (b : Bool) {x y : Parsed A} → Ends n x → Ends n y → Ends n (if b then x else y)
  Ends-if true h k = h
  Ends-if false h k = k

length-ws : (s : Bytes) → length (ws s) ≤ length s
unfolding ws
length-ws [] = omega arith
length-ws (c ∷ s) = ground (arith, length-ws s)

peek-Ends : (s : Bytes) → Ends (suc (length s)) (peek s)
unfolding peek
peek-Ends s = at (ws s) (length-ws s)
  where
    at : (t : Bytes) → length t ≤ length s → Ends (suc (length s)) (peek_at t)
    at [] h = throws
    at (c ∷ t) h = returns (omega arith)

expect-Ends : (c : ℕ) (s : Bytes) → Ends (length s) (expect c s)
unfolding expect
expect-Ends c s = at (ws s) (length-ws s)
  where
    at : (t : Bytes) → length t ≤ length s → Ends (length s) (expect_at c t)
    at [] h = throws
    at (d ∷ t) h = elim (Bool-cases (d == c)) [
      | inl e ↦ rw e (returns (omega arith))
      | inr e ↦ rw e throws
    ]

expect_literal-Ends : (lit s : Bytes) → 0 < length lit → Ends (length s) (expect_literal lit s)
unfolding expect_literal
expect_literal-Ends lit s pos = elim (Bool-cases (starts_with lit s)) [
  | inl e ↦ rw e (returns (omega (arith, length-drop (length lit) s, starts_with-length lit s e)))
  | inr e ↦ rw e throws
]

boolean-Ends : (s : Bytes) → Ends (length s) (boolean s)
unfolding boolean
boolean-Ends s = Ends-bind (peek-Ends s) λ c t h. elim (Bool-cases (c == b't')) [
  | inl e ↦ rw e (
      Ends-bind (expect_literal-Ends (bytes "true") t (omega arith)) λ _ u k. returns (omega arith))
  | inr e ↦ rw e (
      Ends-bind (expect_literal-Ends (bytes "false") t (omega arith))
        λ _ u k. returns (omega arith))
]

length-number_run : (s : Bytes) → length (number_run s) ≤ length s
unfolding number_run
length-number_run [] = omega arith
length-number_run (c ∷ s) = ground (arith, length-number_run s)

number-Ends : (stod : Bytes → Option ℕ) (s : Bytes) → Ends (length s) (number stod s)
unfolding number
number-Ends stod s = elim (Bool-cases (length (number_run s) == 0)) [
  | inl e ↦ rw e throws
  | inr e ↦ rw e (elim (Option-cases (stod (number_run s))) [
    | inl n ↦ rw n throws
    | inr (n, k) ↦
        rw k
          (returns (ground (arith, e, length-drop (length (number_run s)) s, length-number_run s)))
  ])
]

unicode_at-Ends : (s : Bytes) → Ends (suc (length s)) (unicode_at s)
unfolding unicode_at
unicode_at-Ends s = Ends-if (ltb (length s) 4) throws (elim (Option-cases (stoul16 (take 4 s))) [
  | inl n ↦ rw n throws
  | inr (cp, k) ↦ rw k (returns (omega (arith, length-drop 4 s)))
])

escape_at-Ends : (s : Bytes) → Ends (length s) (escape_at s)
unfolding escape_at
escape_at-Ends [] = throws
escape_at-Ends (e ∷ s) = Ends-if (e == b'"' || e == b'\\' || e == b'/') (here _) (
    Ends-if (e == b'b') (here _) (
      Ends-if (e == b'f') (here _) (
        Ends-if (e == b'n') (here _) (
          Ends-if (e == b'r') (here _)
            (Ends-if (e == b't') (here _) (Ends-if (e == b'u') (unicode_at-Ends s) throws))))))
  where
    here : (bs : Bytes) → Ends (suc (length s)) (parsed bs s)
    here bs = returns (omega arith)

char_at-Ends : (c : ℕ) (s : Bytes) → Ends (suc (length s)) (char_at c s)
unfolding char_at
char_at-Ends c s = Ends-if _ (Ends-weaken (omega arith) (escape_at-Ends s)) (returns (omega arith))

string_loop-Ends :
    (fuel : ℕ) (out s : Bytes) → length s < fuel → Ends (suc (length s)) (string_loop fuel out s)
unfolding string_loop
string_loop-Ends zero out s h = elim h [ ]
string_loop-Ends (suc fuel) out [] h = returns (omega arith)
string_loop-Ends (suc fuel) out (c ∷ s) h = elim (Bool-cases (c == b'"')) [
  | inl e ↦ rw (e, string_loop) (returns (omega arith))
  | inr e ↦
      rw (e, string_loop)
        (Ends-bind (char_at-Ends c s) λ more t k.
          Ends-weaken (omega arith) (string_loop-Ends fuel (out ++ more) t (omega arith)))
]

string-Ends : (s : Bytes) → Ends (length s) (string s)
unfolding string
string-Ends s = Ends-bind (expect-Ends b'"' s) λ _ t h.
    Ends-bind (string_loop-Ends (suc (length t)) [] t (omega arith))
      λ out u k. Ends-bind (expect-Ends b'"' u) λ _ v l. returns (omega arith)

key-Ends : (s : Bytes) → Ends (length s) (key s)
unfolding key
key-Ends s =
    Ends-bind (string-Ends (ws s))
      λ k t h. Ends-bind (expect-Ends b':' t) λ _ u l. returns (omega (arith, length-ws s))

after_item-Ends :
    (again : Items → Bytes → Parsed Json) (xs : Items) (s : Bytes)
    → ((t : Bytes) → length t ≤ length s → Ends (suc (length s)) (again xs t))
    → Ends (suc (length s)) (after_item again xs s)
unfolding after_item
after_item-Ends again xs s k = Ends-bind (peek-Ends s) λ c t h.
    Ends-if _ (k (drop 1 t) (omega (arith, length-drop 1 t)))
      (Ends-if _ (returns (omega (arith, length-drop 1 t))) throws)

after_field-Ends :
    (again : Fields → Bytes → Parsed Json) (fs : Fields) (s : Bytes)
    → ((t : Bytes) → length t ≤ length s → Ends (suc (length s)) (again fs t))
    → Ends (suc (length s)) (after_field again fs s)
unfolding after_field
after_field-Ends again fs s k = Ends-bind (peek-Ends s) λ c t h.
    Ends-if _ (k (drop 1 t) (omega (arith, length-drop 1 t)))
      (Ends-if _ (returns (omega (arith, length-drop 1 t))) throws)

opened-Ends :
    (o c : ℕ) (empty : Json) (loop : Bytes → Parsed Json) (s : Bytes)
    → ((t : Bytes) → length t < length s → Ends (length s) (loop t))
    → Ends (length s) (opened o c empty loop s)
unfolding opened
opened-Ends o c empty loop s k = Ends-bind (expect-Ends o s) λ _ t h.
    Ends-if _ (returns (omega (arith, length-drop 1 (ws t), length-ws t)))
      (k (ws t) (omega (arith, length-ws t)))

module _ (stod : Bytes → Option ℕ) where
  value_at-Ends :
      (array object : Bytes → Parsed Json) (s : Bytes)
      → ((t : Bytes) → length t ≤ length s → Ends (length t) (array t))
      → ((t : Bytes) → length t ≤ length s → Ends (length t) (object t))
      → Ends (length s) (value_at stod array object s)
  unfolding value_at
  value_at-Ends array object s ka ko = Ends-bind (peek-Ends s) λ c t h. Ends-weaken (omega arith) (
      Ends-if {n = length t} _ (ko t (omega arith)) (
        Ends-if _ (ka t (omega arith)) (
          Ends-if _ (Ends-bind (string-Ends t) λ str u l. returns l) (
            Ends-if _ (boolean-Ends t) (
              Ends-if _
                (Ends-bind (expect_literal-Ends (bytes "null") t (omega arith)) λ _ u l. returns l)
                (number-Ends stod t))))))

  -- Two calls for each character, and one more.
  mutual
    unfolding value array object

    value-Ends : (fuel : ℕ) (s : Bytes) → 2 * length s < fuel → Ends (length s) (value stod fuel s)
    value-Ends zero s h = elim h [ ]
    value-Ends (suc fuel) s h =
        value_at-Ends _ _ s
          (λ t l.
            opened-Ends _ _ _ _ t
              λ u m. Ends-weaken (omega arith) (array-Ends fuel Json.nil u (omega arith)))
          (λ t l.
            opened-Ends _ _ _ _ t
              λ u m. Ends-weaken (omega arith) (object-Ends fuel Json.end u (omega arith)))

    array-Ends :
        (fuel : ℕ) (xs : Items) (s : Bytes)
        → 2 * length s + 1 < fuel
        → Ends (suc (length s)) (array stod fuel xs s)
    array-Ends zero xs s h = elim h [ ]
    array-Ends (suc fuel) xs s h = Ends-bind (value-Ends fuel s (omega arith)) λ v t l.
        Ends-weaken (omega arith) (
          after_item-Ends (array stod fuel) (push_back xs v) t
            λ u m. Ends-weaken (omega arith) (array-Ends fuel (push_back xs v) u (omega arith)))

    object-Ends :
        (fuel : ℕ) (fs : Fields) (s : Bytes)
        → 2 * length s + 1 < fuel
        → Ends (suc (length s)) (object stod fuel fs s)
    object-Ends zero fs s h = elim h [ ]
    object-Ends (suc fuel) fs s h = Ends-bind (key-Ends s) λ k t l.
        Ends-bind (value-Ends fuel t (omega arith)) λ v u m. Ends-weaken (omega arith) (
          after_field-Ends (object stod fuel) (set_field k v fs) u
            λ w n. Ends-weaken (omega arith) (object-Ends fuel (set_field k v fs) w (omega arith)))

  -- The fuel that `parse` gives is enough for every text, so that the parser always returns a value
  -- or throws one of its exceptions.
  pub parse_ends : (text : Bytes) → parse stod text ≢ out_of_fuel
  unfolding parse
  parse_ends text = Ends-ne {n = suc (length text)} (
      Ends-bind (value-Ends _ (ws text) (omega (arith, length-ws text)))
        λ v s l. returns (omega (arith, length-ws s, length-ws text)))
