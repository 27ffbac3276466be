-- ===== src/Agent/Calls.antt =====
-- Which call `find_call` of include/nanovllm/agent.hpp returns.
use nano_v_llm_cpp.Base.{
  ℕ, zero, suc, ◌+◌, ◌-◌, ◌≤◌, ◌<◌, ◌≡◌, ◌⊎◌, inl, inr, refl, true, false, [], ◌∷◌, none, some,
  arith, ltb, Bool-cases, Option-cases, length, take, drop, is_empty, subst,
}
use nano_v_llm_cpp.Text.{Bytes, bytes, starts_with, find}
use nano_v_llm_cpp.Text.Find.{find-within, StandsAt, First, find-First, find-none, First-find}
use nano_v_llm_cpp.Agent.{
  Call, no_call, parse_call, call_in, fenced_call, brace_call, bare_call, find_call,
}

-- What `parse_call` makes of the text from `start` up to `stop`.
abbrev pub call_of : Bytes → ℕ → ℕ → Call
call_of text start stop = parse_call (take (stop - start) (drop start text))

abbrev pub Nameless : Call → Type 0
Nameless call = is_empty call.name ≡ true

abbrev pub Named : Call → Type 0
Named call = is_empty call.name ≡ false

-- The first fence for JSON opens at `i`, and `j` is the first fence behind its 7 characters.
abbrev pub Fence : Bytes → ℕ → ℕ → Type 0
Fence text i j = First (bytes "```json") 0 text i × First (bytes "```") (i + 7) text j

-- From the brace at `b` up to the first closing one, at `e`.
abbrev pub Braces : Bytes → ℕ → ℕ → Type 0
Braces text b e = StandsAt (b'{' ∷ []) text b × First (b'}' ∷ []) b text e

abbrev pub NoFencedCall : Bytes → Type 0
NoFencedCall text = (i j : ℕ) → Fence text i j → Nameless (call_of text (i + 7) j)

-- No call in braces that open before `limit`.
abbrev pub NoCallBefore : Bytes → ℕ → Type 0
NoCallBefore text limit =
    (b e : ℕ) → b < limit → Braces text b e → Nameless (call_of text b (e + 1))

pub record FencedCall (text : Bytes) (found : Call × ℕ) : Type 0 where
  pub opens : ℕ
  pub closes : ℕ
  pub fence : Fence text opens closes
  pub named : Named (call_of text (opens + 7) closes)
  pub is_it : found ≡ (call_of text (opens + 7) closes, closes + 3)

pub record BracesCall (text : Bytes) (found : Call × ℕ) : Type 0 where
  pub opens : ℕ
  pub closes : ℕ
  pub braces : Braces text opens closes
  pub named : Named (call_of text opens (closes + 1))
  pub first : NoCallBefore text opens
  pub is_it : found ≡ (call_of text opens (closes + 1), closes + 1)

pub record NoCall (text : Bytes) (found : Call × ℕ) : Type 0 where
  pub nowhere : (limit : ℕ) → NoCallBefore text limit
  pub is_it : found ≡ (no_call, 0)

-- The call of the fence; without one the first call in braces; without one no call.
abbrev pub FirstCall : Bytes → Call × ℕ → Type 0
FirstCall text found =
    FencedCall text found ⊎ (NoFencedCall text × (BracesCall text found ⊎ NoCall text found))

call_in-cases :
    (text : Bytes) (start stop off : ℕ)
    → (call_in text start stop off ≡ none × Nameless (call_of text start stop))
      ⊎ (call_in text start stop off ≡ some (call_of text start stop, off)
          × Named (call_of text start stop))
unfolding call_in
call_in-cases text start stop off = elim (Bool-cases (is_empty (call_of text start stop).name)) [
  | inl y ↦ inl (rw y refl, y)
  | inr n ↦ inr (rw n refl, n)
]

fenced_call-some :
    (text : Bytes) (found : Call × ℕ) → fenced_call text ≡ some found → FencedCall text found
unfolding fenced_call
fenced_call-some text found e = elim (Option-cases (find (bytes "```json") 0 text)) [
  | inl n ↦ absurd (ground (arith, e, n))
  | inr (i, p) ↦ elim (Option-cases (find (bytes "```") (i + 7) text)) [
    | inl n ↦ absurd (ground (arith, e, p, n))
    | inr (j, q) ↦ elim (call_in-cases text (i + 7) j (j + 3)) [
      | inl (c, n) ↦ absurd (ground (arith, e, p, q, c))
      | inr (c, n) ↦ record {
        opens = i;
        closes = j;
        fence =
            (find-First (bytes "```json") 0 text i p, find-First (bytes "```") (i + 7) text j q);
        named = n;
        is_it = ground (arith, e, p, q, c);
      }
    ]
  ]
]

fenced_call-none : (text : Bytes) → fenced_call text ≡ none → NoFencedCall text
unfolding fenced_call
fenced_call-none text e i j (f, g) = elim (call_in-cases text (i + 7) j (j + 3)) [
  | inl (c, n) ↦ n
  | inr (c, n) ↦ absurd (
      ground (
        arith,
        e,
        First-find b'`' (bytes "``json") 0 text i f,
        First-find b'`' (bytes "``") (i + 7) text j g,
        c,
      ))
]

brace_call-cases :
    (text : Bytes) (b : ℕ)
    → (brace_call text b ≡ none
        × ((e : ℕ) → First (b'}' ∷ []) b text e → Nameless (call_of text b (e + 1))))
      ⊎ ((e : ℕ) × First (b'}' ∷ []) b text e
          × Named (call_of text b (e + 1))
          × (brace_call text b ≡ some (call_of text b (e + 1), e + 1)))
unfolding brace_call
brace_call-cases text b = elim (Option-cases (find (b'}' ∷ []) b text)) [
  | inl n ↦
      inl
        (rw (n, brace_call) refl, λ e f. absurd (ground (arith, n, First-find b'}' [] b text e f)))
  | inr (e, p) ↦ elim (call_in-cases text b (e + 1) (e + 1)) [
    | inl (c, n) ↦ inl (
      rw (p, brace_call) c,
      λ e' f.
          subst (λ k. Nameless (call_of text b (k + 1))) {x = e}
            (ground (arith, p, First-find b'}' [] b text e' f)) n,
    )
    | inr (c, n) ↦ inr (e, find-First (b'}' ∷ []) b text e p, n, rw (p, brace_call) c)
  ]
]

-- The braces before `i` hold no call, if those before `from` do not and none opens in between.
further :
    (text : Bytes) (from i : ℕ)
    → NoCallBefore text from
    → ((k : ℕ) → from ≤ k → k < i → starts_with (b'{' ∷ []) (drop k text) ≡ false)
    → NoCallBefore text i
further text from i v none' b e h braces = elim (Bool-cases (ltb b from)) [
  | inl y ↦ v b e (ground (arith, y)) braces
  | inr n ↦ absurd (ground (arith, braces.0, none' b (ground (arith, n)) h))
]

bare_call-FirstCall :
    (fuel from : ℕ) (text : Bytes)
    → length text - from < fuel
    → NoCallBefore text from
    → (found : Call × ℕ) × (bare_call fuel from text ≡ some found)
      × (BracesCall text found ⊎ NoCall text found)
unfolding bare_call
bare_call-FirstCall zero from text h v = elim h [ ]
bare_call-FirstCall (suc fuel) from text h v = elim (Option-cases (find (b'{' ∷ []) from text)) [
  | inl n ↦ (
    (no_call, 0),
    ground (arith, n),
    inr (record {
      nowhere = λ limit. further text from limit v (λ k g l. find-none b'{' [] from text n k g);
      is_it = refl;
    }),
  )
  | inr (i, p) ↦
      let opening = find-First (b'{' ∷ []) from text i p in
      let before = further text from i v opening.earliest in
      elim (brace_call-cases text i) [
        | inl (n, nameless) ↦
            let (found, r, c) =
              bare_call-FirstCall fuel (i + 1) text
                (omega (arith, find-within (b'{' ∷ []) from text i p)) (next i before nameless) in
            (found, ground (arith, p, n, r), c)
        | inr (e, closing, named, q) ↦ (
          (call_of text i (e + 1), e + 1),
          ground (arith, p, q),
          inl (record {
            opens = i;
            closes = e;
            braces = (opening.here, closing);
            named = named;
            first = before;
            is_it = refl;
          }),
        )
      ]
]
  where
    next :
        (i : ℕ)
        → NoCallBefore text i
        → ((e : ℕ) → First (b'}' ∷ []) i text e → Nameless (call_of text i (e + 1)))
        → NoCallBefore text (i + 1)
    next i before nameless b e l braces = elim (Bool-cases (ltb b i)) [
      | inl y ↦ before b e (ground (arith, y)) braces
      | inr n ↦
          let same : i ≡ b = ground (arith, n, l) in
          subst (λ k. First (b'}' ∷ []) k text e → Nameless (call_of text k (e + 1))) same
            (nameless e) braces.1
    ]

-- The search for a call ends, whatever the text. If the first fence for JSON closes and `parse_call`
-- finds a name in between, it returns that call with the offset behind the closing fence. Else it
-- returns the call with a name whose brace opens first, of those that the text up to the next closing
-- brace holds, with the offset behind that brace; and if there is none, no call and offset 0.
pub find_call-FirstCall :
    (text : Bytes) → (found : Call × ℕ) × (find_call text ≡ some found) × FirstCall text found
unfolding find_call
find_call-FirstCall text = elim (Option-cases (fenced_call text)) [
  | inl n ↦
      let (found, r, c) =
        bare_call-FirstCall (suc (length text)) 0 text (omega arith)
          (λ b e h. absurd (omega arith)) in
      (found, ground (arith, n, r), inr (fenced_call-none text n, c))
  | inr (found, q) ↦ (found, ground (arith, q), inl (fenced_call-some text found q))
]
