-- ===== src/Engine/Prompts.antt =====
-- The requests by text of src/llm_engine.cpp: `add_request` on a string and `add_chat_request`.
use nano_v_llm_cpp.Base.{
  ℕ, suc, ◌+◌, ◌≤◌, ◌<◌, ◌≡◌, ◌∙◌, ap, refl, List, [], ◌∷◌, ◌++◌, false, Option, none, some, arith,
  length, is_empty, if◌then◌else◌,
}
use nano_v_llm_cpp.Result.{Result, ok, err, invalid_argument}
use nano_v_llm_cpp.Text.{Bytes, bytes}
use nano_v_llm_cpp.Sequence.{SamplingParams, new_sequence}
use nano_v_llm_cpp.BlockManager.{put}
use nano_v_llm_cpp.Scheduler.{add}
use nano_v_llm_cpp.Scheduler.Shapes.{Phase}
use nano_v_llm_cpp.Runner.{throw_if}
use nano_v_llm_cpp.Tokenizer.{Tokenizer, encode_special, decode_token, decode_tokens}
use nano_v_llm_cpp.Tokenizer.Encode.{encode_text}
use nano_v_llm_cpp.Tokenizer.Utf8.{AllBytes}
use nano_v_llm_cpp.Tokenizer.RoundTrip.{ByteLevel}
use nano_v_llm_cpp.Tokenizer.Whole.{IsUtf8, Absent, decode_tokens-encode_text}
use nano_v_llm_cpp.Engine.{LlmEngine, is_negative, validate, too_long, add_request}
use nano_v_llm_cpp.Engine.Requests.{Numbered, add_request-Requested}

-- The last lines of both: the length, the sequence and the queue.
unfoldable pub enqueue : {L : Type 0} → LlmEngine L → List ℕ → SamplingParams → Result (LlmEngine L)
enqueue e ids sp =
    throw_if (too_long (length ids) sp.max_tokens e.max_model_len) (err invalid_argument)
      (elim (new_sequence e.counter ids sp) [
        | none ↦ err invalid_argument
        | some seq ↦
            let s = record (e.scheduler) { store = put e.counter seq e.scheduler.store } in
            ok (record e { scheduler = add s e.counter; counter = suc e.counter })
      ])

-- `none` is a tokenizer that does not end.
unfoldable pub add_text_request :
    {L : Type 0} → Tokenizer → LlmEngine L → Bytes → SamplingParams → Option (Result (LlmEngine L))
add_text_request t e prompt sp = elim (encode_text t prompt) [
  | none ↦ elim (validate sp (ok e)) [ err x ↦ some (err x) | ok _ ↦ none ]
  | some ids ↦
      some (validate sp (throw_if (is_empty ids) (err invalid_argument) (enqueue e ids sp)))
]

-- `append`, in front of what comes later.
abbrev append_text : Tokenizer → Bytes → Option (List ℕ) → Option (List ℕ)
append_text t text later = elim (encode_text t text) [
  | none ↦ none
  | some part ↦ elim later [ none ↦ none | some ids ↦ some (part ++ ids) ]
]

abbrev push_id : ℕ → Option (List ℕ) → Option (List ℕ)
push_id id none = none
push_id id (some ids) = some (id ∷ ids)

-- A turn of a chat: its start, its text, its end and a line break.
abbrev turn : Tokenizer → ℕ → ℕ → Bytes → Option (List ℕ) → Option (List ℕ)
turn t im_start im_end text later =
    push_id im_start (append_text t text (push_id im_end (append_text t (10 ∷ []) later)))

unfoldable pub chat_turns : Tokenizer → ℕ → ℕ → Bytes → Option (List ℕ)
chat_turns t im_start im_end user_prompt =
    let from_user =
      turn t im_start im_end (bytes "user\n" ++ user_prompt)
        (push_id im_start (append_text t (bytes "assistant\n") (some []))) in
    if t.chat_auto_system
    then turn t im_start im_end (bytes "system\nYou are a helpful assistant.") from_user
    else from_user

unfoldable pub chat_ids : Tokenizer → Bytes → Option (List ℕ)
chat_ids t user_prompt = elim (encode_special t (bytes "<|im_start|>")) [
  | none ↦ append_text t user_prompt (some [])
  | some im_start ↦ elim (encode_special t (bytes "<|im_end|>")) [
    | none ↦ append_text t user_prompt (some [])
    | some im_end ↦ chat_turns t im_start im_end user_prompt
  ]
]

unfoldable pub add_chat_request :
    {L : Type 0} → Tokenizer → LlmEngine L → Bytes → SamplingParams → Option (Result (LlmEngine L))
add_chat_request t e user_prompt sp = elim (chat_ids t user_prompt) [
  | none ↦ elim (validate sp (ok e)) [ err x ↦ some (err x) | ok _ ↦ none ]
  | some ids ↦ some (validate sp (enqueue e ids sp))
]

-- What a request by text comes to.
pub record Prompted {L : Type 0} (bs : ℕ) (t : Tokenizer) (e : LlmEngine L) (prompt : Bytes)
    (sp : SamplingParams) : Type 0 where
  pub after : LlmEngine L
  pub runs : add_text_request t e prompt sp ≡ some (ok after)
  pub phase : Phase bs [] after.scheduler
  pub numbered : Numbered after
  pub last : after.scheduler.waiting ≡ e.scheduler.waiting ++ (e.counter ∷ [])
  pub says : decode_tokens t (after.scheduler.store e.counter).token_ids ≡ prompt

add_text_request-add_request :
    {L : Type 0} (t : Tokenizer) (e : LlmEngine L) (prompt : Bytes) (ids : List ℕ)
    (sp : SamplingParams)
    → encode_text t prompt ≡ some ids
    → add_text_request t e prompt sp ≡ some (add_request e ids sp)
unfolding add_text_request add_request enqueue
add_text_request-add_request t e prompt ids sp found = rw (add_text_request, found) refl

not_empty :
    (t : Tokenizer) (ids : List ℕ) (c : ℕ) (s : Bytes)
    → decode_tokens t ids ≡ c ∷ s
    → 0 < length ids
unfolding decode_tokens
not_empty t [] c s e = ground (arith, e)
not_empty t (id ∷ ids) c s e = omega arith

-- At rest, where every queued sequence was numbered before, a request by a UTF-8 text that is not
-- empty and holds no special token, with valid parameters and a vocabulary of byte-level pieces, is
-- queued behind the others if its tokens fit; the tokens of the new sequence decode to the text, and the
-- engine stays at rest.
pub add_text_request-Prompted :
    {L : Type 0} (bs : ℕ) (t : Tokenizer) (e : LlmEngine L) (c : ℕ) (s : Bytes)
    (sp : SamplingParams)
    → Phase bs [] e.scheduler
    → Numbered e
    → is_negative sp.temperature ≡ false
    → 0 < sp.max_tokens
    → ByteLevel t
    → IsUtf8 (c ∷ s)
    → AllBytes (c ∷ s)
    → Absent t.specials (c ∷ s)
    → ((id : ℕ) → t.bos_id ≡ some id → decode_token t id ≡ [])
    → ((ids : List ℕ)
        → encode_text t (c ∷ s) ≡ some ids
        → length ids + sp.max_tokens ≤ e.max_model_len)
    → Prompted bs t e (c ∷ s) sp
add_text_request-Prompted bs t e c s sp v n temp most level utf8 all absent silent fits =
    let (ids, found, said) = decode_tokens-encode_text t level (c ∷ s) utf8 all absent silent in
    let r =
      add_request-Requested bs e ids sp v n temp most (not_empty t ids c s said) (fits ids found) in
    record {
      after = r.after;
      runs = add_text_request-add_request t e (c ∷ s) ids sp found ∙ ap some r.runs;
      phase = r.phase;
      numbered = r.numbered;
      last = r.last;
      says = ap (decode_tokens t) r.prompt_stored ∙ said;
    }
