-- ===== src/Http/Respond.antt =====
-- The server of include/nanovllm/http_server.hpp answers every request.
use nano_v_llm_cpp.Base.{
  ℕ, zero, suc, ◌+◌, ◌-◌, ◌≤◌, ◌<◌, ◌≡◌, inl, inr, refl, Bool, true, false, List, [], ◌∷◌, ◌++◌,
  Option, none, some, arith, if◌then◌else◌, Bool-cases, Option-cases, length, drop, length-drop,
  is_empty,
}
use nano_v_llm_cpp.Text.{Bytes, bytes, same, starts_with, find}
use nano_v_llm_cpp.Text.Find.{find-within}
use mathlib.Core.Option
use nano_v_llm_cpp.Http.{
  quoted, skip_blanks, json_extract_string, content_at, content_from, role_from, last_user_loop,
  json_extract_last_user,
}
use nano_v_llm_cpp.Http.Server.{
  crlf, build_chat_response, build_models_response, build_embedding_response, StatusCode,
  bad_request, server_error, http_status, ChatRequest, Site, chat_request, respond_chat,
  respond_embedding, refuse, respond, handle_request, handle_client,
}

length-quoted : (s val : Bytes) → length (quoted val s).1 ≤ length s
unfolding quoted
length-quoted [] val = omega arith
length-quoted (c ∷ []) val = ground arith
length-quoted (c ∷ d ∷ s) val =
    ground (arith, length-quoted s (val ++ (d ∷ [])), length-quoted (d ∷ s) (val ++ (c ∷ [])))

length-skip_blanks : (s : Bytes) → length (skip_blanks s) ≤ length s
unfolding skip_blanks
length-skip_blanks [] = omega arith
length-skip_blanks (c ∷ s) = ground (arith, length-skip_blanks s)

content_at-moves :
    (body : Bytes) (v0 : ℕ) (last s : Bytes)
    → v0 ≤ length body
    → length s ≤ length body - v0
    → (v0 ≤ (content_at body v0 last s).0) × ((content_at body v0 last s).0 ≤ length body)
unfolding content_at
content_at-moves body v0 last [] h l = omega arith
content_at-moves body v0 last (c ∷ s) h l = ground (arith, length-quoted s [])

-- The next position lies in the text, and not before `v0`.
content_from-moves :
    (body : Bytes) (v0 : ℕ) (last : Bytes)
    → v0 ≤ length body
    → (v0 ≤ (content_from body v0 last).0) × ((content_from body v0 last).0 ≤ length body)
unfolding content_from
content_from-moves body v0 last h = elim (Option-cases (find (bytes "\"content\"") v0 body)) [
  | inl e ↦ ground (arith, e)
  | inr (cp, e) ↦ elim (Option-cases (find (b':' ∷ []) (cp + 9) body)) [
    | inl n ↦ ground (arith, e, n)
    | inr (c1, k) ↦
        let s = skip_blanks (drop (c1 + 1) body) in
        ground (
          arith,
          e,
          k,
          content_at-moves body v0 last s h (
              omega (
                arith,
                length-skip_blanks (drop (c1 + 1) body),
                length-drop (c1 + 1) body,
                find-within _ v0 body cp e,
                find-within _ (cp + 9) body c1 k,
              )),
        )
  ]
]

role_from-moves :
    (body s last : Bytes)
    → length s ≤ length body
    → (length body - length s ≤ (role_from body s last).0)
      × ((role_from body s last).0 ≤ length body)
unfolding role_from
role_from-moves body [] last h = omega arith
role_from-moves body (c ∷ s) last h = ground (
  arith,
  length-quoted s [],
  content_from-moves body (length body - length (quoted [] s).1) last (omega arith),
)

last_user_loop_ends :
    (fuel : ℕ) (body : Bytes) (pos : ℕ) (last : Bytes)
    → length body - pos < fuel
    → (user : Bytes) × (last_user_loop fuel body pos last ≡ some user)
unfolding last_user_loop
last_user_loop_ends zero body pos last h = elim h [ ]
last_user_loop_ends (suc fuel) body pos last h =
    elim (Option-cases (find (bytes "\"role\"") pos body)) [
      | inl e ↦ (last, ground (arith, e))
      | inr (rp, e) ↦ elim (Option-cases (find (b':' ∷ []) (rp + 6) body)) [
        | inl n ↦ (last, ground (arith, e, n))
        | inr (c0, k) ↦
            let s = skip_blanks (drop (c0 + 1) body) in
            let next = role_from body s last in
            let (user, r) = last_user_loop_ends fuel body next.0 next.1 (
              omega (
                arith,
                role_from-moves body s last (
                    omega
                      (arith, length-skip_blanks (drop (c0 + 1) body), length-drop (c0 + 1) body)),
                length-skip_blanks (drop (c0 + 1) body),
                length-drop (c0 + 1) body,
                find-within _ pos body rp e,
                find-within _ (rp + 6) body c0 k,
              )) in
            (user, ground (arith, e, k, r))
      ]
    ]

json_extract_last_user_ends :
    (body : Bytes) → (user : Bytes) × (json_extract_last_user body ≡ some user)
unfolding json_extract_last_user
json_extract_last_user_ends body = last_user_loop_ends (suc (length body)) body 0 [] (omega arith)

-- A text that begins as the status line of an answer does.
abbrev pub IsAnswer : Bytes → Type 0
IsAnswer text = starts_with (bytes "HTTP/1.1 ") text ≡ true

http_status-IsAnswer : (code : StatusCode) → IsAnswer (http_status code)
unfolding http_status starts_with
http_status-IsAnswer code = refl

respond_chat-IsAnswer : (site : Site) (cr : ChatRequest) → IsAnswer (respond_chat site cr)
unfolding respond_chat build_chat_response starts_with
respond_chat-IsAnswer site cr = elim (Bool-cases (is_empty cr.last_user)) [
  | inl e ↦ rw e (http_status-IsAnswer bad_request)
  | inr e ↦ elim (Option-cases (site.h cr)) [
    | inl n ↦ rw (e, n) (http_status-IsAnswer server_error)
    | inr (text, k) ↦ rw (e, k) refl
  ]
]

respond_embedding-IsAnswer :
    (site : Site) (embed : Bytes → Option (List Bytes)) (body : Bytes)
    → IsAnswer (respond_embedding site embed body)
unfolding respond_embedding build_embedding_response starts_with
respond_embedding-IsAnswer site embed body =
    elim (Bool-cases (is_empty (json_extract_string body (bytes "input")))) [
      | inl e ↦ rw e (http_status-IsAnswer bad_request)
      | inr e ↦ elim (Option-cases (embed (json_extract_string body (bytes "input")))) [
        | inl n ↦ rw (e, n) (http_status-IsAnswer server_error)
        | inr (emb, k) ↦ rw (e, k) refl
      ]
    ]

build_models_response-IsAnswer : (model : Bytes) → IsAnswer (build_models_response model)
unfolding build_models_response starts_with
build_models_response-IsAnswer model = refl

-- A text is sent, and it is an answer.
abbrev pub Answered : Option Bytes → Type 0
Answered sent = (text : Bytes) × (sent ≡ some text) × IsAnswer text

Answered-if :
    (b : Bool) {x y : Option Bytes} → Answered x → Answered y → Answered (if b then x else y)
Answered-if true x y = x
Answered-if false x y = y

module _ (site : Site) where
  chat-Answered :
      (path body : Bytes) → Answered (Option.map (respond_chat site) (chat_request site path body))
  unfolding chat_request
  chat-Answered path body = elim (Bool-cases (same path (bytes "/v1/chat/completions"))) [
    | inl e ↦
        let (user, k) = json_extract_last_user_ends body in
        rw (e, k, chat_request) (_, refl, respond_chat-IsAnswer site _)
    | inr e ↦ rw (e, chat_request) (_, refl, respond_chat-IsAnswer site _)
  ]

  module _ (page : IsAnswer site.webui) where
    respond-Answered : (method path body : Bytes) → Answered (respond site method path body)
    unfolding respond
    respond-Answered method path body =
        Answered-if _ (_, refl, page)
          (Answered-if _ (_, refl, build_models_response-IsAnswer site.model_name)
            (Answered-if _ (chat-Answered path body)
              (Answered-if _ (embedding site.eh) (_, refl, http_status-IsAnswer _))))
      where
        embedding :
            (eh : Option (Bytes → Option (List Bytes)))
            → Answered (elim eh [
              | none ↦ some (refuse method)
              | some embed ↦ some (respond_embedding site embed body)
            ])
        embedding none = (_, refl, http_status-IsAnswer _)
        embedding (some embed) = (_, refl, respond_embedding-IsAnswer site embed body)

    handle_request-Answered :
        (req : Bytes) (received : List Bytes) → Answered (handle_request site req received)
    unfolding handle_request
    handle_request-Answered req received = elim (Option-cases (find crlf 0 req)) [
      | inl e ↦ rw (e, handle_request) (_, refl, http_status-IsAnswer bad_request)
      | inr (i, e) ↦ elim (Option-cases (find (crlf ++ crlf) 0 req)) [
        | inl n ↦ rw (e, n, handle_request) (_, refl, http_status-IsAnswer bad_request)
        | inr (j, n) ↦ rw (e, n, handle_request) (respond-Answered _ _ _)
      ]
    ]

    -- Whatever a client sends, the server ends with one answer, and sends nothing but answers, if its
    -- page is one: no request keeps it searching, and no exception of a handler is lost.
    pub handle_client-Answered : (received : List Bytes) → Answered (handle_client site received)
    unfolding handle_client
    handle_client-Answered received =
        Answered-if _ (_, refl, http_status-IsAnswer bad_request) (handle_request-Answered _ _)
