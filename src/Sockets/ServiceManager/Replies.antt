-- ===== src/Sockets/ServiceManager/Replies.antt =====
-- What a request is answered with, and which requests are answered.
use zero_lan_com.Base.{
  ℕ, ◌≤◌, ◌^◌, List, [], none, some, Bool, true, false, length, ◌≡◌, refl, ap, sym, ◌∙◌, arith,
  if◌then◌else◌, Bool-cases, Option-cases, inl, inr,
}
use mathlib.Core.Bool.{true≢false}
use zero_lan_com.Base.Text.{Str, bytes, str_eq}
use zero_lan_com.Base.Map.{find-insert}
use zero_lan_com.Base.Result.{
  Exception, runtime_error, logic_error, invalid_argument, out_of_range, bad_alloc, future_error,
  encode_exception, decode_exception, unknown_exception, undefined_behaviour, zmq_error, Result, ok,
  err,
}
use zero_lan_com.Serialization.ByteBuffer.{ByteBuffer, Heap, contents, IsValid}
use zero_lan_com.Serialization.ByteBuffer
use zero_lan_com.Serialization.ByteBuffer.Write.{concat}
use zero_lan_com.Serialization.Codec.{Msgpack, IsRoundTrip, encode, decode, Encoded, encode-Encoded}
use zero_lan_com.Sockets.ServiceManager.{
  Response, Callback, Handlers, wrap, finish, register_handler, handle_request, catch_exception,
  answer,
}

-- Memory does not run out.
abbrev pub GrantsAll : Heap → Type 0
GrantsAll heap = (n : ℕ) → heap.grants n ≡ true

-- Every value of the type packs into 2 ^ 62 bytes at most.
abbrev pub IsSmall : {B : Type 0} → Msgpack B → Type 0
IsSmall {B} c = (b : B) → length (concat (c.pack b)) ≤ 2 ^ 62

-- With memory to spare, encoding into a fresh buffer gives the packed bytes.
pub encode-fresh :
    {B : Type 0} (heap : Heap) (c : Msgpack B) (b : B)
    → IsRoundTrip c
    → GrantsAll heap
    → length (concat (c.pack b)) ≤ 2 ^ 62
    → (out : ByteBuffer) × (encode c heap b ByteBuffer.empty ≡ ok out)
      × (contents out ≡ concat (c.pack b))
encode-fresh {B} heap c b law free small = go (encode c heap b ByteBuffer.empty) (
    encode-Encoded c heap b ByteBuffer.empty law (record { block = refl; size = omega arith })
      (omega arith) small)
  where
    go :
        (o : Result ByteBuffer)
        → Encoded c heap b ByteBuffer.empty o
        → (out : ByteBuffer) × (o ≡ ok out) × (contents out ≡ concat (c.pack b))
    go (ok out) h = (out, refl, h.1)
    go (err e) h = absurd (true≢false (sym (free _) ∙ h.1.1.6))

-- The exceptions that are a `std::exception`.
abbrev pub is_standard : Exception → Bool
is_standard unknown_exception = false
is_standard undefined_behaviour = false
is_standard _ = true

-- What a failure is called on the wire: a request that cannot be decoded INVALID_RESPONSE, a response
-- that cannot be encoded INVALID_REQUEST, any other SERVICE_FAIL.
abbrev pub failure_name : Exception → Str
failure_name decode_exception = bytes "INVALID_RESPONSE"
failure_name encode_exception = bytes "INVALID_REQUEST"
failure_name _ = bytes "SERVICE_FAIL"

-- A failure is answered by its name and nothing else; what is no `std::exception` is not answered.
abbrev pub failed_reply : Exception → Result Response
failed_reply e =
    if is_standard e then ok (record { code = failure_name e; payload = [] }) else err e

failed_reply-eq : (e : Exception) → catch_exception e ≡ failed_reply e
unfolding catch_exception
failed_reply-eq decode_exception = refl
failed_reply-eq encode_exception = refl
failed_reply-eq unknown_exception = refl
failed_reply-eq undefined_behaviour = refl
failed_reply-eq runtime_error = refl
failed_reply-eq logic_error = refl
failed_reply-eq invalid_argument = refl
failed_reply-eq out_of_range = refl
failed_reply-eq bad_alloc = refl
failed_reply-eq future_error = refl
failed_reply-eq (zmq_error n) = refl

-- The reply that the outcome of a service's function calls for.
abbrev pub reply_of : {W B : Type 0} → Msgpack B → Result B × W → Result Response × W
reply_of c (ok resp, w) =
    (ok (record { code = bytes "SUCCESS"; payload = concat (c.pack resp) }), w)
reply_of c (err e, w) = (failed_reply e, w)

-- The specification of a service: its function between the two codecs. A request that cannot be
-- decoded does not reach the function.
abbrev pub service :
    {W A B : Type 0} → Msgpack A → Msgpack B → Callback W A B → List ℕ → W → Result Response × W
service request response func payload w = elim (request.unpack payload) [
  | none ↦ (failed_reply decode_exception, w)
  | some req ↦ reply_of response (func req w)
]

-- The response to this payload, if there is one, packs into 2 ^ 62 bytes at most.
abbrev pub IsSmallReply :
    {W A B : Type 0} → Msgpack A → Msgpack B → Callback W A B → List ℕ → W → Type 0
IsSmallReply {W} {A} {B} request response func payload w =
    (req : A) (resp : B) (w' : W)
    → request.unpack payload ≡ some req
    → func req w ≡ (ok resp, w')
    → length (concat (response.pack resp)) ≤ 2 ^ 62

module _ {W A B : Type 0} (heap : Heap) (request : Msgpack A) (response : Msgpack B)
    (law : IsRoundTrip response) (free : GrantsAll heap) where
  finish-reply :
      (r : Result B × W)
      → ((resp : B) (w : W) → r ≡ (ok resp, w) → length (concat (response.pack resp)) ≤ 2 ^ 62)
      → answer (finish heap request response r) ≡ reply_of response r
  unfolding answer finish
  finish-reply (err e, w) small = ap (λ (r : Result Response). (r, w)) (failed_reply-eq e)
  finish-reply (ok resp, w) small =
      let (out, e, same) = encode-fresh heap response resp law free (small resp w refl) in
      rw (e, finish) (rw same)

  wrap-service :
      (func : Callback W A B) (payload : List ℕ) (w : W)
      → IsSmallReply request response func payload w
      → answer (wrap heap request response func payload w) ≡ service request response func payload w
  unfolding wrap decode answer catch_exception
  wrap-service func payload w small = elim (Option-cases (request.unpack payload)) [
    | inl bad ↦ rw (bad, wrap, service)
    | inr (req, good) ↦
        rw (good, wrap, service)
          (finish-reply (func req w) (λ resp w' called. small req resp w' good called))
  ]

  -- One payload, whose response is small.
  pub handle_request-reply :
      (name other : Str) (func : Callback W A B) (handlers : Handlers W) (payload : List ℕ) (w : W)
      → IsSmallReply request response func payload w
      → handle_request (register_handler heap request response name func handlers) other payload w
        ≡ (if str_eq name other
            then service request response func payload w
            else handle_request handlers other payload w)
  unfolding handle_request register_handler
  handle_request-reply name other func handlers payload w small =
      elim (Bool-cases (str_eq name other)) [
        | inl same ↦
            rw
              (
                find-insert name other (wrap heap request response func) handlers,
                same,
                handle_request,
              )
              (wrap-service func payload w small)
        | inr differs ↦ rw (
          find-insert name other (wrap heap request response func) handlers,
          differs,
          handle_request,
        )
      ]

  -- Under its name a registered service is answered as specified: SUCCESS and the packed response,
  -- or the name of the failure for each exception of the function and of the codecs, but for what is
  -- no `std::exception`, which goes on to the caller; what other names are answered does not change. Memory does not run out, msgpack reads back each
  -- response that it packed, and packs it into 2 ^ 62 bytes at most.
  pub handle_request-register_handler :
      IsSmall response
      → (name other : Str) (func : Callback W A B) (handlers : Handlers W) (payload : List ℕ)
        (w : W)
      → handle_request (register_handler heap request response name func handlers) other payload w
        ≡ (if str_eq name other
            then service request response func payload w
            else handle_request handlers other payload w)
  handle_request-register_handler small name other func handlers payload w =
      handle_request-reply name other func handlers payload w
        (λ req resp w' good called. small resp)
