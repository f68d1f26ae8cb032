-- ===== src/Sockets/Client/Requests.antt =====
-- A request from the client's call to what the call leaves in `response`.
use zero_lan_com.Base.{
  ◌^◌, some, subst, ℕ, ◌≤◌, List, [], ◌∷◌, Bool, true, false, ◌==◌, length, All, ◌≡◌, ◌≢◌, refl,
  ◌∙◌, arith, ap,
}
use zero_lan_com.Base.Text.{Str, str_eq_refl}
use zero_lan_com.Base.Result.{ok}
use zero_lan_com.Serialization.ByteBuffer.{Heap}
use zero_lan_com.Serialization.ByteBuffer.Write.{concat}
use zero_lan_com.Serialization.ServiceHeader.{
  decode_service_header, decode_service_header_self, max_len,
}
use zero_lan_com.Serialization.Codec.{Msgpack, IsRoundTrip, decode-pack}
use zero_lan_com.Utils.Socket.{SocketOps, frame}
use zero_lan_com.Sockets.ServiceManager.{
  Response, Callback, Handlers, register_handler, handle_request, success,
}
use zero_lan_com.Sockets.ServiceManager.Replies.{
  GrantsAll, encode-fresh, service, handle_request-reply,
}
use zero_lan_com.Sockets.Client.{
  send_request, receive_response, status_frame, payload_frame, fill, zlc_request_url,
}

length-ne-zero : (xs : List ℕ) → xs ≢ [] → (length xs == 0) ≡ false
length-ne-zero [] h = absurd (h refl)
length-ne-zero (x ∷ xs) h = ground arith

fill-full :
    {B : Type 0} (c : Msgpack B) (before resp : B)
    → IsRoundTrip c
    → concat (c.pack resp) ≢ []
    → fill c before (concat (c.pack resp)) ≡ ok resp
unfolding fill
fill-full c before resp law full =
    rw (length-ne-zero (concat (c.pack resp)) full) (decode-pack c resp law)

module _ {S : Type 0} (ops : SocketOps S) where
  -- The client takes the payload whatever the status code says.
  receive_response-frames :
      (s s1 s2 : S) (status payload : List ℕ) (more : Bool)
      → ops.recv s ≡ (frame status true, s1)
      → ops.recv s1 ≡ (frame payload more, s2)
      → receive_response ops s ≡ ok payload
  unfolding receive_response
  receive_response-frames s s1 s2 status payload more r1 r2 =
      rw (r1, status_frame, r2, payload_frame)

-- A client and a server between which frames are delivered as they were sent.
module _ {W A B S : Type 0} (ops : SocketOps S) (heap : Heap) (request : Msgpack A)
    (response : Msgpack B) (request_law : IsRoundTrip request) (response_law : IsRoundTrip response)
    (free : GrantsAll heap) (connect : Str → S) (url name : Str) (req : A)
    (request_small : length (concat (request.pack req)) ≤ 2 ^ 62) (handlers : Handlers W) (w w' : W)
    (reply : Response) (s s1 s2 : S)
    (replied : handle_request handlers (decode_service_header name) (concat (request.pack req)) w
      ≡ (ok reply, w'))
    (asked : send_request ops name (concat (request.pack req)) (connect url) ≡ ok s)
    (first : ops.recv s ≡ (frame reply.code true, s1))
    (second : ops.recv s1 ≡ (frame reply.payload false, s2)) where
  zlc_request_url-fill :
      (before : B)
      → zlc_request_url ops heap request response connect name url req before
        ≡ fill response before reply.payload
  unfolding zlc_request_url
  zlc_request_url-fill before =
      let (out, e, same) = encode-fresh heap request req request_law free request_small in
      rw (
        e,
        same,
        asked,
        receive_response-frames ops s s1 s2 reply.code reply.payload false first second,
      )

  -- The call returns normally and leaves `response` as it was for each reply with no payload: for
  -- a service that is not there, and for one that failed. The client does not look at the code. The
  -- frames are delivered, memory does not run out, and msgpack reads back what it packed.
  pub zlc_request_url-no_payload :
      (before : B)
      → reply.payload ≡ []
      → zlc_request_url ops heap request response connect name url req before ≡ ok before
  zlc_request_url-no_payload before nothing =
      zlc_request_url-fill before ∙ unfold fill in rw nothing

module _ {W A B S : Type 0} (ops : SocketOps S) (heap : Heap) (request : Msgpack A)
    (response : Msgpack B) (request_law : IsRoundTrip request) (response_law : IsRoundTrip response)
    (free : GrantsAll heap) (connect : Str → S) (url name : Str) (req : A)
    (request_small : length (concat (request.pack req)) ≤ 2 ^ 62) (func : Callback W A B)
    (handlers : Handlers W) (w w' : W) (resp before : B)
    (response_small : length (concat (response.pack resp)) ≤ 2 ^ 62) (s s1 s2 : S) where
  abbrev pub served : Handlers W
  served = register_handler heap request response name func handlers

  -- The reply is the one that the function gave.
  small_reply :
      (req' : A) (resp' : B) (v : W)
      → request.unpack (concat (request.pack req)) ≡ some req'
      → func req' w ≡ (ok resp', v)
      → func req w ≡ (ok resp, w')
      → length (concat (response.pack resp')) ≤ 2 ^ 62
  small_reply req' resp' v good called' called =
      let again : req ≡ req' = ground (arith, request_law req) in
      let same : resp ≡ resp' = ground arith in
      subst (λ r. length (concat (response.pack r)) ≤ 2 ^ 62) same response_small

  -- The server's reply to the packed request.
  served_reply :
      decode_service_header name ≡ name
      → func req w ≡ (ok resp, w')
      → handle_request served (decode_service_header name) (concat (request.pack req)) w
        ≡ (ok (record { code = success; payload = concat (response.pack resp) }), w')
  served_reply named called = rw named (
      handle_request-reply heap request response response_law free name name func handlers
        (concat (request.pack req)) w
        (λ req' resp' v good called'. small_reply req' resp' v good called' called)
      ∙ rw (str_eq_refl name, request_law req, service, called))

  -- What the server answers is the packed value of the function.
  served_payload :
      (reply : Response) (after : W)
      → decode_service_header name ≡ name
      → func req w ≡ (ok resp, w')
      → handle_request served (decode_service_header name) (concat (request.pack req)) w
        ≡ (ok reply, after)
      → reply.payload ≡ concat (response.pack resp)
  served_payload reply after named called replied = let expected = served_reply named called in cc

  -- A call of a registered service, whose name has no NUL and at most 1024 bytes, leaves in
  -- `response` the value that the service's function returned for the request that was passed, when
  -- the frames are those of the server's reply to it. Memory does not run out, and msgpack reads
  -- back what it packed, which is 2 ^ 62 bytes at most and, for the response, not empty.
  pub zlc_request_url-served :
      (reply : Response) (after : W)
      → length name ≤ max_len
      → All (λ c. c ≢ 0) name
      → func req w ≡ (ok resp, w')
      → concat (response.pack resp) ≢ []
      → send_request ops name (concat (request.pack req)) (connect url) ≡ ok s
      → handle_request served (decode_service_header name) (concat (request.pack req)) w
        ≡ (ok reply, after)
      → ops.recv s ≡ (frame reply.code true, s1)
      → ops.recv s1 ≡ (frame reply.payload false, s2)
      → zlc_request_url ops heap request response connect name url req before ≡ ok resp
  zlc_request_url-served reply after short clean called full asked replied first second =
      zlc_request_url-fill ops heap request response request_law response_law free connect url name
        req request_small served w after reply s s1 s2 replied asked first second before
      ∙ ap (fill response before) (
          served_payload reply after ((decode_service_header_self name).1 (short, clean)) called
            replied)
      ∙ fill-full response before resp response_law full
