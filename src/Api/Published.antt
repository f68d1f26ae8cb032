-- ===== src/Api/Published.antt =====
-- A message from `Publisher::publish` to the callback of `registerTopicSubscriber`.
use zero_lan_com.Base.{
  length, ◌≤◌, ◌^◌, ℕ, List, [], ◌∷◌, ◌++◌, Bool, false, ◌≡◌, refl, ap, ◌∙◌, sym,
}
use zero_lan_com.Base.Text.{Str}
use zero_lan_com.Base.Result.{Result, ok}
use zero_lan_com.Serialization.ByteBuffer.{Heap}
use zero_lan_com.Serialization.ByteBuffer.Write.{concat}
use zero_lan_com.Serialization.Codec.{Msgpack, IsRoundTrip, decode-pack}
use zero_lan_com.Utils.Socket.{SocketOps, Received, frame, Sent, sent, send_failed}
use zero_lan_com.Sockets.ServiceManager.Replies.{GrantsAll, encode-fresh}
use zero_lan_com.Sockets.SubscriberManager.{
  Subscriber, typed_callback, poll_once, register_typed, register_topic_subscriber,
}
use zero_lan_com.Sockets.SubscriberManager.Dispatch.{
  go_on, IsQuiet, poll_once-append, poll_once-frame, typed_callback-called,
}
use zero_lan_com.Nodes.NodeInfoManager.{NodeInfoManager}
use zero_lan_com.Api.{publish, published, register_subscriber_handler}

-- What a socket has sent, and that a successful `send` adds a frame to it.
abbrev pub IsRecording : {S : Type 0} → SocketOps S → (S → List (List ℕ × Bool)) → Type 0
IsRecording {S} ops wire =
    (b : List ℕ) (more : Bool) (s s' : S)
    → ops.send b more s ≡ (sent, s')
    → wire s' ≡ wire s ++ (b, more) ∷ []

last_eq : {B : Type 0} (xs : List B) (x y : B) → xs ++ x ∷ [] ≡ xs ++ y ∷ [] → x ≡ y
last_eq [] x y e = cc
last_eq (z ∷ zs) x y e = last_eq zs x y cc

module _ {A S : Type 0} (ops : SocketOps S) (wire : S → List (List ℕ × Bool))
    (recording : IsRecording ops wire) (heap : Heap) (codec : Msgpack A) (law : IsRoundTrip codec)
    (free : GrantsAll heap) (msg : A) (small : length (concat (codec.pack msg)) ≤ 2 ^ 62)
    (s s' : S) where
  published-wire :
      (b : List ℕ) (r : Sent × S)
      → ops.send b false s ≡ r
      → published r ≡ ok s'
      → wire s' ≡ wire s ++ (b, false) ∷ []
  unfolding published
  published-wire b (sent, t) e h = recording b false s s' (e ∙ cc)
  published-wire b (send_failed n, t) e h = absurd (cc)

  publish-wire :
      publish ops heap codec msg s ≡ ok s'
      → wire s' ≡ wire s ++ (concat (codec.pack msg), false) ∷ []
  unfolding publish
  publish-wire h =
      let (out, e, same) = encode-fresh heap codec msg law free small in
      published-wire _ (ops.send (concat (codec.pack msg)) false s) refl (sym (rw (e, same)) ∙ h)

  module _ {W : Type 0} (topic : Str) (callback : A → W → Result (Unit {0}) × W) (handle : ℕ)
      (m : NodeInfoManager) (subs : List (Subscriber W)) (sub : Subscriber W)
      (registered : (register_subscriber_handler codec topic callback handle m subs)
        ≡ subs ++ sub ∷ [])
      (before after : List (Subscriber W × Received)) (w : W) where
    registered_callback : sub.callback ≡ typed_callback codec callback
    unfolding register_subscriber_handler register_typed register_topic_subscriber
    registered_callback =
        ap (λ (x : Subscriber W). x.callback) (sym (last_eq subs _ sub registered))

    -- A message that was published is one frame on the wire. In a poll that finds this frame at a
    -- subscriber that was registered with a callback for such messages, the callback is called with
    -- the published value itself, behind the callbacks of the subscribers before it, which do not
    -- throw; the loop goes on if the callback does not throw either. Sending succeeds, memory does
    -- not run out, and msgpack reads back what it packed, which is 2 ^ 62 bytes at most.
    pub publish-called :
        publish ops heap codec msg s ≡ ok s'
        → IsQuiet before w
        → (view : List ℕ) × (wire s' ≡ wire s ++ (view, false) ∷ [])
          × (poll_once (before ++ (sub, frame view false) ∷ after) w
              ≡ go_on (callback msg (poll_once before w)) (poll_once after))
    publish-called h quiet = (
      concat (codec.pack msg),
      publish-wire h,
      poll_once-append before _ w quiet
          ∙ poll_once-frame sub _ false after (poll_once before w)
          ∙ ap (λ r. go_on r (poll_once after))
              ((λ i. registered_callback i (concat (codec.pack msg)) (poll_once before w))
                ∙ typed_callback-called codec callback _ msg (poll_once before w)
                    (decode-pack codec msg law)),
    )
