-- ===== src/Sockets/ServiceManager/Polling.antt =====
-- `pollOnce`: requests of two frames, and requests that are cut short.
use zero_lan_com.Base.{ℕ, zero, suc, List, Bool, true, false, ◌≡◌, refl}
use zero_lan_com.Base.Result.{ok}
use zero_lan_com.Serialization.ServiceHeader.{decode_service_header}
use zero_lan_com.Utils.Socket.{SocketOps, frame, recv_failed, sent}
use zero_lan_com.Sockets.ServiceManager.{
  Response, Handlers, handle_request, poll_once, receive_name, receive_payload, send_response,
}

module _ {W S : Type 0} (ops : SocketOps S) (handlers : Handlers W) where
  -- A request of two frames is answered with two frames, the status code with more to follow and
  -- then the payload, also where the service failed or is not there; further frames are not read. The first frame of
  -- the reply can be sent.
  pub poll_once-request :
      (s s1 s2 : S) (w w' : W) (name payload : List ℕ) (more : Bool) (response : Response)
      → ops.recv s ≡ (frame name true, s1)
      → ops.recv s1 ≡ (frame payload more, s2)
      → handle_request handlers (decode_service_header name) payload w ≡ (ok response, w')
      → (ops.send response.code true s2).0 ≡ sent
      → poll_once ops handlers s w
        ≡ (ok tt, (ops.send response.payload false (ops.send response.code true s2).1).1, w')
  unfolding poll_once
  poll_once-request s s1 s2 w w' name payload more response r1 r2 h first =
      rw (r1, receive_name, r2, receive_payload, h, send_response, first)

  -- Where a frame is missing, nothing is sent and no handler runs.
  pub poll_once-incomplete :
      (s s1 : S) (w : W) (name : List ℕ)
      → ops.recv s ≡ (frame name false, s1)
      → poll_once ops handlers s w ≡ (ok tt, s1, w)
  unfolding poll_once
  poll_once-incomplete s s1 w name r = rw (r, receive_name)

  -- The rounds of the polling task, as long as nothing but `zmq::error_t` is thrown.
  unfoldable pub polls : ℕ → S → W → S × W
  polls zero s w = (s, w)
  polls (suc n) s w = let (r, s', w') = poll_once ops handlers s w in polls n s' w'

  -- A REP socket that has read a request to its end and not answered refuses to receive (EFSM) and
  -- stays as it is. So after a request of one frame the service answers nobody, however often it
  -- polls.
  pub polls-after_incomplete :
      (s s1 : S) (w : W) (name : List ℕ) (efsm n : ℕ)
      → ops.recv s ≡ (frame name false, s1)
      → ops.recv s1 ≡ (recv_failed efsm, s1)
      → polls (suc n) s w ≡ (s1, w)
  unfolding polls
  polls-after_incomplete s s1 w name efsm n r wedged =
      rw (poll_once-incomplete s s1 w name r) (stuck n)
    where
      stuck_once : poll_once ops handlers s1 w ≡ (ok tt, s1, w)
      stuck_once = unfold poll_once in rw (wedged, receive_name)

      stuck : (n : ℕ) → polls n s1 w ≡ (s1, w)
      stuck zero = refl
      stuck (suc n) = rw stuck_once (stuck n)
