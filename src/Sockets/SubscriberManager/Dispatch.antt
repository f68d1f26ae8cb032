-- ===== src/Sockets/SubscriberManager/Dispatch.antt =====
-- Messages on their way to callbacks: what `publish` sends and what the loop of `pollOnce` hands over.
use zero_lan_com.Base.{ℕ, List, [], ◌∷◌, ◌++◌, map, Bool, some, none, All, ◌≡◌, refl, ap, ◌∙◌}
use zero_lan_com.Base.Result.{Result, ok, err, decode_exception}
use zero_lan_com.Serialization.Codec.{Msgpack, decode}
use zero_lan_com.Utils.Socket.{Received, frame, timeout, recv_failed}
use zero_lan_com.Sockets.SubscriberManager.{Subscriber, typed_callback, hand_over, poll_once}

-- One call of a callback, and whether the loop goes on behind it.
unfoldable pub go_on : {W : Type 0} → Result (Unit {0}) × W → (W → W) → W
go_on (ok done, w) rest = rest w
go_on (err e, w) rest = w

module _ {W : Type 0} where
  -- Nothing throws in this part of the loop, which starts at `w`.
  abbrev pub IsQuiet : List (Subscriber W × Received) → W → Type 0
  IsQuiet [] w = Unit
  IsQuiet ((sub, timeout) ∷ rest) w = IsQuiet rest w
  IsQuiet ((sub, recv_failed e) ∷ rest) w = ⊥
  IsQuiet ((sub, frame msg more) ∷ rest) w =
      ((sub.callback msg w).0 ≡ ok tt) × IsQuiet rest (sub.callback msg w).1

  pub poll_once-append :
      (before after : List (Subscriber W × Received)) (w : W)
      → IsQuiet before w
      → poll_once (before ++ after) w ≡ poll_once after (poll_once before w)
  unfolding poll_once
  poll_once-append [] after w h = refl
  poll_once-append ((sub, timeout) ∷ rest) after w h = poll_once-append rest after w h
  poll_once-append ((sub, recv_failed e) ∷ rest) after w h = absurd h
  poll_once-append ((sub, frame msg more) ∷ rest) after w h =
      rw (h.0) (poll_once-append rest after (sub.callback msg w).1 h.1)

  -- One message in front.
  pub poll_once-frame :
      (sub : Subscriber W) (msg : List ℕ) (more : Bool) (rest : List (Subscriber W × Received))
      (w : W)
      → poll_once ((sub, frame msg more) ∷ rest) w ≡ go_on (sub.callback msg w) (poll_once rest)
  unfolding poll_once go_on
  poll_once-frame sub msg more rest w = elim_result (sub.callback msg w)
    where
      elim_result :
          (r : Result (Unit {0}) × W)
          → elim r.0 [ ok _ ↦ poll_once rest r.1 | err e ↦ r.1 ] ≡ go_on r (poll_once rest)
      elim_result (ok done, w') = refl
      elim_result (err e, w') = refl

  -- A message that can be decoded reaches the typed callback.
  pub typed_callback-called :
      {A : Type 0} (codec : Msgpack A) (callback : A → W → Result (Unit {0}) × W) (view : List ℕ)
      (msg : A) (w : W)
      → decode codec view ≡ ok msg
      → typed_callback codec callback view w ≡ callback msg w
  unfolding typed_callback hand_over
  typed_callback-called codec callback view msg w h = ap (λ r. hand_over callback r w) h

  typed_callback-undecodable :
      {A : Type 0} (codec : Msgpack A) (callback : A → W → Result (Unit {0}) × W) (view : List ℕ)
      (w : W)
      → codec.unpack view ≡ none
      → typed_callback codec callback view w ≡ (err decode_exception, w)
  unfolding typed_callback hand_over decode
  typed_callback-undecodable codec callback view w h =
      ap (λ o. hand_over callback (elim o [ none ↦ err decode_exception | some a ↦ ok a ]) w) h

  -- The turns of the poll task, each with what its sockets had.
  unfoldable pub poll_rounds : List (List (Subscriber W × Received)) → W → W
  poll_rounds [] w = w
  poll_rounds (readings ∷ rounds) w = poll_rounds rounds (poll_once readings w)

  -- While each poll finds in front a message that its subscriber cannot decode, no subscriber behind
  -- it gets any of its messages, however many polls there are: the whole state of the callbacks stays
  -- as it is.
  pub poll_rounds-starved :
      {A : Type 0} (codec : Msgpack A) (callback : A → W → Result (Unit {0}) × W)
      (sub : Subscriber W) (rounds : List (List ℕ × (Bool × List (Subscriber W × Received))))
      (w : W)
      → sub.callback ≡ typed_callback codec callback
      → All (λ r. codec.unpack r.0 ≡ none) rounds
      → poll_rounds (map (λ r. (sub, frame r.0 r.1.0) ∷ r.1.1) rounds) w ≡ w
  unfolding poll_rounds go_on
  poll_rounds-starved codec callback sub [] w registered bad = refl
  poll_rounds-starved codec callback sub ((view, (more, rest)) ∷ rounds) w registered bad =
      ap (poll_rounds (map (λ r. (sub, frame r.0 r.1.0) ∷ r.1.1) rounds)) (
        poll_once-frame sub view more rest w
        ∙ ap (λ r. go_on r (poll_once rest))
            ((λ i. registered i view w) ∙ typed_callback-undecodable codec callback view w bad.0))
      ∙ poll_rounds-starved codec callback sub rounds w registered bad.1
