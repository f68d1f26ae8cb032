-- ===== src/Nodes/ZeroLanComNode/Shutdown/Hanging.antt =====
-- When `stop` returns.
use zero_lan_com.Base.{
  ℕ, zero, suc, ◌+◌, true, false, ◌≡◌, ◌≢◌, ◌⊎◌, inl, inr, ap, refl, sym, ◌∙◌, arith,
}
use zero_lan_com.Nodes.ZeroLanComNode.Shutdown.{
  Phase, serving, stopping_sender, stopping_receiver, joining, joined, Loop, inside, between, over,
  Sender, turning, ended, Closing, is_sender_running, is_receiver_running, Step, stop_sender,
  stop_receiver, stop_pool, join, sends, sender_ends, other_sends, receives, turns, receiver_ends,
  Reach, here, next,
}

-- The sender is over, and the receiver waits for a datagram that nobody sends.
pub record IsHanging (c : Closing) : Type 0 where
  pub phase : c.phase ≢ joined
  pub sender : c.sender ≡ ended
  pub receiver : c.receiver ≡ inside
  pub queue : c.queue ≡ 0

loop_differs : inside ≢ over
loop_differs e = cc

sender_differs : turning ≢ ended
sender_differs e = cc

Step-IsHanging : {c d : Closing} → Step false c d → IsHanging c → IsHanging d
Step-IsHanging (stop_sender c e) h = record {
  phase = λ p. cc;
  sender = h.sender;
  receiver = h.receiver;
  queue = h.queue;
}
Step-IsHanging (stop_receiver c e) h = record {
  phase = λ p. cc;
  sender = h.sender;
  receiver = h.receiver;
  queue = h.queue;
}
Step-IsHanging (stop_pool c e) h = record {
  phase = λ p. cc;
  sender = h.sender;
  receiver = h.receiver;
  queue = h.queue;
}
Step-IsHanging (join c e s r) h = absurd (loop_differs (sym h.receiver ∙ r))
Step-IsHanging (sends c s) h = absurd (sender_differs (sym s ∙ h.sender))
Step-IsHanging (sender_ends c s off) h = absurd (sender_differs (sym s ∙ h.sender))
Step-IsHanging (other_sends c on) h = cc
Step-IsHanging (receives c n r q) h = absurd (omega (arith, h.queue))
Step-IsHanging (turns c r on) h = cc
Step-IsHanging (receiver_ends c r off) h = cc

Reach-IsHanging : {c d : Closing} → Reach false c d → IsHanging c → IsHanging d
Reach-IsHanging here h = h
Reach-IsHanging (next r s) h = Step-IsHanging s (Reach-IsHanging r h)

-- A node that serves, with that many datagrams in the buffer, and one that waits for its join.
abbrev pub serving_node : ℕ → Closing
serving_node n = record { phase = serving; sender = turning; receiver = inside; queue = n }

abbrev pub joining_node : Closing
joining_node = record { phase = joining; sender = ended; receiver = inside; queue = 0 }

drains : (n : ℕ) {c : Closing} → Reach false c (serving_node n) → Reach false c (serving_node 0)
unfolding is_receiver_running
drains zero r = r
drains (suc n) r =
    drains n (next (next r (receives (serving_node (suc n)) n refl refl)) (turns _ refl refl))

hangs : {c : Closing} → Reach false c (serving_node 0) → Reach false c joining_node
unfolding is_sender_running
hangs r =
    next
      (next (next (next r (stop_sender _ refl)) (sender_ends _ refl refl)) (stop_receiver _ refl))
      (stop_pool _ refl)

joining_node-IsHanging : IsHanging joining_node
joining_node-IsHanging = record { phase = λ p. cc; sender = refl; receiver = refl; queue = refl }

-- A node that is alone, whatever is in the buffer of its receiver, may be stopped while the receiver
-- waits in `recvfrom` and the buffer is empty. Once the sender's loop has ended, no sequence of steps
-- leads to the end of the join any more: `stop` never returns.
pub lone_stop_hangs :
    (n : ℕ)
    → Reach false (serving_node n) joining_node
      × ((d : Closing) → Reach false joining_node d → d.phase ≢ joined)
lone_stop_hangs n = (hangs (drains n here), λ d r. (Reach-IsHanging r joining_node-IsHanging).phase)

-- A state in which `stop` has joined both loops can be reached.
abbrev pub CanReturn : Closing → Type 0
CanReturn c = (d : Closing) × Reach true c d × (d.phase ≡ joined)

sender_cases : (s : Sender) → (s ≡ turning) ⊎ (s ≡ ended)
sender_cases turning = inl refl
sender_cases ended = inr refl

module _ (c : Closing) where
  join_both :
      (d : Closing)
      → Reach true c d
      → d.phase ≡ joining
      → d.sender ≡ ended
      → d.receiver ≡ over
      → CanReturn c
  join_both d r p s e = (_, next r (join d p s e), refl)

  end_receiver :
      (d : Closing)
      → Reach true c d
      → d.phase ≡ joining
      → d.sender ≡ ended
      → d.receiver ≡ between
      → CanReturn c
  unfolding is_receiver_running
  end_receiver d r p s e =
      join_both (record d { receiver = over })
        (next r (receiver_ends d e (ap is_receiver_running p))) p s refl

  wake_receiver :
      (d : Closing) (l : Loop)
      → Reach true c d
      → d.phase ≡ joining
      → d.sender ≡ ended
      → d.receiver ≡ l
      → CanReturn c
  wake_receiver d over r p s e = join_both d r p s e
  wake_receiver d between r p s e = end_receiver d r p s e
  wake_receiver d inside r p s e =
      end_receiver (record d { receiver = between; queue = d.queue })
        (next (next r (other_sends d refl))
          (receives (record d { queue = d.queue + 1 }) d.queue e (omega arith)))
        p s refl

  end_sender : (d : Closing) → Reach true c d → d.phase ≡ joining → CanReturn c
  unfolding is_sender_running
  end_sender d r p = elim (sender_cases d.sender) [
    | inl t ↦
        wake_receiver (record d { sender = ended }) d.receiver
          (next r (sender_ends d t (ap is_sender_running p))) p refl refl
    | inr e ↦ wake_receiver d d.receiver r p e refl
  ]

  go_on : (d : Closing) (p : Phase) → Reach true c d → d.phase ≡ p → CanReturn c
  go_on d joined r e = (d, r, e)
  go_on d joining r e = end_sender d r e
  go_on d stopping_receiver r e =
      end_sender (record d { phase = joining }) (next r (stop_pool d e)) refl
  go_on d stopping_sender r e =
      end_sender (record d { phase = joining })
        (next (next r (stop_receiver d e))
          (stop_pool (record d { phase = stopping_receiver }) refl))
        refl
  go_on d serving r e =
      end_sender (record d { phase = joining })
        (next
          (next (next r (stop_sender d e))
            (stop_receiver (record d { phase = stopping_sender }) refl))
          (stop_pool (record d { phase = stopping_receiver }) refl))
        refl

-- Where other nodes send to the group, `stop` can return from every state, one that was reached
-- while it is under way included.
pub stop_can_return : (c : Closing) → CanReturn c
stop_can_return c = go_on c c c.phase here refl
