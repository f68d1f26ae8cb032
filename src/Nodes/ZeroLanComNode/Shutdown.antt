-- ===== src/Nodes/ZeroLanComNode/Shutdown.antt =====
-- How `ZeroLanComNode::stop` of src/nodes/zerolancom_node.cpp waits for the loops of
-- src/nodes/multicast.cpp. The receiver's loop waits in `recvfrom` for a datagram, with no timeout; a
-- node gets its own heartbeats too. `PeriodicTask::stop` resets a flag and goes on when the loop has
-- ended or five seconds are over; `ThreadPool::stop` joins the threads of both loops.
pub mod Hanging
use zero_lan_com.Base.{ℕ, suc, ◌+◌, Bool, true, false, ◌≡◌}

pub data Phase : Type 0 where
  serving : Phase
  -- in `stop` of the sender, of the receiver, and of the pool
  stopping_sender stopping_receiver joining : Phase
  joined : Phase

-- The receiver's loop: in `recvfrom`, behind it, or ended.
pub data Loop : Type 0 where
  inside between over : Loop

pub data Sender : Type 0 where
  turning ended : Sender

pub record Closing : Type 0 where
  pub phase : Phase
  pub sender : Sender
  pub receiver : Loop
  -- datagrams in the buffer of the receiver's socket
  pub queue : ℕ

-- `is_running_` of the two tasks.
unfoldable pub is_sender_running : Phase → Bool
is_sender_running serving = true
is_sender_running _ = false

unfoldable pub is_receiver_running : Phase → Bool
is_receiver_running serving = true
is_receiver_running stopping_sender = true
is_receiver_running _ = false

-- `others`: whether other nodes send to the group.
module _ (others : Bool) where
  pub data Step : Closing → Closing → Type 0 where
    stop_sender : (c : Closing) → c.phase ≡ serving → Step c (record c { phase = stopping_sender })
    stop_receiver :
        (c : Closing) → c.phase ≡ stopping_sender → Step c (record c { phase = stopping_receiver })
    stop_pool : (c : Closing) → c.phase ≡ stopping_receiver → Step c (record c { phase = joining })
    join :
        (c : Closing)
        → c.phase ≡ joining
        → c.sender ≡ ended
        → c.receiver ≡ over
        → Step c (record c { phase = joined })
    sends : (c : Closing) → c.sender ≡ turning → Step c (record c { queue = c.queue + 1 })
    sender_ends :
        (c : Closing)
        → c.sender ≡ turning
        → is_sender_running c.phase ≡ false
        → Step c (record c { sender = ended })
    other_sends : (c : Closing) → others ≡ true → Step c (record c { queue = c.queue + 1 })
    receives :
        (c : Closing) (n : ℕ)
        → c.receiver ≡ inside
        → c.queue ≡ suc n
        → Step c (record c { receiver = between; queue = n })
    turns :
        (c : Closing)
        → c.receiver ≡ between
        → is_receiver_running c.phase ≡ true
        → Step c (record c { receiver = inside })
    receiver_ends :
        (c : Closing)
        → c.receiver ≡ between
        → is_receiver_running c.phase ≡ false
        → Step c (record c { receiver = over })

  pub data Reach (c : Closing) : Closing → Type 0 where
    here : Reach c c
    next : {d e : Closing} → Reach c d → Step d e → Reach c e
