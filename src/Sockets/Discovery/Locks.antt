-- ===== src/Sockets/Discovery/Locks.antt =====
-- The two mutexes that are held together: `mutex_` of the subscriber manager
-- (src/sockets/subscriber_manager.cpp) and the shared mutex `data_mutex_` of the node table
-- (src/nodes/node_info_manager.cpp). Each thread is where it is in one of their methods; the event's
-- own mutex, which is held for one copy, is left out.
pub mod Deadlock
pub mod Progress
pub mod Exclusion
use zero_lan_com.Base.{
  ℕ, zero, suc, ◌+◌, List, [], ◌∷◌, ◌++◌, Bool, true, false, if◌then◌else◌, ◌≡◌,
}

pub data Thread : Type 0 where
  -- in none of these methods
  idle : Thread
  -- `_registerTopicSubscriber`: before, in and behind the section of `getPublisherInfo`
  registering reading_publishers registered : Thread
  -- `checkHeartbeats`: in its loops, before the lock of `removeTopicSubscriber`, and behind it
  checking withdrawing removing : Thread
  -- `removeNode`, and the sections of `processHeartbeat`
  writing : Thread
  -- `getPublisherInfo` and `getServiceInfo` alone, `checkNodeID` and `checkNodeInfoID`
  reading : Thread
  -- `updateTopicSubscriber`, and the section of `pollOnce`
  using_subscribers : Thread

-- Who holds `mutex_`.
unfoldable pub holds_mutex : Thread → Bool
holds_mutex registering = true
holds_mutex reading_publishers = true
holds_mutex registered = true
holds_mutex removing = true
holds_mutex using_subscribers = true
holds_mutex idle = false
holds_mutex checking = false
holds_mutex withdrawing = false
holds_mutex writing = false
holds_mutex reading = false

-- Who holds `data_mutex_` by a `unique_lock`.
unfoldable pub holds_data : Thread → Bool
holds_data checking = true
holds_data withdrawing = true
holds_data removing = true
holds_data writing = true
holds_data idle = false
holds_data registering = false
holds_data reading_publishers = false
holds_data registered = false
holds_data reading = false
holds_data using_subscribers = false

-- Who holds `data_mutex_` by a `shared_lock`.
unfoldable pub shares_data : Thread → Bool
shares_data reading_publishers = true
shares_data reading = true
shares_data idle = false
shares_data registering = false
shares_data registered = false
shares_data checking = false
shares_data withdrawing = false
shares_data removing = false
shares_data writing = false
shares_data using_subscribers = false

unfoldable pub number : (Thread → Bool) → List Thread → ℕ
number p [] = 0
number p (t ∷ ts) = if p t then 1 + number p ts else number p ts

-- A lock is free if none of the other threads holds it in the way.
pub data Move (others : List Thread) : Thread → Thread → Type 0 where
  begin_register : number holds_mutex others ≡ 0 → Move others idle registering
  begin_publishers : number holds_data others ≡ 0 → Move others registering reading_publishers
  end_publishers : Move others reading_publishers registered
  end_register : Move others registered idle
  begin_check :
      number holds_data others ≡ 0 → number shares_data others ≡ 0 → Move others idle checking
  stale_node : Move others checking withdrawing
  begin_remove : number holds_mutex others ≡ 0 → Move others withdrawing removing
  end_remove : Move others removing checking
  end_check : Move others checking idle
  begin_write :
      number holds_data others ≡ 0 → number shares_data others ≡ 0 → Move others idle writing
  end_write : Move others writing idle
  begin_read : number holds_data others ≡ 0 → Move others idle reading
  end_read : Move others reading idle
  begin_use : number holds_mutex others ≡ 0 → Move others idle using_subscribers
  end_use : Move others using_subscribers idle

-- One thread moves.
pub data Step : List Thread → List Thread → Type 0 where
  step :
      (ws vs : List Thread) (t u : Thread)
      → Move (ws ++ vs) t u
      → Step (ws ++ t ∷ vs) (ws ++ u ∷ vs)

pub data Reach (ts : List Thread) : List Thread → Type 0 where
  here : Reach ts ts
  next : {us vs : List Thread} → Reach ts us → Step us vs → Reach ts vs
