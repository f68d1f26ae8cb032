-- ===== src/Tests/Calls.antt =====
-- An event whose first callback subscribes another one and whose second throws; a node table whose
-- subscriber throws; a logger, a context and the sockets of the multicast group.
use zero_lan_com.Base.{
  ℕ, ◌+◌, ◌++◌, ◌≤◌, List, [], ◌∷◌, true, false, ◌==◌, if◌then◌else◌, ◌≡◌, refl,
}
use zero_lan_com.Base.Text.{Str, bytes}
use zero_lan_com.Base.Result.{Result, ok, err, runtime_error, zmq_error, unknown_exception}
use zero_lan_com.Utils.Event.{Event, subscribe, trigger}
use zero_lan_com.Utils.Event.Calls.{IsLogging, Called, trigger-Called}
use zero_lan_com.Utils.Logger.{info, fatal}
use zero_lan_com.Utils.Logger.Orderly.{
  LoggerCall, init_call, shutdown_call, write_call, text_call, perform_all, IsOrderly,
  perform_all-IsOrderly, logger_of,
}
use zero_lan_com.Utils.ZmqContext.{ZmqCall, term, destroy_context}
use zero_lan_com.Utils.ThreadPool.Workers.{count}
use zero_lan_com.Utils.ZmqContext.Closing.{
  ContextUse, create_use, temp_use, temp_end, use_all, new_context, made_count, closed_count,
  NoTerm, destroy_context-closed,
}
use zero_lan_com.Nodes.NodeInfoManager.{is_stale}
use zero_lan_com.Nodes.NodeInfoManager.Throwing.{
  check_heartbeats_calling, Removed, check_heartbeats_calling-Removed,
}
use zero_lan_com.Nodes.NodeInfo.{NodeInfo}
use zero_lan_com.Base.Map.Unique.{keys_where}
use zero_lan_com.Tests.Data.{node_b}

abbrev logged : ℕ → Event (List ℕ × ℕ) → Event (List ℕ × ℕ)
logged c e = record e { state = (e.state.0 ++ c ∷ [], e.state.1) }

-- Each callback subscribes callback 9, and callback 2 throws then.
abbrev calling : ℕ → Str → Event (List ℕ × ℕ) → Result (Unit {0}) × Event (List ℕ × ℕ)
calling c args e = (if c == 2 then err runtime_error else ok tt, subscribe 9 (logged c e))

calling-IsLogging : IsLogging calling
unfolding subscribe
calling-IsLogging c args e = refl

abbrev three : Event (List ℕ × ℕ)
three = record { callbacks = 1 ∷ 2 ∷ 3 ∷ []; state = ([], 0) }

trigger-Called_example : Called calling (1 ∷ 2 ∷ 3 ∷ []) [] three (trigger calling [] three)
trigger-Called_example = trigger-Called calling calling-IsLogging [] three

abbrev refusing : NodeInfo → ℕ → Result (Unit {0}) × ℕ
refusing gone n = (err (zmq_error 2), n)

check_heartbeats_calling-Removed_example :
    Removed refusing
      (keys_where (is_stale 9_000_000_000) node_b.nodes_heartbeat)
      node_b
      0
      (check_heartbeats_calling refusing 9_000_000_000 node_b 0)
check_heartbeats_calling-Removed_example =
    check_heartbeats_calling-Removed refusing 9_000_000_000 node_b 0

-- The first file cannot be opened; messages before the second `init` are dropped.
abbrev logger_calls : List LoggerCall
logger_calls =
    init_call (bytes "20250101_000000") true (bytes "/closed")
    ∷ write_call info (bytes "dropped")
    ∷ text_call fatal (bytes "not dropped")
    ∷ init_call (bytes "20250101_000001") false []
    ∷ write_call info (bytes "written")
    ∷ shutdown_call
    ∷ []

perform_all-IsOrderly_example :
    IsOrderly (perform_all (λ path. err unknown_exception) logger_calls (logger_of false []))
perform_all-IsOrderly_example = perform_all-IsOrderly (λ path. err unknown_exception) logger_calls

-- Two sockets that are kept, one that is not, one that cannot be made, and one that is still in use.
abbrev uses : List ContextUse
uses =
    create_use (ok tt)
    ∷ temp_use (ok tt)
    ∷ temp_use (err (zmq_error 24))
    ∷ temp_end 1
    ∷ create_use (ok tt)
    ∷ temp_use (ok tt)
    ∷ []

destroy_context-closed_example :
    let c = use_all uses new_context in
    (calls : List ZmqCall) × ((destroy_context c).calls ≡ term ∷ calls)
    × NoTerm calls
    × ((h : ℕ)
        → (made_count h calls ≡ closed_count h calls + count h c.temps) × (made_count h calls ≤ 1))
destroy_context-closed_example = destroy_context-closed uses
