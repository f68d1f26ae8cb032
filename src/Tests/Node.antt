-- ===== src/Tests/Node.antt =====
-- A node that is started and stopped, once and twice, and one that is alone.
use zero_lan_com.Base.{true, false, [], refl, ◌≢◌}
use zero_lan_com.Nodes.ZeroLanComNode.{World, all_instances, no_instances}
use zero_lan_com.Nodes.ZeroLanComNode.Shutdown.{Closing, joined, Reach}
use zero_lan_com.Nodes.ZeroLanComNode.Shutdown.Hanging.{serving_node, joining_node, lone_stop_hangs}
use zero_lan_com.Nodes.ZeroLanComNode.Restart.{IsClean, StopsOnce, stop_twice}

-- The process before its first `init`.
abbrev at_first : World
at_first = record {
  instances = no_instances;
  node = false;
  running = false;
  pool_running = false;
  pool_threads = 0;
  enqueued = [];
  stopped = [];
  get_node_info_registered = false;
  logger = false;
}

at_first-IsClean : IsClean at_first
at_first-IsClean = record {
  node = refl;
  instances = refl;
  enqueued = refl;
  stopped = refl;
  pool_running = refl;
}

stop_twice_example : StopsOnce (record at_first {
  instances = all_instances;
  node = true;
  running = true;
  pool_running = true;
})
stop_twice_example =
    stop_twice
      (record at_first {
        instances = all_instances;
        node = true;
        running = true;
        pool_running = true;
      })
      refl refl

lone_stop_hangs_example :
    Reach false (serving_node 2) joining_node
    × ((d : Closing) → Reach false joining_node d → d.phase ≢ joined)
lone_stop_hangs_example = lone_stop_hangs 2
