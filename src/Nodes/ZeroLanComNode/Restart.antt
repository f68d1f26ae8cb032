-- ===== src/Nodes/ZeroLanComNode/Restart.antt =====
-- A node that fails to start, or is stopped twice. That `ThreadPool::stop` returns from its joins is
-- taken for granted here; when it does not is in Shutdown.
use zero_lan_com.Base.{ℕ, [], Bool, true, false, ◌≡◌, refl, sym, subst}
use zero_lan_com.Base.Result.{Exception, Result, ok, err, logic_error}
use zero_lan_com.Nodes.ZeroLanComNode.{
  no_instances, all_instances, World, init, construct_node, stop, shutdown, spin_end,
}

-- No node is there, and no singleton of one.
pub record IsClean (w : World) : Type 0 where
  pub node : w.node ≡ false
  pub instances : w.instances ≡ no_instances
  pub enqueued : w.enqueued ≡ []
  pub stopped : w.stopped ≡ []
  pub pool_running : w.pool_running ≡ false

abbrev clean : Bool → ℕ → Bool → Bool → World
clean running threads registered logger = record {
  instances = no_instances;
  node = false;
  running = running;
  pool_running = false;
  pool_threads = threads;
  enqueued = [];
  stopped = [];
  get_node_info_registered = registered;
  logger = logger;
}

-- What holds of every clean world is shown at these.
at_clean :
    (P : World → Type 0)
    → ((running : Bool) (threads : ℕ) (registered logger : Bool)
        → P (clean running threads registered logger))
    → (w : World) → IsClean w
    → P w
at_clean P h w c =
    subst P
      (λ i. record {
        instances = sym c.instances i;
        node = sym c.node i;
        running = w.running;
        pool_running = sym c.pool_running i;
        pool_threads = w.pool_threads;
        enqueued = sym c.enqueued i;
        stopped = sym c.stopped i;
        get_node_info_registered = w.get_node_info_registered;
        logger = w.logger;
      })
      (h w.running w.pool_threads w.get_node_info_registered w.logger)

abbrev pub IsSpent : Result (Unit {0}) → Result (Unit {0}) → World → Type 0
IsSpent failed bound w =
    let after = (init failed w).1 in
    ((init bound after).0 ≡ err logic_error)
    × ((shutdown after).0 ≡ ok tt)
    × ((init bound (shutdown after).1).0 ≡ err logic_error)

-- An `init` that fails because the service socket cannot be bound leaves singletons behind, which
-- `shutdown` does not destroy: each later `init` is refused, whether the socket can be bound or not.
pub init-failed :
    (e : Exception) (bound : Result (Unit {0})) (w : World) → IsClean w → IsSpent (err e) bound w
unfolding init construct_node shutdown
init-failed e bound =
    at_clean (IsSpent (err e) bound) (λ running threads registered logger. (refl, refl, refl))

abbrev pub StopsOnce : World → Type 0
StopsOnce w =
    let after = (stop w).1 in
    ((stop w).0 ≡ ok tt)
    × ((stop after).0 ≡ err logic_error)
    × ((shutdown after).0 ≡ err logic_error)
    × ((spin_end after).0 ≡ err logic_error)

-- `stop` on a running node succeeds and destroys the singletons that it uses itself: a second
-- `stop` throws `logic_error`, also the one that `shutdown` makes in the node's destructor, and the
-- one with which `spin` ends.
pub stop_twice : (w : World) → w.instances ≡ all_instances → w.node ≡ true → StopsOnce w
unfolding stop shutdown spin_end
stop_twice w e n =
    subst StopsOnce
      (λ i. record {
        instances = sym e i;
        node = sym n i;
        running = w.running;
        pool_running = w.pool_running;
        pool_threads = w.pool_threads;
        enqueued = w.enqueued;
        stopped = w.stopped;
        get_node_info_registered = w.get_node_info_registered;
        logger = w.logger;
      })
      (refl, refl, refl, refl)
