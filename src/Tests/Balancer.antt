-- ===== src/Tests/Balancer.antt =====
-- The threads of the load balancer at concrete inputs.
use load_balancer_with_wal.Base.{◌+◌, ◌≡◌, refl, ap, true, false, [], ◌∷◌, get_elem?}
use load_balancer_with_wal.Base.Int.{pos, minus_one}
use load_balancer_with_wal.RobotFactory.Wire.{memory, c_rec_words}
use load_balancer_with_wal.LoadBalancer.Proxy.{Proxy}
use load_balancer_with_wal.LoadBalancer.Proxy.Threads.{probe_nodes}
use load_balancer_with_wal.LoadBalancer.Proxy.Threads.Health.{replies, probe_nodes-health}
use load_balancer_with_wal.Tests.World.{World, little}
use load_balancer_with_wal.Tests.Log.{world}

-- one node, which answers the heartbeat
abbrev single : Proxy
single = record {
  current_worker_node = 0;
  master_node_id = 0;
  worker_node_map_size = 1;
  worker_nodes_map = λ i. ([], pos (8000 + i));
  node_health = λ i. true;
}

-- two nodes, of which the first answers
abbrev first_answers : World
first_answers = record world {
  inbox =
      memory little (c_rec_words (record { customer_id = pos 3000; last_order = minus_one })) ∷ [];
}

second_silent : replies little (pos 3 ∷ pos 4 ∷ []) first_answers ≡ true ∷ false ∷ []
unfolding memory
second_silent = refl

probe_nodes-health_example :
    (probe_nodes little (pos 3 ∷ pos 4 ∷ []) 0 single first_answers).0.node_health 1 ≡ false
probe_nodes-health_example =
    probe_nodes-health little (pos 3 ∷ pos 4 ∷ []) 1 false single first_answers
      (ap (λ bs. get_elem? bs 1) second_silent)
