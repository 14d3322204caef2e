-- ===== src/Tests/Proxy.antt =====
-- The proxy at concrete inputs.
use load_balancer_with_wal.Base.{
  ℕ, ◌+◌, ◌≡◌, refl, ◌⊎◌, true, false, ltb, List, [], ◌∷◌, some, none, ok, fault, undefined, arith,
}
use load_balancer_with_wal.Base.Int.{pos}
use load_balancer_with_wal.Platform.{Platform}
use load_balancer_with_wal.RobotFactory.{OrderInf, RobotInf, CRec}
use load_balancer_with_wal.RobotFactory.Wire.{memory, order_words, robot_words, c_rec_words}
use load_balancer_with_wal.LoadBalancer.Proxy.{
  Proxy, null, to_node, get_master_node, choose_worker, serve_round,
}
use load_balancer_with_wal.LoadBalancer.Proxy.Selection.{
  NoneHealthy, FirstHealthy, get_master_node-cases, choose_worker-failover, choose_workers, in_turn,
  choose_workers-round,
}
use load_balancer_with_wal.LoadBalancer.Proxy.Relay.{serve_round-order, serve_round-read}
use load_balancer_with_wal.LoadBalancer.Proxy.Threads.Session.{Session}
use load_balancer_with_wal.Tests.World.{World, little, little-ByteLaws}
use load_balancer_with_wal.Tests.Log.{world}

-- three nodes, of which node 2 answers the heartbeat
abbrev failing : Proxy
failing = record {
  current_worker_node = 1;
  master_node_id = 0;
  worker_node_map_size = 3;
  worker_nodes_map = λ i. ([], pos (8000 + i));
  node_health = λ i. ltb 1 i;
}

abbrev healthy : Proxy
healthy = record failing { node_health = λ i. true }

get_master_node-cases_example :
    ((failing.node_health 0 ≡ true) × (get_master_node failing ≡ (some 0, failing)))
    ⊎ ((failing.node_health 0 ≡ false)
        × (k : ℕ) × FirstHealthy 3 0 failing.node_health k
        × (get_master_node failing ≡ (some k, record failing { master_node_id = k })))
    ⊎ ((failing.node_health 0 ≡ false)
        × NoneHealthy 3 0 failing.node_health
        × (get_master_node failing ≡ (none, failing)))
get_master_node-cases_example = get_master_node-cases failing

choose_worker-failover_example :
    ((failing.node_health 0 ≡ true) × (choose_worker failing ≡ ok (to_node 0, failing)))
    ⊎ ((failing.node_health 0 ≡ false)
        × (k : ℕ) × FirstHealthy 3 0 failing.node_health k
        × (choose_worker failing ≡ fault undefined))
    ⊎ (NoneHealthy 3 0 failing.node_health × (choose_worker failing ≡ ok (null, failing)))
choose_worker-failover_example = choose_worker-failover failing refl (omega arith)

choose_workers-round_example :
    choose_workers 2 healthy ≡ ok (to_node 1 ∷ to_node 2 ∷ [], in_turn 0 healthy)
choose_workers-round_example = choose_workers-round 1 healthy refl (λ j h. refl)

abbrev order : ℕ → OrderInf
order type = record { customer_id = pos 5; order_number = pos 300; request_type = pos type }

abbrev robot : RobotInf
robot = record {
  customer_id = pos 5;
  order_number = pos 300;
  request_type = pos 1;
  engineer_id = pos 2;
  admin_id = pos 101;
}

abbrev found : CRec
found = record { customer_id = pos 5; last_order = pos 300 }

-- a customer that sends a request, and a factory that answers
abbrev conversation : ℕ → List ℕ → World
conversation type answer = record world {
  inbox = memory little (order_words (order type)) ∷ answer ∷ [];
}

abbrev forwarded : ℕ → List (List ℕ) → World
forwarded type more = record world {
  inbox = more;
  outbox = memory little (order_words (order type)) ∷ [];
}

serve_round-order_example :
    serve_round little
      (pos 4)
      (some (pos 8))
      (pos 9)
      (conversation 1 (memory little (robot_words robot)))
    ≡ (true, (little.send (pos 4) (memory little (robot_words robot)) (forwarded 1 [])).1)
unfolding memory
serve_round-order_example =
    serve_round-order little little-ByteLaws (pos 4) (pos 9) (pos 8) (order 1) robot 0
      (conversation 1 (memory little (robot_words robot)))
      (conversation 1 (memory little (robot_words robot)))
      (record world { inbox = memory little (robot_words robot) ∷ [] })
      (forwarded 1 (memory little (robot_words robot) ∷ [])) (forwarded 1 [])
      (omega arith, omega arith, omega arith)
      (omega arith, omega arith, omega arith, omega arith, omega arith) refl refl refl refl refl

serve_round-read_example :
    serve_round little (pos 4) none (pos 9) (conversation 2 (memory little (c_rec_words found)))
    ≡ (true, (little.send (pos 4) (memory little (c_rec_words found)) (forwarded 2 [])).1)
unfolding memory
serve_round-read_example =
    serve_round-read little little-ByteLaws (pos 4) (pos 9) none (order 2) found 0
      (conversation 2 (memory little (c_rec_words found)))
      (conversation 2 (memory little (c_rec_words found)))
      (record world { inbox = memory little (c_rec_words found) ∷ [] })
      (forwarded 2 (memory little (c_rec_words found) ∷ [])) (forwarded 2 [])
      (omega arith, omega arith, omega arith) (omega arith) (omega arith) refl refl refl refl refl

-- sockets that tell by `peek` whether anything more comes
abbrev talking : Platform World
talking = record little { peek = λ sock size w. (elim w.inbox [ [] ↦ pos 0 | _ ∷ _ ↦ pos 1 ], w) }

abbrev order_bytes : ℕ → List ℕ
order_bytes type = memory talking (order_words (order type))

abbrev robot_bytes : List ℕ
robot_bytes = memory talking (robot_words robot)

abbrev found_bytes : List ℕ
found_bytes = memory talking (c_rec_words found)

abbrev between : List (List ℕ) → List (List ℕ) → World
between inbox outbox = record world { inbox = inbox; outbox = outbox }
