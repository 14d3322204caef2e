-- ===== src/Tests/Arguments.antt =====
-- Command lines of the server and of the load balancer.
use load_balancer_with_wal.Base.{ℕ, ◌≡◌, refl, List, [], ◌∷◌, ok}
use load_balancer_with_wal.Base.Int.{ℤ, pos, minus_one}
use load_balancer_with_wal.LoadBalancer.Arguments.{balancer_args}
use load_balancer_with_wal.LoadBalancer.Arguments.Usage.{balancer, balancer_args-usage}
use load_balancer_with_wal.Server.Arguments.{server_args}
use load_balancer_with_wal.Server.Arguments.Usage.{server_args-usage}

-- strings of one number, and the number that each stands for
abbrev pub text : ℕ → List ℕ
text n = n ∷ []

abbrev pub atoi : List ℕ → ℤ
atoi [] = pos 0
atoi (n ∷ _) = pos n

server_args-usage_example :
    server_args atoi
      (text 0 ∷ text 9001 ∷ text 1 ∷ text 1 ∷ text 2 ∷ text 127 ∷ text 9002 ∷ text 8001 ∷ [])
    ≡ ok (record {
      client_port_addr = pos 8001;
      factory_port_addr = pos 9001;
      factory_id = pos 1;
      factories =
          record {
            factory_id = pos 2;
            factory_ip = text 127;
            factory_port = pos 9002;
            sock = minus_one;
          }
          ∷ [];
    })
server_args-usage_example =
    server_args-usage atoi (text 0) (text 9001) (text 1) (text 1) (text 8001)
      ((text 2, text 127, text 9002) ∷ []) refl refl refl

-- two nodes of the load balancer
abbrev pub nodes : List (List ℕ × List ℕ)
nodes = (text 127, text 8001) ∷ (text 128, text 8002) ∷ []

balancer_args-usage_example :
    (balancer_args atoi (
        text 0
        ∷ text 7000
        ∷ text 2
        ∷ text 0
        ∷ text 127
        ∷ text 8001
        ∷ text 1
        ∷ text 128
        ∷ text 8002
        ∷ [])
      ≡ ok (pos 7000, balancer atoi text nodes))
    × ((balancer atoi text nodes).worker_node_map_size ≡ 2)
    × ((balancer atoi text nodes).worker_nodes_map 1 ≡ (text 128, pos 8002))
balancer_args-usage_example =
    balancer_args-usage atoi text (text 0) (text 7000) (text 2) (text 128) (text 8002) nodes 1
      (λ k h. refl) refl refl
