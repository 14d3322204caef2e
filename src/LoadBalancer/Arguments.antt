-- ===== src/LoadBalancer/Arguments.antt =====
-- The arguments of main in load_balancer/LoadBalancerMain.cpp. `atoi` is that of the C library.
pub mod Usage
use load_balancer_with_wal.Base.{
  ℕ, zero, suc, ◌+◌, none, some, List, [], ◌∷◌, length, if◌then◌else◌, Result, ok, fault,
}
use load_balancer_with_wal.Base.Int.{ℤ, pos, pos_part, eq_ℤ}
use load_balancer_with_wal.Arguments.{arg, ◌>>=◌}
use load_balancer_with_wal.LoadBalancer.Proxy.{Proxy, new_proxy}

-- worker_node_map, a std::map from an id to an address and a port
abbrev pub NodeMap : Type 0
NodeMap = List (ℤ × List ℕ × ℤ)

-- worker_node_map[id] = std::make_pair (ip, port)
unfoldable pub set_node : ℤ → List ℕ → ℤ → NodeMap → NodeMap
set_node id ip port [] = (id, ip, port) ∷ []
set_node id ip port ((j, a, q) ∷ m) =
    if eq_ℤ j id then (j, ip, port) ∷ m else (j, a, q) ∷ set_node id ip port m

-- worker_nodes_map[i], which is an empty address for a missing key
unfoldable pub node_at : NodeMap → ℤ → List ℕ × ℤ
node_at [] id = ([], pos 0)
node_at ((j, a, q) ∷ m) id = if eq_ℤ j id then (a, q) else node_at m id

module _ (atoi : List ℕ → ℤ) where
  -- the loop over the nodes from argument j, for the given rounds
  unfoldable pub read_nodes : ℕ → ℕ → NodeMap → List (List ℕ) → Result NodeMap
  read_nodes zero j worker_node_map argv = ok worker_node_map
  read_nodes (suc n) j worker_node_map argv = do
    worker_node_id ← arg argv j
    worker_node_ip ← arg argv (j + 1)
    worker_node_port ← arg argv (j + 2)
    read_nodes n (j + 3)
        (set_node (atoi worker_node_id) worker_node_ip (atoi worker_node_port) worker_node_map) argv

  -- main up to the object `factory`: the port to listen on, and the object
  unfoldable pub balancer_args : List (List ℕ) → Result (ℤ × Proxy)
  balancer_args argv = do
    port ← arg argv 1
    num_worker_nodes ← arg argv 2
    worker_node_map ← read_nodes (pos_part (atoi num_worker_nodes)) 3 [] argv
    ok (atoi port, new_proxy (length worker_node_map) (λ i. node_at worker_node_map (pos i)))
