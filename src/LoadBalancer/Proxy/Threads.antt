-- ===== src/LoadBalancer/Proxy/Threads.antt =====
-- The two threads of load_balancer/ServerThread.cpp, whole: LoadBalancerThread for a customer, and
-- HertBeatHandler, whose endless loop is given by its rounds.
pub mod Health
pub mod Session
use load_balancer_with_wal.Base.{
  ℕ, zero, suc, ◌+◌, Bool, true, false, Option, none, some, List, [], ◌∷◌, Result, ok, fault,
  undefined, diverged,
}
use load_balancer_with_wal.Base.Int.{ℤ, pos, minus_one}
use load_balancer_with_wal.Platform.{Platform}
use load_balancer_with_wal.RobotFactory.{CRec}
use load_balancer_with_wal.LoadBalancer.Connect.{Connection, new_connection, connect_to}
use load_balancer_with_wal.LoadBalancer.Proxy.{
  Proxy, set_health, get_master_node, Stub, null, idle, to_node, choose_worker,
  struct_return_record, serve_round, heartbeat,
}

-- the record that stands for a failure
abbrev pub no_record : CRec
no_record = record { customer_id = minus_one; last_order = minus_one }

module _ {W : Type 0} (p : Platform W) where
  -- a new stub, initialised for node i
  unfoldable pub connect_node : Proxy → ℕ → W → ℤ × W
  connect_node s i w =
      let (ip, port) = s.worker_nodes_map i in
      let (_, c, w') = connect_to p ip port (new_connection p w) w in (c.fd, w')

  -- get_master_node with its connection; none stands for NULL
  unfoldable pub connect_master : Proxy → W → Option ℤ × Proxy × W
  connect_master s w =
      let (master, s') = get_master_node s in
      elim master [
        | none ↦ (none, s', w)
        | some i ↦ (let (sock, w') = connect_node s i w in (some sock, s', w'))
      ]

  -- the loop of LoadBalancerThread, on fuel
  unfoldable pub serve_rounds : ℕ → ℤ → Option ℤ → ℤ → W → Result W
  serve_rounds zero customer master worker w = fault diverged
  serve_rounds (suc fuel) customer master worker w =
      let (again, w') = serve_round p customer master worker w in
      elim again [ true ↦ serve_rounds fuel customer master worker w' | false ↦ ok w' ]

  -- ClientStub::ClientStubClose
  unfoldable pub close_node : ℤ → W → W
  close_node sock w = p.close sock (p.shutdown sock w)

  -- the loop and the ends of the two connections; a master of NULL is used all the same
  unfoldable pub serve_customer : ℕ → ℤ → Option ℤ → ℤ → W → Result W
  serve_customer fuel customer master worker w = elim (serve_rounds fuel customer master worker w) [
    | fault e ↦ fault e
    | ok w' ↦ elim master [
      | none ↦ fault undefined
      | some sock ↦ ok (close_node sock (close_node worker w'))
    ]
  ]

  -- LoadBalancerThread behind get_master_node: `s` is the state at its second hold of the mutex,
  -- where the heartbeat may have changed it
  unfoldable pub serve_from : ℕ → ℤ → Option ℤ → Proxy → W → Result (Proxy × W)
  serve_from fuel customer master s w = elim (choose_worker s) [
    | fault e ↦ fault e
    | ok (null, s') ↦ ok (s', (struct_return_record p customer no_record w).1)
    | ok (idle, s') ↦ ended s' (serve_customer fuel customer master (p.uninit w) w)
    | ok (to_node i, s') ↦
        let (worker, w') = connect_node s i w in
        ended s' (serve_customer fuel customer master worker w')
  ]
    where
      ended : Proxy → Result W → Result (Proxy × W)
      ended s' (ok w') = ok (s', w')
      ended s' (fault e) = fault e

  -- the start of HertBeatHandler from node i, for the given nodes: their connections
  unfoldable pub connect_nodes : ℕ → ℕ → Proxy → W → List ℤ × Proxy × W
  connect_nodes zero i s w = ([], s, w)
  connect_nodes (suc n) i s w =
      let (sock, w1) = connect_node s i w in
      let (socks, s', w2) =
        connect_nodes n (i + 1) (record s { node_health = set_health i true s.node_health }) w1 in
      (sock ∷ socks, s', w2)

  -- one round of the loop of HertBeatHandler, from node i
  unfoldable pub probe_nodes : List ℤ → ℕ → Proxy → W → Proxy × W
  probe_nodes [] i s w = (s, w)
  probe_nodes (sock ∷ socks) i s w =
      let (s', w') = heartbeat p i sock s w in probe_nodes socks (i + 1) s' w'

  -- LoadBalancerThread: `others` is what the other threads do to the state between its two holds of the
  -- mutex
  unfoldable pub load_balancer_thread : ℕ → (Proxy → Proxy) → ℤ → Proxy → W → Result (Proxy × W)
  load_balancer_thread fuel others customer s w =
      let (master, s1, w1) = connect_master s w in serve_from fuel customer master (others s1) w1

  -- rounds of the loop of HertBeatHandler, with what the other threads do before each
  unfoldable pub heartbeat_rounds : ℕ → (Proxy → Proxy) → List ℤ → Proxy → W → Proxy × W
  heartbeat_rounds zero others socks s w = (s, w)
  heartbeat_rounds (suc n) others socks s w =
      let (s1, w1) = probe_nodes socks 0 (others s) w in heartbeat_rounds n others socks s1 w1

  -- HertBeatHandler, by the rounds of its loop
  unfoldable pub heartbeat_handler : ℕ → (Proxy → Proxy) → Proxy → W → Proxy × W
  heartbeat_handler rounds others s w =
      let (socks, s1, w1) = connect_nodes s.worker_node_map_size 0 s w in
      heartbeat_rounds rounds others socks s1 w1
