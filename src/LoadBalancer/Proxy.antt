-- ===== src/LoadBalancer/Proxy.antt =====
-- load_balancer/ServerThread.cpp: the class RobotFactory, which forwards each customer to factories
-- that answer the heartbeat. `node_health` and `worker_nodes_map` are functions, which give what
-- operator[] gives for a missing key; the heartbeat and the customers' threads take turns by the mutex.
pub mod Selection
pub mod Relay
pub mod Threads
use load_balancer_with_wal.Base.{
  ℕ, zero, suc, ◌+◌, Bool, true, false, not, Option, none, some, List, ◌==◌, if◌then◌else◌, Result,
  ok, fault, undefined,
}
use load_balancer_with_wal.Base.Int.{ℤ, pos, minus_one, ltb_ℤ, eq_ℤ}
use load_balancer_with_wal.Platform.{Platform}
use load_balancer_with_wal.RobotFactory.{OrderInf, RobotInf, CRec}
use load_balancer_with_wal.RobotFactory.Wire.{
  order_words, order_at, robot_words, robot_at, c_rec_words, c_rec_at,
}
use load_balancer_with_wal.ServerStub.{send_struct, recv_struct}

pub record Proxy : Type 0 where
  pub current_worker_node : ℕ
  pub master_node_id : ℕ
  pub worker_node_map_size : ℕ
  pub worker_nodes_map : ℕ → List ℕ × ℤ
  pub node_health : ℕ → Bool

abbrev pub set_health : ℕ → Bool → (ℕ → Bool) → ℕ → Bool
set_health i b health j = if i == j then b else health j

-- the loop of the constructor over the nodes 0 to n - 1
unfoldable pub all_healthy : ℕ → (ℕ → Bool) → ℕ → Bool
all_healthy zero health = health
all_healthy (suc n) health = set_health n true (all_healthy n health)

-- RobotFactory::RobotFactory
unfoldable pub new_proxy : ℕ → (ℕ → List ℕ × ℤ) → Proxy
unfolding all_healthy
new_proxy size nodes = record {
  current_worker_node = 0;
  master_node_id = 0;
  worker_node_map_size = size;
  worker_nodes_map = nodes;
  node_health = all_healthy size (λ i. false);
}

-- the loop of get_master_node from node i, for the given rounds
unfoldable pub first_healthy : ℕ → ℕ → (ℕ → Bool) → Option ℕ
first_healthy zero i health = none
first_healthy (suc n) i health = elim (health i) [
  | true ↦ some i
  | false ↦ first_healthy n (i + 1) health
]

-- get_master_node: the node of the connection, or none for NULL
unfoldable pub get_master_node : Proxy → Option ℕ × Proxy
unfolding first_healthy
get_master_node s =
    if not (s.node_health s.master_node_id)
    then elim (first_healthy s.worker_node_map_size 0 s.node_health) [
      | none ↦ (none, s)
      | some i ↦ (some i, record s { master_node_id = i })
    ]
    else (some s.master_node_id, s)

-- The stub `cs` of a customer's thread: NULL, without a connection, or initialised for a node.
pub data Stub : Type 0 where
  null : Stub
  idle : Stub
  to_node : ℕ → Stub

-- the call of Init on a stub
abbrev pub init_stub : ℕ → Stub → Result Stub
init_stub i null = fault undefined
init_stub i idle = ok (to_node i)
init_stub i (to_node j) = ok (to_node i)

-- the loop of LoadBalancerThread that looks for another node, from node i, for the given rounds
unfoldable pub other_worker : ℕ → ℕ → (ℕ → Bool) → Stub → Result Stub
other_worker zero i health cs = ok cs
other_worker (suc n) i health cs = elim (health i) [
  | true ↦ init_stub i cs
  | false ↦ other_worker n (i + 1) health null
]

-- the choice of a node for the reads of a customer
unfoldable pub choose_worker : Proxy → Result (Stub × Proxy)
unfolding other_worker
choose_worker s =
    if not (s.node_health s.current_worker_node)
    then elim (other_worker s.worker_node_map_size 0 s.node_health idle) [
      | ok cs ↦ ok (cs, s)
      | fault e ↦ fault e
    ]
    else (let following = s.current_worker_node + 1 in
        ok (
          to_node s.current_worker_node,
          record s {
            current_worker_node = if following == s.worker_node_map_size then 0 else following;
          },
        ))

-- the robot that stands for a failure
abbrev pub no_robot : RobotInf
no_robot = record {
  customer_id = minus_one;
  order_number = minus_one;
  request_type = minus_one;
  engineer_id = minus_one;
  admin_id = minus_one;
}

module _ {W : Type 0} (p : Platform W) where
  -- ClientStub::struct_order and ClientStub::struct_read_record
  unfoldable pub struct_order : ℤ → OrderInf → W → Option RobotInf × W
  struct_order sock new_order w =
      let (sent, w') = send_struct p sock (order_words new_order) w in
      if sent then recv_struct p sock 20 (robot_at p) w' else (none, w')

  unfoldable pub struct_read_record : ℤ → OrderInf → W → Option CRec × W
  struct_read_record sock new_order w =
      let (sent, w') = send_struct p sock (order_words new_order) w in
      if sent then recv_struct p sock 8 (c_rec_at p) w' else (none, w')

  -- ServerStub::struct_receive_request, struct_ship_Robot and struct_return_record
  unfoldable pub struct_receive_request : ℤ → W → Option OrderInf × W
  struct_receive_request sock w = recv_struct p sock 12 (order_at p) w

  unfoldable pub struct_ship_robot : ℤ → RobotInf → W → Bool × W
  struct_ship_robot sock send_robot w = send_struct p sock (robot_words send_robot) w

  unfoldable pub struct_return_record : ℤ → CRec → W → Bool × W
  struct_return_record sock send_rec w = send_struct p sock (c_rec_words send_rec) w

  -- a struct on the stack that nothing has set
  abbrev pub unset_robot : W → RobotInf
  unset_robot w = record {
    customer_id = p.uninit w;
    order_number = p.uninit w;
    request_type = p.uninit w;
    engineer_id = p.uninit w;
    admin_id = p.uninit w;
  }

  abbrev pub unset_record : W → CRec
  unset_record w = record { customer_id = p.uninit w; last_order = p.uninit w }

  -- RobotFactory::CreateRobot
  unfoldable pub create_robot : OrderInf → ℤ → W → RobotInf × W
  create_robot get_order master w =
      let (got, w') = struct_order master get_order w in
      (elim got [ none ↦ unset_robot w | some robot ↦ robot ], w')

  -- RobotFactory::ReadRecord
  unfoldable pub read_record : OrderInf → ℤ → ℤ → W → W
  read_record request customer worker w =
      let (got, w') = struct_read_record worker request w in
      (struct_return_record customer (elim got [ none ↦ unset_record w | some r ↦ r ]) w').1

  -- the switch of LoadBalancerThread; a master of none is NULL
  unfoldable pub dispatch : OrderInf → ℤ → Option ℤ → ℤ → W → W
  dispatch get_order customer master worker w =
      if eq_ℤ get_order.request_type (pos 1)
      then elim master [
        | some m ↦
            let (robot, w') = create_robot get_order m w in (struct_ship_robot customer robot w').1
        | none ↦ (struct_ship_robot customer no_robot w).1
      ]
      else if eq_ℤ get_order.request_type (pos 2)
      then read_record get_order customer worker w
      else w

  -- ServerStub::msg_peek
  unfoldable pub msg_peek : ℤ → W → Bool × W
  msg_peek sock w =
      let (peeked, w') = p.peek sock 12 w in
      if eq_ℤ peeked (pos 0) then (false, p.close sock w') else (true, w')

  -- One round of the loop of LoadBalancerThread: whether it goes on.
  unfoldable pub serve_round : ℤ → Option ℤ → ℤ → W → Bool × W
  serve_round customer master worker w =
      let (open_still, w1) = msg_peek customer w in
      if not open_still
      then (false, w1)
      else (let (got, w2) = struct_receive_request customer w1 in
          elim got [
            | none ↦ (false, w2)
            | some get_order ↦ (true, dispatch get_order customer master worker w2)
          ])

  -- one probe of the loop of HertBeatHandler
  unfoldable pub heartbeat : ℕ → ℤ → Proxy → W → Proxy × W
  heartbeat i sock s w =
      let probe : OrderInf = record {
        customer_id = pos 3000;
        order_number = pos 0;
        request_type = pos 2;
      } in
      let (got, w') = struct_read_record sock probe w in
      let healthy : Bool = elim got [ none ↦ false | some r ↦ true ] in
      (record s { node_health = set_health i healthy s.node_health }, w')
