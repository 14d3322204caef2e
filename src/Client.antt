-- ===== src/Client.antt =====
-- ClientStub.h, ClientThread.cpp and Client.cpp: the program that places orders and reads records.
pub mod Timer
pub mod Orders
pub mod Records
pub mod Statistics
pub mod Run
pub mod AtServer
use load_balancer_with_wal.Base.{
  ℕ, zero, suc, ◌==◌, Bool, true, false, Option, none, some, List, [], ◌∷◌, if◌then◌else◌, length,
  map, Result, ok, fault, exited, get_elem?,
}
use load_balancer_with_wal.Base.Int.{
  ℤ, pos, minus_one, pos_part, ◌+ℤ◌, ◌-ℤ◌, wrap, next, ltb_ℤ, eq_ℤ,
}
use load_balancer_with_wal.Platform.{Platform}
use load_balancer_with_wal.RobotFactory.{OrderInf, RobotInf, CRec, ConnType}
use load_balancer_with_wal.RobotFactory.Wire.{order_words, robot_at, c_rec_at, conn_type_words}
use load_balancer_with_wal.ServerStub.{client_socket_init, send_struct, recv_struct}
use load_balancer_with_wal.Client.Timer.{
  Doubles, ClientTimer, new_timer, merge, timer_start, timer_end, end_and_merge,
}

-- what Client::print_record writes to the standard output
pub data Line : Type 0 where
  headings : Line
  record_line : CRec → Line
  unreadable : Line
  no_server : Line

-- the request to read the record of a customer
abbrev pub read_request : ℤ → OrderInf
read_request custid = record {
  customer_id = custid;
  order_number = minus_one;
  request_type = pos 2;
}

module _ {W : Type 0} (p : Platform W) where
  -- ClientStub::Init: its return value, and the socket that the stub keeps
  unfoldable pub client_init : List ℕ → ℤ → W → ℤ × ℤ × W
  client_init ip port w =
      let (connected_sock, w') = client_socket_init p ip port w in
      (if ltb_ℤ connected_sock (pos 0) then minus_one else pos 0, connected_sock, w')

  -- a request sent and its answer received
  unfoldable pub exchange : {A : Type 0} → ℤ → OrderInf → ℕ → (List ℕ → A) → W → Option A × W
  exchange connected_sock new_order size read w =
      let (sent, w') = send_struct p connected_sock (order_words new_order) w in
      elim sent [ true ↦ recv_struct p connected_sock size read w' | false ↦ (none, w') ]

  -- ClientStub::Order
  unfoldable pub client_order : ℤ → OrderInf → W → Option RobotInf × W
  client_order connected_sock new_order w = exchange connected_sock new_order 20 (robot_at p) w

  -- ClientStub::ReadRecord
  unfoldable pub client_read_record : ℤ → OrderInf → W → Option CRec × W
  client_read_record connected_sock new_order w = exchange connected_sock new_order 8 (c_rec_at p) w

  -- ClientStub::close_socket
  abbrev pub close_socket : ℤ → W → W
  close_socket connected_sock w = p.close connected_sock w

  -- ClientStub::set_conn_type, which sets one field of the struct
  unfoldable pub set_conn_type : ℤ → W → Bool × W
  set_conn_type connected_sock w =
      send_struct p connected_sock
        (conn_type_words (record { is_customer = pos 1; get_commit_req = p.uninit w })) w

  -- the loop of Client::print_record from customer i, for the given rounds
  unfoldable pub print_records : ℤ → ℕ → ℤ → W → List Line × W
  print_records connected_sock zero i w = ([], w)
  print_records connected_sock (suc n) i w =
      let (got, w1) = client_read_record connected_sock (read_request i) w in
      let (more, w2) = print_records connected_sock n (next i) w1 in
      (elim got [ none ↦ unreadable | some get_record ↦ record_line get_record ] ∷ more, w2)

  -- Client::print_record, which closes the socket also where there is none
  unfoldable pub print_record : List ℕ → ℤ → ℤ → ℤ → W → List Line × W
  print_record server_addr_str port_addr orders first_custid w =
      let (code, connected_sock, w1) = client_init server_addr_str port_addr w in
      if ltb_ℤ code (pos 0)
      then (no_server ∷ [], close_socket connected_sock w1)
      else (let (lines, w2) =
            print_records connected_sock (pos_part (wrap (first_custid +ℤ orders) -ℤ first_custid))
              first_custid w1 in
          (headings ∷ lines, close_socket connected_sock w2))

  module _ {D : Type 0} (d : Doubles D) where
    -- the loop of Client_thread_body that places orders, for the given rounds
    unfoldable pub place_orders : ℤ → ℕ → OrderInf → ClientTimer D → W → ClientTimer D × W
    place_orders connected_sock zero send_order timer w = (timer, w)
    place_orders connected_sock (suc n) send_order timer w =
        let (t1, w1) = timer_start d p timer w in
        let (get_robo, w2) = client_order connected_sock send_order w1 in
        elim get_robo [
          | none ↦ (t1, w2)
          | some _ ↦
              let (t2, w3) = end_and_merge d p t1 w2 in
              place_orders connected_sock n
                (record send_order { order_number = next send_order.order_number }) t2 w3
        ]

    -- the loop of Client_thread_body that reads the record
    unfoldable pub read_records : ℤ → ℕ → OrderInf → ClientTimer D → W → ClientTimer D × W
    read_records connected_sock zero send_order timer w = (timer, w)
    read_records connected_sock (suc n) send_order timer w =
        let (t1, w1) = timer_start d p timer w in
        let (get_record, w2) = client_read_record connected_sock send_order w1 in
        let timed : ClientTimer D × W = elim get_record [
          | none ↦ (t1, w2)
          | some _ ↦ end_and_merge d p t1 w2
        ] in
        read_records connected_sock n send_order timed.0 timed.1

    -- ClientThreadClass::Client_thread_body
    unfoldable pub client_thread_body :
        ℤ → List ℕ → ℤ → ℤ → ℤ → ClientTimer D → W → ClientTimer D × W
    client_thread_body custid server_addr_str port_addr orders request_type timer w =
        let (code, connected_sock, w1) = client_init server_addr_str port_addr w in
        if ltb_ℤ code (pos 0)
        then (timer, w1)
        else (let (timer', w2) =
              if eq_ℤ request_type (pos 1)
              then place_orders connected_sock (pos_part orders)
                  (record {
                    customer_id = custid;
                    order_number = pos 1;
                    request_type = request_type;
                  })
                  timer w1
              else if eq_ℤ request_type (pos 2)
              then read_records connected_sock (pos_part orders) (read_request custid) timer w1
              else (timer, w1) in
            (timer', close_socket connected_sock w2))

    -- the timers of the threads, merged in order
    unfoldable pub merge_timers : ClientTimer D → List (ClientTimer D) → ClientTimer D
    merge_timers timer [] = timer
    merge_timers timer (cls ∷ more) = merge_timers (merge d timer cls) more

    -- Client::run once the threads have been joined
    unfoldable pub finish_run : ClientTimer D → List (ClientTimer D) → W → ClientTimer D × W
    finish_run timer client_timers w =
        let (t1, w') = timer_end d p timer w in (merge_timers t1 client_timers, w')

-- The fields of Client that its constructor sets.
pub record Client : Type 0 where
  pub server_addr_str : List ℕ
  pub port_addr : ℤ
  pub customers : ℤ
  pub orders : ℤ
  pub request_type : ℤ

-- the ids that Client::run gives to its customers: `custom` of them, from customer i
unfoldable pub customer_ids : ℕ → ℤ → List ℤ
customer_ids zero i = []
customer_ids (suc n) i = wrap (i +ℤ pos 3000) ∷ customer_ids n (next i)

-- the arguments of main, with `atoi` of the C library
unfoldable pub client_of_args : (List ℕ → ℤ) → List (List ℕ) → Result Client
client_of_args atoi (program ∷ ip ∷ port ∷ customers ∷ orders ∷ request_type ∷ []) = ok (record {
  server_addr_str = ip;
  port_addr = atoi port;
  customers = atoi customers;
  orders = atoi orders;
  request_type = atoi request_type;
})
client_of_args atoi _ = fault exited
