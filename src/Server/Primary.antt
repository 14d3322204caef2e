-- ===== src/Server/Primary.antt =====
-- The primary's side of replication: the admin thread.
pub mod Orders
pub mod Takeover
pub mod Rounds
pub mod ReadBack
pub mod Queue
use load_balancer_with_wal.Base.{
  ℕ, Bool, false, not, ◌&&◌, none, some, List, [], ◌∷◌, ◌++◌, if◌then◌else◌, at, insert_at, ok,
  fault, undefined,
}
use load_balancer_with_wal.Base.Int.{ℤ, pos, minus_one, ltb_ℤ, leb_ℤ, eq_ℤ, next}
use load_balancer_with_wal.Platform.{Platform}
use load_balancer_with_wal.RobotFactory.{RobotInf, MapOp, FactoryRec, ReplReq}
use load_balancer_with_wal.ServerStub.{
  replication_connection_init, set_conn_type_admin, send_replication_request, get_replication_ack,
  send_recovery_log,
}
use load_balancer_with_wal.Server.State.{
  Server, Exec, pure, ◌>>=◌, ◌>>◌, get_server, modify, net, lift, set_primary, set_last_index,
  commit, write_ahead,
}

-- recheckcommit: a replica that becomes primary commits the last entry of its log
unfoldable pub recheckcommit : {W : Type 0} → Exec W (Unit {0})
recheckcommit = do
  s ← get_server
  if leb_ℤ (pos 0) s.last_index && ltb_ℤ s.committed_index s.last_index
      then (do
        commited_mapop ← lift (at s.smr_log s.last_index)
        commit commited_mapop s.last_index)
      else pure tt

-- the entry that an order becomes
unfoldable pub entry_of : RobotInf → MapOp
entry_of robot = record { opcode = pos 1; arg1 = robot.customer_id; arg2 = robot.order_number }

unfoldable pub request_of : Server → MapOp → ReplReq
request_of s log_entry = record {
  factory_id = s.my_factory_id;
  committed_index = s.committed_index;
  last_index = s.last_index;
  mapop_record = log_entry;
}

-- a robot whose customer is -1 stands for a request to send the committed index alone
abbrev pub is_order : RobotInf → Bool
is_order robot = not (eq_ℤ robot.customer_id minus_one)

unfoldable pub fulfil : {W : Type 0} → ℕ → RobotInf → Exec W (Unit {0})
fulfil barrier robot = modify λ s. record s { fulfilled = s.fulfilled ++ (barrier, robot) ∷ [] }

-- the front entries of admin_thread_list and barrier_list, taken off
unfoldable pub pop_job : {W : Type 0} → Exec W (RobotInf × ℕ)
pop_job s w = elim s.admin_thread_list [
  | [] ↦ fault undefined
  | robot ∷ robots ↦ elim s.barrier_list [
    | [] ↦ fault undefined
    | barrier ∷ barriers ↦
        ok ((robot, barrier), record s { admin_thread_list = robots; barrier_list = barriers }, w)
  ]
]

-- `while (admin_thread_list.empty ()) condition_var.wait (ul)` before an action
abbrev pub unless_empty : {W : Type 0} → List RobotInf → Exec W (Unit {0}) → Exec W (Unit {0})
unless_empty [] action = pure tt
unless_empty (_ ∷ _) action = action

module _ {W : Type 0} (p : Platform W) where
  -- recheckreplsock: connect to each replica without a socket
  unfoldable pub recheckreplsock : List FactoryRec → W → List FactoryRec × W
  recheckreplsock [] w = ([], w)
  recheckreplsock (f ∷ fs) w =
      if ltb_ℤ f.sock (pos 0)
      then (let (sock, w1) = replication_connection_init p f.factory_ip f.factory_port w in
          if ltb_ℤ (pos 0) sock
          then (let (_, w2) = set_conn_type_admin p sock w1 in
              let (rest, w3) = recheckreplsock fs w2 in (record f { sock = sock } ∷ rest, w3))
          else (let (rest, w2) = recheckreplsock fs w1 in
              (record f { sock = minus_one } ∷ rest, w2)))
      else (let (rest, w1) = recheckreplsock fs w in (f ∷ rest, w1))

  -- The exchange with one replica over its socket: whether it has replicated the entry.
  unfoldable pub replicate_over : ReplReq → List MapOp → ℤ → W → Bool × W
  replicate_over send_req smr_log sock w =
      let (sent, w1) = send_replication_request p sock send_req w in
      if not sent
      then (false, w1)
      else (let (is_ack, w2) = get_replication_ack p sock w1 in
          elim is_ack [
            | none ↦ (false, w2)
            | some ack ↦
                if eq_ℤ ack.is_success (pos 2)
                then (let (recovered, w3) = send_recovery_log p sock smr_log w2 in
                    if not recovered
                    then (false, w3)
                    else (let (reack, w4) = get_replication_ack p sock w3 in
                        elim reack [
                          | none ↦ (false, w4)
                          | some ack' ↦ (eq_ℤ ack'.is_success (pos 1), w4)
                        ]))
                else (eq_ℤ ack.is_success (pos 1), w2)
          ])

  -- The loop of admin_thread over the replicas: one that fails loses its socket.
  unfoldable pub replicate : ReplReq → List MapOp → List FactoryRec → W → List FactoryRec × W
  replicate send_req smr_log [] w = ([], w)
  replicate send_req smr_log (f ∷ fs) w =
      if leb_ℤ (pos 0) f.sock
      then (let (replicated, w1) = replicate_over send_req smr_log f.sock w in
          let (rest, w2) = replicate send_req smr_log fs w1 in
          ((if replicated then f else record f { sock = minus_one }) ∷ rest, w2))
      else (let (rest, w1) = replicate send_req smr_log fs w in (f ∷ rest, w1))

  -- The new entry, written to the log on disk and then in memory.
  unfoldable pub append_entry : MapOp → Exec W (Unit {0})
  append_entry log_entry = do
    s ← get_server
    set_last_index (next s.last_index)
    write_ahead p log_entry
    s1 ← get_server
    smr_log' ← lift (insert_at s1.last_index log_entry s1.smr_log)
    modify (λ s. record s { smr_log = smr_log' })

  -- one entry of admin_thread_list, once it is off the list
  unfoldable pub process_job : ℤ → RobotInf → ℕ → Exec W (Unit {0})
  unfolding replicate append_entry entry_of request_of fulfil
  process_job admin_id robot barrier = do
    s ← get_server
    set_primary s.my_factory_id
    if is_order robot then append_entry (entry_of robot) else pure tt
    s1 ← get_server
    factories' ← net (replicate (request_of s1 (entry_of robot)) s1.smr_log s1.factories_record)
    modify (λ s. record s { factories_record = factories' })
    s2 ← get_server
    if is_order robot
        then (do
          commit (entry_of robot) s2.last_index
          fulfil barrier (record robot { admin_id = admin_id }))
        else fulfil barrier robot

  unfoldable pub recheck : Exec W (Unit {0})
  unfolding recheckcommit recheckreplsock
  recheck = do
    s ← get_server
    if eq_ℤ s.recheck_allow (pos 1)
        then (do
          recheckcommit
          s1 ← get_server
          factories' ← net (recheckreplsock s1.factories_record)
          modify (λ s. record s { factories_record = factories'; recheck_allow = pos 0 }))
        else pure tt

  -- the body of the loop of admin_thread, with a job in the list
  unfoldable pub serve_front : ℤ → Exec W (Unit {0})
  serve_front admin_id = do recheck; (robot, barrier) ← pop_job; process_job admin_id robot barrier

  -- One round of the loop of admin_thread; on an empty list it waits, and nothing changes.
  unfoldable pub admin_round : ℤ → Exec W (Unit {0})
  admin_round admin_id = do s ← get_server; unless_empty s.admin_thread_list (serve_front admin_id)
