-- ===== src/ServerStub.antt =====
-- ServerStub.h and ClientSock.h: what a server sends and receives over one socket. A failed call is
-- `false` or `none`; the program's functions return -1 there and leave the result unset.
pub mod Structs
pub mod SendLog
use load_balancer_with_wal.Base.{
  ℕ, zero, suc, Bool, true, false, not, Option, none, some, List, [], ◌∷◌, if◌then◌else◌, drop,
  Result, ok, fault, insert_at,
}
use load_balancer_with_wal.Base.Int.{ℤ, pos, minus_one, ltb_ℤ, next, rounds, to_word}
use load_balancer_with_wal.Platform.{Platform}
use load_balancer_with_wal.RobotFactory.{
  OrderInf, RobotInf, MapOp, CRec, ReplReq, ConnType, ReplAck, CommitIn,
}
use load_balancer_with_wal.RobotFactory.Wire.{
  memory, order_at, robot_words, map_op_words, map_op_at, c_rec_words, repl_req_words, repl_req_at,
  conn_type_words, conn_type_at, repl_ack_words, repl_ack_at, commit_in_words, commit_in_at,
}
use load_balancer_with_wal.CommitLog.{map_op_size}

-- ServerStub::check and ClientSocket::check
abbrev pub check : ℤ → ℤ
check check_code = if ltb_ℤ check_code (pos 0) then minus_one else pos 0

abbrev pub failed : ℤ → Bool
failed check_code = ltb_ℤ (check check_code) (pos 0)

module _ {W : Type 0} (p : Platform W) where
  -- ClientSocket::Init: the new socket, or -1
  unfoldable pub client_socket_init : List ℕ → ℤ → W → ℤ × W
  client_socket_init server_ad port_addr w =
      let (sockfd, w1) = p.socket w in
      if failed sockfd
      then (minus_one, w1)
      else if failed (p.inet_pton server_ad)
      then (minus_one, w1)
      else (let (connected, w2) = p.connect sockfd server_ad port_addr w1 in
          if failed connected then (minus_one, w2) else (sockfd, w2))

  -- a struct copied to a buffer and sent
  unfoldable pub send_struct : ℤ → List ℕ → W → Bool × W
  send_struct sock words w =
      let (sent, w') = p.send sock (memory p words) w in (not (failed sent), w')

  -- a buffer received and copied to a struct
  unfoldable pub recv_struct : {A : Type 0} → ℤ → ℕ → (List ℕ → A) → W → Option A × W
  recv_struct sock size read w =
      let (got, receiving_data, w') = p.recv sock size w in
      if failed got then (none, w') else (some (read receiving_data), w')

  unfoldable pub receive_request : ℤ → W → Option OrderInf × W
  unfolding recv_struct
  receive_request sock w = recv_struct sock 12 (order_at p) w

  unfoldable pub ship_robot : ℤ → RobotInf → W → Bool × W
  unfolding send_struct
  ship_robot sock send_robot w = send_struct sock (robot_words send_robot) w

  unfoldable pub return_record : ℤ → CRec → W → Bool × W
  unfolding send_struct
  return_record sock send_rec w = send_struct sock (c_rec_words send_rec) w

  unfoldable pub get_conn_type : ℤ → W → Option ConnType × W
  unfolding recv_struct
  get_conn_type sock w = recv_struct sock 8 (conn_type_at p) w

  unfoldable pub set_conn_type_admin : ℤ → W → Bool × W
  unfolding send_struct
  set_conn_type_admin sock w =
      send_struct sock (conn_type_words (record { is_customer = pos 0; get_commit_req = pos 0 })) w

  unfoldable pub get_commited_index : ℤ → W → Option CommitIn × W
  unfolding send_struct recv_struct
  get_commited_index sock w =
      let (sent, w') =
        send_struct sock (conn_type_words (record { is_customer = pos 0; get_commit_req = pos 1 }))
          w in
      if sent then recv_struct sock 4 (commit_in_at p) w' else (none, w')

  unfoldable pub send_commited_index : ℤ → CommitIn → W → Bool × W
  unfolding send_struct
  send_commited_index sock index w = send_struct sock (commit_in_words index) w

  unfoldable pub replication_connection_init : List ℕ → ℤ → W → ℤ × W
  unfolding client_socket_init
  replication_connection_init ip port w =
      let (sock_thread, w') = client_socket_init ip port w in
      if ltb_ℤ sock_thread (pos 0) then (minus_one, w') else (sock_thread, w')

  unfoldable pub send_replication_request : ℤ → ReplReq → W → Bool × W
  unfolding send_struct
  send_replication_request sock send_req w = send_struct sock (repl_req_words send_req) w

  unfoldable pub get_replication_request : ℤ → W → Option ReplReq × W
  unfolding recv_struct
  get_replication_request sock w = recv_struct sock 24 (repl_req_at p) w

  unfoldable pub get_replication_ack : ℤ → W → Option ReplAck × W
  unfolding recv_struct
  get_replication_ack sock w = recv_struct sock 4 (repl_ack_at p) w

  unfoldable pub replication_ack : ℤ → ℤ → W → Bool × W
  unfolding send_struct
  replication_ack sock if_success w =
      send_struct sock (repl_ack_words (record { is_success = if_success })) w

  -- the loop of SendRecoveryLog over the entries that are left
  unfoldable pub send_ops : ℤ → List MapOp → W → Bool × W
  send_ops sock [] w = (true, w)
  send_ops sock (o ∷ os) w =
      let (sent, w') = send_struct sock (map_op_words o) w in
      elim sent [ true ↦ send_ops sock os w' | false ↦ (false, w') ]

  unfoldable pub send_recovery_log : ℤ → List MapOp → W → Bool × W
  send_recovery_log sock smr_log w =
      let (got, w') = recv_struct sock 4 (commit_in_at p) w in
      elim got [
        | none ↦ (false, w')
        | some recv_commited_index ↦
            let from_index : ℤ = next recv_commited_index.committed_index in
            send_ops sock (drop (to_word from_index) smr_log) w'
      ]

  -- the loop of GetRecoveryLog from index i, for the given rounds
  unfoldable pub recv_ops : ℤ → ℕ → ℤ → List MapOp → W → Result (Bool × List MapOp × W)
  recv_ops sock zero i smr_log w = ok (true, smr_log, w)
  recv_ops sock (suc n) i smr_log w =
      let (got, w') = recv_struct sock map_op_size (map_op_at p) w in
      elim got [
        | none ↦ ok (false, smr_log, w')
        | some temp_op ↦ elim (insert_at i temp_op smr_log) [
          | fault e ↦ fault e
          | ok smr_log' ↦ recv_ops sock n (next i) smr_log' w'
        ]
      ]

  unfoldable pub get_recovery_log : ℤ → List MapOp → ℤ → ℤ → W → Result (Bool × List MapOp × W)
  unfolding recv_ops
  get_recovery_log sock smr_log my_last_log_index remote_last_log_index w =
      let first : ℤ = next my_last_log_index in
      recv_ops sock (rounds first remote_last_log_index) first smr_log w
