-- ===== src/Server/Durable/Sockets.antt =====
-- What a server sends and receives leaves the file of its log as it is.
use load_balancer_with_wal.Base.{
  ℕ, Bool, true, false, Option, none, some, List, [], ◌∷◌, ◌≡◌, refl, ◌∙◌, not, if◌then◌else◌, drop,
}
use load_balancer_with_wal.Base.Int.{ℤ, pos, ltb_ℤ, eq_ℤ, leb_ℤ, next, to_word}
use load_balancer_with_wal.Platform.{Platform}
use load_balancer_with_wal.Platform.Laws.{FileLaws, SocketLaws, files}
use load_balancer_with_wal.RobotFactory.{MapOp, FactoryRec, ReplReq, ConnType}
use load_balancer_with_wal.RobotFactory.Wire.{
  map_op_words, commit_in_at, repl_ack_at, conn_type_words,
}
use load_balancer_with_wal.ServerStub.{
  failed, client_socket_init, send_struct, recv_struct, get_commited_index,
  replication_connection_init, set_conn_type_admin, send_replication_request, get_replication_ack,
  send_ops, send_recovery_log,
}
use load_balancer_with_wal.Server.Primary.{replicate_over, replicate, recheckreplsock}
use load_balancer_with_wal.Server.Restart.{ask_commited_index}

module _ {W : Type 0} (p : Platform W) (f : FileLaws p) (n : SocketLaws p f) where
  -- The file is as in this world.
  abbrev pub Same : W → W → Type 0
  Same w w' = files f w' ≡ files f w

  if-Same :
      {A : Type 0} (w : W) (q : Bool) (a b : A × W)
      → Same w a.1
      → Same w b.1
      → Same w (if q then a else b).1
  if-Same w true a b h k = h
  if-Same w false a b h k = k

  elim-Same :
      {A : Type 0} (w : W) (q : Bool) (a b : A × W)
      → Same w a.1
      → Same w b.1
      → Same w (elim q as (λ _. A × W) [ true ↦ a | false ↦ b ]).1
  elim-Same w true a b h k = h
  elim-Same w false a b h k = k

  option-Same :
      {A B : Type 0} (w : W) (o : Option B) (a : A × W) (g : B → A × W)
      → Same w a.1
      → ((x : B) → Same w (g x).1)
      → Same w (elim o as (λ _. A × W) [ none ↦ a | some x ↦ g x ]).1
  option-Same w none a g h k = h
  option-Same w (some x) a g h k = k x

  send_struct-Same : (sock : ℤ) (words : List ℕ) (w : W) → Same w (send_struct p sock words w).1
  unfolding send_struct
  send_struct-Same sock words w = n.files-send sock _ w

  recv_struct-Same :
      {A : Type 0} (sock : ℤ) (size : ℕ) (read : List ℕ → A) (w : W)
      → Same w (recv_struct p sock size read w).1
  unfolding recv_struct
  recv_struct-Same sock size read w =
      if-Same w (failed (p.recv sock size w).0) _ _ (n.files-recv sock size w)
        (n.files-recv sock size w)

  client_socket_init-Same :
      (ip : List ℕ) (port : ℤ) (w : W) → Same w (client_socket_init p ip port w).1
  unfolding client_socket_init
  client_socket_init-Same ip port w =
      let (sock, w1) = p.socket w in
      if-Same w (failed sock) _ _ (n.files-socket w) (
        if-Same w (failed (p.inet_pton ip)) _ _ (n.files-socket w) (
          if-Same w (failed (p.connect sock ip port w1).0) _ _
            (n.files-connect sock ip port w1 ∙ n.files-socket w)
            (n.files-connect sock ip port w1 ∙ n.files-socket w)))

  replication_connection_init-Same :
      (ip : List ℕ) (port : ℤ) (w : W) → Same w (replication_connection_init p ip port w).1
  unfolding replication_connection_init
  replication_connection_init-Same ip port w =
      if-Same w (ltb_ℤ (client_socket_init p ip port w).0 (pos 0)) _ _
        (client_socket_init-Same ip port w) (client_socket_init-Same ip port w)

  set_conn_type_admin-Same : (sock : ℤ) (w : W) → Same w (set_conn_type_admin p sock w).1
  unfolding set_conn_type_admin
  set_conn_type_admin-Same sock w = send_struct-Same sock _ w

  send_ops-Same : (sock : ℤ) (os : List MapOp) (w : W) → Same w (send_ops p sock os w).1
  unfolding send_ops
  send_ops-Same sock [] w = refl
  send_ops-Same sock (o ∷ os) w =
      let (sent, w1) = send_struct p sock (map_op_words o) w in
      let same = send_struct-Same sock (map_op_words o) w in
      elim-Same w sent _ _ (send_ops-Same sock os w1 ∙ same) same

  send_recovery_log-Same :
      (sock : ℤ) (log : List MapOp) (w : W) → Same w (send_recovery_log p sock log w).1
  unfolding send_recovery_log
  send_recovery_log-Same sock log w =
      let (got, w1) = recv_struct p sock 4 (commit_in_at p) w in
      let same = recv_struct-Same sock 4 (commit_in_at p) w in
      option-Same w got _ _ same
        λ c. send_ops-Same sock (drop (to_word (next c.committed_index)) log) w1 ∙ same

  get_replication_ack-Same : (sock : ℤ) (w : W) → Same w (get_replication_ack p sock w).1
  unfolding get_replication_ack
  get_replication_ack-Same sock w = recv_struct-Same sock 4 (repl_ack_at p) w

  send_replication_request-Same :
      (sock : ℤ) (req : ReplReq) (w : W) → Same w (send_replication_request p sock req w).1
  unfolding send_replication_request
  send_replication_request-Same sock req w = send_struct-Same sock _ w

  get_commited_index-Same : (sock : ℤ) (w : W) → Same w (get_commited_index p sock w).1
  unfolding get_commited_index
  get_commited_index-Same sock w =
      let asked : ConnType = record { is_customer = pos 0; get_commit_req = pos 1 } in
      let (sent, w1) = send_struct p sock (conn_type_words asked) w in
      let same = send_struct-Same sock (conn_type_words asked) w in
      if-Same w sent _ _ (recv_struct-Same sock 4 (commit_in_at p) w1 ∙ same) same

  pub recheckreplsock-Same : (fs : List FactoryRec) (w : W) → Same w (recheckreplsock p fs w).1
  unfolding recheckreplsock
  recheckreplsock-Same [] w = refl
  recheckreplsock-Same (r ∷ fs) w =
      let (sock, w1) = replication_connection_init p r.factory_ip r.factory_port w in
      let same = replication_connection_init-Same r.factory_ip r.factory_port w in
      if-Same w (ltb_ℤ r.sock (pos 0)) _ _
        (if-Same w (ltb_ℤ (pos 0) sock) _ _
          (recheckreplsock-Same fs (set_conn_type_admin p sock w1).1
            ∙ set_conn_type_admin-Same sock w1
            ∙ same)
          (recheckreplsock-Same fs w1 ∙ same))
        (recheckreplsock-Same fs w)

  replicate_over-Same :
      (req : ReplReq) (log : List MapOp) (sock : ℤ) (w : W)
      → Same w (replicate_over p req log sock w).1
  unfolding replicate_over
  replicate_over-Same req log sock w =
      let (sent, w1) = send_replication_request p sock req w in
      let same1 = send_replication_request-Same sock req w in
      let (is_ack, w2) = get_replication_ack p sock w1 in
      let same2 = get_replication_ack-Same sock w1 ∙ same1 in
      let (recovered, w3) = send_recovery_log p sock log w2 in
      let same3 = send_recovery_log-Same sock log w2 ∙ same2 in
      let same4 = get_replication_ack-Same sock w3 ∙ same3 in
      if-Same w (not sent) _ _ same1 (
        option-Same w is_ack _ _ same2 λ ack.
          if-Same w (eq_ℤ ack.is_success (pos 2)) _ _
            (if-Same w (not recovered) _ _ same3
              (option-Same w (get_replication_ack p sock w3).0 _ _ same4 λ _. same4))
            same2)

  pub replicate-Same :
      (req : ReplReq) (log : List MapOp) (fs : List FactoryRec) (w : W)
      → Same w (replicate p req log fs w).1
  unfolding replicate
  replicate-Same req log [] w = refl
  replicate-Same req log (r ∷ fs) w =
      if-Same w (leb_ℤ (pos 0) r.sock) _ _
        (replicate-Same req log fs (replicate_over p req log r.sock w).1
          ∙ replicate_over-Same req log r.sock w)
        (replicate-Same req log fs w)

  pub ask_commited_index-Same :
      (fs : List FactoryRec) (w : W) → Same w (ask_commited_index p fs w).1
  unfolding ask_commited_index
  ask_commited_index-Same [] w = refl
  ask_commited_index-Same (r ∷ fs) w =
      let (sock, w1) = replication_connection_init p r.factory_ip r.factory_port w in
      let same = replication_connection_init-Same r.factory_ip r.factory_port w in
      let (got, w2) = get_commited_index p sock w1 in
      let same2 = get_commited_index-Same sock w1 ∙ same in
      elim-Same w (ltb_ℤ (pos 0) sock) _ _
        (option-Same w got _ _ (ask_commited_index-Same fs w2 ∙ same2)
          λ _. n.files-close sock w2 ∙ same2)
        (ask_commited_index-Same fs w1 ∙ same)
