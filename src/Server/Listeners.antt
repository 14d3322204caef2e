-- ===== src/Server/Listeners.antt =====
-- How a server listens for its customers (start) and for the admin threads of other factories
-- (ifa_listener_thread). The endless loops are given by their rounds, and a thread that one of them
-- starts by what it is started with.
use load_balancer_with_wal.Base.{
  ℕ, zero, suc, List, [], ◌∷◌, if◌then◌else◌, Result, ok, fault, exited,
}
use load_balancer_with_wal.Base.Int.{ℤ, pos, next, ltb_ℤ}
use load_balancer_with_wal.Platform.{Platform}
use load_balancer_with_wal.Server.Threads.{Engineer, listening, first_engineer_id}

module _ {W : Type 0} (p : Platform W) where
  -- A socket that listens on a port with a queue of this length; a failure of `socket` is not looked at
  -- before the others.
  unfoldable pub listen_on : ℤ → ℕ → W → Result (ℤ × W)
  listen_on portno client_queue_len w =
      let (serv_sock_fd, w1) = p.socket w in
      let (bound, w2) = p.bind serv_sock_fd portno w1 in
      if ltb_ℤ bound (pos 0)
      then fault exited
      else (let (listens, w3) = p.listen serv_sock_fd client_queue_len w2 in
          if ltb_ℤ listens (pos 0) then fault exited else ok (serv_sock_fd, w3))

  -- one round of the accepting loop of start, whose local engineer_id is `engineer_id`: the engineer thread
  -- that it starts, and the local at the end of the round
  unfoldable pub accept_customer : ℤ → ℤ → W → Engineer × ℤ × W
  accept_customer engineer_id serv_sock_fd w =
      let (new_socket_fd, w') = p.accept serv_sock_fd w in
      (
        record {
          sock = new_socket_fd;
          eng_id = engineer_id;
          send_last_committed_index = pos 0;
          phase = listening;
        },
        next engineer_id,
        w',
      )

  -- rounds of the accepting loop of start: the engineer threads that it starts; each round declares the
  -- local engineer_id again, and what it was at the end of the round before is lost
  unfoldable pub accept_customers : ℕ → ℤ → W → List Engineer × W
  accept_customers zero serv_sock_fd w = ([], w)
  accept_customers (suc n) serv_sock_fd w =
      let engineer_id : ℤ = first_engineer_id in
      let (engineer, _, w1) = accept_customer engineer_id serv_sock_fd w in
      let (more, w2) = accept_customers n serv_sock_fd w1 in (engineer ∷ more, w2)

  -- rounds of the loop of ifa_listener_thread: the sockets that ifa_thread_body is started with
  unfoldable pub accept_admins : ℕ → ℤ → W → List ℤ × W
  accept_admins zero serv_sock_fd w = ([], w)
  accept_admins (suc n) serv_sock_fd w =
      let (new_socket_fd, w1) = p.accept serv_sock_fd w in
      let (more, w2) = accept_admins n serv_sock_fd w1 in (new_socket_fd ∷ more, w2)
