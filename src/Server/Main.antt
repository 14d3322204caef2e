-- ===== src/Server/Main.antt =====
-- The rest of Server.cpp: start with its threads, ifa_listener_thread and main. The two endless loops are
-- given by their rounds, and the name of the log by its file name for an id.
use load_balancer_with_wal.Base.{ℕ, List, ok, fault}
use load_balancer_with_wal.Base.Int.{ℤ, pos, ◌+ℤ◌, wrap}
use load_balancer_with_wal.Platform.{Platform}
use load_balancer_with_wal.Server.State.{Exec, pure, ◌>>=◌, ◌>>◌, get_server, net}
use load_balancer_with_wal.Server.Threads.{Engineer}
use load_balancer_with_wal.Server.Listeners.{listen_on, accept_customers, accept_admins}
use load_balancer_with_wal.Server.Restart.{start}
use load_balancer_with_wal.Server.Arguments.{ServerArgs, server_args}

-- The threads that a server runs: the admin thread with its id, the port of the back channel, and the
-- engineers.
pub record Workers : Type 0 where
  pub admin_thread_id : ℤ
  pub back_channel : ℤ
  pub engineers : List Engineer

module _ {W : Type 0} (p : Platform W) where
  -- a listening socket, or the end of the process
  abbrev listening_on : ℤ → ℕ → Exec W ℤ
  listening_on portno client_queue_len s w = elim (listen_on p portno client_queue_len w) [
    | ok (sock, w') ↦ ok (sock, s, w')
    | fault e ↦ fault e
  ]

  -- ifa_listener_thread: the sockets that ifa_thread_body is started with
  unfoldable pub ifa_listener_thread : ℕ → ℤ → Exec W (List ℤ)
  ifa_listener_thread rounds my_factory_port = do
    serv_sock_fd ← listening_on my_factory_port 10
    net (accept_admins p rounds serv_sock_fd)

  -- `start`, on fuel for the log on disk
  unfoldable pub start_server : ℕ → ℕ → (ℤ → List ℕ) → ServerArgs → Exec W Workers
  start_server fuel rounds file_name args = do
    start p fuel (file_name args.factory_id) args.factory_id args.factories
    s ← get_server
    serv_sock_fd ← listening_on args.client_port_addr 1000
    engineers ← net (accept_customers p rounds serv_sock_fd)
    pure (record {
      admin_thread_id = wrap (s.my_factory_id +ℤ pos 100);
      back_channel = args.factory_port_addr;
      engineers = engineers;
    })

  -- main, on an object of which nothing is set
  unfoldable pub server_main : (List ℕ → ℤ) → ℕ → ℕ → (ℤ → List ℕ) → List (List ℕ) → Exec W Workers
  server_main atoi fuel rounds file_name argv s w = elim (server_args atoi argv) [
    | fault e ↦ fault e
    | ok args ↦ start_server fuel rounds file_name args s w
  ]
