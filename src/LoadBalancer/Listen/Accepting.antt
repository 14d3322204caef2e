-- ===== src/LoadBalancer/Listen/Accepting.antt =====
-- The rest of main in load_balancer/LoadBalancerMain.cpp: the loop that starts a thread for each customer,
-- which is given by its rounds.
use load_balancer_with_wal.Base.{
  ℕ, zero, suc, ◌+◌, ◌<◌, ◌^◌, ◌≡◌, refl, Bool, true, false, Option, none, some, List, [], ◌∷◌,
  ◌++◌, append-nil, Bool-cases, inl, inr, ◌∙◌, ap, sym, length, if◌then◌else◌, Result, ok, fault,
  terminated, arith,
}
use load_balancer_with_wal.Base.Int.{ℤ, pos, ltb_ℤ, next}
use load_balancer_with_wal.Platform.{Platform}
use load_balancer_with_wal.LoadBalancer.Connect.{Connection, with_nagle, new_connection}
use load_balancer_with_wal.LoadBalancer.Arguments.{balancer_args}
use load_balancer_with_wal.LoadBalancer.Proxy.{Proxy}
use load_balancer_with_wal.LoadBalancer.Listen.{listen_init, accept_connection}

-- A thread of LoadBalancerThread, with what it is started with.
pub record CustomerThread : Type 0 where
  pub socket : Connection
  pub id : ℤ

-- What main does: it returns at once, or it goes on with these threads beside the heartbeat.
pub data Running : Type 0 where
  not_listening : Running
  serving : Proxy → Connection → List CustomerThread → Running

module _ {W : Type 0} (p : Platform W) where
  -- Rounds of the loop, with the number of the next thread: the threads that it has started, and
  -- whether it goes on.
  unfoldable pub accept_rounds : ℕ → Connection → ℤ → W → List CustomerThread × Bool × W
  accept_rounds zero socket engineer_cnt w = ([], true, w)
  accept_rounds (suc n) socket engineer_cnt w =
      let (new_socket, w1) = accept_connection p socket w in
      elim new_socket [
        | none ↦ ([], false, w1)
        | some c ↦
            let (more, goes_on, w2) = accept_rounds n socket (next engineer_cnt) w1 in
            (record { socket = c; id = engineer_cnt } ∷ more, goes_on, w2)
      ]

  -- main: where `accept` fails it returns, and the threads, which are not joined, end the process
  unfoldable pub balancer_main : (List ℕ → ℤ) → ℕ → List (List ℕ) → W → Result (Running × W)
  balancer_main atoi rounds argv w = elim (balancer_args atoi argv) [
    | fault e ↦ fault e
    | ok (port, factory) ↦
        let (listens, socket, w1) = listen_init p port (new_connection p w) w in
        if listens
        then (let (threads, goes_on, w2) = accept_rounds rounds socket (pos 0) w1 in
            if goes_on then ok (serving factory socket threads, w2) else fault terminated)
        else ok (not_listening, w1)
  ]

-- The sockets are accepted one after the other, and no accept fails; with the world behind them.
abbrev pub Accepts : {W : Type 0} → Platform W → ℤ → List ℤ → W → W → Type 0
Accepts p fd [] w w' = w ≡ w'
Accepts p fd (sock ∷ socks) w w' =
    ((p.accept fd w).0 ≡ sock)
    × (ltb_ℤ sock (pos 0) ≡ false)
    × Accepts p fd socks (p.setsockopt sock with_nagle (p.accept fd w).1).1 w'

-- The threads of these sockets, with their numbers from k on.
abbrev pub threads_on : ℕ → List ℤ → List CustomerThread
threads_on k [] = []
threads_on k (sock ∷ socks) =
    record { socket = record { fd = sock; is_initialized = true; nagle = with_nagle }; id = pos k }
    ∷ threads_on (suc k) socks

listen_init-nagle :
    {W : Type 0} (p : Platform W) (port : ℤ) (c : Connection) (w : W)
    → (listen_init p port c w).1.nagle ≡ c.nagle
unfolding listen_init
listen_init-nagle p port c w = elim (Bool-cases c.is_initialized) [
  | inl done ↦ rw done refl
  | inr fresh ↦ rw fresh (elim (Bool-cases (ltb_ℤ (p.socket w).0 (pos 0))) [
    | inl none_left ↦ rw none_left refl
    | inr opened ↦
        rw opened (elim (Bool-cases (ltb_ℤ (p.bind (p.socket w).0 port (p.socket w).1).0 (pos 0))) [
          | inl taken ↦ rw taken refl
          | inr bound ↦ rw bound refl
        ])
  ])
]

next_pos : (k : ℕ) → k + 1 < 2 ^ 31 → next (pos k) ≡ pos (suc k)
next_pos k h = ground arith

zero_right : (k : ℕ) → k + 0 ≡ k
zero_right k = omega arith

zero_left : (k : ℕ) → 0 + k ≡ k
zero_left k = omega arith

suc_left : (k n : ℕ) → suc k + n ≡ suc (k + n)
suc_left k n = omega arith

suc_right : (k n : ℕ) → k + suc n ≡ suc k + n
suc_right k n = omega arith

module _ {W : Type 0} (p : Platform W) where
  accept_connection-some :
      (c : Connection) (sock : ℤ) (w : W)
      → c.nagle ≡ with_nagle
      → (p.accept c.fd w).0 ≡ sock
      → ltb_ℤ sock (pos 0) ≡ false
      → accept_connection p c w ≡ (
        some (record { fd = sock; is_initialized = true; nagle = with_nagle }),
        (p.setsockopt sock with_nagle (p.accept c.fd w).1).1,
      )
  unfolding accept_connection
  accept_connection-some c sock w on e connected = rw (e, connected, on, accept_connection)

  accept_connection-none :
      (c : Connection) (w : W)
      → ltb_ℤ (p.accept c.fd w).0 (pos 0) ≡ true
      → accept_connection p c w ≡ (none, (p.accept c.fd w).1)
  unfolding accept_connection
  accept_connection-none c w failed = rw (failed, accept_connection)

  accept_rounds-some :
      (c accepted : Connection) (n : ℕ) (k : ℤ) (w w1 : W)
      → accept_connection p c w ≡ (some accepted, w1)
      → let after = accept_rounds p n c (next k) w1 in
        accept_rounds p (suc n) c k w
        ≡ (record { socket = accepted; id = k } ∷ after.0, after.1, after.2)
  unfolding accept_rounds
  accept_rounds-some c accepted n k w w1 e =
      rw (accept_rounds, e)
        (ap
          (λ (r : Option Connection × W).
            let after = accept_rounds p n c (next k) r.1 in
            (record { socket = accepted; id = k } ∷ after.0, after.1, after.2))
          e)

  accept_rounds-threads :
      (c : Connection) (k : ℕ) (socks : List ℤ) (more : ℕ) (w w' : W)
      → c.nagle ≡ with_nagle
      → k + length socks < 2 ^ 31
      → Accepts p c.fd socks w w'
      → let after = accept_rounds p more c (pos (k + length socks)) w' in
        accept_rounds p (length socks + more) c (pos k) w
        ≡ (threads_on k socks ++ after.0, after.1, after.2)
  unfolding accept_rounds
  accept_rounds-threads c k [] more w w' on room e = rw (zero_right k, zero_left more, e) refl
  accept_rounds-threads c k (sock ∷ socks) more w w' on room (e, connected, rest) =
      let c' : Connection = record { fd = sock; is_initialized = true; nagle = with_nagle } in
      let here = accept_connection-some c sock w on e connected in
      let behind =
        accept_rounds-threads c (suc k) socks more
          (p.setsockopt sock with_nagle (p.accept c.fd w).1).1 w' on (omega (arith, room)) rest in
      rw (suc_left (length socks) more, suc_right k (length socks))
        (rw (accept_rounds-some c c' (length socks + more) (pos k) w _ here)
          (rw (next_pos k (omega (arith, room))) (rw behind refl)))

  -- What main does after it has accepted these customers: it goes on, and it ends where an accept fails.
  pub record Serves (atoi : List ℕ → ℤ) (argv : List (List ℕ)) (factory : Proxy)
      (socket : Connection) (socks : List ℤ) (w w' : W) : Type 0 where
    pub goes_on :
        balancer_main p atoi (length socks) argv w
        ≡ ok (serving factory socket (threads_on 0 socks), w')
    pub ends : balancer_main p atoi (length socks + 1) argv w ≡ fault terminated

  balancer_main-rounds :
      (atoi : List ℕ → ℤ) (argv : List (List ℕ)) (port : ℤ) (factory : Proxy) (socket : Connection)
      (socks : List ℤ) (more : ℕ) (w w1 w' : W)
      → balancer_args atoi argv ≡ ok (port, factory)
      → listen_init p port (new_connection p w) w ≡ (true, socket, w1)
      → length socks < 2 ^ 31
      → Accepts p socket.fd socks w1 w'
      → let after = accept_rounds p more socket (pos (length socks)) w' in
        balancer_main p atoi (length socks + more) argv w ≡ (
          if after.1
          then ok (serving factory socket (threads_on 0 socks ++ after.0), after.2)
          else fault terminated)
  unfolding balancer_main
  balancer_main-rounds atoi argv port factory socket socks more w w1 w' args listens room accepted =
      let on : socket.nagle ≡ with_nagle =
        sym (ap (λ r. r.1.nagle) listens) ∙ listen_init-nagle p port (new_connection p w) w in
      let room0 : 0 + length socks < 2 ^ 31 = omega (arith, room) in
      rw (args, balancer_main)
        (rw listens (
          rw
            (
              accept_rounds-threads socket 0 socks more w1 w' on room0 accepted,
              zero_left (length socks),
            )
            refl))

  accept_rounds-none :
      (c : Connection) (k : ℤ) (w : W)
      → ltb_ℤ (p.accept c.fd w).0 (pos 0) ≡ true
      → accept_rounds p 1 c k w ≡ ([], false, (p.accept c.fd w).1)
  unfolding accept_rounds
  accept_rounds-none c k w failed =
      rw (accept_rounds, accept_connection-none c w failed)
        (ap (λ (r : Option Connection × W). ([], false, r.1)) (accept_connection-none c w failed))

  -- Called with arguments that give a port and an object, main opens a socket that listens, accepts less
  -- than 2 ^ 31 customers, one after the other, and then an accept fails. After the n customers main goes on
  -- with a thread for each, with its own socket, on which Nagle's algorithm is on as on the listening socket,
  -- and with its number from 0 to n - 1, in order; and where the accept fails the process ends with the
  -- threads, which nothing has joined.
  pub balancer_main-Serves :
      (atoi : List ℕ → ℤ) (argv : List (List ℕ)) (port : ℤ) (factory : Proxy) (socket : Connection)
      (socks : List ℤ) (w w1 w' : W)
      → balancer_args atoi argv ≡ ok (port, factory)
      → listen_init p port (new_connection p w) w ≡ (true, socket, w1)
      → length socks < 2 ^ 31
      → Accepts p socket.fd socks w1 w'
      → ltb_ℤ (p.accept socket.fd w').0 (pos 0) ≡ true
      → Serves atoi argv factory socket socks w w'
  unfolding accept_rounds
  balancer_main-Serves atoi argv port factory socket socks w w1 w' args listens room accepted
        failed =
      record {
        goes_on =
            ap (λ n. balancer_main p atoi n argv w) (sym (zero_right (length socks)))
            ∙ balancer_main-rounds atoi argv port factory socket socks 0 w w1 w' args listens room
                accepted
            ∙ ap (λ ts. ok (serving factory socket ts, w')) (append-nil (threads_on 0 socks));
        ends =
            balancer_main-rounds atoi argv port factory socket socks 1 w w1 w' args listens room
              accepted
            ∙ rw (accept_rounds-none socket (pos (length socks)) w' failed) refl;
      }
