-- ===== src/LoadBalancer/Listen.antt =====
-- load_balancer/ServerSocket.cpp: the socket that listens and the sockets that it accepts, with the rest of
-- Socket.cpp, and what the two stubs do with their sockets at their beginning and end.
pub mod Accepting
use load_balancer_with_wal.Base.{
  Bool, true, false, Option, none, some, if◌then◌else◌, Result, ok, fault, undefined,
}
use load_balancer_with_wal.Base.Int.{ℤ, pos, ltb_ℤ, eq_ℤ}
use load_balancer_with_wal.Platform.{Platform}
use load_balancer_with_wal.LoadBalancer.Connect.{
  Connection, with_nagle, without_nagle, new_connection,
}
use load_balancer_with_wal.LoadBalancer.Socket.{close_connection}

-- Socket::IsNagleOn
unfoldable pub is_nagle_on : Connection → Bool
is_nagle_on c = eq_ℤ c.nagle with_nagle

-- ServerStub::Init keeps the socket in a unique_ptr, which is none at first.
abbrev pub Held : Type 0
Held = Option Connection

module _ {W : Type 0} (p : Platform W) where
  -- Socket::NagleOn: its return value comes first
  unfoldable pub nagle_on : Bool → Connection → W → ℤ × Connection × W
  nagle_on on_off c w =
      let nagle : ℤ = if on_off then with_nagle else without_nagle in
      let (result, w') = p.setsockopt c.fd nagle w in
      (if ltb_ℤ result (pos 0) then pos 0 else pos 1, record c { nagle = nagle }, w')

  -- Socket::~Socket
  unfoldable pub destroy_connection : Connection → W → W
  destroy_connection c w = if c.is_initialized then (close_connection p c w).1 else w

  -- ServerSocket::ServerSocket of a descriptor
  unfoldable pub server_socket : ℤ → Bool → W → Connection × W
  unfolding nagle_on
  server_socket fd nagle w =
      let (_, c, w') =
        nagle_on nagle (record (new_connection p w) { fd = fd; is_initialized = true }) w in
      (c, w')

  -- ServerSocket::Init; a failure of `listen` is not looked at
  unfoldable pub listen_init : ℤ → Connection → W → Bool × Connection × W
  listen_init port c w =
      if c.is_initialized
      then (true, c, w)
      else (let (fd, w1) = p.socket w in
          if ltb_ℤ fd (pos 0)
          then (false, record c { fd = fd }, w1)
          else (let (bound, w2) = p.bind fd port w1 in
              if ltb_ℤ bound (pos 0)
              then (false, record c { fd = fd }, w2)
              else (let (_, w3) = p.listen fd 1000 w2 in
                  (true, record c { fd = fd; is_initialized = true }, w3))))

  -- ServerSocket::Accept; none stands for nullptr
  unfoldable pub accept_connection : Connection → W → Option Connection × W
  unfolding server_socket is_nagle_on
  accept_connection c w =
      let (accepted_fd, w1) = p.accept c.fd w in
      if ltb_ℤ accepted_fd (pos 0)
      then (none, w1)
      else (let (accepted, w2) = server_socket accepted_fd (is_nagle_on c) w1 in
          (some accepted, w2))

  -- ServerStub::Init: a socket that the stub has held before is destroyed
  unfoldable pub hold_socket : Connection → Held → W → Held × W
  unfolding destroy_connection
  hold_socket socket none w = (some socket, w)
  hold_socket socket (some old) w = (some socket, destroy_connection old w)

  -- ServerStub::ServerStubClose, and through NULL
  unfoldable pub close_held : Held → W → Result (Held × W)
  close_held none w = fault undefined
  close_held (some c) w = let (c', w') = close_connection p c w in ok (some c', w')

  -- ClientStub::ClientStubClose
  unfoldable pub close_stub : Connection → W → Connection × W
  close_stub socket w = close_connection p socket w
