-- ===== src/LoadBalancer/Connect.antt =====
-- load_balancer/ClientSocket.cpp: a connection to a node. The program uses the descriptor alone
-- afterwards, whether or not Init has succeeded.
use load_balancer_with_wal.Base.{ℕ, Bool, true, false, List, if◌then◌else◌}
use load_balancer_with_wal.Base.Int.{ℤ, pos, ltb_ℤ}
use load_balancer_with_wal.Platform.{Platform}

-- The fields of the class Socket.
pub record Connection : Type 0 where
  pub fd : ℤ
  pub is_initialized : Bool
  pub nagle : ℤ

-- NAGLE_ON and NAGLE_OFF
abbrev pub with_nagle : ℤ
with_nagle = pos 0

abbrev pub without_nagle : ℤ
without_nagle = pos 1

module _ {W : Type 0} (p : Platform W) where
  -- a socket of which the constructor of Socket alone has run: nothing has set its descriptor
  abbrev pub new_connection : W → Connection
  new_connection w = record { fd = p.uninit w; is_initialized = false; nagle = with_nagle }

  -- ClientSocket::Init: its return value comes first
  unfoldable pub connect_to : List ℕ → ℤ → Connection → W → ℤ × Connection × W
  connect_to ip port c w =
      if c.is_initialized
      then (pos 0, c, w)
      else (let (fd, w1) = p.socket w in
          if ltb_ℤ fd (pos 0)
          then (pos 0, record c { fd = fd }, w1)
          else (let (connected, w2) = p.connect fd ip port w1 in
              if ltb_ℤ connected (pos 0)
              then (pos 0, record c { fd = fd }, w2)
              else (pos 1, record c { fd = fd; is_initialized = true }, w2)))
