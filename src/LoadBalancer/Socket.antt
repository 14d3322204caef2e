-- ===== src/LoadBalancer/Socket.antt =====
-- load_balancer/Socket.cpp: the loops that send and receive a whole buffer, on fuel. A socket is the object
-- with its fields, which a failure closes, and the part of the buffer that is left is a list.
pub mod Whole
use load_balancer_with_wal.Base.{
  ℕ, zero, suc, ◌-◌, Bool, true, false, Option, none, some, List, [], ◌∷◌, ◌++◌, leb, length, take,
  drop, Result, ok, fault, aborted, diverged,
}
use load_balancer_with_wal.Base.Int.{pos, negsuc}
use load_balancer_with_wal.Platform.{Platform}
use load_balancer_with_wal.LoadBalancer.Connect.{Connection}

module _ {W : Type 0} (p : Platform W) where
  -- Socket::Close
  abbrev pub close_connection : Connection → W → Connection × W
  close_connection c w = (record c { is_initialized = false }, p.close c.fd (p.shutdown c.fd w))

  -- The loop of Socket::Send over the bytes that are left: whether all were sent.
  unfoldable pub send_bytes : ℕ → Connection → List ℕ → W → Result (Bool × Connection × W)
  send_bytes zero c buffer w = fault diverged
  send_bytes (suc fuel) c [] w = ok (true, c, w)
  send_bytes (suc fuel) c (x ∷ xs) w =
      let (bytes_written, w') = p.send c.fd (x ∷ xs) w in
      elim bytes_written [
        | negsuc n ↦ (let (c', w2) = close_connection c w' in ok (false, c', w2))
        | pos n ↦ elim (leb n (length (x ∷ xs))) [
          | true ↦ send_bytes fuel c (drop n (x ∷ xs)) w'
          | false ↦ fault aborted
        ]
      ]

  -- Socket::Send of the first `size` bytes of a buffer
  unfoldable pub socket_send : ℕ → Connection → List ℕ → ℕ → W → Result (Bool × Connection × W)
  socket_send fuel c buffer size w = send_bytes fuel c (take size buffer) w

  -- The loop of Socket::Recv for `size` more bytes, behind those received: all of them, or none.
  unfoldable pub recv_bytes :
      ℕ → Connection → ℕ → List ℕ → W → Result (Option (List ℕ) × Connection × W)
  recv_bytes zero c size buffer w = fault diverged
  recv_bytes (suc fuel) c zero buffer w = ok (some buffer, c, w)
  recv_bytes (suc fuel) c (suc size) buffer w =
      let (bytes_read, received, w') = p.recv c.fd (suc size) w in
      elim bytes_read [
        | negsuc n ↦ (let (c', w2) = close_connection c w' in ok (none, c', w2))
        | pos zero ↦ (let (c', w2) = close_connection c w' in ok (none, c', w2))
        | pos (suc n) ↦ elim (leb (suc n) (suc size)) [
          | true ↦ recv_bytes fuel c (size - n) (buffer ++ take (suc n) received) w'
          | false ↦ fault aborted
        ]
      ]

  -- Socket::Recv of `size` bytes
  unfoldable pub socket_recv : ℕ → Connection → ℕ → W → Result (Option (List ℕ) × Connection × W)
  socket_recv fuel c size w = recv_bytes fuel c size [] w
