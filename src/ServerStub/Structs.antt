-- ===== src/ServerStub/Structs.antt =====
-- One struct over a socket.
use load_balancer_with_wal.Base.{
  ℕ, ◌≡◌, ◌∙◌, ap, true, false, not, none, some, List, if◌then◌else◌, arith,
}
use load_balancer_with_wal.Base.Int.{ℤ, pos}
use load_balancer_with_wal.Platform.{Platform}
use load_balancer_with_wal.RobotFactory.Wire.{memory}
use load_balancer_with_wal.ServerStub.{failed, send_struct, recv_struct}

pub not_failed : (n : ℕ) → failed (pos n) ≡ false
not_failed n = ground arith

module _ {W : Type 0} (p : Platform W) where
  pub send_struct-sent :
      (sock : ℤ) (words : List ℕ) (n : ℕ) (w w' : W)
      → p.send sock (memory p words) w ≡ (pos n, w')
      → send_struct p sock words w ≡ (true, w')
  unfolding send_struct
  send_struct-sent sock words n w w' e = rw (e, send_struct) (ap (λ q. (not q, w')) (not_failed n))

  pub recv_struct-got :
      {A : Type 0} (read : List ℕ → A) (sock : ℤ) (size n : ℕ) (bs : List ℕ) (a : A) (w w' : W)
      → p.recv sock size w ≡ (pos n, bs, w')
      → read bs ≡ a
      → recv_struct p sock size read w ≡ (some a, w')
  unfolding recv_struct
  recv_struct-got read sock size n bs a w w' e same =
      rw (e, recv_struct)
        (ap (λ q. if q then (none, w') else (some (read bs), w')) (not_failed n)
          ∙ ap (λ x. (some x, w')) same)
