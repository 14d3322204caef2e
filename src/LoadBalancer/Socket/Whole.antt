-- ===== src/LoadBalancer/Socket/Whole.antt =====
-- Socket::Send and Socket::Recv move a whole buffer, in whatever pieces the system takes it.
use load_balancer_with_wal.Base.{
  ℕ, zero, suc, ◌+◌, ◌-◌, ◌≤◌, ◌<◌, ◌≡◌, refl, ◌∙◌, ap, sym, true, some, List, [], ◌∷◌, ◌++◌,
  append_assoc, append-nil, le→leb, length, length-drop, drop-drop, take, drop, take-append-drop,
  take-of_le, ok, arith,
}
use load_balancer_with_wal.Base.Int.{ℤ, pos}
use load_balancer_with_wal.Platform.{Platform}
use load_balancer_with_wal.LoadBalancer.Connect.{Connection}
use load_balancer_with_wal.LoadBalancer.Socket.{send_bytes, socket_send, recv_bytes, socket_recv}

-- The documented behaviour of a blocking stream socket without failures: a send takes some bytes of
-- the front, and a receive gives some bytes of the front of those that are there.
pub record StreamLaws {W : Type 0} (p : Platform W) : Type 0 where
  pub accepted : ℤ → W → List ℕ
  pub pending : ℤ → W → List ℕ
  pub send_some :
      (fd : ℤ) (bs : List ℕ) (w : W)
      → 0 < length bs
      → (n : ℕ) × (w' : W) × (p.send fd bs w ≡ (pos n, w'))
        × (0 < n)
        × (n ≤ length bs)
        × (accepted fd w' ≡ accepted fd w ++ take n bs)
  pub recv_some :
      (fd : ℤ) (size : ℕ) (w : W)
      → 0 < size
      → 0 < length (pending fd w)
      → (n : ℕ) × (bs : List ℕ) × (w' : W) × (p.recv fd size w ≡ (pos (suc n), bs, w'))
        × (n < size)
        × (n < length (pending fd w))
        × (take (suc n) bs ≡ take (suc n) (pending fd w))
        × (pending fd w' ≡ drop (suc n) (pending fd w))

take-take-drop : (n m : ℕ) (xs : List ℕ) → take n xs ++ take m (drop n xs) ≡ take (n + m) xs
take-take-drop zero m xs = ap (λ k. take k xs) (omega arith)
take-take-drop (suc n) zero [] = sym (take-of_le (suc n + 0) [] (omega arith))
take-take-drop (suc n) (suc m) [] = sym (take-of_le (suc n + suc m) [] (omega arith))
take-take-drop (suc n) m (x ∷ xs) =
    ap (◌∷◌ x) (take-take-drop n m xs) ∙ ap (λ k. take k (x ∷ xs)) (sym (suc_add n m))
  where
    suc_add : (n m : ℕ) → suc n + m ≡ suc (n + m)
    suc_add n m = omega arith

module _ {W : Type 0} (p : Platform W) (sl : StreamLaws p) where
  open sl use {accepted, pending, send_some, recv_some}

  send_bytes-accepted :
      (fuel : ℕ) (c : Connection) (bs : List ℕ) (w : W)
      → length bs < fuel
      → (w' : W) × (send_bytes p fuel c bs w ≡ ok (true, c, w'))
        × (accepted c.fd w' ≡ accepted c.fd w ++ bs)
  unfolding send_bytes
  send_bytes-accepted zero c bs w enough = absurd (omega arith)
  send_bytes-accepted (suc fuel) c [] w enough = (w, refl, sym (append-nil (accepted c.fd w)))
  send_bytes-accepted (suc fuel) c (x ∷ xs) w enough =
      let (n, w1, e, some_sent, fits, took) = send_some c.fd (x ∷ xs) w (omega arith) in
      let (w', e', all) =
        send_bytes-accepted fuel c (drop n (x ∷ xs)) w1 (omega (arith, length-drop n (x ∷ xs))) in
      (
        w',
        rw (e, send_bytes) (rw (le→leb n (length (x ∷ xs)) fits) (rw e e')),
        all
            ∙ ap (λ bs. bs ++ drop n (x ∷ xs)) took
            ∙ append_assoc (accepted c.fd w) (take n (x ∷ xs)) (drop n (x ∷ xs))
            ∙ ap (◌++◌ (accepted c.fd w)) (take-append-drop n (x ∷ xs)),
      )

  -- On a blocking stream socket of which no send fails and each takes at least one byte, and given more fuel
  -- than bytes, Socket::Send of a buffer's first `size` bytes ends with success, the socket object is as
  -- before, and the socket has accepted exactly those bytes, in order.
  pub socket_send-whole :
      (fuel : ℕ) (c : Connection) (buffer : List ℕ) (size : ℕ) (w : W)
      → length (take size buffer) < fuel
      → (w' : W) × (socket_send p fuel c buffer size w ≡ ok (true, c, w'))
        × (accepted c.fd w' ≡ accepted c.fd w ++ take size buffer)
  unfolding socket_send
  socket_send-whole fuel c buffer size w enough =
      send_bytes-accepted fuel c (take size buffer) w enough

  recv_bytes-pending :
      (fuel : ℕ) (c : Connection) (size : ℕ) (buffer : List ℕ) (w : W)
      → size < fuel
      → size ≤ length (pending c.fd w)
      → (w' : W) × (recv_bytes p fuel c size buffer w
          ≡ ok (some (buffer ++ take size (pending c.fd w)), c, w'))
        × (pending c.fd w' ≡ drop size (pending c.fd w))
  unfolding recv_bytes
  recv_bytes-pending zero c size buffer w enough there = absurd (omega arith)
  recv_bytes-pending (suc fuel) c zero buffer w enough there =
      (w, ap (λ xs. ok (some xs, c, w)) (sym (append-nil buffer)), refl)
  recv_bytes-pending (suc fuel) c (suc size) buffer w enough there =
      let (n, bs, w1, e, fits, some_there, front, rest) =
        recv_some c.fd (suc size) w (omega arith) (omega arith) in
      let left = pending c.fd w in
      let (w', e', all) =
        recv_bytes-pending fuel c (size - n) (buffer ++ take (suc n) bs) w1 (omega arith)
          (omega (arith, ap length rest, length-drop (suc n) left)) in
      let total : suc n + (size - n) ≡ suc size = omega arith in
      (
        w',
        rw (e, recv_bytes) (rw (le→leb (suc n) (suc size) (omega arith)) (rw e e'))
            ∙ ap (λ xs. ok (some xs, c, w'))
                (append_assoc buffer (take (suc n) bs) (take (size - n) (pending c.fd w1))
                  ∙ ap (◌++◌ buffer) (
                      ap (λ xs. xs ++ take (size - n) (pending c.fd w1)) front
                      ∙ ap (λ xs. take (suc n) left ++ take (size - n) xs) rest
                      ∙ take-take-drop (suc n) (size - n) left
                      ∙ ap (λ k. take k left) total)),
        all
            ∙ ap (drop (size - n)) rest
            ∙ drop-drop (size - n) (suc n) left
            ∙ ap (λ k. drop k left) total,
      )

  -- On a blocking stream socket of which no receive fails while bytes are pending and each then gives at least
  -- one, where at least `size` bytes are pending, and given more fuel than `size`, Socket::Recv of `size` bytes
  -- ends with success, the socket object is as before, and the result is exactly the first `size` of the
  -- pending bytes, in order; what is behind them is left.
  pub socket_recv-whole :
      (fuel : ℕ) (c : Connection) (size : ℕ) (w : W)
      → size < fuel
      → size ≤ length (pending c.fd w)
      → (w' : W) × (socket_recv p fuel c size w ≡ ok (some (take size (pending c.fd w)), c, w'))
        × (pending c.fd w' ≡ drop size (pending c.fd w))
  unfolding socket_recv
  socket_recv-whole fuel c size w enough there = recv_bytes-pending fuel c size [] w enough there
