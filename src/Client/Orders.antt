-- ===== src/Client/Orders.antt =====
-- The orders of a client's thread, and what its timer says of them.
use load_balancer_with_wal.Base.{
  ℕ, zero, suc, ◌+◌, ◌<◌, ◌^◌, ◌≡◌, refl, ◌∙◌, ap, sym, subst, some, List, [], ◌∷◌, ◌++◌,
  append_assoc, append-nil, length, arith,
}
use load_balancer_with_wal.Base.Int.{ℤ, pos, next}
use load_balancer_with_wal.Platform.{Platform}
use load_balancer_with_wal.RobotFactory.{OrderInf, RobotInf}
use load_balancer_with_wal.Client.{client_init, client_order, place_orders, client_thread_body}
use load_balancer_with_wal.Client.Timer.{Doubles, ClientTimer, new_timer, count_lap}
use load_balancer_with_wal.Client.Timer.Spread.{
  DoubleLaws, Covers, Covers-timed, new_timer-Covers, count_lap-Covers,
}

-- n orders of a customer, numbered from k.
abbrev pub orders_from : ℤ → ℕ → ℕ → List OrderInf
orders_from custid k zero = []
orders_from custid k (suc n) =
    record { customer_id = custid; order_number = pos k; request_type = pos 1 }
    ∷ orders_from custid (suc k) n

module _ {W D : Type 0} (p : Platform W) (d : Doubles D) where
  -- The server answers each of these orders, and the clock shows these times from the start of an order
  -- to its answer.
  abbrev pub Answers : ℤ → List OrderInf → List D → W → W → Type 0
  Answers sock [] laps w w' = (laps ≡ []) × (w ≡ w')
  Answers sock (o ∷ os) laps w w' =
      (robot : RobotInf) × (w2 : W) × (more : List D) × (client_order p sock o (p.now w).1
        ≡ (some robot, w2))
      × (laps ≡ d.between (p.now w).0 (p.now w2).0 ∷ more)
      × Answers sock os more (p.now w2).1 w'

  next-pos : (n : ℕ) → n + 1 < 2 ^ 31 → next (pos n) ≡ pos (suc n)
  next-pos n h = ground arith

  length-Answers :
      (sock custid : ℤ) (k n : ℕ) (laps : List D) (w w' : W)
      → Answers sock (orders_from custid k n) laps w w'
      → length laps ≡ n
  length-Answers sock custid k zero laps w w' (none_left, _) = ap length none_left
  length-Answers sock custid k (suc n) laps w w' (_, w2, more, _, lap, rest) =
      ap length lap ∙ ap suc (length-Answers sock custid (suc k) n more (p.now w2).1 w' rest)

  place_orders-answered :
      (sock : ℤ) (n : ℕ) (o : OrderInf) (t : ClientTimer D) (robot : RobotInf) (w w2 : W)
      → client_order p sock o (p.now w).1 ≡ (some robot, w2)
      → place_orders p d sock (suc n) o t w
        ≡ place_orders p d sock n
            (record o { order_number = next o.order_number })
            (count_lap d (record t {
              start_time = (p.now w).0;
              elapsed_time = d.between (p.now w).0 (p.now w2).0;
            }))
            (p.now w2).1
  unfolding place_orders
  place_orders-answered sock n o t robot w w2 e =
      rw (e, place_orders)
        (ap
          (λ (w' : W).
            place_orders p d sock n (record o { order_number = next o.order_number })
              (count_lap d (record t {
                start_time = (p.now w).0;
                elapsed_time = d.between (p.now w).0 (p.now w').0;
              }))
              (p.now w').1)
          (ap (λ r. r.1) e))

  module _ (laws : DoubleLaws d) where
    place_orders-Answers :
        (sock custid : ℤ) (k n : ℕ) (seen laps : List D) (t : ClientTimer D) (w w' : W)
        → k + n < 2 ^ 31
        → Covers d seen t
        → Answers sock (orders_from custid k n) laps w w'
        → (t' : ClientTimer D) × (place_orders p d sock n
              (record { customer_id = custid; order_number = pos k; request_type = pos 1 })
              t
              w
            ≡ (t', w'))
          × Covers d (seen ++ laps) t'
    unfolding place_orders
    place_orders-Answers sock custid k zero seen laps t w w' h c (none_left, same) = (
      t,
      ap (λ v. (t, v)) same,
      subst (λ xs. Covers d xs t) (sym (ap (λ xs. seen ++ xs) none_left ∙ append-nil seen)) c,
    )
    place_orders-Answers sock custid k (suc n) seen laps t w w' h c
          (robot, w2, more, answered, lap, rest) =
        let time : D = d.between (p.now w).0 (p.now w2).0 in
        let timed : ClientTimer D = record t { start_time = (p.now w).0; elapsed_time = time } in
        let (t', e, c') =
          place_orders-Answers sock custid (suc k) n (seen ++ time ∷ []) more (count_lap d timed)
            (p.now w2).1 w' (omega arith)
            (count_lap-Covers d laws seen timed (Covers-timed d seen t _ _ c)) rest in
        (
          t',
          place_orders-answered sock n _ t robot w w2 answered
              ∙ ap
                  (λ k'.
                    place_orders p d sock n
                      (record { customer_id = custid; order_number = k'; request_type = pos 1 })
                      (count_lap d timed) (p.now w2).1)
                  (next-pos k (omega arith))
              ∙ e,
          subst (λ xs. Covers d xs t')
              (append_assoc seen (time ∷ []) more ∙ ap (λ xs. seen ++ xs) (sym lap)) c',
        )

    -- A client whose server accepts its connection and answers its orders places exactly n of them, with
    -- the numbers 1 to n in order, closes its socket, and its timer has counted the n times from the
    -- start of an order to its answer, of which it keeps the least and the greatest. The durations are
    -- not NaN.
    pub client_thread_body-orders :
        (custid port sock : ℤ) (ip : List ℕ) (n : ℕ) (laps : List D) (unset : D) (w w1 w' : W)
        → n + 1 < 2 ^ 31
        → client_init p ip port w ≡ (pos 0, sock, w1)
        → Answers sock (orders_from custid 1 n) laps w1 w'
        → (t : ClientTimer D) × (client_thread_body p d custid ip port
              (pos n)
              (pos 1)
              (new_timer d unset)
              w
            ≡ (t, p.close sock w'))
          × Covers d laps t
          × (length laps ≡ n)
    unfolding client_thread_body
    client_thread_body-orders custid port sock ip n laps unset w w1 w' small opened answers =
        let (t, e, c) =
          place_orders-Answers sock custid 1 n [] laps (new_timer d unset) w1 w' (omega arith)
            (new_timer-Covers d laws unset) answers in
        (
          t,
          rw (opened, client_thread_body) (rw e refl),
          c,
          length-Answers sock custid 1 n laps w1 w' answers,
        )
