-- ===== src/LoadBalancer/Proxy/Threads/Session.antt =====
-- A customer of the load balancer from its first request to its leave.
use load_balancer_with_wal.Base.{ℕ, suc, ◌≡◌, List, [], ◌∷◌}
use load_balancer_with_wal.Base.Int.{ℤ, pos, IsInt}
use load_balancer_with_wal.Platform.{Platform}
use load_balancer_with_wal.RobotFactory.{OrderInf, RobotInf, CRec}
use load_balancer_with_wal.RobotFactory.Wire.{memory, order_words, robot_words, c_rec_words}
use load_balancer_with_wal.RobotFactory.Wire.RoundTrip.{IsOrder, IsRobot}

module _ {W : Type 0} (p : Platform W) (customer m worker : ℤ) where
  -- What the system calls give while a customer sends these requests, one at a time, and the nodes answer
  -- them: an order goes to the master `m` and a read to the node `worker`, as the bytes of the request, and the
  -- bytes of the answer go to the customer. At the end the customer has closed its connection.
  pub data Session : List OrderInf → W → W → Type 0 where
    leaves : {w w1 : W} → p.peek customer 12 w ≡ (pos 0, w1) → Session [] w (p.close customer w1)
    orders :
        (o : OrderInf) (r : RobotInf) (n : ℕ) {os : List OrderInf} {w w1 w2 w3 w4 w' : W}
        → IsOrder o
        → IsRobot r
        → o.request_type ≡ pos 1
        → p.peek customer 12 w ≡ (pos (suc n), w1)
        → p.recv customer 12 w1 ≡ (pos 12, memory p (order_words o), w2)
        → p.send m (memory p (order_words o)) w2 ≡ (pos 12, w3)
        → p.recv m 20 w3 ≡ (pos 20, memory p (robot_words r), w4)
        → Session os (p.send customer (memory p (robot_words r)) w4).1 w'
        → Session (o ∷ os) w w'
    reads :
        (o : OrderInf) (r : CRec) (n : ℕ) {os : List OrderInf} {w w1 w2 w3 w4 w' : W}
        → IsOrder o
        → IsInt r.customer_id
        → IsInt r.last_order
        → o.request_type ≡ pos 2
        → p.peek customer 12 w ≡ (pos (suc n), w1)
        → p.recv customer 12 w1 ≡ (pos 12, memory p (order_words o), w2)
        → p.send worker (memory p (order_words o)) w2 ≡ (pos 12, w3)
        → p.recv worker 8 w3 ≡ (pos 8, memory p (c_rec_words r), w4)
        → Session os (p.send customer (memory p (c_rec_words r)) w4).1 w'
        → Session (o ∷ os) w w'
