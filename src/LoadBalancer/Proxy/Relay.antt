-- ===== src/LoadBalancer/Proxy/Relay.antt =====
-- What LoadBalancerThread passes between a customer and a factory.
use load_balancer_with_wal.Base.{
  ℕ, suc, ◌≡◌, ◌∙◌, ap, sym, true, false, Option, none, some, if◌then◌else◌, arith, [], append-nil,
}
use load_balancer_with_wal.Base.Int.{ℤ, pos, eq_ℤ, IsInt}
use load_balancer_with_wal.Platform.{Platform}
use load_balancer_with_wal.Platform.Laws.{ByteLaws}
use load_balancer_with_wal.RobotFactory.{OrderInf, RobotInf, CRec}
use load_balancer_with_wal.RobotFactory.Wire.{
  memory, order_words, order_at, robot_words, robot_at, c_rec_words, c_rec_at,
}
use load_balancer_with_wal.RobotFactory.Wire.RoundTrip.{
  IsOrder, IsRobot, order_at-memory, robot_at-memory, c_rec_at-memory,
}
use load_balancer_with_wal.ServerStub.Structs.{send_struct-sent, recv_struct-got}
use load_balancer_with_wal.ServerStub.{send_struct}
use load_balancer_with_wal.LoadBalancer.Proxy.{
  struct_order, struct_read_record, struct_receive_request, struct_ship_robot, struct_return_record,
  create_robot, read_record, no_robot, unset_robot, unset_record, dispatch, msg_peek, serve_round,
}

positive : (n : ℕ) → eq_ℤ (pos (suc n)) (pos 0) ≡ false
positive n = ground arith

module _ {W : Type 0} (p : Platform W) where
  -- A customer's request has come: what is left is to serve it.
  serve_round-request :
      (customer worker : ℤ) (master : Option ℤ) (o : OrderInf) (n : ℕ) (w w1 w2 : W)
      → msg_peek p customer w ≡ (true, w1)
      → struct_receive_request p customer w1 ≡ (some o, w2)
      → serve_round p customer master worker w ≡ (true, dispatch p o customer master worker w2)
  unfolding serve_round
  serve_round-request customer worker master o n w w1 w2 peeked got =
      rw (peeked, serve_round) (rw (got) (rw (peeked) (rw (got))))

  msg_peek-pending :
      (customer : ℤ) (n : ℕ) (w w1 : W)
      → p.peek customer 12 w ≡ (pos (suc n), w1)
      → msg_peek p customer w ≡ (true, w1)
  unfolding msg_peek
  msg_peek-pending customer n w w1 e =
      rw (e, msg_peek)
        (ap (λ q. if q then (false, p.close customer w1) else (true, w1)) (positive n))

  create_robot-reply :
      (m : ℤ) (o : OrderInf) (r : RobotInf) (w w' : W)
      → struct_order p m o w ≡ (some r, w')
      → create_robot p o m w ≡ (r, w')
  unfolding create_robot
  create_robot-reply m o r w w' e =
      ap
        (λ (x : Option RobotInf × W).
          ((elim x.0 [ none ↦ unset_robot p w | some robot ↦ robot ]), x.1))
        e

  dispatch_order :
      (customer worker m : ℤ) (o : OrderInf) (r : RobotInf) (w w' : W)
      → o.request_type ≡ pos 1
      → struct_order p m o w ≡ (some r, w')
      → dispatch p o customer (some m) worker w ≡ (p.send customer (memory p (robot_words r)) w').1
  unfolding dispatch struct_ship_robot send_struct
  dispatch_order customer worker m o r w w' type e =
      ap
        (λ t.
          if eq_ℤ t (pos 1)
          then (struct_ship_robot p customer (create_robot p o m w).0 (create_robot p o m w).1).1
          else if eq_ℤ t (pos 2)
          then read_record p o customer worker w
          else w)
        type
      ∙ ap (λ x. (struct_ship_robot p customer x.0 x.1).1) (create_robot-reply m o r w w' e)

  dispatch_read :
      (customer worker : ℤ) (master : Option ℤ) (o : OrderInf) (r : CRec) (w w' : W)
      → o.request_type ≡ pos 2
      → struct_read_record p worker o w ≡ (some r, w')
      → dispatch p o customer master worker w ≡ (p.send customer (memory p (c_rec_words r)) w').1
  unfolding dispatch read_record struct_return_record send_struct
  dispatch_read customer worker master o r w w' type e =
      ap
        (λ t.
          if eq_ℤ t (pos 1)
          then elim master [
            | some m ↦
                (struct_ship_robot p customer (create_robot p o m w).0 (create_robot p o m w).1).1
            | none ↦ (struct_ship_robot p customer no_robot w).1
          ]
          else if eq_ℤ t (pos 2)
          then read_record p o customer worker w
          else w)
        type
      ∙ ap
          (λ (x : Option CRec × W).
            (struct_return_record p customer (elim x.0 [ none ↦ unset_record p w | some r ↦ r ])
              x.1).1)
          e

module _ {W : Type 0} (p : Platform W) (b : ByteLaws p) where
  receive_request-got :
      (customer : ℤ) (o : OrderInf) (w w1 : W)
      → IsOrder o
      → p.recv customer 12 w ≡ (pos 12, memory p (order_words o), w1)
      → struct_receive_request p customer w ≡ (some o, w1)
  unfolding struct_receive_request
  receive_request-got customer o w w1 h e =
      recv_struct-got p (order_at p) customer 12 12 _ o w w1 e
        (ap (order_at p) (sym (append-nil _)) ∙ order_at-memory p b o [] h)

  struct_order-reply :
      (m : ℤ) (o : OrderInf) (r : RobotInf) (w w1 w2 : W)
      → IsRobot r
      → p.send m (memory p (order_words o)) w ≡ (pos 12, w1)
      → p.recv m 20 w1 ≡ (pos 20, memory p (robot_words r), w2)
      → struct_order p m o w ≡ (some r, w2)
  unfolding struct_order
  struct_order-reply m o r w w1 w2 h sent got =
      rw (send_struct-sent p m (order_words o) 12 w w1 sent, struct_order)
        (recv_struct-got p (robot_at p) m 20 20 _ r w1 w2 got
          (ap (robot_at p) (sym (append-nil _)) ∙ robot_at-memory p b r [] h))

  struct_read_record-reply :
      (m : ℤ) (o : OrderInf) (r : CRec) (w w1 w2 : W)
      → IsInt r.customer_id
      → IsInt r.last_order
      → p.send m (memory p (order_words o)) w ≡ (pos 12, w1)
      → p.recv m 8 w1 ≡ (pos 8, memory p (c_rec_words r), w2)
      → struct_read_record p m o w ≡ (some r, w2)
  unfolding struct_read_record
  struct_read_record-reply m o r w w1 w2 h g sent got =
      rw (send_struct-sent p m (order_words o) 12 w w1 sent, struct_read_record)
        (recv_struct-got p (c_rec_at p) m 8 8 _ r w1 w2 got
          (ap (c_rec_at p) (sym (append-nil _)) ∙ c_rec_at-memory p b r [] h g))

  -- A customer's order of type 1, a node as master that takes it and answers with a robot: the round
  -- has sent the master the bytes of the order, it sends the customer the bytes of the answer, and the
  -- loop goes on.
  pub serve_round-order :
      (customer worker m : ℤ) (o : OrderInf) (r : RobotInf) (n : ℕ) (w w1 w2 w3 w4 : W)
      → IsOrder o
      → IsRobot r
      → o.request_type ≡ pos 1
      → p.peek customer 12 w ≡ (pos (suc n), w1)
      → p.recv customer 12 w1 ≡ (pos 12, memory p (order_words o), w2)
      → p.send m (memory p (order_words o)) w2 ≡ (pos 12, w3)
      → p.recv m 20 w3 ≡ (pos 20, memory p (robot_words r), w4)
      → serve_round p customer (some m) worker w
        ≡ (true, (p.send customer (memory p (robot_words r)) w4).1)
  serve_round-order customer worker m o r n w w1 w2 w3 w4 ho hr type peeked got sent answered =
      serve_round-request p customer worker (some m) o n w w1 w2
        (msg_peek-pending p customer n w w1 peeked) (receive_request-got customer o w1 w2 ho got)
      ∙ ap (λ w'. (true, w')) served
    where
      served :
          dispatch p o customer (some m) worker w2
          ≡ (p.send customer (memory p (robot_words r)) w4).1
      served =
          dispatch_order p customer worker m o r w2 w4 type
            (struct_order-reply m o r w2 w3 w4 hr sent answered)

  -- A customer's read, type 2, and a node that answers it with a record: the round has sent the node
  -- the bytes of the request, it sends the customer the bytes of the answer, and the loop goes on.
  pub serve_round-read :
      (customer worker : ℤ) (master : Option ℤ) (o : OrderInf) (r : CRec) (n : ℕ)
      (w w1 w2 w3 w4 : W)
      → IsOrder o
      → IsInt r.customer_id
      → IsInt r.last_order
      → o.request_type ≡ pos 2
      → p.peek customer 12 w ≡ (pos (suc n), w1)
      → p.recv customer 12 w1 ≡ (pos 12, memory p (order_words o), w2)
      → p.send worker (memory p (order_words o)) w2 ≡ (pos 12, w3)
      → p.recv worker 8 w3 ≡ (pos 8, memory p (c_rec_words r), w4)
      → serve_round p customer master worker w
        ≡ (true, (p.send customer (memory p (c_rec_words r)) w4).1)
  serve_round-read customer worker master o r n w w1 w2 w3 w4 ho hid hlast type peeked got sent
        answered =
      serve_round-request p customer worker master o n w w1 w2
        (msg_peek-pending p customer n w w1 peeked) (receive_request-got customer o w1 w2 ho got)
      ∙ ap (λ w'. (true, w')) served
    where
      served :
          dispatch p o customer master worker w2 ≡ (p.send customer (memory p (c_rec_words r)) w4).1
      served =
          dispatch_read p customer worker master o r w2 w4 type
            (struct_read_record-reply worker o r w2 w3 w4 hid hlast sent answered)
