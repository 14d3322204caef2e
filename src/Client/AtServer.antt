-- ===== src/Client/AtServer.antt =====
-- A customer of Client.cpp and an engineer thread of Server.cpp, at the two ends of a connection.
use load_balancer_with_wal.Base.{
  ℕ, suc, ◌≡◌, refl, ◌∙◌, ap, sym, false, none, some, Option, arith, List, [], ◌∷◌, ◌++◌, ok,
}
use load_balancer_with_wal.Base.Int.{ℤ, pos, minus_one, eq_ℤ, IsInt}
use load_balancer_with_wal.Platform.{Platform}
use load_balancer_with_wal.Platform.Laws.{ByteLaws}
use load_balancer_with_wal.RobotFactory.{OrderInf, RobotInf}
use load_balancer_with_wal.RobotFactory.Wire.{memory, order_words, order_at, robot_words, robot_at}
use load_balancer_with_wal.RobotFactory.Wire.RoundTrip.{
  IsOrder, IsRobot, order_at-memory, robot_at-memory,
}
use load_balancer_with_wal.ServerStub.{recv_struct, receive_request, ship_robot}
use load_balancer_with_wal.ServerStub.Structs.{send_struct-sent, recv_struct-got}
use load_balancer_with_wal.Server.State.{Server, Exec, pure}
use load_balancer_with_wal.Server.Engineer.{assemble_robot}
use load_balancer_with_wal.Server.Threads.{
  Engineer, Threads, gone, listening, ordering, waiting, heard, listen, engineer_turn, robot_behind,
  Reach,
}
use load_balancer_with_wal.Server.Threads.Primary.{served_robot}
use load_balancer_with_wal.Server.Threads.Shipping.{started, Reach-own, Reach-ships_own}
use load_balancer_with_wal.Client.{exchange, client_order}

-- The robot that a customer is to get for an order.
abbrev pub robot_for : OrderInf → ℤ → ℤ → RobotInf
robot_for o eng_id admin_id = record {
  customer_id = o.customer_id;
  order_number = o.order_number;
  request_type = o.request_type;
  engineer_id = eng_id;
  admin_id = admin_id;
}

-- Two hosts on which a word has the same bytes in memory.
pub record SameHost {V W : Type 0} (p : Platform V) (q : Platform W) : Type 0 where
  pub same_bytes : (w : ℕ) → q.bytes w ≡ p.bytes w

heard_order :
    (o : OrderInf) (e : Engineer)
    → o.request_type ≡ pos 1
    → heard o e ≡ record e { send_last_committed_index = pos 1; phase = ordering o }
unfolding heard
heard_order o e kind = rw kind refl

not_zero : (k : ℕ) → eq_ℤ (pos (suc k)) (pos 0) ≡ false
not_zero k = ground arith

module _ {V W : Type 0} (p : Platform V) (q : Platform W) (same : SameHost p q) where
  memory-same : (ws : List ℕ) → memory q ws ≡ memory p ws
  unfolding memory
  memory-same [] = refl
  memory-same (w ∷ ws) = rw (same.same_bytes w, memory-same ws) refl

  order_over :
      (b : ByteLaws q) (o : OrderInf) (rest : List ℕ)
      → IsOrder o
      → order_at q (memory p (order_words o) ++ rest) ≡ o
  order_over b o rest h =
      ap (λ bs. order_at q (bs ++ rest)) (sym (memory-same (order_words o)))
      ∙ order_at-memory q b o rest h

  robot_over :
      (b : ByteLaws p) (r : RobotInf) (rest : List ℕ)
      → IsRobot r
      → robot_at p (memory q (robot_words r) ++ rest) ≡ r
  robot_over b r rest h =
      ap (λ bs. robot_at p (bs ++ rest)) (memory-same (robot_words r))
      ∙ robot_at-memory p b r rest h

  takes_order :
      (b : ByteLaws q) (o : OrderInf) (rest : List ℕ) (sock : ℤ) (v v' : W)
      → IsOrder o
      → q.recv sock 12 v ≡ (pos 12, memory p (order_words o) ++ rest, v')
      → receive_request q sock v ≡ (some o, v')
  unfolding receive_request
  takes_order b o rest sock v v' int comes =
      recv_struct-got q (order_at q) sock 12 12 _ o v v' comes (order_over b o rest int)

  -- An engineer that listens takes up the order whose bytes have come.
  hears_order :
      (b : ByteLaws q) (o : OrderInf) (rest : List ℕ) (e : Engineer) (n k : ℕ) (s : Server)
      (v v1 v2 : W)
      → IsOrder o
      → o.request_type ≡ pos 1
      → q.peek e.sock 12 v ≡ (pos (suc k), v1)
      → q.recv e.sock 12 v1 ≡ (pos 12, memory p (order_words o) ++ rest, v2)
      → engineer_turn q n e listening s v
        ≡ ok (some (record e { send_last_committed_index = pos 1; phase = ordering o }), s, v2)
  unfolding engineer_turn listen
  hears_order b o rest e n k s v v1 v2 int kind waits comes =
      let got = takes_order b o rest e.sock v1 v2 int comes in
      rw waits (
        rw (not_zero k) (
          ap
            (λ (r : Option OrderInf × W).
              (elim r.0 as (λ _. Exec W (Option Engineer)) [
                | none ↦ pure (some (record e { phase = gone }))
                | some make_order ↦ pure (some (heard make_order e))
              ])
                s r.1)
            got
          ∙ ap (λ h. ok (some h, s, v2)) (heard_order o e kind)))

  -- A customer that sends an order and is sent these bytes has this robot.
  gets_robot :
      (b : ByteLaws p) (o : OrderInf) (r : RobotInf) (rest : List ℕ) (sock : ℤ) (sent : ℕ)
      (w w1 w2 : V)
      → IsRobot r
      → p.send sock (memory p (order_words o)) w ≡ (pos sent, w1)
      → p.recv sock 20 w1 ≡ (pos 20, memory q (robot_words r) ++ rest, w2)
      → client_order p sock o w ≡ (some r, w2)
  unfolding client_order exchange
  gets_robot b o r rest sock sent w w1 w2 int sends comes =
      let out = send_struct-sent p sock (order_words o) sent w w1 sends in
      let back =
        recv_struct-got p (robot_at p) sock 20 20 _ r w1 w2 comes (robot_over b r rest int) in
      rw (out, exchange) (ap (λ r'. recv_struct p sock 20 (robot_at p) r'.1) out ∙ back)

  -- A customer sends an order of `int`s, of type 1 and not of customer -1, to a server on a host with the same
  -- bytes of a word in memory. An engineer that listens and is given these bytes takes up this very order.
  -- However the threads of the server, which started with empty lists, have taken turns, an engineer that
  -- waits for this order sends, once its promise is set, the bytes of the robot of this order, with its own id
  -- and that of the admin thread, both of them `int`s, and listens again. And where the customer receives the
  -- bytes of the robot behind the promise, its call of Order gives this robot.
  pub client_order-robot_for :
      (pb : ByteLaws p) (qb : ByteLaws q) (admin_id : ℤ) (o : OrderInf) (robot : RobotInf)
      (s0 : Server) (w0 : W) (c : Threads W) (i n m k sent : ℕ) (e : Engineer) (s : Server)
      (v v1 v2 : W) (sock : ℤ) (w w1 w2 : V) (rest rest' : List ℕ)
      → IsOrder o
      → IsInt (c.engineers i).eng_id
      → IsInt admin_id
      → o.request_type ≡ pos 1
      → eq_ℤ o.customer_id minus_one ≡ false
      → q.peek e.sock 12 v ≡ (pos (suc k), v1)
      → q.recv e.sock 12 v1 ≡ (pos 12, memory p (order_words o) ++ rest, v2)
      → s0.admin_thread_list ≡ []
      → s0.barrier_list ≡ []
      → s0.fulfilled ≡ []
      → Reach q admin_id (started q admin_id s0 w0) c
      → (c.engineers i).phase ≡ waiting o n
      → robot_behind n c.server.fulfilled ≡ some robot
      → p.send sock (memory p (order_words o)) w ≡ (pos sent, w1)
      → p.recv sock 20 w1 ≡ (pos 20, memory q (robot_words robot) ++ rest', w2)
      → (engineer_turn q m e listening s v
          ≡ ok (some (record e { send_last_committed_index = pos 1; phase = ordering o }), s, v2))
        × (engineer_turn q c.promises (c.engineers i) (c.engineers i).phase c.server c.world
            ≡ ok (
              some (record (c.engineers i) { phase = listening }),
              c.server,
              (ship_robot q
                  (c.engineers i).sock
                  (robot_for o (c.engineers i).eng_id admin_id)
                  c.world).1,
            ))
        × (client_order p sock o w ≡ (some (robot_for o (c.engineers i).eng_id admin_id), w2))
  unfolding assemble_robot
  client_order-robot_for pb qb admin_id o robot s0 w0 c i n m k sent e s v v1 v2 sock w w1 w2 rest
        rest' int eng adm kind customer waits comes er eb ef reach waiting_o behind sends back =
      let r = robot_for o (c.engineers i).eng_id admin_id in
      let own = Reach-own q admin_id s0 w0 c i n o robot er eb ef reach waiting_o behind in
      let served : served_robot admin_id (assemble_robot o (c.engineers i).eng_id) ≡ r =
        rw customer refl in
      (
        hears_order qb o rest e m k s v v1 v2 int kind waits comes,
        Reach-ships_own q admin_id s0 w0 c i n o robot er eb ef reach waiting_o behind
            ∙ ap
                (λ x. ok (
                  some (record (c.engineers i) { phase = listening }),
                  c.server,
                  (ship_robot q (c.engineers i).sock x c.world).1,
                ))
                served,
        gets_robot pb o r rest' sock sent w w1 w2 (int.0, int.1, int.2, eng, adm) sends
            (back ∙ ap (λ x. (pos 20, memory q (robot_words x) ++ rest', w2)) (own ∙ served)),
      )
