-- ===== src/Server/Engineer.antt =====
-- The engineer threads, which serve the customers.
pub mod Reads
use load_balancer_with_wal.Base.{ℕ, none, some, [], ◌∷◌, ◌++◌}
use load_balancer_with_wal.Base.Int.{ℤ, minus_one}
use load_balancer_with_wal.Platform.{Platform}
use load_balancer_with_wal.RobotFactory.{OrderInf, RobotInf, CRec}
use load_balancer_with_wal.ServerStub.{return_record}
use load_balancer_with_wal.Server.State.{Server, Exec, pure, ◌>>=◌, get_server, modify, net}
use load_balancer_with_wal.Server.State.Map.{find}

unfoldable pub assemble_robot : OrderInf → ℤ → RobotInf
assemble_robot order engineer_id = record {
  customer_id = order.customer_id;
  order_number = order.order_number;
  request_type = order.request_type;
  engineer_id = engineer_id;
  admin_id = minus_one;
}

-- the two pushes that engineer_thread_robot_def and engineer_thread_send_commited_index make under
-- the mutex before they wait for the promise
unfoldable pub enqueue : {W : Type 0} → RobotInf → ℕ → Exec W (Unit {0})
enqueue robot barrier = modify λ s. record s {
  admin_thread_list = s.admin_thread_list ++ robot ∷ [];
  barrier_list = s.barrier_list ++ barrier ∷ [];
}

-- engineer_thread_robot_def up to its wait
unfoldable pub place_order : {W : Type 0} → OrderInf → ℤ → ℕ → Exec W (Unit {0})
unfolding assemble_robot enqueue
place_order make_order eng_id barrier = enqueue (assemble_robot make_order eng_id) barrier

-- engineer_thread_send_commited_index up to its wait
unfoldable pub place_commit_notice : {W : Type 0} → RobotInf → ℕ → Exec W (Unit {0})
unfolding enqueue
place_commit_notice repl_commit_index barrier =
    enqueue (record repl_commit_index { customer_id = minus_one; order_number = minus_one }) barrier

-- the record that engineer_thread_read_def returns
unfoldable pub record_of : Server → ℤ → CRec
record_of s customer = record {
  customer_id = customer;
  last_order = elim (find customer s.customer_record) [ none ↦ minus_one | some order ↦ order ];
}

unfoldable pub engineer_thread_read_def :
    {W : Type 0} → Platform W → ℤ → OrderInf → Exec W (Unit {0})
unfolding record_of
engineer_thread_read_def p engineer make_order = do
  s ← get_server
  sent ← net (return_record p engineer (record_of s make_order.customer_id))
  pure tt
