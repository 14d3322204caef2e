-- ===== src/Server/Engineer/Reads.antt =====
-- What a read of a customer's record is answered, said of the log alone.
use load_balancer_with_wal.Base.{ℕ, none, some, List, take, ◌≡◌, ◌∙◌, ap, ok}
use load_balancer_with_wal.Base.Int.{ℤ, minus_one}
use load_balancer_with_wal.Platform.{Platform}
use load_balancer_with_wal.RobotFactory.{OrderInf, MapOp, CRec}
use load_balancer_with_wal.ServerStub.{return_record}
use load_balancer_with_wal.Server.State.{Server}
use load_balancer_with_wal.Server.State.Map.{find}
use load_balancer_with_wal.Server.State.Spec.{IsApplied}
use load_balancer_with_wal.Server.State.Spec.LastOrder.{last_order_in, find-records}
use load_balancer_with_wal.Server.Engineer.{record_of, engineer_thread_read_def}

-- The answer to a read, of a server that has committed these entries.
abbrev pub answer_from : ℤ → List MapOp → CRec
answer_from customer committed = record {
  customer_id = customer;
  last_order = elim (last_order_in customer committed) [ none ↦ minus_one | some order ↦ order ];
}

-- On a server whose record is the replay of the first k entries of its log, a read sends the customer
-- the number of its last order among these entries, or -1 if it has none there, and changes nothing.
pub engineer_thread_read_def-answers :
    {W : Type 0} (p : Platform W) (k : ℕ) (sock : ℤ) (make_order : OrderInf) (s : Server) (w : W)
    → IsApplied k s
    → engineer_thread_read_def p sock make_order s w
      ≡ ok (
        tt,
        s,
        (return_record p sock (answer_from make_order.customer_id (take k s.smr_log)) w).1,
      )
unfolding engineer_thread_read_def record_of
engineer_thread_read_def-answers p k sock make_order s w v =
    ap
      (λ o. ok (
        tt,
        s,
        (return_record p sock
            (record {
              customer_id = make_order.customer_id;
              last_order = elim o [ none ↦ minus_one | some order ↦ order ];
            })
            w).1,
      ))
      (ap (find make_order.customer_id) v.applied ∙ find-records make_order.customer_id k s.smr_log)
