-- ===== src/Tests/Reads.antt =====
-- A read at a concrete server.
use load_balancer_with_wal.Base.{◌≡◌, refl, ◌∙◌, ap, sym, arith, [], ◌∷◌, ok}
use load_balancer_with_wal.Base.Int.{pos}
use load_balancer_with_wal.RobotFactory.{OrderInf}
use load_balancer_with_wal.ServerStub.{return_record}
use load_balancer_with_wal.Server.State.{Server}
use load_balancer_with_wal.Server.State.Map.{put}
use load_balancer_with_wal.Server.State.Spec.{IsApplied, records-zero, records-suc}
use load_balancer_with_wal.Server.Engineer.{engineer_thread_read_def}
use load_balancer_with_wal.Server.Engineer.Reads.{engineer_thread_read_def-answers}
use load_balancer_with_wal.Tests.World.{little}
use load_balancer_with_wal.Tests.Log.{op, world}
use load_balancer_with_wal.Tests.Replica.{server}

-- two entries of customer 5, of which one is committed
abbrev one_committed : Server
one_committed = record (server (op 5 1 ∷ op 5 2 ∷ [])) { customer_record = (pos 5, pos 1) ∷ [] }

one_committed-IsApplied : IsApplied 1 one_committed
unfolding put
one_committed-IsApplied = record {
  applied = sym (
      records-suc 0 (op 5 1 ∷ op 5 2 ∷ []) (op 5 1) refl
      ∙ ap (put (pos 5) (pos 1)) (records-zero _));
  bounded = omega arith;
  small = omega arith;
}

abbrev question : OrderInf
question = record { customer_id = pos 5; order_number = pos 0; request_type = pos 2 }

engineer_thread_read_def-answers_example :
    engineer_thread_read_def little (pos 9) question one_committed world
    ≡ ok (
      tt,
      one_committed,
      (return_record little (pos 9) (record { customer_id = pos 5; last_order = pos 1 }) world).1,
    )
engineer_thread_read_def-answers_example =
    engineer_thread_read_def-answers little 1 (pos 9) question one_committed world
      one_committed-IsApplied
