-- ===== src/Tests/Threads.antt =====
-- An engineer thread and the admin thread at concrete inputs.
use load_balancer_with_wal.Base.{◌≡◌, refl, ◌∙◌, ap, sym, append-nil, arith, inl, some, [], ◌∷◌, ok}
use load_balancer_with_wal.Base.Int.{pos, minus_one}
use load_balancer_with_wal.RobotFactory.{OrderInf, RobotInf}
use load_balancer_with_wal.RobotFactory.Wire.{memory, order_words, order_at}
use load_balancer_with_wal.RobotFactory.Wire.RoundTrip.{order_at-memory}
use load_balancer_with_wal.ServerStub.{recv_struct, receive_request, ship_robot}
use load_balancer_with_wal.Server.State.{Server}
use load_balancer_with_wal.Server.State.Spec.{IsCoherent, Ends, records-zero}
use load_balancer_with_wal.Server.Primary.{admin_round}
use load_balancer_with_wal.Server.Primary.Orders.{Served}
use load_balancer_with_wal.Server.Primary.Rounds.{admin_round-Served}
use load_balancer_with_wal.Server.Engineer.{assemble_robot, enqueue, place_order}
use load_balancer_with_wal.Server.Threads.{
  listening, ordering, waiting, Engineer, Threads, set, heard, listen, engineer_turn, robot_behind,
  turn, serve, accept, outside, Reach, here, later,
}
use load_balancer_with_wal.Server.Threads.Primary.{served_robot}
use load_balancer_with_wal.Server.Threads.Shipping.{started, Reach-ships_own}
use load_balancer_with_wal.Tests.World.{World, little, little-ByteLaws}
use load_balancer_with_wal.Tests.Log.{world}
use load_balancer_with_wal.Tests.Replica.{server}

abbrev pub order : OrderInf
order = record { customer_id = pos 6; order_number = pos 1; request_type = pos 1 }

abbrev pub hired : Engineer
hired = record {
  sock = pos 9;
  eng_id = pos 100;
  send_last_committed_index = pos 0;
  phase = listening;
}

abbrev pub asked : Engineer
asked = record hired { send_last_committed_index = pos 1; phase = ordering order }

abbrev pub waits : Engineer
waits = record asked { phase = waiting order 1 }

abbrev pub order_comes : World
order_comes = record world { inbox = memory little (order_words order) ∷ [] }

abbrev empty : Threads World
empty = started little (pos 102) (server []) world

abbrev listened : Threads World
listened = record empty { world = order_comes; engineers = set 0 hired empty.engineers }

hears :
    engineer_turn little 0 hired listening (server []) order_comes
    ≡ ok (some asked, server [], world)
unfolding engineer_turn listen heard receive_request recv_struct
hears =
    ap (λ o. ok (some (heard o hired), server [], world))
      (ap (order_at little) (sym (append-nil _))
        ∙ order_at-memory little little-ByteLaws order [] (omega arith, omega arith, omega arith))

-- its robot, and the server with the job
abbrev pub made : RobotInf
made = record {
  customer_id = pos 6;
  order_number = pos 1;
  request_type = pos 1;
  engineer_id = pos 100;
  admin_id = minus_one;
}

abbrev pub with_job : Server
with_job = record (server []) { admin_thread_list = made ∷ []; barrier_list = 1 ∷ [] }

places :
    engineer_turn little 1 asked (ordering order) (server []) world
    ≡ ok (some waits, with_job, world)
unfolding engineer_turn place_order enqueue assemble_robot
places = refl

with_job-IsCoherent : IsCoherent 0 with_job
with_job-IsCoherent = record {
  replayed = record { applied = sym (records-zero []); bounded = omega arith; small = omega arith };
  indexed = refl;
  committed = refl;
}

pub served_job :
    Ends (Served (pos 102) made 1 [] [] with_job) (admin_round little (pos 102) with_job world)
served_job =
    admin_round-Served little (pos 102) made 1 [] [] (λ w. refl) 0 with_job world
      with_job-IsCoherent (inl refl) refl refl (omega arith)

abbrev pub at_work : Threads World
at_work = record {
  server = served_job.0;
  world = served_job.1;
  engineers = set 0 waits (set 0 asked (set 0 hired empty.engineers));
  promises = 2;
}

pub runs : Reach little (pos 102) empty at_work
runs =
    later
      (later
        (later (later (later here (accept 0 (pos 9) refl)) (outside order_comes)) (turn 0 hears))
        (turn 0 places))
      (serve served_job.2)

pub promise_set : robot_behind 1 served_job.0.fulfilled ≡ some (served_robot (pos 102) made)
unfolding robot_behind
promise_set = ap (robot_behind 1) served_job.3.promised ∙ refl

Reach-ships_own_example :
    engineer_turn little 2 waits (waiting order 1) served_job.0 served_job.1
    ≡ ok (
      some (record waits { phase = listening }),
      served_job.0,
      (ship_robot little
          (pos 9)
          (served_robot (pos 102) (assemble_robot order (pos 100)))
          served_job.1).1,
    )
Reach-ships_own_example =
    Reach-ships_own little (pos 102) (server []) world at_work 0 1 order
      (served_robot (pos 102) made) refl refl refl runs refl promise_set
