-- ===== src/Tests/AtServer.antt =====
-- A customer and its engineer at concrete inputs.
use load_balancer_with_wal.Base.{◌≡◌, refl, ap, sym, append-nil, arith, some, [], ◌∷◌, length, ok}
use load_balancer_with_wal.Base.Int.{pos}
use load_balancer_with_wal.RobotFactory.{RobotInf}
use load_balancer_with_wal.RobotFactory.Wire.{memory, order_words, robot_words}
use load_balancer_with_wal.ServerStub.{ship_robot}
use load_balancer_with_wal.Server.Threads.{listening, waiting, engineer_turn}
use load_balancer_with_wal.Server.Threads.Primary.{served_robot}
use load_balancer_with_wal.Client.{client_order}
use load_balancer_with_wal.Client.AtServer.{SameHost, robot_for, client_order-robot_for}
use load_balancer_with_wal.Tests.World.{World, little, little-ByteLaws}
use load_balancer_with_wal.Tests.Log.{world}
use load_balancer_with_wal.Tests.Replica.{server}
use load_balancer_with_wal.Tests.Threads.{
  order, hired, asked, waits, order_comes, made, at_work, runs, promise_set,
}

little-SameHost : SameHost little little
little-SameHost = record { same_bytes = λ w. refl }

abbrev built : RobotInf
built = served_robot (pos 102) made

-- the customer, to whom the robot is on its way, and after its order and the answer
abbrev customer : World
customer = record world { inbox = memory little (robot_words built) ∷ [] }

abbrev ordered : World
ordered = record customer { outbox = memory little (order_words order) ∷ [] }

abbrev answered : World
answered = record ordered { inbox = [] }

client_order-robot_for_example :
    (engineer_turn little 0 hired listening (server []) order_comes
      ≡ ok (some asked, server [], world))
    × (engineer_turn little 2 waits (waiting order 1) at_work.server at_work.world
        ≡ ok (
          some (record waits { phase = listening }),
          at_work.server,
          (ship_robot little (pos 9) (robot_for order (pos 100) (pos 102)) at_work.world).1,
        ))
    × (client_order little (pos 3) order customer
        ≡ (some (robot_for order (pos 100) (pos 102)), answered))
client_order-robot_for_example =
    client_order-robot_for little little little-SameHost little-ByteLaws little-ByteLaws (pos 102)
      order built (server []) world at_work 0 1 0 0 (length (memory little (order_words order)))
      hired (server []) order_comes order_comes world (pos 3) customer ordered answered [] []
      (omega arith, omega arith, omega arith) (omega arith) (omega arith) refl refl refl
      (ap (λ bs. (pos 12, bs, world)) (sym (append-nil _))) refl refl refl runs refl promise_set
      refl (ap (λ bs. (pos 20, bs, answered)) (sym (append-nil _)))
