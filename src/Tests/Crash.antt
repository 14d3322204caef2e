-- ===== src/Tests/Crash.antt =====
-- A primary that crashes, and the server that is started again, at concrete inputs.
use load_balancer_with_wal.Base.{ℕ, List, [], ◌∷◌}
use load_balancer_with_wal.RobotFactory.{RobotInf}
use load_balancer_with_wal.Server.State.{Server}
use load_balancer_with_wal.Server.Primary.Queue.{robots_of, barriers_of}
use load_balancer_with_wal.Tests.World.{World}
use load_balancer_with_wal.Tests.Log.{empty_log}
use load_balancer_with_wal.Tests.Replica.{server}
use load_balancer_with_wal.Tests.Primary.{robot, other_robot}

-- three orders, on a server that writes its log two entries at a time
abbrev orders : List (ℕ × RobotInf)
orders = (40, robot) ∷ (41, other_robot) ∷ (42, robot) ∷ []

abbrev busy : Server
busy = record (server []) {
  admin_thread_list = robots_of orders;
  barrier_list = barriers_of orders;
  clog = empty_log 2;
}
