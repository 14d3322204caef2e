-- ===== src/Tests/Primary.antt =====
-- A primary at concrete inputs.
use load_balancer_with_wal.Base.{ℕ, List, ◌≡◌, refl, sym, inr, arith, [], ◌∷◌}
use load_balancer_with_wal.Base.Int.{pos, minus_one}
use load_balancer_with_wal.RobotFactory.{RobotInf}
use load_balancer_with_wal.Server.State.{Server}
use load_balancer_with_wal.Server.State.Spec.{IsCoherent, Ends, records-zero}
use load_balancer_with_wal.Server.Primary.{admin_round}
use load_balancer_with_wal.Server.Primary.Orders.{Served}
use load_balancer_with_wal.Server.Primary.Rounds.{admin_round-Served}
use load_balancer_with_wal.Server.Primary.ReadBack.{record_of-admin_round}
use load_balancer_with_wal.Server.Engineer.{record_of}
use load_balancer_with_wal.Tests.World.{little}
use load_balancer_with_wal.Tests.Log.{world}
use load_balancer_with_wal.Tests.Replica.{server, one_entry}

abbrev pub robot : RobotInf
robot = record {
  customer_id = pos 6;
  order_number = pos 1;
  request_type = pos 1;
  engineer_id = pos 3;
  admin_id = minus_one;
}

-- a replica that takes over with an entry to commit, an order in its list, and a replica without a
-- socket
abbrev takeover : Server
takeover = record (server one_entry) {
  admin_thread_list = robot ∷ [];
  barrier_list = 40 ∷ [];
  factories_record =
      record { factory_id = pos 1; factory_ip = []; factory_port = pos 80; sock = minus_one } ∷ [];
}

takeover-IsCoherent : IsCoherent 0 takeover
takeover-IsCoherent = record {
  replayed = record {
    applied = sym (records-zero one_entry);
    bounded = omega arith;
    small = omega arith;
  };
  indexed = refl;
  committed = refl;
}

admin_round-Served_example :
    Ends (Served (pos 0) robot 40 [] [] takeover) (admin_round little (pos 0) takeover world)
admin_round-Served_example =
    admin_round-Served little (pos 0) robot 40 [] [] (λ w. refl) 0 takeover world
      takeover-IsCoherent (inr (refl, refl)) refl refl (omega arith)

record_of-admin_round_example :
    Ends
      (λ s'. record_of s' (pos 6) ≡ record { customer_id = pos 6; last_order = pos 1 })
      (admin_round little (pos 0) takeover world)
record_of-admin_round_example =
    record_of-admin_round little (λ w. refl) (pos 0) robot 40 [] [] 0 takeover world
      takeover-IsCoherent (inr (refl, refl)) refl refl (omega arith) refl

abbrev pub other_robot : RobotInf
other_robot = record robot { customer_id = pos 8 }

abbrev jobs : List (ℕ × RobotInf)
jobs = (40, robot) ∷ (41, other_robot) ∷ []

abbrev busy : Server
busy = record (server []) {
  admin_thread_list = robot ∷ other_robot ∷ [];
  barrier_list = 40 ∷ 41 ∷ [];
}
