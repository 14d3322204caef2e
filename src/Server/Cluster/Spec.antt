-- ===== src/Server/Cluster/Spec.antt =====
-- What a primary and its replica promise together, with no word of indexes, disks or sockets.
use load_balancer_with_wal.Base.{
  ℕ, ◌+◌, ◌≤◌, ◌≡◌, Bool, true, false, List, [], ◌∷◌, ◌++◌, length, take, if◌then◌else◌,
}
use load_balancer_with_wal.Base.Int.{pos, before, minus_one, eq_ℤ}
use load_balancer_with_wal.Platform.{Platform}
use load_balancer_with_wal.RobotFactory.{RobotInf, MapOp}
use load_balancer_with_wal.Server.State.Spec.{replay, records}
use load_balancer_with_wal.Server.Cluster.{Cluster, Step, delivered, cut_off, Reach, here, later}

-- The orders taken so far, how many of them the replica has, and how many of these it shows its clients.
pub record Promise : Type 0 where
  pub orders : List MapOp
  pub held : ℕ
  pub shown : ℕ

-- What a robot orders: its order number, for its customer; nothing, where the customer is -1.
abbrev pub orders_of : RobotInf → List MapOp
orders_of robot =
    if eq_ℤ robot.customer_id minus_one
    then []
    else record { opcode = pos 1; arg1 = robot.customer_id; arg2 = robot.order_number } ∷ []

-- The primary takes the orders of a job, and shows them at once. A replica that hears of the job has all
-- orders from then on, and shows those that were taken before it; a replica that does not hear of it stays as
-- it is.
abbrev pub deed : Bool → List MapOp → Promise → Promise
deed true taken a = record {
  orders = a.orders ++ taken;
  held = length a.orders + length taken;
  shown = length a.orders;
}
deed false taken a = record { orders = a.orders ++ taken; held = a.held; shown = a.shown }

module _ {W V : Type 0} {p : Platform W} {q : Platform V} where
  -- the robot of a step's job, and whether the replica received its request
  abbrev pub job : {c d : Cluster} → Step p q c d → RobotInf
  job (delivered _ _ robot _ _ _ _ _ _ _ _ _ _ _ _ _ _ _) = robot
  job (cut_off _ robot _ _ _ _ _ _ _) = robot

  abbrev pub heard : {c d : Cluster} → Step p q c d → Bool
  heard (delivered _ _ _ _ _ _ _ _ _ _ _ _ _ _ _ _ _ _) = true
  heard (cut_off _ _ _ _ _ _ _ _ _) = false

  -- The promise after a run: a deed for each of its jobs, in order.
  abbrev pub promised : {c d : Cluster} → Promise → Reach p q c d → Promise
  promised a here = a
  promised a (later run step) = deed (heard step) (orders_of (job step)) (promised a run)

-- The servers show what is promised.
pub record Keeps (a : Promise) (c : Cluster) : Type 0 where
  pub primary_log : c.primary.smr_log ≡ a.orders
  pub primary_record : c.primary.customer_record ≡ replay [] a.orders
  pub replica_log : c.replica.smr_log ≡ take a.held a.orders
  pub replica_record : c.replica.customer_record ≡ records a.shown a.orders
  pub replica_committed : c.replica.committed_index ≡ before a.shown
  pub ordered : a.shown ≤ a.held
