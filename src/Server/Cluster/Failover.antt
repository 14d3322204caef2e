-- ===== src/Server/Cluster/Failover.antt =====
-- A replica that takes over from a primary that is lost: recheckcommit and its first job.
use load_balancer_with_wal.Base.{
  ℕ, suc, ◌≡◌, refl, ◌⊎◌, false, List, [], ◌∷◌, ◌++◌, length, length-append, if◌then◌else◌, arith,
}
use load_balancer_with_wal.Base.Int.{ℤ, minus_one, eq_ℤ}
use load_balancer_with_wal.Platform.{Platform}
use load_balancer_with_wal.Platform.Laws.{ByteLaws}
use load_balancer_with_wal.RobotFactory.{RobotInf, MapOp}
use load_balancer_with_wal.Server.State.{Server}
use load_balancer_with_wal.Server.State.Map.{put}
use load_balancer_with_wal.Server.State.Spec.{IsCoherent}
use load_balancer_with_wal.Server.Cluster.{Cluster}
use load_balancer_with_wal.Server.Cluster.Spec.{orders_of}

-- The record of the last orders after a job.
abbrev pub record_with : RobotInf → List (ℤ × ℤ) → List (ℤ × ℤ)
record_with robot m =
    if eq_ℤ robot.customer_id minus_one then m else put robot.customer_id robot.order_number m

-- A server that has gone on with a job from where the lost one stood: it has the log and the record of the
-- lost one with the job's order added, all of it committed, and is its own primary.
pub record GoesOn (robot : RobotInf) (lost s s' : Server) : Type 0 where
  pub coherent : IsCoherent (length s'.smr_log) s'
  pub logged : s'.smr_log ≡ lost.smr_log ++ orders_of robot
  pub recorded : s'.customer_record ≡ record_with robot lost.customer_record
  pub primary : s'.primary_id ≡ s.my_factory_id

no_rest : (xs ys : List MapOp) → length (xs ++ ys) ≡ length xs → ys ≡ []
no_rest xs [] e = refl
no_rest xs (y ∷ ys) e = absurd (omega (arith, length-append xs (y ∷ ys)))

module _ {W V : Type 0} (p : Platform W) (q : Platform V) (b : ByteLaws q)
    (p_quiet : (w : W) → p.ferror w ≡ false) (q_quiet : (v : V) → q.ferror v ≡ false) where
  -- What holds of the two when the replica has followed the last job.
  record Level (c : Cluster) : Type 0 where
    whole : IsCoherent (length c.primary.smr_log) c.primary
    same_log : c.replica.smr_log ≡ c.primary.smr_log
    before_last : ℕ
    coherent : IsCoherent before_last c.replica
    near : (before_last ≡ length c.replica.smr_log) ⊎ (suc before_last ≡ length c.replica.smr_log)
