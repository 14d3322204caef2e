-- ===== src/Server/Cluster.antt =====
-- A primary and one of its replicas: the admin thread of the one, ifa_thread_read of the other, and
-- the requests between them.
pub mod Spec
pub mod Steps
pub mod Following
pub mod Invariant
pub mod Refinement
pub mod Failover
use load_balancer_with_wal.Base.{
  ℕ, suc, ◌+◌, ◌<◌, ◌^◌, ◌≡◌, ◌⊎◌, true, false, some, List, drop, length, ok,
}
use load_balancer_with_wal.Base.Int.{ℤ, pos, next, to_word, wrap, ◌-ℤ◌, ltb_ℤ}
use load_balancer_with_wal.Platform.{Platform}
use load_balancer_with_wal.RobotFactory.{RobotInf, MapOp, ReplReq}
use load_balancer_with_wal.RobotFactory.Wire.RoundTrip.{IsMapOp}
use load_balancer_with_wal.ServerStub.{get_replication_request}
use load_balancer_with_wal.Server.State.{Server}
use load_balancer_with_wal.Server.Primary.{
  append_entry, entry_of, request_of, is_order, process_job,
}
use load_balancer_with_wal.Server.Primary.Orders.{as_primary}
use load_balancer_with_wal.Server.Replica.{ifa_thread_read}
use load_balancer_with_wal.Server.Replica.CatchUp.{Fetches}

pub record Cluster : Type 0 where
  pub primary : Server
  pub replica : Server

module _ {W : Type 0} (p : Platform W) where
  -- The request that process_job hands to `replicate`, and the log that it hands with it.
  pub data Sends (robot : RobotInf) (s : Server) (w : W) (req : ReplReq) (log : List MapOp)
      : Type 0 where
    sends_order :
        (s1 : Server) (w1 : W)
        → is_order robot ≡ true
        → append_entry p (entry_of robot) (as_primary s) w ≡ ok (tt, s1, w1)
        → req ≡ request_of s1 (entry_of robot)
        → log ≡ s1.smr_log
        → Sends robot s w req log
    sends_notice :
        is_order robot ≡ false
        → req ≡ request_of (as_primary s) (entry_of robot)
        → log ≡ s.smr_log
        → Sends robot s w req log

module _ {V : Type 0} (q : Platform V) where
  -- A replica that asks for recovery is answered as SendRecoveryLog answers: with the entries of the
  -- log behind the committed index that it has sent.
  abbrev pub Answered : ℤ → Server → ReplReq → List MapOp → V → Type 0
  Answered ifa r req log v =
      (ltb_ℤ (pos 1) (wrap (req.last_index -ℤ r.last_index)) ≡ false)
      ⊎ ((v' : V) × Fetches q ifa r.committed_index (drop (to_word (next r.committed_index)) log) v
            v')

module _ {W V : Type 0} (p : Platform W) (q : Platform V) where
  -- A job of the primary, with the request received and followed by the replica, or with the replica
  -- cut off, when it has committed its last entry.
  pub data Step (c : Cluster) : Cluster → Type 0 where
    delivered :
        (admin_id ifa : ℤ) (robot : RobotInf) (barrier : ℕ) (req : ReplReq) (log : List MapOp)
        (w w' : W) (v v1 v' : V) {s' r' : Server}
        → IsMapOp (entry_of robot)
        → length c.primary.smr_log + 1 < 2 ^ 31
        → Sends p robot c.primary w req log
        → process_job p admin_id robot barrier c.primary w ≡ ok (tt, s', w')
        → get_replication_request q ifa v ≡ (some req, v1)
        → Answered q ifa c.replica req log v1
        → ifa_thread_read q ifa c.replica v ≡ ok (tt, r', v')
        → Step c (record { primary = s'; replica = r' })
    cut_off :
        (admin_id : ℤ) (robot : RobotInf) (barrier : ℕ) (w w' : W) {s' : Server}
        → IsMapOp (entry_of robot)
        → length c.primary.smr_log + 1 < 2 ^ 31
        → c.replica.committed_index ≡ c.replica.last_index
        → process_job p admin_id robot barrier c.primary w ≡ ok (tt, s', w')
        → Step c (record { primary = s'; replica = c.replica })

  pub data Reach (c : Cluster) : Cluster → Type 0 where
    here : Reach c c
    later : {d e : Cluster} → Reach c d → Step d e → Reach c e
