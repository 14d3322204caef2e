-- ===== src/Server/Replica/MissedOne.antt =====
-- A replica that has missed exactly one entry receives a request that carries none.
use load_balancer_with_wal.Base.{
  ℕ, ◌≤◌, ◌≡◌, ◌∙◌, ap, false, some, length, get_elem?-none, fault, out_of_range, arith,
}
use load_balancer_with_wal.Base.Int.{ℤ, pos, minus_one, eq_ℤ}
use load_balancer_with_wal.Platform.{Platform}
use load_balancer_with_wal.RobotFactory.{ReplReq}
use load_balancer_with_wal.ServerStub.{get_replication_request}
use load_balancer_with_wal.Server.State.{Server}
use load_balancer_with_wal.Server.State.Spec.{IsCoherent}
use load_balancer_with_wal.Server.Replica.{follow_primary, ifa_thread_read}
use load_balancer_with_wal.Server.Replica.Coherence.{gap_one, apply_notice}
use load_balancer_with_wal.Server.Replica.CatchUp.{thread_applies}

module _ {W : Type 0} (p : Platform W) (quiet : (w : W) → p.ferror w ≡ false) where
  follow_primary-out_of_range :
      (n : ℕ) (req : ReplReq) (s : Server) (w : W)
      → length s.smr_log ≤ n
      → req.committed_index ≡ pos n
      → follow_primary p req s w ≡ fault out_of_range
  unfolding follow_primary
  follow_primary-out_of_range n req s w above comm =
      rw (comm, follow_primary) (rw (get_elem?-none s.smr_log n above))

  -- The defect: a replica in step has n entries, and a primary with one more, which it has committed,
  -- sends it the request with no entry that shares the committed index. One missed entry does not make
  -- the replica ask for recovery: it reads past the end of its log, and the exception ends the process.
  pub ifa_thread_read-missed_one :
      (k : ℕ) (ifa : ℤ) (req : ReplReq) (s : Server) (w w1 : W)
      → IsCoherent k s
      → get_replication_request p ifa w ≡ (some req, w1)
      → req.mapop_record.arg1 ≡ minus_one
      → req.last_index ≡ pos (length s.smr_log)
      → req.committed_index ≡ pos (length s.smr_log)
      → ifa_thread_read p ifa s w ≡ fault out_of_range
  ifa_thread_read-missed_one k ifa req s w w1 v got notice last comm =
      thread_applies p ifa req s w w1 got
      ∙ apply_notice p quiet ifa req s w1
          (rw (last, v.indexed) (gap_one (length s.smr_log) v.small))
          (ap (λ i. eq_ℤ i minus_one) notice)
      ∙ follow_primary-out_of_range (length s.smr_log) req s w1 (omega arith) comm
