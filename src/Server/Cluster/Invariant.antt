-- ===== src/Server/Cluster/Invariant.antt =====
-- What holds of a primary and a replica after any jobs.
use load_balancer_with_wal.Base.{
  ℕ, ◌+◌, ◌≡◌, ◌∙◌, refl, ap, sym, subst, inl, inr, Bool-cases, true, false, List, ◌++◌,
  append_assoc, length, length-append, All, ◌<◌, ◌^◌, some, ok,
}
use load_balancer_with_wal.Platform.{Platform}
use load_balancer_with_wal.Platform.Laws.{ByteLaws}
use load_balancer_with_wal.RobotFactory.{MapOp, RobotInf, ReplReq}
use load_balancer_with_wal.RobotFactory.Wire.RoundTrip.{IsMapOp}
use load_balancer_with_wal.Base.Int.{ℤ, minus_one, eq_ℤ}
use load_balancer_with_wal.ServerStub.{get_replication_request}
use load_balancer_with_wal.Server.Primary.{entry_of, process_job}
use load_balancer_with_wal.Server.Replica.{ifa_thread_read}
use load_balancer_with_wal.Server.State.{Server}
use load_balancer_with_wal.Server.State.Spec.{IsCoherent}
use load_balancer_with_wal.Server.Cluster.{
  Cluster, Step, delivered, cut_off, Reach, here, later, Sends, Answered,
}
use load_balancer_with_wal.Server.Cluster.Spec.{Promise, orders_of, deed, job, heard, promised}
use load_balancer_with_wal.Server.Cluster.Following.{
  before-inj, All-added, none_missed, Caught-Linked, primary_after, replica_after,
}
use load_balancer_with_wal.Server.Cluster.Steps.{added, log_with-added, Sends-Sent, Linked}

-- The primary has committed its whole log, and the replica is linked to it.
pub record InvAt (k : ℕ) (missed : List MapOp) (c : Cluster) : Type 0 where
  pub whole : IsCoherent (length c.primary.smr_log) c.primary
  pub ints : All IsMapOp c.primary.smr_log
  pub linked : Linked k missed c.primary.smr_log c.replica

-- The promise that they keep.
pub record Shows (a : Promise) (c : Cluster) : Type 0 where
  pub missed : List MapOp
  pub state : InvAt a.shown missed c
  pub taken : c.primary.smr_log ≡ a.orders
  pub got : length c.replica.smr_log ≡ a.held

-- The entry that the code makes of a job is its order.
pub added-orders_of : (robot : RobotInf) → added robot ≡ orders_of robot
unfolding entry_of
added-orders_of robot = elim (Bool-cases (eq_ℤ robot.customer_id minus_one)) [
  | inl notice ↦ rw notice refl
  | inr order ↦ rw order refl
]

module _ {W V : Type 0} (p : Platform W) (q : Platform V) (b : ByteLaws q)
    (p_quiet : (w : W) → p.ferror w ≡ false) (q_quiet : (v : V) → q.ferror v ≡ false) where
  -- A cut-off replica misses the job's entry.
  cut_off-Linked :
      (k : ℕ) (missed log added_ops : List MapOp) (r : Server)
      → Linked k missed log r
      → r.committed_index ≡ r.last_index
      → Linked k (missed ++ added_ops) (log ++ added_ops) r
  cut_off-Linked k missed log added_ops r l level = record {
    coherent = l.coherent;
    split = ap (λ xs. xs ++ added_ops) l.split ∙ append_assoc r.smr_log missed added_ops;
    near =
        inl
          (before-inj k (length r.smr_log) (sym l.coherent.committed ∙ level ∙ l.coherent.indexed));
  }

  -- What a job that the replica follows leaves on the two.
  pub delivered_after :
      (k : ℕ) (missed : List MapOp) (admin_id ifa : ℤ) (robot : RobotInf) (barrier : ℕ)
      (c : Cluster) (s' r' : Server) (req : ReplReq) (log : List MapOp) (w w' : W) (u u1 u' : V)
      → InvAt k missed c
      → IsMapOp (entry_of robot)
      → length c.primary.smr_log + 1 < 2 ^ 31
      → Sends p robot c.primary w req log
      → process_job p admin_id robot barrier c.primary w ≡ ok (tt, s', w')
      → get_replication_request q ifa u ≡ (some req, u1)
      → Answered q ifa c.replica req log u1
      → ifa_thread_read q ifa c.replica u ≡ ok (tt, r', u')
      → IsCoherent (length s'.smr_log) s'
        × (s'.smr_log ≡ c.primary.smr_log ++ added robot)
        × All IsMapOp log
        × (log ≡ c.primary.smr_log ++ added robot)
        × IsCoherent (length c.primary.smr_log) r'
        × (r'.smr_log ≡ log)
  delivered_after k missed admin_id ifa robot barrier c s' r' req log w w' u u1 u' v int room sends
        done got answer followed =
      let (whole, grown) =
        primary_after p q b p_quiet q_quiet admin_id robot barrier c.primary s' w w' v.whole room
          done in
      let sent = Sends-Sent p p_quiet robot c.primary w req log v.whole sends in
      let same : log ≡ c.primary.smr_log ++ added robot =
        sent.all ∙ log_with-added robot c.primary.smr_log in
      let ints : All IsMapOp log =
        subst (All IsMapOp) (sym same) (All-added robot c.primary.smr_log int v.ints) in
      let (coherent, held) =
        replica_after p q b p_quiet q_quiet k missed ifa robot c.primary c.replica r' req log u u1
          u' sent got room v.linked ints answer followed in
      (whole, grown, ints, same, coherent, held)

  pub Step-Shows :
      (a : Promise) (c d : Cluster)
      → Shows a c
      → (step : Step p q c d) → Shows (deed (heard step) (orders_of (job step)) a) d
  Step-Shows a c d v (cut_off admin_id robot barrier w w' {s'} int room level done) =
      let (whole, grown) =
        primary_after p q b p_quiet q_quiet admin_id robot barrier c.primary s' w w' v.state.whole
          room done in
      subst (λ os. Shows (deed false os a) d) (added-orders_of robot)
        (record {
          missed = v.missed ++ added robot;
          state = record {
            whole = whole;
            ints =
                subst (All IsMapOp) (sym grown)
                  (All-added robot c.primary.smr_log int v.state.ints);
            linked =
                subst (λ log. Linked a.shown (v.missed ++ added robot) log c.replica) (sym grown)
                  (cut_off-Linked a.shown v.missed c.primary.smr_log (added robot) c.replica
                    v.state.linked level);
          };
          taken = grown ∙ ap (λ xs. xs ++ added robot) v.taken;
          got = v.got;
        })
  Step-Shows a c d v
        (delivered admin_id ifa robot barrier req log w w' u u1 u' {s'} {r'} int room sends done got
          answer followed) =
      let n = length c.primary.smr_log in
      let (whole, grown, ints, same, coherent, held) =
        delivered_after a.shown v.missed admin_id ifa robot barrier c s' r' req log w w' u u1 u'
          v.state int room sends done got answer followed in
      let total : length log ≡ n + length (added robot) =
        ap length same ∙ length-append c.primary.smr_log (added robot) in
      subst (λ os. Shows (deed true os a) d) (added-orders_of robot)
        (record {
          missed = none_missed;
          state =
              subst (λ k. InvAt k none_missed d) (ap length v.taken)
                (record {
                  whole = whole;
                  ints = subst (All IsMapOp) (same ∙ sym grown) ints;
                  linked =
                      subst (λ xs. Linked n none_missed xs r') (same ∙ sym grown)
                        (Caught-Linked robot n log r' total (coherent, held));
                });
          taken = grown ∙ ap (λ xs. xs ++ added robot) v.taken;
          got = ap length held ∙ total ∙ ap (λ xs. length xs + length (added robot)) v.taken;
        })

  pub Reach-Shows :
      (a : Promise) (c d : Cluster) → Shows a c → (run : Reach p q c d) → Shows (promised a run) d
  Reach-Shows a c d v here = v
  Reach-Shows a c d v (later {d = m} run step) =
      Step-Shows (promised a run) m d (Reach-Shows a c m v run) step
