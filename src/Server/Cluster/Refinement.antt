-- ===== src/Server/Cluster/Refinement.antt =====
-- The primary's and the replica's code keep the promise of Spec.
use load_balancer_with_wal.Base.{◌≤◌, ◌≡◌, ◌∙◌, ap, sym, subst, [], ◌++◌, take, take-append, false}
use load_balancer_with_wal.Platform.{Platform}
use load_balancer_with_wal.Platform.Laws.{ByteLaws}
use load_balancer_with_wal.Server.State.Spec.{replay, records, records-append, records-whole}
use load_balancer_with_wal.Server.Cluster.{Cluster, Reach}
use load_balancer_with_wal.Server.Cluster.Spec.{Promise, promised, Keeps}
use load_balancer_with_wal.Server.Cluster.Invariant.{Shows, Reach-Shows}

pub Shows-Keeps : (a : Promise) (c : Cluster) → Shows a c → Keeps a c
Shows-Keeps a c v =
    let l = v.state.linked in
    let split : a.orders ≡ c.replica.smr_log ++ v.missed = sym v.taken ∙ l.split in
    record {
      primary_log = v.taken;
      primary_record =
          v.state.whole.applied ∙ records-whole c.primary.smr_log ∙ ap (replay []) v.taken;
      replica_log =
          sym (ap (take a.held) split ∙ take-append c.replica.smr_log v.missed a.held v.got);
      replica_record =
          l.coherent.applied
          ∙ sym (
              ap (records a.shown) split
              ∙ records-append a.shown c.replica.smr_log v.missed l.coherent.bounded);
      replica_committed = l.coherent.committed;
      ordered = subst (λ n. a.shown ≤ n) v.got l.coherent.bounded;
    }

-- The refinement. At first the primary has committed its whole log, of the orders of a promise; the replica's
-- log is the front of it that the promise says it holds, committed as far as the promise says it shows, which
-- is whole or all but the last entry, and it may miss orders only where it has committed all it has. On disks
-- that report no error, any run of jobs of the primary follows, of int fields and with room in the log, each
-- received by the replica, which follows it to the end (with the answer to a recovery request, where it makes
-- one), or missed by a replica that has at that time committed its last entry. Then the servers keep the
-- promise of this run: the primary's log is the first orders and behind them, in the order of the jobs, the
-- customer and the order number of each job's robot but those of customer -1, and its customer record is
-- their replay; the replica's log is the front of the same orders up to that of the last job that it received,
-- its customer record is the replay of the orders before that job, and its committed index names the last of
-- these. A replica that has received no job is as it was at first.
pub Reach-Keeps :
    {W V : Type 0} (p : Platform W) (q : Platform V) (b : ByteLaws q)
    (p_quiet : (w : W) → p.ferror w ≡ false) (q_quiet : (v : V) → q.ferror v ≡ false) (a : Promise)
    (c d : Cluster)
    → Shows a c
    → (run : Reach p q c d) → Keeps (promised a run) d
Reach-Keeps p q b p_quiet q_quiet a c d v run =
    Shows-Keeps (promised a run) d (Reach-Shows p q b p_quiet q_quiet a c d v run)
