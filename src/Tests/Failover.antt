-- ===== src/Tests/Failover.antt =====
-- A replica that takes over, at concrete inputs.
use load_balancer_with_wal.Base.{◌≡◌, refl, inl, arith, [], ◌∷◌, ok}
use load_balancer_with_wal.Base.Int.{pos}
use load_balancer_with_wal.CommitLog.{CommitLog}
use load_balancer_with_wal.Server.State.{Server, ◌>>=◌}
use load_balancer_with_wal.Server.State.Spec.{Ends}
use load_balancer_with_wal.Server.Primary.{process_job}
use load_balancer_with_wal.Server.Primary.Orders.{Served, process_job-Served}
use load_balancer_with_wal.Server.Replica.{follow_primary, ifa_thread_read}
use load_balancer_with_wal.Server.Replica.Coherence.{append_replicated-append, apply_entry}
use load_balancer_with_wal.Server.Cluster.{Cluster, Step, delivered}
use load_balancer_with_wal.Tests.World.{World, little}
use load_balancer_with_wal.Tests.Log.{op, world}
use load_balancer_with_wal.Tests.Replica.{server, sends, fresh-IsCoherent}
use load_balancer_with_wal.Tests.Primary.{robot, other_robot}
use load_balancer_with_wal.Tests.Cluster.{req, req_arrives, sent, order_is_small}

-- a replica whose clients have come over to it before it has heard of the last order
abbrev heir : Server
heir = record (server []) { admin_thread_list = other_robot ∷ []; barrier_list = 40 ∷ [] }

abbrev heir_with : CommitLog → Server
heir_with c = record heir {
  clog = c;
  smr_log = op 6 1 ∷ [];
  smr_repl_commit = record heir.smr_repl_commit { last_index = pos 0; primary_id = pos 2 };
}

followed :
    (c : CommitLog) × (w' : World) × (ifa_thread_read little (pos 9) heir (sends req [])
      ≡ ok (tt, heir_with c, w'))
unfolding ifa_thread_read follow_primary
followed =
    let (c, w', e) = append_replicated-append little (λ w. refl) req heir world refl in
    (
      c,
      w',
      rw (req_arrives, ifa_thread_read, ◌>>=◌)
          (apply_entry little (λ w. refl) (pos 9) req heir world refl _ w' refl e),
    )

served :
    Ends
      (Served (pos 0) robot 40 [] [] (server []))
      (process_job little (pos 0) robot 40 (server []) world)
served =
    process_job-Served little (λ w. refl) (pos 0) robot 40 (server []) world fresh-IsCoherent
      (omega arith)

abbrev start : Cluster
start = record { primary = server []; replica = heir }

abbrev lost : Cluster
lost = record { primary = served.0; replica = heir_with followed.0 }

last_order : Step little little start lost
last_order =
    delivered (pos 0) (pos 9) robot 40 req (op 6 1 ∷ []) world served.1 (sends req []) world
      followed.1 order_is_small (omega arith) sent served.2 req_arrives (inl refl) followed.2
