-- ===== src/Tests/Cluster.antt =====
-- A primary and a replica at concrete inputs.
use load_balancer_with_wal.Base.{◌≡◌, refl, arith, inl, some, [], ◌∷◌, fault, out_of_range}
use load_balancer_with_wal.Base.Int.{pos, minus_one}
use load_balancer_with_wal.RobotFactory.{ReplReq}
use load_balancer_with_wal.RobotFactory.Wire.RoundTrip.{IsMapOp}
use load_balancer_with_wal.ServerStub.{get_replication_request}
use load_balancer_with_wal.Server.State.Spec.{Ends}
use load_balancer_with_wal.Server.Primary.{entry_of, request_of, process_job}
use load_balancer_with_wal.Server.Primary.Orders.{
  Served, process_job-Served, as_primary, append_entry-append,
}
use load_balancer_with_wal.Server.Replica.{ifa_thread_read}
use load_balancer_with_wal.Server.Replica.Coherence.{InStep, ifa_thread_read-InStep}
use load_balancer_with_wal.Server.Replica.MissedOne.{ifa_thread_read-missed_one}
use load_balancer_with_wal.Server.Cluster.{
  Cluster, Sends, sends_order, Step, delivered, here, later,
}
use load_balancer_with_wal.Server.Cluster.Spec.{Promise, Keeps}
use load_balancer_with_wal.Server.Cluster.Invariant.{Shows}
use load_balancer_with_wal.Server.Cluster.Refinement.{Reach-Keeps}
use load_balancer_with_wal.Tests.World.{little, little-ByteLaws}
use load_balancer_with_wal.Tests.Log.{op, small_op, world}
use load_balancer_with_wal.Tests.Replica.{
  server, one_entry, one_entry-IsCoherent, fresh-IsCoherent, request, sends, arrives,
}
use load_balancer_with_wal.Tests.Primary.{robot}

abbrev fresh : Cluster
fresh = record { primary = server []; replica = server [] }

abbrev pub nothing_taken : Promise
nothing_taken = record { orders = []; held = 0; shown = 0 }

fresh-Shows : Shows nothing_taken fresh
fresh-Shows = record {
  missed = [];
  state = record {
    whole = fresh-IsCoherent;
    ints = tt;
    linked = record { coherent = fresh-IsCoherent; split = refl; near = inl refl };
  };
  taken = refl;
  got = refl;
}

-- the first order of a client, on the primary
served :
    Ends
      (Served (pos 0) robot 40 [] [] (server []))
      (process_job little (pos 0) robot 40 (server []) world)
served =
    process_job-Served little (λ w. refl) (pos 0) robot 40 (server []) world fresh-IsCoherent
      (omega arith)

abbrev pub req : ReplReq
req = record {
  factory_id = pos 2;
  committed_index = minus_one;
  last_index = pos 0;
  mapop_record = op 6 1;
}

pub sent : Sends little robot (server []) world req (op 6 1 ∷ [])
unfolding request_of entry_of
sent =
    let (c, w1, e) =
      append_entry-append little (λ w. refl) (entry_of robot) (as_primary (server [])) world refl
        (omega arith) in
    sends_order _ w1 refl e refl refl

pub order_is_small : IsMapOp (entry_of robot)
unfolding entry_of
order_is_small = small_op 6 1 (omega arith) (omega arith)

-- and on the replica
pub req_arrives : get_replication_request little (pos 9) (sends req []) ≡ (some req, world)
req_arrives =
    arrives req [] (omega arith, omega arith, omega arith, small_op 6 1 (omega arith) (omega arith))

followed :
    Ends
      (InStep little (λ w. refl) 0 req (server []))
      (ifa_thread_read little (pos 9) (server []) (sends req []))
followed =
    ifa_thread_read-InStep little (λ w. refl) 0 0 (pos 9) req (server []) (sends req []) world
      fresh-IsCoherent req_arrives (inl refl) (omega arith) (omega arith) refl refl

abbrev one_order_later : Cluster
one_order_later = record { primary = served.0; replica = followed.0 }

one_order : Step little little fresh one_order_later
one_order =
    delivered (pos 0) (pos 9) robot 40 req (op 6 1 ∷ []) world served.1 (sends req []) world
      followed.1 order_is_small (omega arith) sent served.2 req_arrives (inl refl) followed.2

-- the order is promised, held by the replica, and not yet shown by it
abbrev one_promised : Promise
one_promised = record { orders = op 6 1 ∷ []; held = 1; shown = 0 }

Reach-Keeps_example : Keeps one_promised one_order_later
unfolding one_order
Reach-Keeps_example =
    Reach-Keeps little little little-ByteLaws (λ w. refl) (λ w. refl) nothing_taken fresh
      one_order_later fresh-Shows (later here one_order)

-- a replica with one entry hears of a committed second one, in a request that carries none
abbrev notice : ReplReq
notice = request (pos 1) (pos 1) (record { opcode = pos 1; arg1 = minus_one; arg2 = pos 1 })

ifa_thread_read-missed_one_example :
    ifa_thread_read little (pos 9) (server one_entry) (sends notice []) ≡ fault out_of_range
ifa_thread_read-missed_one_example =
    ifa_thread_read-missed_one little (λ w. refl) 0 (pos 9) notice (server one_entry)
      (sends notice []) world one_entry-IsCoherent
      (arrives notice []
        (omega arith, omega arith, omega arith, (omega arith, omega arith, omega arith)))
      refl refl refl
