-- ===== src/Tests/Replica.antt =====
-- A replica at concrete inputs.
use load_balancer_with_wal.Base.{
  ℕ, append-nil, ◌≡◌, ◌∙◌, ap, refl, sym, arith, true, List, [], ◌∷◌, some, get_elem?, length,
}
use load_balancer_with_wal.Base.Int.{ℤ, pos, minus_one, before}
use load_balancer_with_wal.RobotFactory.{MapOp, ReplReq}
use load_balancer_with_wal.RobotFactory.Wire.{memory, map_op_words, repl_req_words, repl_req_at}
use load_balancer_with_wal.RobotFactory.Wire.RoundTrip.{IsReplReq, repl_req_at-memory}
use load_balancer_with_wal.ServerStub.{
  get_replication_request, replication_ack, send_commited_index,
}
use load_balancer_with_wal.Server.State.{Server}
use load_balancer_with_wal.Server.State.Spec.{IsApplied, IsCoherent, Ends, records-zero}
use load_balancer_with_wal.Server.Replica.{ifa_thread_read}
use load_balancer_with_wal.Server.Replica.CatchUp.{Fetches, CaughtUp, ifa_thread_read-CaughtUp}
use load_balancer_with_wal.Server.Replica.Misplaced.{ifa_thread_read-misplaces}
use load_balancer_with_wal.Tests.World.{World, little, little-ByteLaws}
use load_balancer_with_wal.Tests.Log.{op, small_op, empty_log, world}

-- a server with this log, of which nothing is committed
abbrev pub server : List MapOp → Server
server log = record {
  my_factory_id = pos 2;
  admin_thread_list = [];
  barrier_list = [];
  fulfilled = [];
  customer_record = [];
  smr_log = log;
  factories_record = [];
  smr_repl_commit = record {
    last_index = before (length log);
    committed_index = minus_one;
    primary_id = pos 1;
    factory_id = pos 2;
  };
  recheck_allow = pos 1;
  clog = empty_log 10;
}

pub fresh-IsApplied : IsApplied 0 (server [])
fresh-IsApplied = record {
  applied = sym (records-zero []);
  bounded = omega arith;
  small = omega arith;
}

pub fresh-IsCoherent : IsCoherent 0 (server [])
fresh-IsCoherent = record { replayed = fresh-IsApplied; indexed = refl; committed = refl }

abbrev pub one_entry : List MapOp
one_entry = op 5 1 ∷ []

pub one_entry-IsCoherent : IsCoherent 0 (server one_entry)
one_entry-IsCoherent = record {
  replayed = record {
    applied = sym (records-zero one_entry);
    bounded = omega arith;
    small = omega arith;
  };
  indexed = refl;
  committed = refl;
}

abbrev pub request : ℤ → ℤ → MapOp → ReplReq
request committed last o = record {
  factory_id = pos 1;
  committed_index = committed;
  last_index = last;
  mapop_record = o;
}

-- the socket of a primary that sends a request and then these messages
abbrev pub sends : ReplReq → List (List ℕ) → World
sends req more = record world { inbox = memory little (repl_req_words req) ∷ more }

abbrev pub then_sends : List (List ℕ) → World
then_sends more = record world { inbox = more }

pub arrives :
    (req : ReplReq) (more : List (List ℕ))
    → IsReplReq req
    → get_replication_request little (pos 9) (sends req more) ≡ (some req, then_sends more)
unfolding get_replication_request
arrives req more h =
    ap (λ r. (some r, then_sends more))
      (ap (repl_req_at little) (sym (append-nil _))
        ∙ repl_req_at-memory little little-ByteLaws req [] h)

abbrev second : ReplReq
second = request (pos 0) (pos 1) (op 6 1)

-- two entries of the primary, after a request
abbrev two_ops : MapOp → MapOp → List (List ℕ)
two_ops a b = memory little (map_op_words a) ∷ memory little (map_op_words b) ∷ []

-- the acknowledgement and the committed index, sent
abbrev acked : List (List ℕ) → World
acked more = (replication_ack little (pos 9) (pos 2) (then_sends more)).1

abbrev told : List (List ℕ) → World
told more =
    (send_commited_index little (pos 9) (record { committed_index = minus_one }) (acked more)).1

fetches :
    (a b : MapOp)
    → Fetches little
        (pos 9)
        minus_one
        (a ∷ b ∷ [])
        (then_sends (two_ops a b))
        (record (told (two_ops a b)) { inbox = [] })
unfolding replication_ack send_commited_index memory
fetches a b = record {
  asked = acked (two_ops a b);
  told = told (two_ops a b);
  answered = true;
  acked = refl;
  noticed = refl;
  delivered = (
    record (told (two_ops a b)) { inbox = memory little (map_op_words b) ∷ [] },
    refl,
    (record (told (two_ops a b)) { inbox = [] }, refl, refl),
  );
}

-- a request of a primary with two committed entries, and of one with three
abbrev ahead : ReplReq
ahead = request (pos 1) (pos 1) (op 6 1)

abbrev further_ahead : ReplReq
further_ahead = request (pos 1) (pos 2) (op 5 2)

abbrev primary_log : List MapOp
primary_log = op 5 1 ∷ op 6 1 ∷ op 5 2 ∷ []

abbrev front_two : List (List ℕ)
front_two = two_ops (op 5 1) (op 6 1)

ifa_thread_read-CaughtUp_example :
    Ends
      (CaughtUp little little-ByteLaws (λ w. refl) 2 ahead (op 5 1 ∷ op 6 1 ∷ []) (server []))
      (ifa_thread_read little (pos 9) (server []) (sends ahead front_two))
ifa_thread_read-CaughtUp_example =
    ifa_thread_read-CaughtUp little little-ByteLaws (λ w. refl) 2 2 (pos 9) ahead
      (op 5 1 ∷ op 6 1 ∷ []) (server []) (sends ahead front_two) (then_sends front_two)
      (record (told front_two) { inbox = [] }) fresh-IsCoherent
      (arrives ahead front_two
        (omega arith, omega arith, omega arith, small_op 6 1 (omega arith) (omega arith)))
      (fetches (op 5 1) (op 6 1)) refl (omega arith) (omega arith) (omega arith) (omega arith) refl
      refl
      (small_op 5 1 (omega arith) (omega arith), (small_op 6 1 (omega arith) (omega arith), tt))

ifa_thread_read-misplaces_example :
    Ends
      (λ s'.
        (s'.smr_log ≡ op 5 1 ∷ op 5 1 ∷ op 6 1 ∷ [])
        × (get_elem? s'.smr_log 1 ≡ get_elem? primary_log 0))
      (ifa_thread_read little (pos 9) (server one_entry) (sends further_ahead front_two))
ifa_thread_read-misplaces_example =
    ifa_thread_read-misplaces little little-ByteLaws (λ w. refl) 0 1 3 2 (pos 9) further_ahead
      primary_log (server one_entry) (sends further_ahead front_two) (then_sends front_two)
      (record (told front_two) { inbox = [] }) one_entry-IsCoherent (omega arith) refl refl
      (omega arith) (omega arith) (omega arith)
      (
        small_op 5 1 (omega arith) (omega arith),
        (small_op 6 1 (omega arith) (omega arith), (small_op 5 2 (omega arith) (omega arith), tt)),
      )
      (arrives further_ahead front_two
        (omega arith, omega arith, omega arith, small_op 5 2 (omega arith) (omega arith)))
      (fetches (op 5 1) (op 6 1)) refl refl
