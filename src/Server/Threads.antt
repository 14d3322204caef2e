-- ===== src/Server/Threads.antt =====
-- The threads of a server at work together: the engineer threads, each in engineer_thread_body, the
-- admin thread and the replica's thread. One step is what a thread does from one wait to the next.
pub mod Frames
pub mod Primary
pub mod Engineers
pub mod Replica
pub mod Promises
pub mod Jobs
pub mod Shipping
use load_balancer_with_wal.Base.{
  ℕ, suc, ◌==◌, Bool, true, false, Option, none, some, List, [], ◌∷◌, if◌then◌else◌, ◌≡◌, ok,
}
use load_balancer_with_wal.Base.Int.{ℤ, pos, eq_ℤ}
use load_balancer_with_wal.Platform.{Platform}
use load_balancer_with_wal.RobotFactory.{OrderInf, RobotInf}
use load_balancer_with_wal.CommitLog.{sync}
use load_balancer_with_wal.ServerStub.{receive_request, ship_robot}
use load_balancer_with_wal.Server.State.{
  Server, Exec, pure, ◌>>=◌, ◌>>◌, get_server, modify, net, wal_enabled,
}
use load_balancer_with_wal.Server.Primary.{admin_round}
use load_balancer_with_wal.Server.Replica.{ifa_round}
use load_balancer_with_wal.Server.Engineer.{
  place_order, place_commit_notice, engineer_thread_read_def,
}

-- Where an engineer thread stands: in the loop of engineer_thread_body, before or behind the mutex of
-- an order, a read or the notice of a client that leaves, or at the end.
pub data Phase : Type 0 where
  listening : Phase
  ordering : OrderInf → Phase
  reading : OrderInf → Phase
  waiting : OrderInf → ℕ → Phase
  notifying : Phase
  noticed : ℕ → Phase
  leaving : Phase
  gone : Phase

pub record Engineer : Type 0 where
  pub sock : ℤ
  pub eng_id : ℤ
  pub send_last_committed_index : ℤ
  pub phase : Phase

-- barrier_future.wait (): the robot behind the promise, once it is set
unfoldable pub robot_behind : ℕ → List (ℕ × RobotInf) → Option RobotInf
robot_behind n [] = none
robot_behind n ((m, robot) ∷ more) = if m == n then some robot else robot_behind n more

-- the branches of engineer_thread_body on the type of a request
unfoldable pub heard : OrderInf → Engineer → Engineer
heard make_order e =
    if eq_ℤ make_order.request_type (pos 1)
    then record e { send_last_committed_index = pos 1; phase = ordering make_order }
    else if eq_ℤ make_order.request_type (pos 2)
    then record e { send_last_committed_index = pos 0; phase = reading make_order }
    else e

module _ {W : Type 0} (p : Platform W) where
  -- a `robot_inf` of which nothing is set
  unfoldable pub unset_job : W → RobotInf
  unset_job w = record {
    customer_id = p.uninit w;
    order_number = p.uninit w;
    request_type = p.uninit w;
    engineer_id = p.uninit w;
    admin_id = p.uninit w;
  }

  -- the round of the loop that receives a request or the end of the connection
  unfoldable pub listen : Engineer → Exec W (Option Engineer)
  listen e = do
    peeked ← net (p.peek e.sock 12)
    if eq_ℤ peeked (pos 0)
        then pure (
            some (record e {
              phase = if eq_ℤ e.send_last_committed_index (pos 0) then leaving else notifying;
            }))
        else (do
          got ← net (receive_request p e.sock)
          elim got [
            | none ↦ pure (some (record e { phase = gone }))
            | some make_order ↦ pure (some (heard make_order e))
          ])

  -- the end of engineer_thread_robot_def, or nothing while the promise is not set
  unfoldable pub ship : Engineer → Option RobotInf → Exec W (Option Engineer)
  ship e none = pure none
  ship e (some robot) = do
    sent ← net (ship_robot p e.sock robot)
    pure (some (record e { phase = listening }))

  unfoldable pub leave : Engineer → Exec W (Option Engineer)
  leave e = do
    if wal_enabled then net (λ w. (tt, sync p w)) else pure tt
    net (λ w. (tt, p.close e.sock w))
    modify (λ s. record s { recheck_allow = pos 1 })
    pure (some (record e { phase = gone }))

  -- What an engineer thread does next, with a number for the promise that it may create; nothing
  -- where it has to wait.
  unfoldable pub engineer_turn : ℕ → Engineer → Phase → Exec W (Option Engineer)
  engineer_turn n e listening = listen e
  engineer_turn n e (ordering make_order) = do
    place_order make_order e.eng_id n
    pure (some (record e { phase = waiting make_order n }))
  engineer_turn n e (reading make_order) = do
    engineer_thread_read_def p e.sock make_order
    pure (some (record e { phase = listening }))
  engineer_turn n e (waiting make_order m) = do s ← get_server; ship e (robot_behind m s.fulfilled)
  engineer_turn n e notifying = do
    unset ← net (λ w. (unset_job w, w))
    place_commit_notice unset n
    pure (some (record e { phase = noticed n }))
  engineer_turn n e (noticed m) = do
    s ← get_server
    elim (robot_behind m s.fulfilled) [
      | none ↦ pure none
      | some _ ↦ pure (some (record e { phase = leaving }))
    ]
  engineer_turn n e leaving = leave e
  engineer_turn n e gone = pure none

-- The threads of a server. `promises` numbers the promises, so that each is new.
pub record Threads (W : Type 0) : Type 0 where
  pub server : Server
  pub world : W
  pub engineers : ℕ → Engineer
  pub promises : ℕ

abbrev pub set : ℕ → Engineer → (ℕ → Engineer) → ℕ → Engineer
set i e engineers j = if j == i then e else engineers j

-- The id that `start` gives to each engineer.
abbrev pub first_engineer_id : ℤ
first_engineer_id = pos 100

module _ {W : Type 0} (p : Platform W) (admin_id : ℤ) where
  -- One thread at a time: an engineer thread takes its turn, the admin thread serves the front of its
  -- list, the replica's thread follows a primary, a customer is accepted, or the world outside moves.
  pub data Step (c : Threads W) : Threads W → Type 0 where
    turn :
        (i : ℕ) {e' : Engineer} {s' : Server} {w' : W}
        → engineer_turn p c.promises (c.engineers i) (c.engineers i).phase c.server c.world
          ≡ ok (some e', s', w')
        → Step c (record {
          server = s';
          world = w';
          engineers = set i e' c.engineers;
          promises = suc c.promises;
        })
    serve :
        {s' : Server} {w' : W}
        → admin_round p admin_id c.server c.world ≡ ok (tt, s', w')
        → Step c (record c { server = s'; world = w' })
    follow :
        (sock : ℤ) (again : Bool) {s' : Server} {w' : W}
        → ifa_round p sock c.server c.world ≡ ok (again, s', w')
        → Step c (record c { server = s'; world = w' })
    accept :
        (i : ℕ) (sock : ℤ)
        → (c.engineers i).phase ≡ gone
        → Step c (record c {
          engineers =
              set i
                (record {
                  sock = sock;
                  eng_id = first_engineer_id;
                  send_last_committed_index = pos 0;
                  phase = listening;
                })
                c.engineers;
        })
    outside : (w' : W) → Step c (record c { world = w' })

  pub data Reach (c : Threads W) : Threads W → Type 0 where
    here : Reach c c
    later : {d e : Threads W} → Reach c d → Step d e → Reach c e
