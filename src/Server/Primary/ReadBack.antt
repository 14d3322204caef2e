-- ===== src/Server/Primary/ReadBack.antt =====
-- A read of engineer_thread_read_def after the admin thread has served an order.
use load_balancer_with_wal.Base.{
  ℕ, suc, ◌+◌, ◌<◌, ◌^◌, ◌≡◌, refl, ◌∙◌, ap, true, false, some, none, List, [], ◌∷◌, ◌++◌, length,
  length-append, get_elem?-append_self, if◌then◌else◌, arith,
}
use load_balancer_with_wal.Base.Int.{ℤ, minus_one, eq_ℤ_iff}
use load_balancer_with_wal.Platform.{Platform}
use load_balancer_with_wal.RobotFactory.{RobotInf, MapOp, CRec}
use load_balancer_with_wal.Server.State.{Server}
use load_balancer_with_wal.Server.State.Map.{put, find, find-put}
use load_balancer_with_wal.Server.State.Spec.{records, records-suc, IsCoherent, Ends}
use load_balancer_with_wal.Server.Primary.{entry_of, is_order, admin_round}
use load_balancer_with_wal.Server.Primary.Orders.{Served}
use load_balancer_with_wal.Server.Primary.Takeover.{CanServe}
use load_balancer_with_wal.Server.Primary.Rounds.{admin_round-Served}
use load_balancer_with_wal.Server.Engineer.{record_of}

abbrev pub order_record : RobotInf → CRec
order_record robot = record { customer_id = robot.customer_id; last_order = robot.order_number }

find-put_same : (k v : ℤ) (m : List (ℤ × ℤ)) → find k (put k v m) ≡ some v
find-put_same k v m =
    find-put k k v m ∙ ap (λ q. if q then some v else find k m) ((eq_ℤ_iff k k).1 refl)

-- The record after a log that ends in an order.
record-order :
    (log : List MapOp) (robot : RobotInf)
    → find robot.customer_id
        (records (length (log ++ entry_of robot ∷ [])) (log ++ entry_of robot ∷ []))
      ≡ some robot.order_number
unfolding entry_of
record-order log robot =
    let grown : length (log ++ entry_of robot ∷ []) ≡ suc (length log) =
      omega (arith, length-append log (entry_of robot ∷ [])) in
    ap (λ k. find robot.customer_id (records k (log ++ entry_of robot ∷ []))) grown
    ∙ ap (find robot.customer_id) (
        records-suc (length log) (log ++ entry_of robot ∷ []) (entry_of robot)
          (get_elem?-append_self log [] (entry_of robot)))
    ∙ find-put_same robot.customer_id robot.order_number
        (records (length log) (log ++ entry_of robot ∷ []))

record_of-Served :
    (admin_id : ℤ) (robot : RobotInf) (barrier : ℕ) (robots : List RobotInf) (barriers : List ℕ)
    (s s' : Server)
    → is_order robot ≡ true
    → Served admin_id robot barrier robots barriers s s'
    → record_of s' robot.customer_id ≡ order_record robot
unfolding record_of
record_of-Served admin_id robot barrier robots barriers s s' order served =
    let log =
      served.logged ∙ ap (λ q. if q then s.smr_log ++ entry_of robot ∷ [] else s.smr_log) order in
    let found : find robot.customer_id s'.customer_record ≡ some robot.order_number =
      ap (find robot.customer_id) served.coherent.applied
      ∙ ap (λ xs. find robot.customer_id (records (length xs) xs)) log
      ∙ record-order s.smr_log robot in
    ap
      (λ o. record {
        customer_id = robot.customer_id;
        last_order = elim o [ none ↦ minus_one | some order ↦ order ];
      })
      found

module _ {W : Type 0} (p : Platform W) (quiet : (w : W) → p.ferror w ≡ false) where
  -- A server that has committed its whole log, or all but the last entry and is to recheck, has an
  -- order first in its list, room in its log and a disk that reports no error. Whatever the replicas
  -- and the network do, a read of that customer after the round of the admin thread gives the number
  -- of that order.
  pub record_of-admin_round :
      (admin_id : ℤ) (robot : RobotInf) (barrier : ℕ) (robots : List RobotInf) (barriers : List ℕ)
      (k : ℕ) (s : Server) (w : W)
      → IsCoherent k s
      → CanServe p k s
      → s.admin_thread_list ≡ robot ∷ robots
      → s.barrier_list ≡ barrier ∷ barriers
      → length s.smr_log + 1 < 2 ^ 31
      → is_order robot ≡ true
      → Ends
          (λ s'. record_of s' robot.customer_id ≡ order_record robot)
          (admin_round p admin_id s w)
  record_of-admin_round admin_id robot barrier robots barriers k s w v can jobs promises room
        order =
      let (s', w', e, served) =
        admin_round-Served p admin_id robot barrier robots barriers quiet k s w v can jobs promises
          room in
      (s', w', e, record_of-Served admin_id robot barrier robots barriers s s' order served)
