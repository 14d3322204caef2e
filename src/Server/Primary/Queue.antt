-- ===== src/Server/Primary/Queue.antt =====
-- A queue of orders, served by the rounds of the admin thread one after the other.
use load_balancer_with_wal.Base.{ℕ, zero, suc, ◌≡◌, List, [], ◌++◌, map, length}
use load_balancer_with_wal.Base.Int.{ℤ}
use load_balancer_with_wal.Platform.{Platform}
use load_balancer_with_wal.RobotFactory.{RobotInf, MapOp}
use load_balancer_with_wal.Server.State.{Server, Exec, pure, ◌>>◌}
use load_balancer_with_wal.Server.State.Spec.{IsCoherent}
use load_balancer_with_wal.Server.Primary.{entry_of, admin_round}

-- n rounds of the admin thread
unfoldable pub admin_rounds : {W : Type 0} → Platform W → ℤ → ℕ → Exec W (Unit {0})
admin_rounds p admin_id zero = pure tt
admin_rounds p admin_id (suc n) = do admin_round p admin_id; admin_rounds p admin_id n

-- a job: a robot and the number of its promise
abbrev pub robots_of : List (ℕ × RobotInf) → List RobotInf
robots_of = map λ j. j.1

abbrev pub barriers_of : List (ℕ × RobotInf) → List ℕ
barriers_of = map λ j. j.0

abbrev pub entries_of : List (ℕ × RobotInf) → List MapOp
entries_of = map λ j. entry_of j.1

-- the jobs as the admin thread leaves them
abbrev pub fulfilled_by : ℤ → List (ℕ × RobotInf) → List (ℕ × RobotInf)
fulfilled_by admin_id = map λ j. (j.0, record j.1 { admin_id = admin_id })

-- What is left when the jobs have been served in their order.
pub record AllServed (admin_id : ℤ) (jobs : List (ℕ × RobotInf)) (s s' : Server) : Type 0 where
  pub coherent : IsCoherent (length s'.smr_log) s'
  pub logged : s'.smr_log ≡ s.smr_log ++ entries_of jobs
  pub promised : s'.fulfilled ≡ s.fulfilled ++ fulfilled_by admin_id jobs
  pub no_job : s'.admin_thread_list ≡ []
  pub no_barrier : s'.barrier_list ≡ []
