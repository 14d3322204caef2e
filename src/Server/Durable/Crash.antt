-- ===== src/Server/Durable/Crash.antt =====
-- A primary serves orders and crashes, and the server that is started again reads its file.
use load_balancer_with_wal.Base.{ℕ, ◌%◌, ◌≡◌, List, [], ◌++◌, length}
use load_balancer_with_wal.Base.Int.{minus_one}
use load_balancer_with_wal.Platform.{Platform}
use load_balancer_with_wal.RobotFactory.{MapOp}
use load_balancer_with_wal.Server.State.{Server}
use load_balancer_with_wal.Server.State.Spec.{IsCoherent}

-- A server as `start` makes it.
pub record IsNew (t : Server) : Type 0 where
  pub no_log : t.smr_log ≡ []
  pub no_record : t.customer_record ≡ []
  pub no_commit : t.committed_index ≡ minus_one
  pub no_entry : t.last_index ≡ minus_one

-- A server that has the front part of a log, all of it committed, and lacks what did not fill a batch.
pub record Recovers (size : ℕ) (log : List MapOp) (t : Server) : Type 0 where
  pub lost : List MapOp
  pub kept : t.smr_log ++ lost ≡ log
  pub few : length lost ≡ length log % size
  pub coherent : IsCoherent (length t.smr_log) t
