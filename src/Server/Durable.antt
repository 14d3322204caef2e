-- ===== src/Server/Durable.antt =====
-- What of a primary's orders is on its disk, and what a crash leaves of them.
pub mod Sockets
pub mod Frames
pub mod Jobs
pub mod Crash
use load_balancer_with_wal.Base.{ℕ, ◌≡◌, true, List, Result, ok}
use load_balancer_with_wal.Platform.{Platform}
use load_balancer_with_wal.Platform.Laws.{FileLaws}
use load_balancer_with_wal.RobotFactory.{WalSmrEntry}
use load_balancer_with_wal.CommitLog.Batches.{flushes, IsLogged}
use load_balancer_with_wal.Server.State.{Server}

-- The log of the server is in its file, but for what waits in the batch, and its configuration makes every
-- batch of this size that is written reach the disk.
pub record Persists {W : Type 0} (p : Platform W) (f : FileLaws p) (size : ℕ) (s : Server) (w : W)
    : Type 0 where
  pub batches : ℕ
  pub entries : List WalSmrEntry
  pub is_logged : IsLogged p f batches entries s.smr_log s.clog w
  pub flushing : flushes s.clog ≡ true
  pub same_size : s.clog.batch_size ≡ size

-- An action ends, and this holds of the server and the world then.
abbrev pub EndsIn : {W : Type 0} → (Server → W → Type 0) → Result (Unit {0} × Server × W) → Type 0
EndsIn {W} P r = (s' : Server) × (w' : W) × (r ≡ ok (tt, s', w')) × P s' w'
