-- ===== src/Server/State.antt =====
-- The fields of the class ServerSocket of Server.cpp, and the actions of its threads. A thread holds
-- the mutex from one wait to the next, so an action is one step.
pub mod Map
pub mod Spec
use load_balancer_with_wal.Base.{ℕ, Bool, true, false, List, Result, ok, fault}
use load_balancer_with_wal.Base.Int.{ℤ, pos}
use load_balancer_with_wal.Platform.{Platform}
use load_balancer_with_wal.RobotFactory.{RobotInf, MapOp, FactoryRec, SmrLcommit}
use load_balancer_with_wal.CommitLog.{CommitLog, writelog, writelogwithcrc}
use Map.{put}

-- The robots of `admin_thread_list` are pointers into the frames of engineer threads, which wait for
-- the promise of the same place in `barrier_list`: a promise is a number here, and `fulfilled` has
-- the promises that were set, each with its robot as the admin thread left it.
pub record Server : Type 0 where
  pub my_factory_id : ℤ
  pub admin_thread_list : List RobotInf
  pub barrier_list : List ℕ
  pub fulfilled : List (ℕ × RobotInf)
  pub customer_record : List (ℤ × ℤ)
  pub smr_log : List MapOp
  pub factories_record : List FactoryRec
  pub smr_repl_commit : SmrLcommit
  pub open smr_repl_commit use *
  pub recheck_allow : ℤ
  pub clog : CommitLog

-- The macros of Server.cpp.
abbrev pub f_flush_on : ℤ
f_flush_on = pos 0

abbrev pub crc_enabled : Bool
crc_enabled = true

abbrev pub wal_enabled : Bool
wal_enabled = true

abbrev pub batch_size : ℕ
batch_size = 10

-- An action on the server and the world outside.
abbrev pub Exec : Type 0 → Type 0 → Type 0
Exec W A = Server → W → Result (A × Server × W)

abbrev pub pure : {W A : Type 0} → A → Exec W A
pure a s w = ok (a, s, w)

infixl 5 ◌>>=◌ ◌>>◌
abbrev pub ◌>>=◌ : {W A B : Type 0} → Exec W A → (A → Exec W B) → Exec W B
◌>>=◌ m f s w = elim (m s w) [ ok (a, s', w') ↦ f a s' w' | fault e ↦ fault e ]

abbrev pub ◌>>◌ : {W B : Type 0} → Exec W (Unit {0}) → Exec W B → Exec W B
m >> k = m >>= λ _. k

abbrev pub get_server : {W : Type 0} → Exec W Server
get_server s w = ok (s, s, w)

abbrev pub modify : {W : Type 0} → (Server → Server) → Exec W (Unit {0})
modify f s w = ok (tt, f s, w)

-- a call on sockets alone
abbrev pub net : {W A : Type 0} → (W → A × W) → Exec W A
net m s w = let (a, w') = m w in ok (a, s, w')

-- a computation that may end the process
abbrev pub lift : {W A : Type 0} → Result A → Exec W A
lift (ok a) s w = ok (a, s, w)
lift (fault e) s w = fault e

abbrev pub set_primary : {W : Type 0} → ℤ → Exec W (Unit {0})
set_primary id =
    modify λ s. record s { smr_repl_commit = record s.smr_repl_commit { primary_id = id } }

abbrev pub set_last_index : {W : Type 0} → ℤ → Exec W (Unit {0})
set_last_index i =
    modify λ s. record s { smr_repl_commit = record s.smr_repl_commit { last_index = i } }

-- customer_record[op.arg1] = op.arg2, and the index of the entry as the committed one
abbrev pub commit : {W : Type 0} → MapOp → ℤ → Exec W (Unit {0})
commit op i = modify λ s. record s {
  customer_record = put op.arg1 op.arg2 s.customer_record;
  smr_repl_commit = record s.smr_repl_commit { committed_index = i };
}

abbrev pub with_clog : {W : Type 0} → (CommitLog → W → Result (CommitLog × W)) → Exec W (Unit {0})
with_clog f s w = elim (f s.clog w) [
  | ok (c, w') ↦ ok (tt, record s { clog = c }, w')
  | fault e ↦ fault e
]

module _ {W : Type 0} (p : Platform W) where
  -- the write to the log on disk that precedes one to `smr_log`
  unfoldable pub write_ahead : MapOp → Exec W (Unit {0})
  write_ahead op = elim wal_enabled [
    | true ↦ elim crc_enabled [
      | true ↦ with_clog (λ c. writelogwithcrc p c op)
      | false ↦ with_clog (λ c. writelog p c op)
    ]
    | false ↦ pure tt
  ]
