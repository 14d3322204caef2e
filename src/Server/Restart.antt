-- ===== src/Server/Restart.antt =====
-- The start of a server: `start` up to the threads, and initiate_recovery_from_log.
pub mod Replay
pub mod Answers
pub mod FromDisk
use load_balancer_with_wal.Base.{
  ℕ, zero, suc, ◌+◌, ◌-◌, ◌%◌, ◌^◌, true, false, ◌&&◌, none, some, List, [], ◌∷◌, if◌then◌else◌, at,
  length, ok, fault,
}
use load_balancer_with_wal.Base.Int.{ℤ, pos, minus_one, ltb_ℤ, eq_ℤ, int_of_size, next, rounds}
use load_balancer_with_wal.Platform.{Platform}
use load_balancer_with_wal.RobotFactory.{FactoryRec}
use load_balancer_with_wal.CommitLog
use load_balancer_with_wal.CommitLog.{CommitLog, recover, recoverwithcrc}
use load_balancer_with_wal.ServerStub.{replication_connection_init, get_commited_index}
use load_balancer_with_wal.Server.State.{
  Exec, pure, ◌>>=◌, ◌>>◌, get_server, modify, net, lift, set_last_index, commit, wal_enabled,
  crc_enabled, batch_size, f_flush_on,
}

-- `smr_log.size() - 1`, a size_t, as an `int`
abbrev pub last_of_size : ℕ → ℤ
last_of_size n = int_of_size ((n + 2 ^ 64 - 1) % 2 ^ 64)

-- where the loop over the log ends, from the answer of the replicas and the size of the log
unfoldable pub recovery_end : ℤ → ℕ → ℤ
recovery_end last_commited_index size =
    let last : ℤ =
      if ltb_ℤ (int_of_size size) last_commited_index
      then last_of_size size
      else last_commited_index in
    if eq_ℤ last (pos 0) then last_of_size size else last

-- the loop over the log from index i, for the given rounds
unfoldable pub apply_log : {W : Type 0} → ℕ → ℤ → Exec W (Unit {0})
apply_log zero i = pure tt
apply_log (suc n) i = do
  s ← get_server
  commited_mapop ← lift (at s.smr_log i)
  commit commited_mapop i
  set_last_index i
  apply_log n (next i)

-- initiate_recovery_from_log once the log has been read
unfoldable pub apply_recovered : {W : Type 0} → ℤ → Exec W (Unit {0})
unfolding recovery_end apply_log
apply_recovered last_commited_index = do
  s ← get_server
  if eq_ℤ (int_of_size (length s.smr_log)) (pos 0) && eq_ℤ last_commited_index (pos 0)
      then pure tt
      else apply_log (rounds (pos 0) (recovery_end last_commited_index (length s.smr_log))) (pos 0)

module _ {W : Type 0} (p : Platform W) where
  -- the loop that asks the replicas for the committed index: the first answer, or 0
  unfoldable pub ask_commited_index : List FactoryRec → W → ℤ × W
  ask_commited_index [] w = (pos 0, w)
  ask_commited_index (f ∷ fs) w =
      let (sock, w1) = replication_connection_init p f.factory_ip f.factory_port w in
      elim (ltb_ℤ (pos 0) sock) [
        | true ↦
            let (got, w2) = get_commited_index p sock w1 in
            elim got [
              | none ↦ ask_commited_index fs w2
              | some c ↦ (c.committed_index, p.close sock w2)
            ]
        | false ↦ ask_commited_index fs w1
      ]

  -- the log on disk, read into `smr_log`
  unfoldable pub read_log : ℕ → Exec W (Unit {0})
  read_log fuel s w = elim wal_enabled [
    | true ↦
        elim (if crc_enabled
          then recoverwithcrc p fuel s.smr_log w
          else recover p fuel s.smr_log w) [
            | ok (smr_log', w') ↦ ok (tt, record s { smr_log = smr_log' }, w')
            | fault e ↦ fault e
          ]
    | false ↦ ok (tt, s, w)
  ]

  unfoldable pub initiate_recovery_from_log : ℕ → Exec W (Unit {0})
  unfolding ask_commited_index read_log apply_recovered
  initiate_recovery_from_log fuel = do
    s ← get_server
    last_commited_index ← net (ask_commited_index s.factories_record)
    read_log fuel
    apply_recovered last_commited_index

  -- clog.Init
  unfoldable pub open_log : List ℕ → Exec W (Unit {0})
  open_log file_name s w = elim (CommitLog.init p file_name f_flush_on batch_size s.clog w) [
    | ok (c, w') ↦ ok (tt, record s { clog = c }, w')
    | fault e ↦ fault e
  ]

  -- `start` up to the creation of the threads
  unfoldable pub start : ℕ → List ℕ → ℤ → List FactoryRec → Exec W (Unit {0})
  start fuel file_name fac_id factories = do
    modify (λ s. record s {
      my_factory_id = fac_id;
      factories_record = factories;
      smr_repl_commit = record {
        last_index = minus_one;
        committed_index = minus_one;
        primary_id = minus_one;
        factory_id = fac_id;
      };
      recheck_allow = pos 1;
    })
    elim wal_enabled [
      | true ↦ do open_log file_name; initiate_recovery_from_log fuel
      | false ↦ pure tt
    ]
