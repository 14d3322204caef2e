-- ===== src/CommitLog.antt =====
-- CommitLog.cpp and CommitLog.h: the write-ahead log. Entries gather in a batch, which goes to the
-- file when it is full.
pub mod Batches
pub mod Recovery
pub mod Durability
use load_balancer_with_wal.Base.{
  ℕ, zero, suc, ◌+◌, ◌-◌, ◌/◌, ◌%◌, ◌^◌, Bool, true, false, not, ◌||◌, Option, none, some, List, [],
  ◌∷◌, ◌++◌, ltb, leb, ◌==◌, if◌then◌else◌, length, Result, ok, fault, exited, diverged, undefined,
  insert_at,
}
use load_balancer_with_wal.Base.Int.{ℤ, pos, negsuc, ◌+ℤ◌, ◌-ℤ◌, wrap, next, eq_ℤ}
use load_balancer_with_wal.Platform.{Platform}
use load_balancer_with_wal.RobotFactory.{MapOp, WalSmrEntry}
use load_balancer_with_wal.RobotFactory.Wire.{memory, map_op_words, map_op_at, wal_words, wal_at}

pub record CommitLog : Type 0 where
  pub performance_stats : List ℤ
  pub write_counter : ℤ
  pub f_flush : ℤ
  pub batch_size : ℕ
  pub commit_log_batch : List MapOp
  pub commit_log_w_crc_batch : List WalSmrEntry

-- sizeof (map_op) and sizeof (wal_smr_entry)
abbrev pub map_op_size : ℕ
map_op_size = 12

abbrev pub wal_size : ℕ
wal_size = 24

module _ {W : Type 0} (p : Platform W) where
  -- CommitLog::Init
  unfoldable pub init : List ℕ → ℤ → ℕ → CommitLog → W → Result (CommitLog × W)
  init filename is_f_flush batch c w =
      let (opened, w') = p.fopen filename w in
      if opened
      then ok (
        record c {
          batch_size = if ltb 1 batch then batch else 1;
          write_counter = pos 0;
          f_flush = is_f_flush;
        },
        w',
      )
      else fault exited

  -- a vector of structs as the bytes that `memcpy` from its front copies
  unfoldable pub ops_bytes : List MapOp → List ℕ
  ops_bytes [] = []
  ops_bytes (o ∷ os) = memory p (map_op_words o) ++ ops_bytes os

  unfoldable pub entries_bytes : List WalSmrEntry → List ℕ
  entries_bytes [] = []
  entries_bytes (e ∷ es) = memory p (wal_words e) ++ entries_bytes es

  -- fwrite and the conditional fflush, with the time that they take
  unfoldable pub timed_write : CommitLog → List ℕ → W → ℤ × W
  timed_write c bs w =
      let (t1, w1) = p.now w in
      let w2 : W = p.fwrite bs w1 in
      let w3 : W = if not (eq_ℤ c.f_flush (pos 0)) || ltb 1 c.batch_size then p.fflush w2 else w2 in
      let (t2, w4) = p.now w3 in (wrap (pos t2 -ℤ pos t1), w4)

  -- CommitLog::writelog
  unfoldable pub writelog : CommitLog → MapOp → W → Result (CommitLog × W)
  unfolding timed_write
  writelog c log_entry w =
      let batch : List MapOp = c.commit_log_batch ++ log_entry ∷ [] in
      if leb c.batch_size (length batch)
      then (let (duration, w') = timed_write c (ops_bytes batch) w in
          if p.ferror w'
          then fault exited
          else ok (
            record c {
              performance_stats = c.performance_stats ++ duration ∷ [];
              write_counter = wrap (c.write_counter +ℤ pos 1);
              commit_log_batch = [];
            },
            w',
          ))
      else ok (record c { commit_log_batch = batch }, w)

  -- CommitLog::sync
  unfoldable pub sync : W → W
  sync w = p.fflush w

  -- CommitLog::close
  unfoldable pub close_log : W → W
  close_log w = p.fclose w

  -- the checksum of a log entry
  unfoldable pub op_cksum : MapOp → ℕ
  op_cksum o = p.crc32 (memory p (map_op_words o))

  -- CommitLog::ConstructLog, which leaves `index` unset
  unfoldable pub construct_log : MapOp → W → WalSmrEntry
  construct_log log_entry w = record {
    index = p.uninit w;
    size = map_op_size;
    payload = log_entry;
    cksum = op_cksum log_entry % 2 ^ 32;
  }

  -- CommitLog::writelogwithcrc
  unfoldable pub writelogwithcrc : CommitLog → MapOp → W → Result (CommitLog × W)
  unfolding timed_write construct_log
  writelogwithcrc c log_entry w =
      let batch : List WalSmrEntry = c.commit_log_w_crc_batch ++ construct_log log_entry w ∷ [] in
      if leb c.batch_size (length batch)
      then (let (duration, w') = timed_write c (entries_bytes batch) w in
          if p.ferror w'
          then fault exited
          else ok (
            record c {
              performance_stats = c.performance_stats ++ duration ∷ [];
              commit_log_w_crc_batch = [];
            },
            w',
          ))
      else ok (record c { commit_log_w_crc_batch = batch }, w)

  -- the loop of CommitLog::Recover from round i, on fuel
  unfoldable pub recover_from : ℕ → ℤ → List MapOp → W → Result (List MapOp × W)
  recover_from zero i smr_log w = fault diverged
  recover_from (suc fuel) i smr_log w =
      let (got, w') = p.fread map_op_size w in
      elim got [
        | none ↦ ok (smr_log, w')
        | some recovered_entry ↦ elim (insert_at i (map_op_at p recovered_entry) smr_log) [
          | fault e ↦ fault e
          | ok smr_log' ↦ recover_from fuel (next i) smr_log' w'
        ]
      ]

  -- CommitLog::Recover
  unfoldable pub recover : ℕ → List MapOp → W → Result (List MapOp × W)
  unfolding recover_from
  recover fuel smr_log w = recover_from fuel (pos 0) smr_log w

  -- the loop of CommitLog::Recoverwithcrc from round i, on fuel
  unfoldable pub recover_crc_from : ℕ → ℤ → List MapOp → W → Result (List MapOp × W)
  recover_crc_from zero i smr_log w = fault diverged
  recover_crc_from (suc fuel) i smr_log w =
      let (got, w') = p.fread wal_size w in
      elim got [
        | none ↦ ok (smr_log, w')
        | some recovered_entry ↦
            let wal_entry : WalSmrEntry = wal_at p recovered_entry in
            elim (wal_entry.cksum == op_cksum wal_entry.payload) [
              | true ↦ elim (insert_at i wal_entry.payload smr_log) [
                | fault e ↦ fault e
                | ok smr_log' ↦ recover_crc_from fuel (next i) smr_log' w'
              ]
              | false ↦ ok (smr_log, w')
            ]
      ]

  -- CommitLog::Recoverwithcrc
  unfoldable pub recoverwithcrc : ℕ → List MapOp → W → Result (List MapOp × W)
  unfolding recover_crc_from
  recoverwithcrc fuel smr_log w = recover_crc_from fuel (pos 0) smr_log w

-- std::accumulate in a 64-bit `long long`, as its bit pattern
unfoldable pub total_time : List ℤ → ℕ
total_time [] = 0
total_time (t ∷ ts) = (word64 t + total_time ts) % 2 ^ 64
  where
    word64 : ℤ → ℕ
    word64 (pos n) = n % 2 ^ 64
    word64 (negsuc n) = 2 ^ 64 - 1 - n % 2 ^ 64

-- CommitLog::GetDiskThroughput: the number that it prints. The division by a `size_t` takes the sum for
-- unsigned, and one by 0 is undefined.
unfoldable pub get_disk_throughput : CommitLog → Result ℕ
unfolding total_time
get_disk_throughput c = elim c.performance_stats [
  | [] ↦ fault undefined
  | t ∷ ts ↦ ok (total_time (t ∷ ts) / length (t ∷ ts))
]
