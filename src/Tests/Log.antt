-- ===== src/Tests/Log.antt =====
-- The log on disk at concrete inputs.
use load_balancer_with_wal.Base.{
  ℕ, ◌%◌, ◌≡◌, ◌<◌, ◌^◌, All, refl, inl, arith, List, [], ◌∷◌, ◌++◌, length, ok,
}
use load_balancer_with_wal.Base.Int.{pos}
use load_balancer_with_wal.RobotFactory.{MapOp, WalSmrEntry, ReplReq}
use load_balancer_with_wal.RobotFactory.Wire.{memory}
use load_balancer_with_wal.RobotFactory.Wire.RoundTrip.{IsMapOp}
use load_balancer_with_wal.CommitLog.{CommitLog, entries_bytes, op_cksum, recoverwithcrc}
use load_balancer_with_wal.CommitLog.Recovery.{IsSealed, recoverwithcrc-entries}
use load_balancer_with_wal.CommitLog.Durability.{
  LogCall, write, flush, log_calls, written_ops, crash_loses_partial_batch,
}
use load_balancer_with_wal.Tests.World.{
  World, little, little-ByteLaws, little-CrcLaws, little-FileLaws,
}

abbrev pub op : ℕ → ℕ → MapOp
op customer order = record { opcode = pos 1; arg1 = pos customer; arg2 = pos order }

abbrev pub empty_log : ℕ → CommitLog
empty_log size = record {
  performance_stats = [];
  write_counter = pos 0;
  f_flush = pos 0;
  batch_size = size;
  commit_log_batch = [];
  commit_log_w_crc_batch = [];
}

abbrev pub world : World
world = record { disk = []; stream = []; reading = []; inbox = []; outbox = [] }

-- the disk after a crash, read from the start
abbrev pub reboot : World → World
reboot w = record w { stream = w.disk; reading = w.disk }

abbrev pub small_op : (n m : ℕ) → n < 2 ^ 31 → m < 2 ^ 31 → IsMapOp (op n m)
small_op n m h g = (omega arith, h, g)

abbrev calls : List LogCall
calls = write (op 5 1) ∷ flush ∷ write (op 6 1) ∷ write (op 5 2) ∷ flush ∷ []

crash_loses_partial_batch_example :
    (c' : CommitLog) × (w' w'' : World) × (recovered lost : List MapOp) × (log_calls little calls
        (empty_log 2)
        world
      ≡ ok (c', w'))
    × (recoverwithcrc little 10 [] (reboot w') ≡ ok (recovered, w''))
    × (recovered ++ lost ≡ op 5 1 ∷ op 6 1 ∷ op 5 2 ∷ [])
    × (length lost ≡ 3 % 2)
crash_loses_partial_batch_example =
    crash_loses_partial_batch little little-ByteLaws little-CrcLaws little-FileLaws calls
      (empty_log 2) world reboot 10 (λ w. refl) ints refl (omega arith) refl refl refl (omega arith)
      (omega arith)
  where
    ints : All IsMapOp (written_ops calls)
    ints = (
      small_op 5 1 (omega arith) (omega arith),
      (small_op 6 1 (omega arith) (omega arith), (small_op 5 2 (omega arith) (omega arith), tt)),
    )

-- an entry as ConstructLog makes it
abbrev pub entry : MapOp → WalSmrEntry
entry o = record { index = pos 0; size = 12; payload = o; cksum = op_cksum little o }

entry-IsSealed : (o : MapOp) → IsMapOp o → op_cksum little o < 2 ^ 32 → IsSealed little (entry o)
entry-IsSealed o h k = ((omega arith, omega arith, h, k), refl)

pub first_entry-IsSealed : IsSealed little (entry (op 5 1))
unfolding op_cksum memory
first_entry-IsSealed =
    entry-IsSealed (op 5 1) (small_op 5 1 (omega arith) (omega arith)) (omega arith)

abbrev pub entry_file : World
entry_file = record world { reading = entries_bytes little (entry (op 5 1) ∷ []) ++ 1 ∷ 2 ∷ [] }

recoverwithcrc-entries_example :
    (w' : World) × (recoverwithcrc little 2 [] entry_file ≡ ok (op 5 1 ∷ [], w'))
recoverwithcrc-entries_example =
    recoverwithcrc-entries little little-ByteLaws little-FileLaws (entry (op 5 1) ∷ []) 2
      (1 ∷ 2 ∷ []) entry_file (first_entry-IsSealed, tt) (inl (omega arith)) refl (omega arith)
      (omega arith)

abbrev pub request : ReplReq
request = record {
  factory_id = pos 1;
  committed_index = pos 0;
  last_index = pos 1;
  mapop_record = op 6 1;
}
