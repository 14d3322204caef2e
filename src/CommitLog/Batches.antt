-- ===== src/CommitLog/Batches.antt =====
-- What is in the batch and what is in the file, across the calls of CommitLog.
use load_balancer_with_wal.Base.{
  ℕ, suc, ◌+◌, ◌*◌, ◌<◌, ◌≡◌, refl, sym, ◌∙◌, ap, Bool, true, false, not, ◌||◌, List, [], ◌∷◌, ◌++◌,
  append_assoc, append-nil, length, length-append, ltb, leb, if◌then◌else◌, All, All-append, Result,
  ok, Bool-cases, inl, inr, arith, leb→le, leb→lt,
}
use load_balancer_with_wal.Base.Int.{pos, eq_ℤ}
use load_balancer_with_wal.Platform.{Platform}
use load_balancer_with_wal.Platform.Laws.{CrcLaws, FileLaws}
use load_balancer_with_wal.RobotFactory.{MapOp, WalSmrEntry}
use load_balancer_with_wal.RobotFactory.Wire.{memory, map_op_words, wal_words}
use load_balancer_with_wal.RobotFactory.Wire.RoundTrip.{IsMapOp}
use load_balancer_with_wal.CommitLog.{
  CommitLog, entries_bytes, timed_write, op_cksum, construct_log, writelogwithcrc,
}
use load_balancer_with_wal.CommitLog.Recovery.{payloads, IsSealed}

-- The configuration makes every batch that is written reach the disk.
abbrev pub flushes : CommitLog → Bool
flushes c = not (eq_ℤ c.f_flush (pos 0)) || ltb 1 c.batch_size

pub payloads-append : (xs ys : List WalSmrEntry) → payloads (xs ++ ys) ≡ payloads xs ++ payloads ys
payloads-append [] ys = refl
payloads-append (x ∷ xs) ys = ap (◌∷◌ x.payload) (payloads-append xs ys)

pub length-payloads : (xs : List WalSmrEntry) → length (payloads xs) ≡ length xs
length-payloads [] = refl
length-payloads (x ∷ xs) = ap suc (length-payloads xs)

-- The operations `ops` have been logged: the entries `es`, which fill `k` batches, are on disk, and
-- the others wait in the batch.
pub record IsLogged {W : Type 0} (p : Platform W) (f : FileLaws p) (k : ℕ) (es : List WalSmrEntry)
    (ops : List MapOp) (c : CommitLog) (w : W) : Type 0 where
  pub stored : f.durable w ≡ entries_bytes p es
  pub accepted : f.written w ≡ entries_bytes p es
  pub seals : All (IsSealed p) es
  pub pending : All (IsSealed p) c.commit_log_w_crc_batch
  pub all_ops : payloads es ++ payloads c.commit_log_w_crc_batch ≡ ops
  pub whole : length es ≡ k * c.batch_size
  pub room : length c.commit_log_w_crc_batch < c.batch_size

module _ {W : Type 0} (p : Platform W) where
  pub entries_bytes-append :
      (xs ys : List WalSmrEntry)
      → entries_bytes p (xs ++ ys) ≡ entries_bytes p xs ++ entries_bytes p ys
  unfolding entries_bytes
  entries_bytes-append [] ys = refl
  entries_bytes-append (x ∷ xs) ys =
      ap (◌++◌ (memory p (wal_words x))) (entries_bytes-append xs ys)
      ∙ sym (append_assoc (memory p (wal_words x)) (entries_bytes p xs) (entries_bytes p ys))

module _ {W : Type 0} (p : Platform W) (x : CrcLaws p) (f : FileLaws p) where
  open f use {written, durable}

  construct_log-IsSealed : (o : MapOp) (w : W) → IsMapOp o → IsSealed p (construct_log p o w)
  unfolding construct_log op_cksum
  construct_log-IsSealed o w h =
      let bound = x.crc32_lt (memory p (map_op_words o)) in
      ((x.uninit_int w, omega arith, h, omega arith), omega arith)

  written-if : (q : Bool) (w : W) → written (if q then p.fflush w else w) ≡ written w
  written-if true w = f.written-fflush w
  written-if false w = refl

  durable-if : (q : Bool) (w : W) → q ≡ true → durable (if q then p.fflush w else w) ≡ written w
  durable-if true w h = f.durable-fflush w
  durable-if false w h = cc

  module _ (c : CommitLog) (bs : List ℕ) (w : W) where
    written_then : written (p.fwrite bs (p.now w).1) ≡ written w ++ bs
    written_then = f.written-fwrite bs (p.now w).1 ∙ ap (λ xs. xs ++ bs) (f.written-now w)

    written-timed_write : written (timed_write p c bs w).1 ≡ written w ++ bs
    unfolding timed_write
    written-timed_write = f.written-now _ ∙ written-if (flushes c) _ ∙ written_then

    durable-timed_write : flushes c ≡ true → durable (timed_write p c bs w).1 ≡ written w ++ bs
    unfolding timed_write
    durable-timed_write h = f.durable-now _ ∙ durable-if (flushes c) _ h ∙ written_then

  -- The outcome of one write: the log holds one operation more, under the same configuration.
  abbrev pub Logs : CommitLog → List MapOp → Result (CommitLog × W) → Type 0
  Logs c ops r =
      (k : ℕ) × (es : List WalSmrEntry) × (c' : CommitLog) × (w' : W) × (r ≡ ok (c', w'))
      × IsLogged p f k es ops c' w'
      × (c'.batch_size ≡ c.batch_size)
      × (c'.f_flush ≡ c.f_flush)

  pub writelogwithcrc-Logs :
      (k : ℕ) (es : List WalSmrEntry) (ops : List MapOp) (c : CommitLog) (w : W) (o : MapOp)
      → IsMapOp o
      → flushes c ≡ true
      → IsLogged p f k es ops c w
      → Logs c (ops ++ o ∷ []) (writelogwithcrc p c o w)
  unfolding writelogwithcrc
  writelogwithcrc-Logs k es ops c w o h fl v = elim (Bool-cases (leb c.batch_size (length batch))) [
    | inl full ↦ (
      suc k,
      es ++ batch,
      record c {
        performance_stats =
            c.performance_stats ++ (timed_write p c (entries_bytes p batch) w).0 ∷ [];
        commit_log_w_crc_batch = [];
      },
      w',
      rw full (rw (f.no_error w')),
      record {
        stored = durable-timed_write c _ w fl ∙ on_disk;
        accepted = written-timed_write c _ w ∙ on_disk;
        seals = All-append (IsSealed p) es batch v.seals sealed_batch;
        pending = tt;
        all_ops = append-nil _ ∙ payloads-append es batch ∙ all;
        whole = omega (arith, length-append es batch, v.whole, one_more, leb→le _ _ full, v.room);
        room = omega (arith, v.room);
      },
      refl,
      refl,
    )
    | inr waits ↦ (
      k,
      es,
      record c { commit_log_w_crc_batch = batch },
      w,
      rw waits,
      record {
        stored = v.stored;
        accepted = v.accepted;
        seals = v.seals;
        pending = sealed_batch;
        all_ops = all;
        whole = v.whole;
        room = leb→lt _ _ waits;
      },
      refl,
      refl,
    )
  ]
    where
      batch : List WalSmrEntry
      batch = c.commit_log_w_crc_batch ++ construct_log p o w ∷ []

      w' : W
      w' = (timed_write p c (entries_bytes p batch) w).1

      sealed_batch : All (IsSealed p) batch
      sealed_batch =
          All-append (IsSealed p) c.commit_log_w_crc_batch _ v.pending
            (construct_log-IsSealed o w h, tt)

      on_disk : written w ++ entries_bytes p batch ≡ entries_bytes p (es ++ batch)
      on_disk =
          ap (λ bs. bs ++ entries_bytes p batch) v.accepted ∙ sym (entries_bytes-append p es batch)

      all : payloads es ++ payloads batch ≡ ops ++ o ∷ []
      all =
          ap (◌++◌ (payloads es)) (payloads-append c.commit_log_w_crc_batch _)
          ∙ sym (append_assoc (payloads es) (payloads c.commit_log_w_crc_batch) (o ∷ []))
          ∙ ap (λ xs. xs ++ o ∷ []) v.all_ops

      one_more : length batch ≡ length c.commit_log_w_crc_batch + 1
      one_more = length-append c.commit_log_w_crc_batch _

-- On a disk that reports no error, a write ends.
pub writelogwithcrc_ends :
    {W : Type 0} (p : Platform W)
    → ((w : W) → p.ferror w ≡ false)
    → (c : CommitLog) (o : MapOp) (w : W)
    → (c' : CommitLog) × (w' : W) × (writelogwithcrc p c o w ≡ ok (c', w'))
unfolding writelogwithcrc
writelogwithcrc_ends p quiet c o w =
    let batch = c.commit_log_w_crc_batch ++ construct_log p o w ∷ [] in
    let written = timed_write p c (entries_bytes p batch) w in
    elim (Bool-cases (leb c.batch_size (length batch))) [
      | inl full ↦ (
        record c {
          performance_stats = c.performance_stats ++ written.0 ∷ [];
          commit_log_w_crc_batch = [];
        },
        written.1,
        rw full (rw (quiet written.1)),
      )
      | inr waits ↦ (record c { commit_log_w_crc_batch = batch }, w, rw waits)
    ]
