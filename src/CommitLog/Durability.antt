-- ===== src/CommitLog/Durability.antt =====
-- What a crash loses: the log, written through CommitLog and read back by CommitLog.
use load_balancer_with_wal.Base.{
  ℕ, ◌+◌, ◌*◌, ◌%◌, ◌<◌, ◌^◌, ◌≡◌, refl, sym, ◌∙◌, ap, subst, inl, true, List, [], ◌∷◌, ◌++◌,
  append-nil, append_assoc, length, length-append, All, Result, ok, fault, arith,
}
use load_balancer_with_wal.Platform.{Platform}
use load_balancer_with_wal.Platform.Laws.{ByteLaws, CrcLaws, FileLaws}
use load_balancer_with_wal.RobotFactory.{MapOp, WalSmrEntry}
use load_balancer_with_wal.RobotFactory.Wire.RoundTrip.{IsMapOp}
use load_balancer_with_wal.CommitLog.{
  CommitLog, entries_bytes, sync, writelogwithcrc, recoverwithcrc,
}
use load_balancer_with_wal.CommitLog.Recovery.{payloads, recoverwithcrc-entries}
use load_balancer_with_wal.CommitLog.Batches.{
  flushes, IsLogged, Logs, writelogwithcrc-Logs, length-payloads,
}

-- What the server asks of its log.
pub data LogCall : Type 0 where
  write : MapOp → LogCall
  flush : LogCall

abbrev pub written_ops : List LogCall → List MapOp
written_ops [] = []
written_ops (write o ∷ calls) = o ∷ written_ops calls
written_ops (flush ∷ calls) = written_ops calls

module _ {W : Type 0} (p : Platform W) where
  unfoldable pub log_calls : List LogCall → CommitLog → W → Result (CommitLog × W)
  log_calls [] c w = ok (c, w)
  log_calls (write o ∷ calls) c w = elim (writelogwithcrc p c o w) [
    | ok (c', w') ↦ log_calls calls c' w'
    | fault e ↦ fault e
  ]
  log_calls (flush ∷ calls) c w = log_calls calls c (sync p w)

module _ {W : Type 0} (p : Platform W) (x : CrcLaws p) (f : FileLaws p) where
  sync-IsLogged :
      (k : ℕ) (es : List WalSmrEntry) (ops : List MapOp) (c : CommitLog) (w : W)
      → IsLogged p f k es ops c w
      → IsLogged p f k es ops c (sync p w)
  unfolding sync
  sync-IsLogged k es ops c w v = record {
    stored = f.durable-fflush w ∙ v.accepted;
    accepted = f.written-fflush w ∙ v.accepted;
    seals = v.seals;
    pending = v.pending;
    all_ops = v.all_ops;
    whole = v.whole;
    room = v.room;
  }

  log_calls-Logs :
      (calls : List LogCall) (k : ℕ) (es : List WalSmrEntry) (ops : List MapOp) (c : CommitLog)
      (w : W)
      → All IsMapOp (written_ops calls)
      → flushes c ≡ true
      → IsLogged p f k es ops c w
      → Logs p x f c (ops ++ written_ops calls) (log_calls p calls c w)
  unfolding log_calls
  log_calls-Logs [] k es ops c w h fl v = (
    k,
    es,
    c,
    w,
    refl,
    subst (λ xs. IsLogged p f k es xs c w) (sym (append-nil ops)) v,
    refl,
    refl,
  )
  log_calls-Logs (write o ∷ calls) k es ops c w h fl v =
      let (k1, es1, c1, w1, e, v1, same_size, same_flush) =
        writelogwithcrc-Logs p x f k es ops c w o h.0 fl v in
      let (k2, es2, c2, w2, e2, v2, size2, flush2) =
        log_calls-Logs calls k1 es1 (ops ++ o ∷ []) c1 w1 h.1 (rw (same_size, same_flush) fl) v1 in
      (
        k2,
        es2,
        c2,
        w2,
        rw (e, log_calls) e2,
        subst (λ xs. IsLogged p f k2 es2 xs c2 w2) (append_assoc ops (o ∷ []) (written_ops calls))
            v2,
        size2 ∙ same_size,
        flush2 ∙ same_flush,
      )
  log_calls-Logs (flush ∷ calls) k es ops c w h fl v =
      log_calls-Logs calls k es ops c (sync p w) h fl (sync-IsLogged k es ops c w v)

pub mod_of_batches : (k size n r : ℕ) → n ≡ k * size + r → r < size → r ≡ n % size
mod_of_batches k size n r e h = grind arith

module _ {W : Type 0} (p : Platform W) (f : FileLaws p) where
  pub empty-IsLogged :
      (c : CommitLog) (w : W)
      → 0 < c.batch_size
      → c.commit_log_w_crc_batch ≡ []
      → f.durable w ≡ []
      → f.written w ≡ []
      → IsLogged p f 0 [] [] c w
  unfolding entries_bytes
  empty-IsLogged c w size none_pending none_durable none_written = record {
    stored = none_durable;
    accepted = none_written;
    seals = tt;
    pending = rw none_pending tt;
    all_ops = ap payloads none_pending;
    whole = omega arith;
    room = rw none_pending size;
  }

module _ {W : Type 0} (p : Platform W) (b : ByteLaws p) (f : FileLaws p) where
  -- What a restart finds of a log whose state is known.
  recover_IsLogged :
      (k : ℕ) (es : List WalSmrEntry) (ops : List MapOp) (c : CommitLog) (w r : W) (fuel : ℕ)
      → IsLogged p f k es ops c w
      → f.unread r ≡ f.durable w
      → length ops < fuel
      → length ops < 2 ^ 31
      → (r' : W) × (recoverwithcrc p fuel [] r ≡ ok (payloads es, r'))
        × (length (payloads c.commit_log_w_crc_batch) ≡ length ops % c.batch_size)
  recover_IsLogged k es ops c w r fuel v reboot enough small =
      let lost = c.commit_log_w_crc_batch in
      let total : length ops ≡ length es + length lost = omega (
        arith,
        ap length v.all_ops,
        length-append (payloads es) (payloads lost),
        length-payloads es,
        length-payloads lost,
      ) in
      let (r', e) =
        recoverwithcrc-entries p b f es fuel [] r v.seals (inl (omega arith))
          (reboot ∙ v.stored ∙ sym (append-nil _)) (omega arith) (omega arith) in
      (
        r',
        e,
        length-payloads lost
            ∙ mod_of_batches k c.batch_size (length ops) (length lost) (rw (← v.whole) total)
                v.room,
      )

module _ {W : Type 0} (p : Platform W) (b : ByteLaws p) (x : CrcLaws p) (f : FileLaws p) where
  -- A new log, with an empty batch of a size above 0, on an empty file of a disk that reports no error, and of a
  -- configuration that flushes what it writes (f_flush is not 0, or the batch size is above 1), takes any calls without a fault. What a restart then recovers from the disk, with more fuel
  -- than operations, is the logged operations in order, less the last n % batch_size of the n written,
  -- fewer than 2 ^ 31 and of `int`s; calls of `sync` do not change that.
  pub crash_loses_partial_batch :
      (calls : List LogCall) (c : CommitLog) (w : W) (restart : W → W) (fuel : ℕ)
      → ((w' : W) → f.unread (restart w') ≡ f.durable w')
      → All IsMapOp (written_ops calls)
      → flushes c ≡ true
      → 0 < c.batch_size
      → c.commit_log_w_crc_batch ≡ []
      → f.durable w ≡ []
      → f.written w ≡ []
      → length (written_ops calls) < fuel
      → length (written_ops calls) < 2 ^ 31
      → (c' : CommitLog) × (w' w'' : W) × (recovered lost : List MapOp) × (log_calls p calls c w
          ≡ ok (c', w'))
        × (recoverwithcrc p fuel [] (restart w') ≡ ok (recovered, w''))
        × (recovered ++ lost ≡ written_ops calls)
        × (length lost ≡ length (written_ops calls) % c.batch_size)
  crash_loses_partial_batch calls c w restart fuel reboot ints fl size none_pending none_durable
        none_written enough small =
      let (k, es, c', w', e, v, same_size, _) =
        log_calls-Logs p x f calls 0 [] [] c w ints fl
          (empty-IsLogged p f c w size none_pending none_durable none_written) in
      let (w'', e', n) =
        recover_IsLogged p b f k es (written_ops calls) c' w' (restart w') fuel v (reboot w') enough
          small in
      (
        c',
        w',
        w'',
        payloads es,
        payloads c'.commit_log_w_crc_batch,
        e,
        e',
        v.all_ops,
        n ∙ ap (λ (size : ℕ). length (written_ops calls) % size) same_size,
      )
