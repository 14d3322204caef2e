-- ===== src/Server/Restart/FromDisk.antt =====
-- A restart from the file of the log on.
use load_balancer_with_wal.Base.{
  All, ℕ, ◌<◌, ◌^◌, ◌≡◌, ◌∙◌, ap, subst, ◌≢◌, ◌⊎◌, List, [], ◌++◌, length, ok,
}
use load_balancer_with_wal.Base.Int.{ℤ, pos, minus_one, before}
use load_balancer_with_wal.RobotFactory.{MapOp}
use load_balancer_with_wal.Server.State.{Server, ◌>>=◌}
use load_balancer_with_wal.Server.State.Spec.{IsApplied, Ends}
use load_balancer_with_wal.Server.Restart.Replay.{restored_count}
use load_balancer_with_wal.Server.Restart.Answers.{apply_recovered-Restored}
use load_balancer_with_wal.Platform.{Platform}
use load_balancer_with_wal.Platform.Laws.{ByteLaws, FileLaws}
use load_balancer_with_wal.RobotFactory.{WalSmrEntry}
use load_balancer_with_wal.CommitLog.{entries_bytes, recoverwithcrc}
use load_balancer_with_wal.CommitLog.Recovery.{payloads, IsSealed, EndsLog, recoverwithcrc-entries}
use load_balancer_with_wal.CommitLog.Batches.{length-payloads}
use load_balancer_with_wal.Server.Restart.{
  ask_commited_index, read_log, initiate_recovery_from_log, apply_recovered,
}

module _ {W : Type 0} (p : Platform W) where
  recovery_then :
      (fuel : ℕ) (answer : ℤ) (s : Server) (w w1 w2 : W) (log : List MapOp)
      → ask_commited_index p s.factories_record w ≡ (answer, w1)
      → recoverwithcrc p fuel s.smr_log w1 ≡ ok (log, w2)
      → initiate_recovery_from_log p fuel s w
        ≡ apply_recovered answer (record s { smr_log = log }) w2
  unfolding initiate_recovery_from_log
  recovery_then fuel answer s w w1 w2 log asked recovered =
      rw (asked, initiate_recovery_from_log, ◌>>=◌) (rw (recovered, read_log, ◌>>=◌) (rw asked))

-- The log and the record after a restart.
abbrev pub Restarted : ℕ → List MapOp → Server → Type 0
Restarted k log s' =
    IsApplied k s'
    × (s'.committed_index ≡ before k)
    × (s'.last_index ≡ before k)
    × (s'.smr_log ≡ log)

module _ {W : Type 0} (p : Platform W) (b : ByteLaws p) (f : FileLaws p) where
  -- A new server, with no log, no record and no index, finds n sealed entries in its file, fewer than 2 ^ 31 and
  -- than the fuel, up to where the log ends or is corrupt, and asks its replicas for the committed index. What
  -- comes of this is m, which is 0 for want of an answer; an answer below 0, like that of a replica that has
  -- committed nothing, is excluded, and so is m = n but for 0. Then the start ends, with the log of those entries, of which it has applied all if m is 0 or more
  -- than n, and those up to index m otherwise; both indexes are at the last entry applied, and the
  -- record is the replay of the entries applied.
  pub initiate_recovery_from_log-Restarted :
      (es : List WalSmrEntry) (tail : List ℕ) (fuel m : ℕ) (s : Server) (w w1 : W)
      → s.smr_log ≡ []
      → s.customer_record ≡ []
      → s.committed_index ≡ minus_one
      → s.last_index ≡ minus_one
      → ask_commited_index p s.factories_record w ≡ (pos m, w1)
      → All (IsSealed p) es
      → EndsLog p tail
      → f.unread w1 ≡ entries_bytes p es ++ tail
      → length es < fuel
      → length es < 2 ^ 31
      → (m ≡ 0) ⊎ (m ≢ length es)
      → Ends
          (Restarted (restored_count m (length es)) (payloads es))
          (initiate_recovery_from_log p fuel s w)
  initiate_recovery_from_log-Restarted es tail fuel m s w w1 no_log no_record no_commit no_entry
        asked sealed ends at_front enough small fit =
      let (w2, e) =
        recoverwithcrc-entries p b f es fuel tail w1 sealed ends at_front enough small in
      let size : length (payloads es) ≡ length es = length-payloads es in
      let (s', w', e', done) =
        apply_recovered-Restored m (record s { smr_log = payloads es }) w2
          (record {
            no_record = no_record;
            no_commit = no_commit;
            no_entry = no_entry;
            small = rw size small;
          })
          (rw size fit) in
      let count = ap (restored_count m) size in
      (
        s',
        w',
        recovery_then p fuel (pos m) s w w1 w2 (payloads es) asked (rw no_log e) ∙ e',
        (
          subst (λ k. IsApplied k s') count done.replayed,
          done.committed ∙ ap before count,
          done.last ∙ ap before count,
          done.same_log,
        ),
      )
