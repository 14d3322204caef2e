-- ===== src/Server/Restart/Answers.antt =====
-- Which restarts succeed, by the committed index that the replicas answer.
use load_balancer_with_wal.Base.{
  ℕ, ◌<◌, ◌^◌, ◌≡◌, refl, ◌∙◌, ap, sym, subst, ◌≢◌, ◌⊎◌, inl, inr, [], Bool-cases, length, fault,
  out_of_range, arith,
}
use load_balancer_with_wal.Base.Int.{pos, minus_one}
use load_balancer_with_wal.Server.State.{Server}
use load_balancer_with_wal.Server.State.Spec.{records-zero, IsApplied, Ends}
use load_balancer_with_wal.Server.Restart.Replay.{
  Restored, restored_count, restored_count-le, restored_count_equal, apply_log-Restored,
  apply_log-out_of_range, nothing_to_do, nothing_to_do-empty, apply_recovered-nothing,
  apply_recovered-loop, rounds_of,
}
use load_balancer_with_wal.Server.Restart.{apply_log, apply_recovered}

-- A server whose indexes are as `start` sets them, with a log read from disk.
pub record IsFresh (s : Server) : Type 0 where
  pub no_record : s.customer_record ≡ []
  pub no_commit : s.committed_index ≡ minus_one
  pub no_entry : s.last_index ≡ minus_one
  pub small : length s.smr_log < 2 ^ 31

IsFresh-IsApplied : (s : Server) → IsFresh s → IsApplied 0 s
IsFresh-IsApplied s v = record {
  applied = v.no_record ∙ sym (records-zero s.smr_log);
  bounded = omega arith;
  small = v.small;
}

module _ {W : Type 0} (m : ℕ) (s : Server) (w : W) (v : IsFresh s) where
  pub apply_recovered-Restored :
      (m ≡ 0) ⊎ (m ≢ length s.smr_log)
      → Ends (Restored (restored_count m (length s.smr_log)) s) (apply_recovered (pos m) s w)
  apply_recovered-Restored fit = elim (Bool-cases (nothing_to_do s (pos m))) [
    | inl t ↦
        let (empty, none_committed) = nothing_to_do-empty s m v.small t in
        let count : 0 ≡ restored_count m (length s.smr_log) = rw (none_committed, empty) refl in
        (
          s,
          w,
          apply_recovered-nothing s w (pos m) t,
          subst (λ k. Restored k s s) count
              (record {
                replayed = IsFresh-IsApplied s v;
                committed = v.no_commit;
                last = v.no_entry;
                same_log = refl;
              }),
        )
    | inr t ↦
        let k = restored_count m (length s.smr_log) in
        let (s', w', e, done) =
          apply_log-Restored k 0 k s w (omega arith) (restored_count-le m (length s.smr_log) fit)
            (IsFresh-IsApplied s v) v.no_commit v.no_entry in
        (
          s',
          w',
          apply_recovered-loop s w (pos m) t
              ∙ ap (λ r. apply_log r (pos 0) s w) (rounds_of s w m v.small)
              ∙ e,
          done,
        )
  ]

module _ {W : Type 0} (s : Server) (w : W) (v : IsFresh s) where
  -- The defect: where the replicas answer exactly the size of a log that is not empty, the restart
  -- reads past the end of the log, and the exception ends the process.
  pub apply_recovered-out_of_range :
      0 < length s.smr_log → apply_recovered (pos (length s.smr_log)) s w ≡ fault out_of_range
  apply_recovered-out_of_range some_log =
      let n = length s.smr_log in
      elim (Bool-cases (nothing_to_do s (pos n))) [
        | inl t ↦ let (empty, _) = nothing_to_do-empty s n v.small t in absurd (omega arith)
        | inr t ↦
            apply_recovered-loop s w (pos n) t
            ∙ ap (λ r. apply_log r (pos 0) s w) (rounds_of s w n v.small)
            ∙ apply_log-out_of_range (restored_count n n) 0 s w
                (omega (arith, restored_count_equal n some_log)) (omega arith) v.small
      ]
