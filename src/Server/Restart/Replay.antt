-- ===== src/Server/Restart/Replay.antt =====
-- A restart applies the log that it has read, up to an index that the replicas give.
use load_balancer_with_wal.Base.{
  ℕ, zero, suc, ◌+◌, ◌≤◌, ◌<◌, ◌^◌, ◌≡◌, refl, ◌∙◌, ap, subst, ◌≢◌, ◌⊎◌, inr, Bool, true, false,
  some, none, length, get_elem?, get_elem?-total, get_elem?-none, ok, fault, out_of_range, arith,
  if◌then◌else◌, ◌&&◌, ltb,
}
use load_balancer_with_wal.Base.Int.{ℤ, pos, before, next, rounds, int_of_size, ltb_ℤ, eq_ℤ}
use load_balancer_with_wal.RobotFactory.{MapOp}
use load_balancer_with_wal.Server.State.{Server}
use load_balancer_with_wal.Server.State.Map.{put}
use load_balancer_with_wal.Server.State.Spec.{committed_next, IsApplied, Ends}
use load_balancer_with_wal.Server.Replica.Recovery.{next_pos, rounds-before}
use load_balancer_with_wal.Server.Restart.{last_of_size, recovery_end, apply_log, apply_recovered}

-- The first k entries are applied, and both indexes are at the last of them.
pub record Restored (k : ℕ) (s s' : Server) : Type 0 where
  pub replayed : IsApplied k s'
  pub committed : s'.committed_index ≡ before k
  pub last : s'.last_index ≡ before k
  pub same_log : s'.smr_log ≡ s.smr_log

-- the server with the entry o of index i applied
abbrev applied_at : ℕ → MapOp → Server → Server
applied_at i o s = record s {
  customer_record = put o.arg1 o.arg2 s.customer_record;
  smr_repl_commit = record s.smr_repl_commit { committed_index = pos i; last_index = pos i };
}

module _ {W : Type 0} where
  apply_log-step :
      (r i : ℕ) (s : Server) (w : W) (o : MapOp)
      → get_elem? s.smr_log i ≡ some o
      → apply_log (suc r) (pos i) s w ≡ apply_log r (next (pos i)) (applied_at i o s) w
  unfolding apply_log
  apply_log-step r i s w o e = rw (e, apply_log)

  apply_log-past :
      (r i : ℕ) (s : Server) (w : W)
      → get_elem? s.smr_log i ≡ none
      → apply_log (suc r) (pos i) s w ≡ fault out_of_range
  unfolding apply_log
  apply_log-past r i s w e = rw (e, apply_log)

  pub apply_log-Restored :
      (r i k : ℕ) (s : Server) (w : W)
      → i + r ≡ k
      → k ≤ length s.smr_log
      → IsApplied i s
      → s.committed_index ≡ before i
      → s.last_index ≡ before i
      → Ends (Restored k s) (apply_log r (pos i) s w)
  apply_log-Restored zero i k s w e fits v c l =
      let here : i ≡ k = omega arith in
      (
        s,
        w,
        unfold apply_log in refl,
        record {
          replayed = subst (λ j. IsApplied j s) here v;
          committed = c ∙ ap before here;
          last = l ∙ ap before here;
          same_log = refl;
        },
      )
  apply_log-Restored (suc r) i k s w e fits v c l =
      let (o, found) = get_elem?-total s.smr_log i (omega arith) in
      let bound = v.small in
      let (s', w', e', done) =
        apply_log-Restored r (suc i) k (applied_at i o s) w (omega arith) fits
          (record {
            applied = committed_next i i o s v (inr refl) found;
            bounded = omega arith;
            small = v.small;
          })
          refl refl in
      (
        s',
        w',
        apply_log-step r i s w o found
            ∙ ap (λ j. apply_log r j (applied_at i o s) w)
                (next_pos i (omega arith) ∙ ap pos (omega arith))
            ∙ e',
        record {
          replayed = done.replayed;
          committed = done.committed;
          last = done.last;
          same_log = done.same_log;
        },
      )

  pub apply_log-out_of_range :
      (r i : ℕ) (s : Server) (w : W)
      → i + r ≡ suc (length s.smr_log)
      → i ≤ length s.smr_log
      → length s.smr_log < 2 ^ 31
      → apply_log r (pos i) s w ≡ fault out_of_range
  apply_log-out_of_range zero i s w e le small = absurd (omega arith)
  apply_log-out_of_range (suc zero) i s w e le small =
      apply_log-past 0 i s w (get_elem?-none s.smr_log i (omega arith))
  apply_log-out_of_range (suc (suc r)) i s w e le small =
      let (o, found) = get_elem?-total s.smr_log i (omega arith) in
      apply_log-step (suc r) i s w o found
      ∙ ap (λ j. apply_log (suc r) j (applied_at i o s) w) (next_pos i (omega arith))
      ∙ apply_log-out_of_range (suc r) (i + 1) (applied_at i o s) w (omega arith) (omega arith)
          small

size_int : (n : ℕ) → n < 2 ^ 31 → int_of_size n ≡ pos n
size_int n h = ground arith

last_of_size-before : (n : ℕ) → n < 2 ^ 31 → last_of_size n ≡ before n
last_of_size-before zero h = refl
last_of_size-before (suc n) h = ground arith

-- How many entries of a log of n a restart applies, if the answer of the replicas is m.
abbrev pub restored_count : ℕ → ℕ → ℕ
restored_count zero n = n
restored_count (suc m) n = if ltb n (suc m) then n else suc (suc m)

-- `recovery_end` over the size and the last index of the log.
abbrev end_of : ℤ → ℤ → ℤ → ℤ
end_of size last answer =
    let end : ℤ = if ltb_ℤ size answer then last else answer in
    if eq_ℤ end (pos 0) then last else end

end_of-before : (m n : ℕ) → end_of (pos n) (before n) (pos m) ≡ before (restored_count m n)
end_of-before zero zero = refl
end_of-before zero (suc n) = ground arith
end_of-before (suc m) zero = ground arith
end_of-before (suc m) (suc zero) = ground arith
end_of-before (suc m) (suc (suc n)) = ground arith

recovery_end-before : (m n : ℕ) → n < 2 ^ 31 → recovery_end (pos m) n ≡ before (restored_count m n)
unfolding recovery_end
recovery_end-before m n h =
    ap (λ size. end_of size (last_of_size n) (pos m)) (size_int n h)
    ∙ ap (λ last. end_of (pos n) last (pos m)) (last_of_size-before n h)
    ∙ end_of-before m n

pub restored_count-le : (m n : ℕ) → (m ≡ 0) ⊎ (m ≢ n) → restored_count m n ≤ n
restored_count-le zero n h = omega arith
restored_count-le (suc m) n h = ground arith

pub restored_count_equal : (n : ℕ) → 0 < n → restored_count n n ≡ suc n
restored_count_equal zero h = absurd (omega arith)
restored_count_equal (suc n) h = ground arith

pub nothing_to_do : Server → ℤ → Bool
nothing_to_do s answer = eq_ℤ (int_of_size (length s.smr_log)) (pos 0) && eq_ℤ answer (pos 0)

module _ {W : Type 0} (s : Server) (w : W) where
  pub apply_recovered-nothing :
      (answer : ℤ) → nothing_to_do s answer ≡ true → apply_recovered answer s w ≡ ok (tt, s, w)
  unfolding apply_recovered nothing_to_do
  apply_recovered-nothing answer t = rw (t, apply_recovered)

  pub apply_recovered-loop :
      (answer : ℤ)
      → nothing_to_do s answer ≡ false
      → apply_recovered answer s w
        ≡ apply_log (rounds (pos 0) (recovery_end answer (length s.smr_log))) (pos 0) s w
  unfolding apply_recovered nothing_to_do
  apply_recovered-loop answer t = rw (t, apply_recovered)

  pub rounds_of :
      (m : ℕ)
      → length s.smr_log < 2 ^ 31
      → rounds (pos 0) (recovery_end (pos m) (length s.smr_log))
        ≡ restored_count m (length s.smr_log)
  rounds_of m small =
      ap (rounds (pos 0)) (recovery_end-before m (length s.smr_log) small)
      ∙ rounds-before 0 (restored_count m (length s.smr_log))
      ∙ omega arith

zero_sizes : (n m : ℕ) → (eq_ℤ (pos n) (pos 0) && eq_ℤ (pos m) (pos 0)) ≡ true → (n ≡ 0) × (m ≡ 0)
zero_sizes n m h = ground arith

-- Only an empty log with the answer 0 is nothing to do.
pub nothing_to_do-empty :
    (s : Server) (m : ℕ)
    → length s.smr_log < 2 ^ 31
    → nothing_to_do s (pos m) ≡ true
    → (length s.smr_log ≡ 0) × (m ≡ 0)
unfolding nothing_to_do
nothing_to_do-empty s m small h = zero_sizes (length s.smr_log) m (
    subst (λ size. (eq_ℤ size (pos 0) && eq_ℤ (pos m) (pos 0)) ≡ true)
      (size_int (length s.smr_log) small) h)
