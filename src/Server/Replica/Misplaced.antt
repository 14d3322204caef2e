-- ===== src/Server/Replica/Misplaced.antt =====
-- A replica with an entry that is not committed sends its committed index, and files the entries that
-- come back behind its last one.
use load_balancer_with_wal.Base.{
  ℕ, zero, suc, ◌+◌, ◌-◌, ◌≤◌, ◌<◌, ◌^◌, ◌≡◌, refl, ◌∙◌, ap, inl, inr, true, false, some, List,
  ◌++◌, Bool-cases, length, length-append, take, drop, length-drop, length-take-le, get_elem?-take,
  All-drop, All-take, get_elem?-append_right, get_elem?-drop, get_elem?, get_elem?-total, All, ok,
  arith,
}
use load_balancer_with_wal.Base.Int.{ℤ, pos, before, next, rounds, leb_ℤ}
use load_balancer_with_wal.Platform.{Platform}
use load_balancer_with_wal.Platform.Laws.{ByteLaws}
use load_balancer_with_wal.RobotFactory.{MapOp, ReplReq}
use load_balancer_with_wal.RobotFactory.Wire.RoundTrip.{IsMapOp}
use load_balancer_with_wal.ServerStub.{get_replication_request, get_recovery_log}
use load_balancer_with_wal.Server.State.{Server}
use load_balancer_with_wal.Server.State.Map.{put}
use load_balancer_with_wal.Server.State.Spec.{IsCoherent, Ends}
use load_balancer_with_wal.Server.Replica.Recovery.{
  round_commits, round_skips, with_commit, next_pos, get_recovery_log-delivered, next-before,
  rounds-before, gap_many,
}
use load_balancer_with_wal.Server.Replica.{
  log_recovered, initiate_recovery, follow_primary, ifa_thread_read,
}
use load_balancer_with_wal.Server.Replica.CatchUp.{
  Fetches, initiate_recovery_then, apply_behind, thread_applies,
}
use load_balancer_with_wal.Server.Replica.Coherence.{write_ahead_ends}

module _ {W : Type 0} (p : Platform W) (quiet : (w : W) → p.ferror w ≡ false) where
  -- The loop of initiate_recovery leaves the log as it is.
  smr_log-log_recovered :
      (r i m : ℕ) (last : ℤ) (s : Server) (w : W)
      → i + r ≡ m
      → m ≡ length s.smr_log
      → m < 2 ^ 31
      → Ends (λ s'. s'.smr_log ≡ s.smr_log) (log_recovered p r (pos i) last s w)
  smr_log-log_recovered zero i m last s w e full small = (s, w, unfold log_recovered in refl, refl)
  smr_log-log_recovered (suc r) i m last s w e full small =
      let (o, found) = get_elem?-total s.smr_log i (omega arith) in
      let (clog', w1, wrote) = write_ahead_ends p quiet o s w in
      let inext : next (pos i) ≡ pos (i + 1) = next_pos i (omega arith) in
      elim (Bool-cases (leb_ℤ (pos i) last)) [
        | inl below ↦
            let s1 : Server = with_commit i o clog' s in
            let (s', w', e', same) =
              smr_log-log_recovered r (i + 1) m last s1 w1 (omega arith) full small in
            (
              s',
              w',
              round_commits p quiet r i last s w w1 o clog' found wrote below
                  ∙ ap (λ k. log_recovered p r k last s1 w1) inext
                  ∙ e',
              same,
            )
        | inr above ↦
            let s1 : Server = record s { clog = clog' } in
            let (s', w', e', same) =
              smr_log-log_recovered r (i + 1) m last s1 w1 (omega arith) full small in
            (
              s',
              w',
              round_skips p quiet r i last s w w1 o clog' found wrote above
                  ∙ ap (λ k. log_recovered p r k last s1 w1) inext
                  ∙ e',
              same,
            )
      ]

module _ {W : Type 0} (p : Platform W) where
  smr_log-follow_primary :
      (j : ℕ) (req : ReplReq) (s : Server) (w : W)
      → j ≤ length s.smr_log
      → req.committed_index ≡ before j
      → Ends (λ s'. s'.smr_log ≡ s.smr_log) (follow_primary p req s w)
  unfolding follow_primary
  smr_log-follow_primary zero req s w fits comm = (
    record s {
      smr_repl_commit = record s.smr_repl_commit {
        last_index = req.last_index;
        primary_id = req.factory_id;
      };
    },
    w,
    rw (comm, follow_primary) refl,
    refl,
  )
  smr_log-follow_primary (suc i) req s w fits comm =
      let (o, e) = get_elem?-total s.smr_log i fits in
      (
        record s {
          customer_record = put o.arg1 o.arg2 s.customer_record;
          smr_repl_commit = record s.smr_repl_commit {
            last_index = req.last_index;
            primary_id = req.factory_id;
            committed_index = req.committed_index;
          };
        },
        w,
        rw (comm, follow_primary) (rw e),
        refl,
      )

module _ {W : Type 0} (p : Platform W) (b : ByteLaws p) (quiet : (w : W) → p.ferror w ≡ false) where
  initiate_recovery-append :
      (m : ℕ) (ifa comm : ℤ) (os : List MapOp) (s : Server) (w w4 : W)
      → s.last_index ≡ before (length s.smr_log)
      → length s.smr_log + length os ≡ m
      → m < 2 ^ 31
      → All IsMapOp os
      → Fetches p ifa s.committed_index os w w4
      → Ends (λ s'. s'.smr_log ≡ s.smr_log ++ os) (initiate_recovery p ifa (before m) comm s w)
  initiate_recovery-append m ifa comm os s w w4 indexed total small ints fetch =
      let n = length s.smr_log in
      let log' : List MapOp = s.smr_log ++ os in
      let start : next s.last_index ≡ pos n = ap next indexed ∙ next-before n (omega arith) in
      let received : get_recovery_log p ifa s.smr_log s.last_index (before m) fetch.told
          ≡ ok (true, log', w4) =
        rw (indexed, ← total)
          (get_recovery_log-delivered p b os ifa s.smr_log fetch.told w4 ints (omega arith)
            fetch.delivered) in
      let (s', w', e, same) =
        smr_log-log_recovered p quiet (length os) n m comm (record s { smr_log = log' }) w4 total
          (omega (arith, length-append s.smr_log os)) small in
      (
        s',
        w',
        initiate_recovery_then p ifa (before m) comm s w fetch.asked fetch.told w4 fetch.answered
              log' fetch.acked fetch.noticed received
            ∙ ap
                (λ i. log_recovered p (rounds i (before m)) i comm (record s { smr_log = log' }) w4)
                start
            ∙ ap (λ k. log_recovered p k (pos n) comm (record s { smr_log = log' }) w4)
                (rounds-before n m ∙ omega arith)
            ∙ e,
        same,
      )

  -- The defect: a replica whose disk reports no error has committed k of its n entries, with k below n, and a request comes from a
  -- primary whose log has m entries, more than n + 1, all of `int`s. The entries that come back are the
  -- primary's from the k-th on, as SendRecoveryLog sends them, as many as the replica lacks. It ends
  -- with them behind its own: the k-th entry of the primary stands where the n-th belongs.
  pub ifa_thread_read-misplaces :
      (k n m j : ℕ) (ifa : ℤ) (req : ReplReq) (primary_log : List MapOp) (s : Server) (w w1 w4 : W)
      → IsCoherent k s
      → k < n
      → length s.smr_log ≡ n
      → length primary_log ≡ m
      → n + 1 < m
      → m < 2 ^ 31
      → j ≤ m
      → All IsMapOp primary_log
      → get_replication_request p ifa w ≡ (some req, w1)
      → Fetches p ifa s.committed_index (take (m - n) (drop k primary_log)) w1 w4
      → req.last_index ≡ before m
      → req.committed_index ≡ before j
      → Ends
          (λ s'.
            (s'.smr_log ≡ s.smr_log ++ take (m - n) (drop k primary_log))
            × (get_elem? s'.smr_log n ≡ get_elem? primary_log k))
          (ifa_thread_read p ifa s w)
  ifa_thread_read-misplaces k n m j ifa req primary_log s w w1 w4 v uncommitted size size_p far
        small fits ints got fetch last comm =
      let os = take (m - n) (drop k primary_log) in
      let count : length os ≡ m - n =
        length-take-le (m - n) (drop k primary_log) (omega (arith, length-drop k primary_log)) in
      let (s1, w5, e, log) =
        initiate_recovery-append m ifa (before j) os s w1 w4 v.indexed (omega arith) small
          (All-take IsMapOp (m - n) _ (All-drop IsMapOp k primary_log ints)) fetch in
      let full : length s1.smr_log ≡ m = ap length log ∙ length-append s.smr_log os ∙ omega arith in
      let (s', w', e', same) = smr_log-follow_primary p j req s1 w5 (rw full fits) comm in
      let log' = same ∙ log in
      (
        s',
        w',
        thread_applies p ifa req s w w1 got
            ∙ apply_behind p ifa req s s1 w1 w5
                (rw (last, v.indexed, size) (gap_many n m far small)) (rw (last, comm) e)
            ∙ e',
        (
          log',
          ap (λ xs. get_elem? xs n) log'
              ∙ get_elem?-append_right s.smr_log os n size
              ∙ get_elem?-take (m - n) (drop k primary_log) (omega arith)
              ∙ get_elem?-drop k primary_log,
        ),
      )
