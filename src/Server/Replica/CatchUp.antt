-- ===== src/Server/Replica/CatchUp.antt =====
-- A replica with a committed log that has missed entries ends with the log of the primary.
use load_balancer_with_wal.Base.{
  ℕ, ◌+◌, ◌≤◌, ◌<◌, ◌^◌, ◌≡◌, refl, ◌∙◌, ap, sym, subst, inl, Bool, true, false, some, List, ◌++◌,
  length, length-append, All, ok, arith,
}
use load_balancer_with_wal.Base.Int.{ℤ, pos, before, wrap, next, rounds, ltb_ℤ, ◌-ℤ◌}
use load_balancer_with_wal.Platform.{Platform}
use load_balancer_with_wal.Platform.Laws.{ByteLaws}
use load_balancer_with_wal.RobotFactory.{MapOp, ReplReq}
use load_balancer_with_wal.RobotFactory.Wire.RoundTrip.{IsMapOp}
use load_balancer_with_wal.ServerStub.{
  get_replication_request, replication_ack, send_commited_index, get_recovery_log,
}
use load_balancer_with_wal.Server.State.{Server, ◌>>=◌}
use load_balancer_with_wal.Server.State.Spec.{records-append, IsApplied, IsCoherent, Ends}
use load_balancer_with_wal.Server.Replica.Recovery.{
  Delivers, log_recovered-Advanced, get_recovery_log-delivered, next-before, rounds-before,
  gap_many,
}
use load_balancer_with_wal.Server.Replica.{
  receive_log, log_recovered, initiate_recovery, follow_primary, apply_request, ifa_thread_read,
}
use load_balancer_with_wal.Server.Replica.Coherence.{follow_primary-Follows}

module _ {W : Type 0} (p : Platform W) where
  -- The acknowledgement that asks for recovery, the committed index, and the entries in reply.
  pub record Fetches (ifa : ℤ) (committed : ℤ) (os : List MapOp) (w w' : W) : Type 0 where
    pub asked : W
    pub told : W
    pub answered : Bool
    pub acked : replication_ack p ifa (pos 2) w ≡ (true, asked)
    pub noticed :
        send_commited_index p ifa (record { committed_index = committed }) asked ≡ (answered, told)
    pub delivered : Delivers p ifa os told w'

module _ {W : Type 0} (p : Platform W) where
  pub initiate_recovery_then :
      (ifa last comm : ℤ) (s : Server) (w w2 w3 w4 : W) (q : Bool) (log' : List MapOp)
      → replication_ack p ifa (pos 2) w ≡ (true, w2)
      → send_commited_index p ifa (record { committed_index = s.committed_index }) w2 ≡ (q, w3)
      → get_recovery_log p ifa s.smr_log s.last_index last w3 ≡ ok (true, log', w4)
      → initiate_recovery p ifa last comm s w
        ≡ log_recovered p
            (rounds (next s.last_index) last)
            (next s.last_index)
            comm
            (record s { smr_log = log' })
            w4
  unfolding initiate_recovery
  initiate_recovery_then ifa last comm s w w2 w3 w4 q log' acked noticed received =
      rw (acked, initiate_recovery, ◌>>=◌) (rw (noticed, ◌>>=◌) (rw (received, receive_log, ◌>>=◌)))

  pub apply_behind :
      (ifa : ℤ) (req : ReplReq) (s s1 : Server) (w w1 : W)
      → ltb_ℤ (pos 1) (wrap (req.last_index -ℤ s.last_index)) ≡ true
      → initiate_recovery p ifa req.last_index req.committed_index s w ≡ ok (tt, s1, w1)
      → apply_request p ifa req s w ≡ follow_primary p req s1 w1
  unfolding apply_request
  apply_behind ifa req s s1 w w1 far e = rw (far, apply_request) (rw (e, ◌>>=◌))

  pub thread_applies :
      (ifa : ℤ) (req : ReplReq) (s : Server) (w w1 : W)
      → get_replication_request p ifa w ≡ (some req, w1)
      → ifa_thread_read p ifa s w ≡ apply_request p ifa req s w1
  unfolding ifa_thread_read
  thread_applies ifa req s w w1 got = rw (got, ifa_thread_read, ◌>>=◌)

module _ {W : Type 0} (p : Platform W) (b : ByteLaws p) (quiet : (w : W) → p.ferror w ≡ false) where
  -- What the replica has after recovery.
  abbrev pub CaughtUp : ℕ → ReplReq → List MapOp → Server → Server → Type 0
  CaughtUp j req os s s' =
      IsCoherent j s' × (s'.smr_log ≡ s.smr_log ++ os) × (s'.primary_id ≡ req.factory_id)

  initiate_recovery-CaughtUp :
      (j m : ℕ) (ifa : ℤ) (os : List MapOp) (s : Server) (w w4 : W)
      → IsCoherent (length s.smr_log) s
      → length s.smr_log + length os ≡ m
      → m < 2 ^ 31
      → length s.smr_log ≤ j
      → j ≤ m
      → All IsMapOp os
      → Fetches p ifa s.committed_index os w w4
      → (s1 : Server) × (w1 : W) × (initiate_recovery p ifa (before m) (before j) s w
          ≡ ok (tt, s1, w1))
        × IsApplied j s1
        × (s1.committed_index ≡ before j)
        × (s1.smr_log ≡ s.smr_log ++ os)
  initiate_recovery-CaughtUp j m ifa os s w w4 v total small low high ints fetch =
      let n = length s.smr_log in
      let log' : List MapOp = s.smr_log ++ os in
      let start : next s.last_index ≡ pos n = ap next v.indexed ∙ next-before n v.small in
      let received : get_recovery_log p ifa s.smr_log s.last_index (before m) fetch.told
          ≡ ok (true, log', w4) =
        rw (v.indexed, ← total)
          (get_recovery_log-delivered p b os ifa s.smr_log fetch.told w4 ints (omega arith)
            fetch.delivered) in
      let (c, s1, w1, e, a) =
        log_recovered-Advanced p quiet (length os) n m j n (record s { smr_log = log' }) w4 total
          (omega (arith, length-append s.smr_log os))
          (record {
            applied = v.applied ∙ sym (records-append n s.smr_log os (omega arith));
            bounded = omega (arith, length-append s.smr_log os);
            small = omega (arith, length-append s.smr_log os);
          })
          v.committed (inl (refl, low)) in
      let all : c ≡ j = ground (arith, a.reached) in
      (
        s1,
        w1,
        initiate_recovery_then p ifa (before m) (before j) s w fetch.asked fetch.told w4
              fetch.answered log' fetch.acked fetch.noticed received
            ∙ ap
                (λ i.
                  log_recovered p (rounds i (before m)) i (before j) (record s { smr_log = log' })
                    w4)
                start
            ∙ ap (λ k. log_recovered p k (pos n) (before j) (record s { smr_log = log' }) w4)
                (rounds-before n m ∙ omega arith)
            ∙ e,
        subst (λ k. IsApplied k s1) all a.replayed,
        a.committed ∙ ap before all,
        a.same_log,
      )

  -- A replica whose whole log is committed and whose disk reports no error receives a request of a
  -- primary that is two or more entries ahead, at less than 2 ^ 31, and is sent the entries that it
  -- lacks, of `int`s: it ends with those entries behind its own, with as many committed as the primary,
  -- with a record that is the replay of the committed ones, and with the sender as primary.
  pub ifa_thread_read-CaughtUp :
      (j m : ℕ) (ifa : ℤ) (req : ReplReq) (os : List MapOp) (s : Server) (w w1 w4 : W)
      → IsCoherent (length s.smr_log) s
      → get_replication_request p ifa w ≡ (some req, w1)
      → Fetches p ifa s.committed_index os w1 w4
      → length s.smr_log + length os ≡ m
      → 1 < length os
      → m < 2 ^ 31
      → length s.smr_log ≤ j
      → j ≤ m
      → req.last_index ≡ before m
      → req.committed_index ≡ before j
      → All IsMapOp os
      → Ends (CaughtUp j req os s) (ifa_thread_read p ifa s w)
  ifa_thread_read-CaughtUp j m ifa req os s w w1 w4 v got fetch total many small low high last comm
        ints =
      let (s1, w5, e, applied, committed, log) =
        initiate_recovery-CaughtUp j m ifa os s w1 w4 v total small low high ints fetch in
      let full : length s1.smr_log ≡ m = ap length log ∙ length-append s.smr_log os ∙ total in
      let (s', w', e', f) =
        follow_primary-Follows p j j req s1 w5 applied committed (inl refl) (rw full high)
          (last ∙ ap before (sym full)) comm in
      (
        s',
        w',
        thread_applies p ifa req s w w1 got
            ∙ apply_behind p ifa req s s1 w1 w5
                (rw (last, v.indexed) (gap_many (length s.smr_log) m (omega arith) small))
                (rw (last, comm) e)
            ∙ e',
        (f.0, f.1 ∙ log, f.2),
      )
