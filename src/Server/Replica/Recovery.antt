-- ===== src/Server/Replica/Recovery.antt =====
-- A replica that has missed entries fetches them from the primary.
use load_balancer_with_wal.Base.{
  ℕ, zero, suc, ◌+◌, ◌-◌, ◌≤◌, ◌<◌, ◌^◌, ◌≡◌, refl, ◌∙◌, ap, sym, subst, ◌⊎◌, inl, inr, true, false,
  some, List, [], ◌∷◌, ◌++◌, append_assoc, append-nil, Bool-cases, length, length-append, get_elem?,
  get_elem?-total, All, insert_at-length, ok, arith,
}
use load_balancer_with_wal.Base.Int.{ℤ, pos, before, wrap, next, rounds, ltb_ℤ, leb_ℤ, ◌-ℤ◌}
use load_balancer_with_wal.Platform.{Platform}
use load_balancer_with_wal.Platform.Laws.{ByteLaws}
use load_balancer_with_wal.RobotFactory.{MapOp}
use load_balancer_with_wal.RobotFactory.Wire.{memory, map_op_words, map_op_at}
use load_balancer_with_wal.RobotFactory.Wire.RoundTrip.{IsMapOp, map_op_at-memory}
use load_balancer_with_wal.CommitLog.{CommitLog, map_op_size}
use load_balancer_with_wal.ServerStub.{recv_struct, recv_ops, get_recovery_log}
use load_balancer_with_wal.Server.State.{Server, write_ahead, ◌>>=◌}
use load_balancer_with_wal.Server.State.Map.{put}
use load_balancer_with_wal.Server.State.Spec.{committed_next, IsApplied}
use load_balancer_with_wal.Server.Replica.{log_recovered}
use load_balancer_with_wal.Server.Replica.Coherence.{write_ahead_ends}

module _ {W : Type 0} (p : Platform W) where
  -- The next calls of `recv` on a socket give the bytes of these entries, one entry a call.
  abbrev pub Delivers : ℤ → List MapOp → W → W → Type 0
  Delivers sock [] w w' = w ≡ w'
  Delivers sock (o ∷ os) w w' =
      (w1 : W) × (p.recv sock map_op_size w ≡ (pos map_op_size, memory p (map_op_words o), w1))
      × Delivers sock os w1 w'

pub next-before : (n : ℕ) → n < 2 ^ 31 → next (before n) ≡ pos n
next-before zero h = refl
next-before (suc n) h = ground arith

pub next_pos : (n : ℕ) → n + 1 < 2 ^ 31 → next (pos n) ≡ pos (n + 1)
next_pos n h = ground arith

pub rounds-before : (n m : ℕ) → rounds (pos n) (before m) ≡ m - n
rounds-before n zero = ground arith
rounds-before n (suc m) = ground arith

pub gap_many :
    (n m : ℕ) → n + 1 < m → m < 2 ^ 31 → ltb_ℤ (pos 1) (wrap (before m -ℤ before n)) ≡ true
gap_many n zero h s = absurd (omega arith)
gap_many zero (suc m) h s = ground arith
gap_many (suc n) (suc m) h s = ground arith

module _ {W : Type 0} (p : Platform W) (b : ByteLaws p) where
  recv_struct-entry :
      (o : MapOp) (sock : ℤ) (w w1 : W)
      → IsMapOp o
      → p.recv sock map_op_size w ≡ (pos map_op_size, memory p (map_op_words o), w1)
      → recv_struct p sock map_op_size (map_op_at p) w ≡ (some o, w1)
  unfolding recv_struct
  recv_struct-entry o sock w w1 h got =
      rw (got, recv_struct)
        (ap (λ o'. (some o', w1))
          (ap (map_op_at p) (sym (append-nil _)) ∙ map_op_at-memory p b o [] h))

  recv_ops-delivered :
      (os : List MapOp) (sock : ℤ) (log : List MapOp) (w w' : W)
      → All IsMapOp os
      → length log + length os < 2 ^ 31
      → Delivers p sock os w w'
      → recv_ops p sock (length os) (pos (length log)) log w ≡ ok (true, log ++ os, w')
  unfolding recv_ops
  recv_ops-delivered [] sock log w w' h small d = rw (append-nil log, d)
  recv_ops-delivered (o ∷ os) sock log w w' h small (w1, got, d) =
      let grown : length (log ++ o ∷ []) ≡ length log + 1 = length-append log (o ∷ []) in
      let rest = recv_ops-delivered os sock (log ++ o ∷ []) w1 w' h.1 (omega arith) d in
      rw (recv_struct-entry o sock w w1 h.0 got, recv_ops)
        (rw (insert_at-length log o, recv_struct-entry o sock w w1 h.0 got)
          (ap (λ i. recv_ops p sock (length os) i (log ++ o ∷ []) w1)
              (next_pos (length log) (omega arith) ∙ ap pos (sym grown))
            ∙ rest
            ∙ ap (λ xs. ok (true, xs, w')) (append_assoc log (o ∷ []) os)))

  pub get_recovery_log-delivered :
      (os : List MapOp) (sock : ℤ) (log : List MapOp) (w w' : W)
      → All IsMapOp os
      → length log + length os < 2 ^ 31
      → Delivers p sock os w w'
      → get_recovery_log p sock log (before (length log)) (before (length log + length os)) w
        ≡ ok (true, log ++ os, w')
  unfolding get_recovery_log
  get_recovery_log-delivered os sock log w w' h small d =
      let n = length log in
      let count : rounds (pos n) (before (n + length os)) ≡ length os =
        rounds-before n (n + length os) ∙ omega arith in
      rw (next-before n (omega arith)) (rw count (recv_ops-delivered os sock log w w' h small d))

-- The server after a round that commits the entry o of index i.
abbrev pub with_commit : ℕ → MapOp → CommitLog → Server → Server
with_commit i o c s = record s {
  clog = c;
  customer_record = put o.arg1 o.arg2 s.customer_record;
  smr_repl_commit = record s.smr_repl_commit { committed_index = pos i };
}

module _ {W : Type 0} (p : Platform W) (quiet : (w : W) → p.ferror w ≡ false) where
  -- Where the loop of initiate_recovery stands at index i: the entries below both i and j are
  -- committed.
  abbrev pub Reached : ℕ → ℕ → ℕ → Type 0
  Reached i j c = ((c ≡ i) × (i ≤ j)) ⊎ ((c ≡ j) × (j ≤ i))

  pub record Advanced (j i c : ℕ) (s s' : Server) : Type 0 where
    pub replayed : IsApplied c s'
    pub committed : s'.committed_index ≡ before c
    pub reached : Reached i j c
    pub same_log : s'.smr_log ≡ s.smr_log

  module _ (r i : ℕ) (last : ℤ) (s : Server) (w w1 : W) (o : MapOp) (c : CommitLog)
      (found : get_elem? s.smr_log i ≡ some o)
      (wrote : write_ahead p o s w ≡ ok (tt, record s { clog = c }, w1)) where
    pub round_commits :
        leb_ℤ (pos i) last ≡ true
        → log_recovered p (suc r) (pos i) last s w
          ≡ log_recovered p r (next (pos i)) last (with_commit i o c s) w1
    unfolding log_recovered
    round_commits below = rw (found, log_recovered) (rw (wrote, ◌>>=◌) (rw (below, ◌>>=◌)))

    pub round_skips :
        leb_ℤ (pos i) last ≡ false
        → log_recovered p (suc r) (pos i) last s w
          ≡ log_recovered p r (next (pos i)) last (record s { clog = c }) w1
    unfolding log_recovered
    round_skips above = rw (found, log_recovered) (rw (wrote, ◌>>=◌) (rw (above, ◌>>=◌)))

  leb_before : (i j : ℕ) → leb_ℤ (pos i) (before j) ≡ true → i < j
  leb_before i zero h = ground arith
  leb_before i (suc j) h = ground arith

  not-leb_before : (i j : ℕ) → leb_ℤ (pos i) (before j) ≡ false → j ≤ i
  not-leb_before i zero h = omega arith
  not-leb_before i (suc j) h = ground arith

  pub log_recovered-Advanced :
      (r i m j c : ℕ) (s : Server) (w : W)
      → i + r ≡ m
      → m ≡ length s.smr_log
      → IsApplied c s
      → s.committed_index ≡ before c
      → Reached i j c
      → (c' : ℕ) × (s' : Server) × (w' : W) × (log_recovered p r (pos i) (before j) s w
          ≡ ok (tt, s', w'))
        × Advanced j m c' s s'
  log_recovered-Advanced zero i m j c s w e full v cm near =
      let here : i ≡ m = omega arith in
      (
        c,
        s,
        w,
        unfold log_recovered in refl,
        record {
          replayed = v;
          committed = cm;
          reached = subst (λ k. Reached k j c) here near;
          same_log = refl;
        },
      )
  log_recovered-Advanced (suc r) i m j c s w e full v cm near =
      let (o, found) = get_elem?-total s.smr_log i (omega arith) in
      let (clog', w1, wrote) = write_ahead_ends p quiet o s w in
      let bound = v.small in
      let inext : next (pos i) ≡ pos (i + 1) = next_pos i (omega arith) in
      elim (Bool-cases (leb_ℤ (pos i) (before j))) [
        | inl below ↦
            let lt = leb_before i j below in
            let same : c ≡ i = omega arith in
            let s1 : Server = with_commit i o clog' s in
            let (c', s', w', e', a) =
              log_recovered-Advanced r (i + 1) m j (suc i) s1 w1 (omega arith) full
                (record {
                  applied = committed_next c i o s v (inr (omega arith)) found;
                  bounded = omega arith;
                  small = v.small;
                })
                refl (inl (omega arith, omega arith)) in
            (
              c',
              s',
              w',
              round_commits r i (before j) s w w1 o clog' found wrote below
                  ∙ ap (λ k. log_recovered p r k (before j) s1 w1) inext
                  ∙ e',
              record {
                replayed = a.replayed;
                committed = a.committed;
                reached = a.reached;
                same_log = a.same_log;
              },
            )
        | inr above ↦
            let le = not-leb_before i j above in
            let s1 : Server = record s { clog = clog' } in
            let (c', s', w', e', a) =
              log_recovered-Advanced r (i + 1) m j c s1 w1 (omega arith) full
                (record { applied = v.applied; bounded = v.bounded; small = v.small }) cm
                (inr (omega arith, omega arith)) in
            (
              c',
              s',
              w',
              round_skips r i (before j) s w w1 o clog' found wrote above
                  ∙ ap (λ k. log_recovered p r k (before j) s1 w1) inext
                  ∙ e',
              record {
                replayed = a.replayed;
                committed = a.committed;
                reached = a.reached;
                same_log = a.same_log;
              },
            )
      ]
