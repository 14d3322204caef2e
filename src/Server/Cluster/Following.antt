-- ===== src/Server/Cluster/Following.antt =====
-- What a job leaves on the primary, and on the replica that has followed it.
use load_balancer_with_wal.Base.{
  ℕ, zero, suc, ◌+◌, ◌<◌, ◌≤◌, ◌^◌, ◌≡◌, refl, ◌∙◌, ap, sym, subst, ◌⊎◌, inl, inr, true, false,
  some, List, [], ◌∷◌, ◌++◌, append-nil, Bool-cases, length, length-append, All, All-append, ok,
  fault, out_of_range, arith, ltb,
}
use load_balancer_with_wal.Base.Int.{ℤ, pos, before, wrap, ◌-ℤ◌, ltb_ℤ}
use load_balancer_with_wal.Platform.{Platform}
use load_balancer_with_wal.Platform.Laws.{ByteLaws}
use load_balancer_with_wal.RobotFactory.{RobotInf, MapOp, ReplReq}
use load_balancer_with_wal.RobotFactory.Wire.RoundTrip.{IsMapOp}
use load_balancer_with_wal.ServerStub.{get_replication_request}
use load_balancer_with_wal.Server.State.{Server}
use load_balancer_with_wal.Server.State.Spec.{IsCoherent}
use load_balancer_with_wal.Server.Primary.{entry_of, is_order, process_job}
use load_balancer_with_wal.Server.Primary.Orders.{process_job-Served}
use load_balancer_with_wal.Server.Replica.{ifa_thread_read}
use load_balancer_with_wal.Server.Replica.Recovery.{gap_many}
use load_balancer_with_wal.Server.Cluster.{Answered}
use load_balancer_with_wal.Server.Cluster.Steps.{
  added, log_with-added, length-added, Ends-unique, Sent, Linked, Followed, follow_next, follow_far,
  follow_near, size,
}

pub before-inj : (n m : ℕ) → before n ≡ before m → n ≡ m
before-inj zero zero e = refl
before-inj zero (suc m) e = ground arith
before-inj (suc n) zero e = ground arith
before-inj (suc n) (suc m) e = ground arith

pub All-added :
    (robot : RobotInf) (log : List MapOp)
    → IsMapOp (entry_of robot)
    → All IsMapOp log
    → All IsMapOp (log ++ added robot)
All-added robot log h hs =
    All-append IsMapOp log (added robot) hs (elim (Bool-cases (is_order robot)) [
      | inl order ↦ rw order (h, tt)
      | inr notice ↦ rw notice tt
    ])

-- The replica after a request: it has the primary's log, and has committed the n entries before it.
abbrev Caught : ℕ → List MapOp → Server → Type 0
Caught n log r' = IsCoherent n r' × (r'.smr_log ≡ log)

abbrev pub none_missed : List MapOp
none_missed = []

pub Caught-Linked :
    (robot : RobotInf) (n : ℕ) (log : List MapOp) (r' : Server)
    → length log ≡ n + length (added robot)
    → Caught n log r'
    → Linked n none_missed log r'
Caught-Linked robot n log r' size (c, same) = record {
  coherent = c;
  split = sym same ∙ sym (append-nil r'.smr_log);
  near = near (length (added robot)) (length-added robot) size;
}
  where
    near :
        (m : ℕ)
        → m ≤ 1
        → length log ≡ n + m
        → (n ≡ length r'.smr_log) ⊎ ((none_missed ≡ []) × (suc n ≡ length r'.smr_log))
    near zero h e = inl (omega (arith, ap length same))
    near (suc m) h e = inr (refl, omega (arith, ap length same))

one_or_more : (n m : ℕ) → n + 1 ≤ m → (n + 1 < m) ⊎ (m ≡ n + 1)
one_or_more n m h = elim (Bool-cases (ltb (n + 1) m)) [
  | inl far ↦ inl (ground arith)
  | inr near ↦ inr (ground arith)
]

ends_not : {A : Type 0} {a : A} → fault out_of_range ≡ ok a → ⊥
ends_not e = cc

true_not : true ≡ false → ⊥
true_not e = cc

module _ {W V : Type 0} (p : Platform W) (q : Platform V) (b : ByteLaws q)
    (p_quiet : (w : W) → p.ferror w ≡ false) (q_quiet : (v : V) → q.ferror v ≡ false) where
  -- A job of the primary commits its whole log.
  pub primary_after :
      (admin_id : ℤ) (robot : RobotInf) (barrier : ℕ) (s s' : Server) (w w' : W)
      → IsCoherent (length s.smr_log) s
      → length s.smr_log + 1 < 2 ^ 31
      → process_job p admin_id robot barrier s w ≡ ok (tt, s', w')
      → IsCoherent (length s'.smr_log) s' × (s'.smr_log ≡ s.smr_log ++ added robot)
  primary_after admin_id robot barrier s s' w w' v room e =
      let served =
        Ends-unique _ s' w' (process_job-Served p p_quiet admin_id robot barrier s w v room) e in
      (served.coherent, served.logged ∙ log_with-added robot s.smr_log)

  -- What the replica is after a request it has followed: every case but the two that do not end.
  pub replica_after :
      (k : ℕ) (missed : List MapOp) (ifa : ℤ) (robot : RobotInf) (s r r' : Server) (req : ReplReq)
      (log : List MapOp) (v v1 v' : V)
      → Sent robot s req log
      → get_replication_request q ifa v ≡ (some req, v1)
      → length s.smr_log + 1 < 2 ^ 31
      → Linked k missed s.smr_log r
      → All IsMapOp log
      → Answered q ifa r req log v1
      → ifa_thread_read q ifa r v ≡ ok (tt, r', v')
      → Followed q b q_quiet (length s.smr_log) log r'
  replica_after k [] ifa robot s r r' req log v v1 v' sent got room l ints answer e =
      Ends-unique _ r' v' (follow_next q b q_quiet ifa robot s r req log v v1 sent got room k l) e
  replica_after k (x ∷ missed) ifa robot s r r' req log v v1 v' sent got room l ints answer e =
      elim l.near [
        | inl same ↦ replica_lacking (subst (λ n. Linked n (x ∷ missed) s.smr_log r) same l)
        | inr (nothing, _) ↦ absurd (omega (arith, ap length nothing))
      ]
    where
      grown : length log ≡ length s.smr_log + length (added robot)
      grown = size q b q_quiet ifa robot s r req log v v1 sent got room

      replica_lacking :
          Linked (length r.smr_log) (x ∷ missed) s.smr_log r
          → Followed q b q_quiet (length s.smr_log) log r'
      replica_lacking l =
          let held : length s.smr_log ≡ length r.smr_log + suc (length missed) =
            ap length l.split ∙ length-append r.smr_log (x ∷ missed) in
          let far_or_near : (length r.smr_log + 1 < length log)
              ⊎ (length log ≡ length r.smr_log + 1) =
            one_or_more (length r.smr_log) (length log) (omega (arith, grown)) in
          elim far_or_near [
            | inr one ↦ absurd (
                ends_not (
                  sym (
                    follow_near q b q_quiet ifa robot s r req log v v1 sent got room x missed l one)
                  ∙ e))
            | inl far ↦ elim answer [
              | inl no_gap ↦
                  let gap : ltb_ℤ (pos 1) (wrap (req.last_index -ℤ r.last_index)) ≡ true =
                    rw (sent.last, l.coherent.indexed)
                      (gap_many (length r.smr_log) (length log) far
                        (omega (arith, grown, length-added robot))) in
                  absurd (true_not (sym gap ∙ no_gap))
              | inr (v4, fetch) ↦
                  Ends-unique _ r' v'
                    (follow_far q b q_quiet ifa robot s r req log v v1 sent got room (x ∷ missed) v4
                      l far ints fetch)
                    e
            ]
          ]
