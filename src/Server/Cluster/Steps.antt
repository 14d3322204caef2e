-- ===== src/Server/Cluster/Steps.antt =====
-- What a job of the primary sends, and what a replica makes of it.
use load_balancer_with_wal.Base.{
  ℕ, suc, ◌+◌, ◌<◌, ◌≤◌, ◌^◌, ◌≡◌, refl, ◌∙◌, ap, sym, subst, ◌⊎◌, inl, inr, Bool, true, false, not,
  some, List, [], ◌∷◌, ◌++◌, append_assoc, append-nil, Bool-cases, length, length-append, drop,
  drop-append, All, Result, ok, fault, out_of_range, arith, if◌then◌else◌,
}
use load_balancer_with_wal.Base.Int.{ℤ, pos, minus_one, before, next, to_word, eq_ℤ, eq_ℤ_iff}
use load_balancer_with_wal.Platform.{Platform}
use load_balancer_with_wal.Platform.Laws.{ByteLaws}
use load_balancer_with_wal.RobotFactory.{RobotInf, MapOp, ReplReq}
use load_balancer_with_wal.RobotFactory.Wire.RoundTrip.{IsMapOp}
use load_balancer_with_wal.ServerStub.{get_replication_request}
use load_balancer_with_wal.ServerStub.SendLog.{from_committed}
use load_balancer_with_wal.Server.State.{Server}
use load_balancer_with_wal.Server.State.Spec.{IsCoherent, Ends}
use load_balancer_with_wal.Server.Primary.{entry_of, request_of, is_order}
use load_balancer_with_wal.Server.Primary.Orders.{as_primary, append_entry-append}
use load_balancer_with_wal.Server.Replica.{ifa_thread_read}
use load_balancer_with_wal.Server.Replica.Coherence.{log_after, ifa_thread_read-InStep}
use load_balancer_with_wal.Server.Replica.CatchUp.{Fetches, ifa_thread_read-CaughtUp}
use load_balancer_with_wal.Server.Replica.MissedOne.{ifa_thread_read-missed_one}
use load_balancer_with_wal.Server.Cluster.{Sends, sends_order, sends_notice}

-- The entry of a job, if it is an order, and the log after the job.
abbrev pub added : RobotInf → List MapOp
added robot = if is_order robot then entry_of robot ∷ [] else []

abbrev pub log_with : RobotInf → List MapOp → List MapOp
log_with robot log = if is_order robot then log ++ entry_of robot ∷ [] else log

pub log_with-added : (robot : RobotInf) (log : List MapOp) → log_with robot log ≡ log ++ added robot
log_with-added robot log = elim (Bool-cases (is_order robot)) [
  | inl order ↦ rw order refl
  | inr notice ↦ rw notice (sym (append-nil log))
]

pub length-added : (robot : RobotInf) → length (added robot) ≤ 1
length-added robot = elim (Bool-cases (is_order robot)) [
  | inl order ↦ rw order (omega arith)
  | inr notice ↦ rw notice (omega arith)
]

-- A job that adds nothing is not an order.
added-notice : (robot : RobotInf) → length (added robot) ≡ 0 → (entry_of robot).arg1 ≡ minus_one
unfolding entry_of
added-notice robot none_added = elim (Bool-cases (eq_ℤ robot.customer_id minus_one)) [
  | inl notice ↦ (eq_ℤ_iff robot.customer_id minus_one).0 notice
  | inr order ↦ absurd (
      omega (arith, none_added, ap (λ q. length (if not q then entry_of robot ∷ [] else [])) order))
]

-- An action that ends has one end.
pub Ends-unique :
    {W : Type 0} {P : Server → Type 0} (r : Result (Unit {0} × Server × W)) (s' : Server) (w' : W)
    → Ends P r
    → r ≡ ok (tt, s', w')
    → P s'
Ends-unique {W} {P} r s' w' (s1, w1, e, h) e' = subst P (ap server_of (sym e ∙ e')) h
  where
    server_of : Result (Unit {0} × Server × W) → Server
    server_of (ok (_, t, _)) = t
    server_of (fault _) = s1

-- The request of a job, on a primary that has committed its whole log.
pub record Sent (robot : RobotInf) (s : Server) (req : ReplReq) (log : List MapOp) : Type 0 where
  pub all : log ≡ log_with robot s.smr_log
  pub last : req.last_index ≡ before (length log)
  pub committed : req.committed_index ≡ before (length s.smr_log)
  pub entry : req.mapop_record ≡ entry_of robot

module _ {W : Type 0} (p : Platform W) (quiet : (w : W) → p.ferror w ≡ false) where
  pub Sends-Sent :
      (robot : RobotInf) (s : Server) (w : W) (req : ReplReq) (log : List MapOp)
      → IsCoherent (length s.smr_log) s
      → Sends p robot s w req log
      → Sent robot s req log
  unfolding request_of
  Sends-Sent robot s w req log v (sends_notice notice same_req same_log) = record {
    all = same_log ∙ rw notice refl;
    last =
        ap (λ (r : ReplReq). r.last_index) same_req
        ∙ v.indexed
        ∙ ap (λ xs. before (length xs)) (sym same_log);
    committed = ap (λ (r : ReplReq). r.committed_index) same_req ∙ v.committed;
    entry = ap (λ (r : ReplReq). r.mapop_record) same_req;
  }
  Sends-Sent robot s w req log v (sends_order s1 w1 order e same_req same_log) =
      let (c, w2, e2) =
        append_entry-append p quiet (entry_of robot) (as_primary s) w v.indexed v.small in
      let now : Server = record (as_primary s) {
        clog = c;
        smr_log = s.smr_log ++ entry_of robot ∷ [];
        smr_repl_commit = record (as_primary s).smr_repl_commit {
          last_index = pos (length s.smr_log);
        };
      } in
      let same : now ≡ s1 = Ends-unique {P = λ t. now ≡ t} _ s1 w1 (now, w2, e2, refl) e in
      let grown : log ≡ s.smr_log ++ entry_of robot ∷ [] =
        same_log ∙ ap (λ (t : Server). t.smr_log) (sym same) in
      record {
        all = grown ∙ rw order refl;
        last =
            ap (λ (r : ReplReq). r.last_index) same_req
            ∙ ap (λ (t : Server). t.last_index) (sym same)
            ∙ ap before (sym (ap length grown ∙ one_more s.smr_log (entry_of robot)));
        committed =
            ap (λ (r : ReplReq). r.committed_index) same_req
            ∙ ap (λ (t : Server). t.committed_index) (sym same)
            ∙ v.committed;
        entry = ap (λ (r : ReplReq). r.mapop_record) same_req;
      }
    where
      one_more : (xs : List MapOp) (x : MapOp) → length (xs ++ x ∷ []) ≡ suc (length xs)
      one_more xs x = omega (arith, length-append xs (x ∷ []))

log_after-log_with :
    (robot : RobotInf) (s : Server) (req : ReplReq) (log xs : List MapOp)
    → Sent robot s req log
    → log_after req xs ≡ log_with robot xs
unfolding entry_of
log_after-log_with robot s req log xs v =
    ap (λ (o : MapOp). if eq_ℤ o.arg1 minus_one then xs else xs ++ o ∷ []) v.entry
    ∙ flip (eq_ℤ robot.customer_id minus_one)
  where
    flip :
        (b : Bool)
        → (if b then xs else xs ++ entry_of robot ∷ [])
          ≡ (if not b then xs ++ entry_of robot ∷ [] else xs)
    flip true = refl
    flip false = refl

-- A replica of a primary that has committed n entries: it has a front part of the primary's log, has
-- committed k entries, and where it has missed entries, or has been cut off, it has committed all of its own.
pub record Linked (k : ℕ) (missed log : List MapOp) (r : Server) : Type 0 where
  pub coherent : IsCoherent k r
  pub split : log ≡ r.smr_log ++ missed
  pub near : (k ≡ length r.smr_log) ⊎ ((missed ≡ []) × (suc k ≡ length r.smr_log))

module _ {V : Type 0} (q : Platform V) (b : ByteLaws q) (quiet : (v : V) → q.ferror v ≡ false) where
  -- What is left when a replica has followed a request of a primary that had n entries.
  abbrev pub Followed : ℕ → List MapOp → Server → Type 0
  Followed n log r' = IsCoherent n r' × (r'.smr_log ≡ log)

  module _ (ifa : ℤ) (robot : RobotInf) (s r : Server) (req : ReplReq) (log : List MapOp) (v v1 : V)
      (sent : Sent robot s req log) (got : get_replication_request q ifa v ≡ (some req, v1))
      (room : length s.smr_log + 1 < 2 ^ 31) where
    pub size : length log ≡ length s.smr_log + length (added robot)
    size =
        ap length (sent.all ∙ log_with-added robot s.smr_log)
        ∙ length-append s.smr_log (added robot)

    -- The replica has missed nothing.
    pub follow_next :
        (k : ℕ)
        → Linked k [] s.smr_log r
        → Ends (Followed (length s.smr_log) log) (ifa_thread_read q ifa r v)
    follow_next k l =
        let same : s.smr_log ≡ r.smr_log = l.split ∙ append-nil r.smr_log in
        let after : log_after req r.smr_log ≡ log =
          log_after-log_with robot s req log r.smr_log sent
          ∙ ap (log_with robot) (sym same)
          ∙ sym sent.all in
        let (r', v', e, (c, grown, _)) =
          ifa_thread_read-InStep q quiet k (length s.smr_log) ifa req r v v1 l.coherent got
            (near_log k l same) (rw after (omega (arith, size)))
            (rw after (omega (arith, size, length-added robot)))
            (sent.last ∙ ap (λ xs. before (length xs)) (sym after)) sent.committed in
        (r', v', e, (c, grown ∙ after))
      where
        near_log :
            (k : ℕ)
            → Linked k [] s.smr_log r
            → s.smr_log ≡ r.smr_log
            → (length s.smr_log ≡ k) ⊎ (length s.smr_log ≡ suc k)
        near_log k l same = elim l.near [
          | inl all ↦ inl (ap length same ∙ sym all)
          | inr (_, last) ↦ inr (ap length same ∙ sym last)
        ]

    -- The replica lacks two entries or more, and has committed its own.
    pub follow_far :
        (missed : List MapOp) (v4 : V)
        → Linked (length r.smr_log) missed s.smr_log r
        → length r.smr_log + 1 < length log
        → All IsMapOp log
        → Fetches q ifa r.committed_index (drop (to_word (next r.committed_index)) log) v1 v4
        → Ends (Followed (length s.smr_log) log) (ifa_thread_read q ifa r v)
    follow_far missed v4 l far ints fetch =
        let n = length r.smr_log in
        let lacking : List MapOp = missed ++ added robot in
        let whole : log ≡ r.smr_log ++ lacking =
          sent.all
          ∙ log_with-added robot s.smr_log
          ∙ ap (λ xs. xs ++ added robot) l.split
          ∙ append_assoc r.smr_log missed (added robot) in
        let from : to_word (next r.committed_index) ≡ n =
          ap (λ i. to_word (next i)) l.coherent.committed ∙ from_committed n l.coherent.small in
        let os : drop (to_word (next r.committed_index)) log ≡ lacking =
          ap (λ k. drop k log) from ∙ ap (drop n) whole ∙ drop-append r.smr_log lacking n refl in
        let total : n + length lacking ≡ length log =
          sym (ap length whole ∙ length-append r.smr_log lacking) in
        let held : length s.smr_log ≡ n + length missed =
          ap length l.split ∙ length-append r.smr_log missed in
        let (r', v', e, (c, grown, _)) =
          ifa_thread_read-CaughtUp q b quiet (length s.smr_log) (length log) ifa req lacking r v v1
            v4 l.coherent got (subst (λ xs. Fetches q ifa r.committed_index xs v1 v4) os fetch)
            total (omega arith) (omega (arith, size, length-added robot)) (omega arith)
            (omega (arith, size)) sent.last sent.committed
            (All-back r.smr_log lacking (subst (All IsMapOp) whole ints)) in
        (r', v', e, (c, grown ∙ sym whole))
      where
        All-back : (xs ys : List MapOp) → All IsMapOp (xs ++ ys) → All IsMapOp ys
        All-back [] ys h = h
        All-back (x ∷ xs) ys h = All-back xs ys h.1

    -- The replica lacks one entry, which it is not sent: the job was no order.
    pub follow_near :
        (x : MapOp) (missed : List MapOp)
        → Linked (length r.smr_log) (x ∷ missed) s.smr_log r
        → length log ≡ length r.smr_log + 1
        → ifa_thread_read q ifa r v ≡ fault out_of_range
    follow_near x missed l one =
        let held : length s.smr_log ≡ length r.smr_log + suc (length missed) =
          ap length l.split ∙ length-append r.smr_log (x ∷ missed) in
        let held_one : length s.smr_log ≡ suc (length r.smr_log) = omega (arith, size) in
        let last : length log ≡ suc (length r.smr_log) = omega (arith, one) in
        ifa_thread_read-missed_one q quiet (length r.smr_log) ifa req r v v1 l.coherent got
          (ap (λ (o : MapOp). o.arg1) sent.entry ∙ added-notice robot (omega (arith, size)))
          (sent.last ∙ ap before last) (sent.committed ∙ ap before held_one)
