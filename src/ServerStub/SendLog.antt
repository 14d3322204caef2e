-- ===== src/ServerStub/SendLog.antt =====
-- ServerStub::SendRecoveryLog: which entries the primary sends.
use load_balancer_with_wal.Base.{
  ℕ, zero, suc, ◌<◌, ◌^◌, ◌≡◌, refl, ◌∙◌, ap, sym, subst, Bool, true, false, not, Option, some,
  none, List, [], ◌∷◌, ◌++◌, map, append-nil, append_assoc, drop, arith,
}
use load_balancer_with_wal.Base.Int.{ℤ, pos, before, next, to_word, IsInt}
use load_balancer_with_wal.Platform.{Platform}
use load_balancer_with_wal.Platform.Laws.{ByteLaws}
use load_balancer_with_wal.RobotFactory.{MapOp, CommitIn}
use load_balancer_with_wal.RobotFactory.Wire.{memory, map_op_words, commit_in_words, commit_in_at}
use load_balancer_with_wal.RobotFactory.Wire.RoundTrip.{commit_in_at-memory}
use load_balancer_with_wal.ServerStub.Structs.{not_failed, recv_struct-got}
use load_balancer_with_wal.ServerStub.{failed, send_struct, send_ops, send_recovery_log}

-- The documented behaviour of a socket whose sends succeed: `sent` is what each descriptor has sent,
-- a message for each call.
pub record SendLaws {W : Type 0} (p : Platform W) : Type 0 where
  pub sent : ℤ → W → List (List ℕ)
  pub send_count : (sock : ℤ) (bs : List ℕ) (w : W) → (n : ℕ) × ((p.send sock bs w).0 ≡ pos n)
  pub sent-send :
      (sock : ℤ) (bs : List ℕ) (w : W) → sent sock (p.send sock bs w).1 ≡ sent sock w ++ bs ∷ []

-- the messages of these entries
abbrev pub op_messages : {W : Type 0} → Platform W → List MapOp → List (List ℕ)
op_messages p = map λ o. memory p (map_op_words o)

pub from_committed : (k : ℕ) → k < 2 ^ 31 → to_word (next (before k)) ≡ k
from_committed zero h = refl
from_committed (suc k) h = ground arith

before-IsInt : (k : ℕ) → k < 2 ^ 31 → IsInt (before k)
before-IsInt zero h = omega arith
before-IsInt (suc k) h = omega arith

module _ {W : Type 0} (p : Platform W) (sl : SendLaws p) where
  open sl use {sent, send_count, sent-send}

  send_struct-true : (sock : ℤ) (words : List ℕ) (w : W) → (send_struct p sock words w).0 ≡ true
  unfolding send_struct
  send_struct-true sock words w =
      let (n, e) = send_count sock (memory p words) w in
      ap (λ r. not (failed r)) e ∙ ap not (not_failed n)

  send_ops-step :
      (o : MapOp) (os : List MapOp) (sock : ℤ) (w : W)
      → send_ops p sock (o ∷ os) w
        ≡ send_ops p sock os (p.send sock (memory p (map_op_words o)) w).1
  unfolding send_ops send_struct
  send_ops-step o os sock w =
      let w' : W = (p.send sock (memory p (map_op_words o)) w).1 in
      ap (λ q. elim q [ true ↦ send_ops p sock os w' | false ↦ (false, w') ])
        (send_struct-true sock (map_op_words o) w)

  Sent : ℤ → List MapOp → W → Bool × W → Type 0
  Sent sock os w r = (r.0 ≡ true) × (sent sock r.1 ≡ sent sock w ++ op_messages p os)

  send_ops-messages : (os : List MapOp) (sock : ℤ) (w : W) → Sent sock os w (send_ops p sock os w)
  unfolding Sent send_ops
  send_ops-messages [] sock w = (refl, sym (append-nil (sent sock w)))
  send_ops-messages (o ∷ os) sock w =
      let bs : List ℕ = memory p (map_op_words o) in
      let w' : W = (p.send sock bs w).1 in
      let (all, e) = send_ops-messages os sock w' in
      subst (Sent sock (o ∷ os) w) (sym (send_ops-step o os sock w)) (
        all,
        e
            ∙ ap (λ xs. xs ++ op_messages p os) (sent-send sock bs w)
            ∙ append_assoc (sent sock w) (bs ∷ []) (op_messages p os),
      )

  module _ (b : ByteLaws p) where
    send_recovery_log-reads :
        (k : ℕ) (sock : ℤ) (log : List MapOp) (w w1 : W)
        → k < 2 ^ 31
        → p.recv sock 4 w
          ≡ (pos 4, memory p (commit_in_words (record { committed_index = before k })), w1)
        → send_recovery_log p sock log w ≡ send_ops p sock (drop k log) w1
    unfolding send_recovery_log
    send_recovery_log-reads k sock log w w1 small got =
        let c : CommitIn = record { committed_index = before k } in
        let read : commit_in_at p (memory p (commit_in_words c)) ≡ c =
          ap (commit_in_at p) (sym (append-nil _))
          ∙ commit_in_at-memory p b c [] (before-IsInt k small) in
        let first : ℤ → ℕ = λ i. to_word (next i) in
        ap
          (λ (x : Option CommitIn × W). elim x.0 [
            | none ↦ (false, x.1)
            | some c ↦ send_ops p sock (drop (first c.committed_index) log) x.1
          ])
          (recv_struct-got p (commit_in_at p) sock 4 4 _ c w w1 got read)
        ∙ ap (λ n. send_ops p sock (drop n log) w1) (from_committed k small)

    -- A replica that has committed k entries has sent its committed index, and no send fails: the
    -- primary sends its entries from the k-th on, a message each, and succeeds.
    pub send_recovery_log-messages :
        (k : ℕ) (sock : ℤ) (log : List MapOp) (w w1 : W)
        → k < 2 ^ 31
        → p.recv sock 4 w
          ≡ (pos 4, memory p (commit_in_words (record { committed_index = before k })), w1)
        → ((send_recovery_log p sock log w).0 ≡ true)
          × (sent sock (send_recovery_log p sock log w).1
              ≡ sent sock w1 ++ op_messages p (drop k log))
    unfolding Sent
    send_recovery_log-messages k sock log w w1 small got =
        subst (Sent sock (drop k log) w1) (sym (send_recovery_log-reads k sock log w w1 small got))
          (send_ops-messages (drop k log) sock w1)
