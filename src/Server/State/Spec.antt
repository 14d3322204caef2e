-- ===== src/Server/State/Spec.antt =====
-- What a server promises: its customer record is the replay of the committed part of its log.
pub mod LastOrder
use load_balancer_with_wal.Base.{
  ℕ, suc, ◌⊎◌, inl, inr, arith, ◌≤◌, ◌<◌, ◌^◌, ◌≡◌, refl, ap, ◌∙◌, sym, some, List, [], ◌∷◌, ◌++◌,
  length, take, take-suc, take-append_left, take-of_le, get_elem?, Result, ok,
}
use load_balancer_with_wal.Base.Int.{ℤ, before}
use load_balancer_with_wal.RobotFactory.{MapOp}
use load_balancer_with_wal.Server.State.{Server}
use load_balancer_with_wal.Server.State.Map.{put, put-put_self}

-- Each entry of a log applied in order.
pub replay : List (ℤ × ℤ) → List MapOp → List (ℤ × ℤ)
replay m [] = m
replay m (o ∷ os) = replay (put o.arg1 o.arg2 m) os

pub replay-append :
    (m : List (ℤ × ℤ)) (os : List MapOp) (o : MapOp)
    → replay m (os ++ o ∷ []) ≡ put o.arg1 o.arg2 (replay m os)
unfolding replay
replay-append m [] o = refl
replay-append m (x ∷ os) o = replay-append (put x.arg1 x.arg2 m) os o

-- The record after the first k entries of a log.
pub records : ℕ → List MapOp → List (ℤ × ℤ)
records k log = replay [] (take k log)

pub records-zero : (log : List MapOp) → records 0 log ≡ []
unfolding records replay
records-zero log = refl

pub records-suc :
    (k : ℕ) (log : List MapOp) (o : MapOp)
    → get_elem? log k ≡ some o
    → records (suc k) log ≡ put o.arg1 o.arg2 (records k log)
unfolding records
records-suc k log o e = ap (replay []) (take-suc log k o e) ∙ replay-append [] (take k log) o

pub records-whole : (log : List MapOp) → records (length log) log ≡ replay [] log
unfolding records
records-whole log = ap (replay []) (take-of_le (length log) log (omega arith))

-- The record of a longer log, up to an entry that the shorter one has.
pub records-append :
    (k : ℕ) (xs ys : List MapOp) → k ≤ length xs → records k (xs ++ ys) ≡ records k xs
unfolding records
records-append k xs ys h = ap (replay []) (take-append_left xs ys k h)

-- To commit an entry that is committed already changes nothing.
pub records-again :
    (k : ℕ) (log : List MapOp) (o : MapOp)
    → get_elem? log k ≡ some o
    → put o.arg1 o.arg2 (records (suc k) log) ≡ records (suc k) log
records-again k log o e =
    ap (put o.arg1 o.arg2) (records-suc k log o e)
    ∙ put-put_self o.arg1 o.arg2 _
    ∙ sym (records-suc k log o e)

-- The customer record is the replay of the first k entries of the log.
pub record IsApplied (k : ℕ) (s : Server) : Type 0 where
  pub applied : s.customer_record ≡ records k s.smr_log
  pub bounded : k ≤ length s.smr_log
  pub small : length s.smr_log < 2 ^ 31

-- To commit the k-th entry, or once more the one before it.
pub committed_next :
    (k i : ℕ) (o : MapOp) (s : Server)
    → IsApplied k s
    → (suc i ≡ k) ⊎ (suc i ≡ suc k)
    → get_elem? s.smr_log i ≡ some o
    → put o.arg1 o.arg2 s.customer_record ≡ records (suc i) s.smr_log
committed_next k i o s v (inl same) e =
    ap (put o.arg1 o.arg2) (v.applied ∙ ap (λ n. records n s.smr_log) (sym same))
    ∙ records-again i s.smr_log o e
committed_next k i o s v (inr new) e =
    let same : k ≡ i = omega arith in
    ap (put o.arg1 o.arg2) (v.applied ∙ ap (λ n. records n s.smr_log) same)
    ∙ sym (records-suc i s.smr_log o e)

-- And the indexes say so: the last entry is that of `last_index`, and k entries are committed.
pub record IsCoherent (k : ℕ) (s : Server) : Type 0 where
  pub replayed : IsApplied k s
  pub open replayed use *
  pub indexed : s.last_index ≡ before (length s.smr_log)
  pub committed : s.committed_index ≡ before k

-- An action ends with a server that meets P.
abbrev pub Ends : {W : Type 0} → (Server → Type 0) → Result (Unit {0} × Server × W) → Type 0
Ends {W} P r = (s' : Server) × (w' : W) × (r ≡ ok (tt, s', w')) × P s'
