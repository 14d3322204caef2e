-- ===== src/Server/Threads/Frames.antt =====
-- What the actions of the admin thread and the replica's thread leave alone: the lists of the engineer
-- threads and their promises.
use load_balancer_with_wal.Base.{
  Bool, true, false, List, if◌then◌else◌, ◌≡◌, refl, ◌∙◌, sym, ap, Result, ok, fault, Fault, subst,
}
use load_balancer_with_wal.Base.Int.{ℤ}
use load_balancer_with_wal.Platform.{Platform}
use load_balancer_with_wal.RobotFactory.{MapOp, FactoryRec}
use load_balancer_with_wal.CommitLog.{CommitLog}
use load_balancer_with_wal.Server.State.{
  Server, Exec, pure, ◌>>=◌, get_server, modify, net, lift, set_primary, set_last_index, commit,
  with_clog, write_ahead,
}

-- The same orders wait, and the same promises are set.
pub record SameJobs (s s' : Server) : Type 0 where
  pub robots : s'.admin_thread_list ≡ s.admin_thread_list
  pub barriers : s'.barrier_list ≡ s.barrier_list
  pub promised : s'.fulfilled ≡ s.fulfilled

pub SameJobs-refl : (s : Server) → SameJobs s s
SameJobs-refl s = record { robots = refl; barriers = refl; promised = refl }

pub SameJobs-trans : {s t u : Server} → SameJobs s t → SameJobs t u → SameJobs s u
SameJobs-trans a b = record {
  robots = b.robots ∙ a.robots;
  barriers = b.barriers ∙ a.barriers;
  promised = b.promised ∙ a.promised;
}

-- An action that leaves them alone when it ends.
abbrev pub Leaves : {W A : Type 0} → Exec W A → Type 0
Leaves {W} {A} m = (s s' : Server) (w w' : W) (a : A) → m s w ≡ ok (a, s', w') → SameJobs s s'

abbrev and_then :
    {W A B : Type 0} → (A → Exec W B) → Result (A × Server × W) → Result (B × Server × W)
and_then f (ok (a, s, w)) = f a s w
and_then f (fault x) = fault x

pub fault_not : {A : Type 0} {a : A} (x : Fault) → fault x ≡ ok a → ⊥
fault_not x e = cc

-- A chain of actions that ends did so one by one.
pub bind_ok :
    {W A B : Type 0} (m : Exec W A) (f : A → Exec W B) (s s' : Server) (w w' : W) (b : B)
    → (m >>= f) s w ≡ ok (b, s', w')
    → (a : A) × (t : Server) × (v : W) × (m s w ≡ ok (a, t, v)) × (f a t v ≡ ok (b, s', w'))
bind_ok {W} {A} {B} m f s s' w w' b e = go (m s w) refl
  where
    go :
        (r : Result (A × Server × W))
        → m s w ≡ r
        → (a : A) × (t : Server) × (v : W) × (m s w ≡ ok (a, t, v)) × (f a t v ≡ ok (b, s', w'))
    go (ok (a, t, v)) same = (a, t, v, same, sym (ap (and_then f) same) ∙ e)
    go (fault x) same = absurd (fault_not x (sym (ap (and_then f) same) ∙ e))

abbrev server_or : {W A : Type 0} → Server → Result (A × Server × W) → Server
server_or s (ok (_, t, _)) = t
server_or s (fault _) = s

-- Two ends of one action have one server.
pub same_end :
    {W A : Type 0} {a b : A} {s t : Server} {v w : W}
    → ◌≡◌ {A = Result (A × Server × W)} (ok (a, s, v)) (ok (b, t, w))
    → s ≡ t
same_end {s} e = ap (server_or s) e

ends_as : {s t u : Server} → t ≡ u → SameJobs s t → SameJobs s u
ends_as {s} e j = subst (λ v. SameJobs s v) e j

pub same_jobs :
    {s t u : Server}
    → t ≡ u
    → t.admin_thread_list ≡ s.admin_thread_list
    → t.barrier_list ≡ s.barrier_list
    → t.fulfilled ≡ s.fulfilled
    → SameJobs s u
same_jobs e a b c = ends_as e (record { robots = a; barriers = b; promised = c })

module _ {W : Type 0} where
  pub pure-Leaves : {A : Type 0} (a : A) → Leaves {W = W} (pure a)
  pure-Leaves a s s' w w' b e = ends_as (same_end e) (SameJobs-refl s)

  pub get_server-Leaves : Leaves {W = W} get_server
  get_server-Leaves s s' w w' b e = ends_as (same_end e) (SameJobs-refl s)

  pub net-Leaves : {A : Type 0} (m : W → A × W) → Leaves (net m)
  net-Leaves m s s' w w' b e = ends_as (same_end e) (SameJobs-refl s)

  pub lift-Leaves : {A : Type 0} (r : Result A) → Leaves {W = W} (lift r)
  lift-Leaves (ok a) s s' w w' b e = ends_as (same_end e) (SameJobs-refl s)
  lift-Leaves (fault x) s s' w w' b e = absurd (fault_not x e)

  pub bind-Leaves :
      {A B : Type 0} (m : Exec W A) (f : A → Exec W B)
      → Leaves m
      → ((a : A) → Leaves (f a))
      → Leaves (m >>= f)
  bind-Leaves m f hm hf s s' w w' b e =
      let (a, t, v, e1, e2) = bind_ok m f s s' w w' b e in
      SameJobs-trans (hm s t w v a e1) (hf a t s' v w' b e2)

  pub if-Leaves :
      {A : Type 0} (q : Bool) (m k : Exec W A) → Leaves m → Leaves k → Leaves (if q then m else k)
  if-Leaves true m k hm hk = hm
  if-Leaves false m k hm hk = hk

  pub set_primary-Leaves : (id : ℤ) → Leaves {W = W} (set_primary id)
  set_primary-Leaves id s s' w w' b e = same_jobs (same_end e) refl refl refl

  pub set_last_index-Leaves : (i : ℤ) → Leaves {W = W} (set_last_index i)
  set_last_index-Leaves i s s' w w' b e = same_jobs (same_end e) refl refl refl

  pub smr_log-Leaves : (os : List MapOp) → Leaves {W = W} (modify (λ s. record s { smr_log = os }))
  smr_log-Leaves os s s' w w' b e = same_jobs (same_end e) refl refl refl

  pub factories-Leaves :
      (fs : List FactoryRec) → Leaves {W = W} (modify (λ s. record s { factories_record = fs }))
  factories-Leaves fs s s' w w' b e = same_jobs (same_end e) refl refl refl

  pub rechecked-Leaves :
      (fs : List FactoryRec) (i : ℤ)
      → Leaves {W = W} (modify (λ s. record s { factories_record = fs; recheck_allow = i }))
  rechecked-Leaves fs i s s' w w' b e = same_jobs (same_end e) refl refl refl

  pub recheck_allow-Leaves : (i : ℤ) → Leaves {W = W} (modify (λ s. record s { recheck_allow = i }))
  recheck_allow-Leaves i s s' w w' b e = same_jobs (same_end e) refl refl refl

  pub commit-Leaves : (o : MapOp) (i : ℤ) → Leaves {W = W} (commit o i)
  commit-Leaves o i s s' w w' b e = same_jobs (same_end e) refl refl refl

  pub with_clog-Leaves : (f : CommitLog → W → Result (CommitLog × W)) → Leaves (with_clog f)
  with_clog-Leaves f s s' w w' b e = go (f s.clog w) refl
    where
      written : Result (CommitLog × W) → Result (Unit {0} × Server × W)
      written (ok (c, v)) = ok (tt, record s { clog = c }, v)
      written (fault x) = fault x

      go : (r : Result (CommitLog × W)) → f s.clog w ≡ r → SameJobs s s'
      go (ok (c, v)) same =
          ends_as (same_end (sym (ap written same) ∙ e))
            (record { robots = refl; barriers = refl; promised = refl })
      go (fault x) same = absurd (fault_not x (sym (ap written same) ∙ e))

  pub write_ahead-Leaves : (p : Platform W) (o : MapOp) → Leaves (write_ahead p o)
  unfolding write_ahead
  write_ahead-Leaves p o = with_clog-Leaves _

  -- What an action gives when it ends.
  abbrev pub Gives : {A : Type 0} → (A → Type 0) → Exec W A → Type 0
  Gives {A} P m = (s s' : Server) (w w' : W) (a : A) → m s w ≡ ok (a, s', w') → P a

  pub pure-Gives : {A : Type 0} (P : A → Type 0) (a : A) → P a → Gives P (pure a)
  pure-Gives P a h s s' w w' b e = subst P (ap (value_or a) e) h
    where
      value_or : {A : Type 0} → A → Result (A × Server × W) → A
      value_or x (ok (y, _, _)) = y
      value_or x (fault _) = x

  pub bind-Gives :
      {A B : Type 0} (P : B → Type 0) (m : Exec W A) (f : A → Exec W B)
      → ((a : A) → Gives P (f a))
      → Gives P (m >>= f)
  bind-Gives P m f h s s' w w' b e =
      let (a, t, v, _, e2) = bind_ok m f s s' w w' b e in h a t s' v w' b e2

  pub if-Gives :
      {A : Type 0} (P : A → Type 0) (q : Bool) (m k : Exec W A)
      → Gives P m
      → Gives P k
      → Gives P (if q then m else k)
  if-Gives P true m k hm hk = hm
  if-Gives P false m k hm hk = hk
