-- ===== src/Server/Durable/Frames.antt =====
-- Actions that neither write to the log on disk nor change the log in memory.
use load_balancer_with_wal.Base.{
  ℕ, Bool, true, false, List, ◌≡◌, refl, ◌∙◌, sym, ap, subst, Result, ok, fault, at, ◌&&◌,
  if◌then◌else◌,
}
use load_balancer_with_wal.Base.Int.{pos, leb_ℤ, ltb_ℤ, eq_ℤ}
use load_balancer_with_wal.Platform.{Platform}
use load_balancer_with_wal.Platform.Laws.{FileLaws, SocketLaws}
use load_balancer_with_wal.RobotFactory.{MapOp, WalSmrEntry}
use load_balancer_with_wal.CommitLog.{CommitLog}
use load_balancer_with_wal.CommitLog.Batches.{IsLogged}
use load_balancer_with_wal.Server.State.{Server, Exec, pure, ◌>>=◌, get_server, modify, net, lift}
use load_balancer_with_wal.Server.Primary.{recheckcommit, recheckreplsock, recheck}
use load_balancer_with_wal.Server.Threads.Frames.{bind_ok, same_end, fault_not}
use load_balancer_with_wal.Server.Durable.{Persists, EndsIn}
use load_balancer_with_wal.Server.Durable.Sockets.{Same, recheckreplsock-Same}

abbrev world_or : {W A : Type 0} → W → Result (A × Server × W) → W
world_or w (ok (_, _, v)) = v
world_or w (fault _) = w

-- Two ends of one action have one world.
pub same_world :
    {W A : Type 0} {a b : A} {s t : Server} {v w : W}
    → ◌≡◌ {A = Result (A × Server × W)} (ok (a, s, v)) (ok (b, t, w))
    → v ≡ w
same_world {v} e = ap (world_or v) e

pub EndsIn-unique :
    {W : Type 0} (P : Server → W → Type 0) (r : Result (Unit {0} × Server × W)) (s' : Server)
    (w' : W)
    → EndsIn P r
    → r ≡ ok (tt, s', w')
    → P s' w'
EndsIn-unique P r s' w' (s1, w1, e1, h) e =
    let both = sym e1 ∙ e in
    subst (λ v. P s' v) (same_world both) (subst (λ t. P t w1) (same_end both) h)

module _ {W : Type 0} (p : Platform W) (f : FileLaws p) (n : SocketLaws p f) (size : ℕ) where
  IsLogged-Same :
      (k : ℕ) (es : List WalSmrEntry) (ops : List MapOp) (c : CommitLog) (w w' : W)
      → Same p f n w w'
      → IsLogged p f k es ops c w
      → IsLogged p f k es ops c w'
  IsLogged-Same k es ops c w w' same v = record {
    stored = ap (λ t. t.1) same ∙ v.stored;
    accepted = ap (λ t. t.0) same ∙ v.accepted;
    seals = v.seals;
    pending = v.pending;
    all_ops = v.all_ops;
    whole = v.whole;
    room = v.room;
  }

  pub Persists-Same :
      (s s' : Server) (w w' : W)
      → s'.smr_log ≡ s.smr_log
      → s'.clog ≡ s.clog
      → Same p f n w w'
      → Persists p f size s w
      → Persists p f size s' w'
  Persists-Same s s' w w' log clog same v =
      let there = IsLogged-Same v.batches v.entries s.smr_log s.clog w w' same v.is_logged in
      record {
        batches = v.batches;
        entries = v.entries;
        is_logged =
            subst (λ c. IsLogged p f v.batches v.entries s'.smr_log c w') (sym clog)
              (subst (λ os. IsLogged p f v.batches v.entries os s.clog w') (sym log) there);
        flushing = rw clog v.flushing;
        same_size = rw clog v.same_size;
      }

  abbrev pub Keeps : {A : Type 0} → Exec W A → Type 0
  Keeps {A} m =
      (s s' : Server) (w w' : W) (a : A)
      → m s w ≡ ok (a, s', w')
      → Persists p f size s w
      → Persists p f size s' w'

  -- An action that ends with these.
  ends_in :
      {A : Type 0} {a b : A} (s t : Server) (v w : W)
      → ◌≡◌ {A = Result (A × Server × W)} (ok (a, s, v)) (ok (b, t, w))
      → Persists p f size s v
      → Persists p f size t w
  ends_in s t v w e h =
      subst (λ u. Persists p f size t u) (same_world e)
        (subst (λ u. Persists p f size u v) (same_end e) h)

  pure-Keeps : {A : Type 0} (a : A) → Keeps (pure a)
  pure-Keeps a s s' w w' b e h = ends_in s s' w w' e h

  get_server-Keeps : Keeps get_server
  get_server-Keeps s s' w w' b e h = ends_in s s' w w' e h

  net-Keeps : {A : Type 0} (m : W → A × W) → ((w : W) → Same p f n w (m w).1) → Keeps (net m)
  net-Keeps m same s s' w w' b e h =
      ends_in s s' (m w).1 w' e (Persists-Same s s w (m w).1 refl refl (same w) h)

  lift-Keeps : {A : Type 0} (r : Result A) → Keeps (lift r)
  lift-Keeps (ok a) s s' w w' b e h = ends_in s s' w w' e h
  lift-Keeps (fault x) s s' w w' b e h = absurd (fault_not x e)

  modify-Keeps :
      (g : Server → Server)
      → ((s : Server) → (g s).smr_log ≡ s.smr_log)
      → ((s : Server) → (g s).clog ≡ s.clog)
      → Keeps (modify g)
  modify-Keeps g log clog s s' w w' b e h =
      ends_in (g s) s' w w' e (Persists-Same s (g s) w w (log s) (clog s) refl h)

  bind-Keeps :
      {A B : Type 0} (m : Exec W A) (k : A → Exec W B)
      → Keeps m
      → ((a : A) → Keeps (k a))
      → Keeps (m >>= k)
  bind-Keeps m k hm hk s s' w w' b e h =
      let (a, t, v, e1, e2) = bind_ok m k s s' w w' b e in hk a t s' v w' b e2 (hm s t w v a e1 h)

  if-Keeps :
      {A : Type 0} (q : Bool) (m k : Exec W A) → Keeps m → Keeps k → Keeps (if q then m else k)
  if-Keeps true m k hm hk = hm
  if-Keeps false m k hm hk = hk

  recheckcommit-Keeps : Keeps recheckcommit
  unfolding recheckcommit
  recheckcommit-Keeps = bind-Keeps get_server _ get_server-Keeps λ s.
      if-Keeps (leb_ℤ (pos 0) s.last_index && ltb_ℤ s.committed_index s.last_index) _ _
        (bind-Keeps _ _ (lift-Keeps (at s.smr_log s.last_index))
          λ o. modify-Keeps _ (λ s. refl) (λ s. refl))
        (pure-Keeps tt)

  pub recheck-Keeps : Keeps (recheck p)
  unfolding recheck
  recheck-Keeps = bind-Keeps get_server _ get_server-Keeps λ s.
      if-Keeps (eq_ℤ s.recheck_allow (pos 1)) _ _
        (bind-Keeps _ _ recheckcommit-Keeps λ _. bind-Keeps get_server _ get_server-Keeps λ s1.
          bind-Keeps (net (recheckreplsock p s1.factories_record)) _
            (net-Keeps (recheckreplsock p s1.factories_record)
              (recheckreplsock-Same p f n s1.factories_record))
            λ fs.
              modify-Keeps (λ s. record s { factories_record = fs; recheck_allow = pos 0 })
                (λ s. refl) (λ s. refl))
        (pure-Keeps tt)
