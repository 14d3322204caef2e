-- ===== src/Server/Threads/Primary.antt =====
-- What the admin thread does to the lists of the engineer threads and to their promises.
use load_balancer_with_wal.Base.{
  ℕ, true, false, Bool-cases, List, [], ◌∷◌, ◌++◌, if◌then◌else◌, ◌≡◌, refl, ◌∙◌, sym, ap, Result,
  ok, fault, undefined, insert_at, at, ◌⊎◌, inl, inr, ◌&&◌, subst,
}
use load_balancer_with_wal.Base.Int.{ℤ, pos, eq_ℤ, next, leb_ℤ, ltb_ℤ}
use load_balancer_with_wal.Platform.{Platform}
use load_balancer_with_wal.RobotFactory.{MapOp, RobotInf}
use load_balancer_with_wal.Server.State.{Server, Exec, ◌>>=◌, ◌>>◌, get_server, commit}
use load_balancer_with_wal.Server.Primary.{
  is_order, entry_of, fulfil, pop_job, append_entry, replicate, request_of, process_job,
  recheckcommit, recheckreplsock, recheck, unless_empty, serve_front, admin_round,
}
use load_balancer_with_wal.Server.Threads.Frames.{
  SameJobs, Leaves, bind_ok, same_end, fault_not, set_last_index-Leaves, smr_log-Leaves,
  factories-Leaves, rechecked-Leaves, net-Leaves, lift-Leaves, get_server-Leaves, pure-Leaves,
  bind-Leaves, if-Leaves, set_primary-Leaves, commit-Leaves, write_ahead-Leaves,
}

-- The robot as the admin thread leaves it.
abbrev pub served_robot : ℤ → RobotInf → RobotInf
served_robot admin_id robot = if is_order robot then record robot { admin_id = admin_id } else robot

-- The promise of a job is set, and nothing else of the engineer threads changes.
pub record Fulfils (barrier : ℕ) (robot : RobotInf) (s s' : Server) : Type 0 where
  pub robots : s'.admin_thread_list ≡ s.admin_thread_list
  pub barriers : s'.barrier_list ≡ s.barrier_list
  pub promised : s'.fulfilled ≡ s.fulfilled ++ (barrier, robot) ∷ []

-- What is taken off the lists, and what is left.
record Popped (robot : RobotInf) (barrier : ℕ) (s s' : Server) : Type 0 where
  robots : s.admin_thread_list ≡ robot ∷ s'.admin_thread_list
  barriers : s.barrier_list ≡ barrier ∷ s'.barrier_list
  promised : s'.fulfilled ≡ s.fulfilled

-- The front job is off the lists, and its promise is set.
pub record Takes (admin_id : ℤ) (s s' : Server) : Type 0 where
  pub robot : RobotInf
  pub barrier : ℕ
  pub robots : s.admin_thread_list ≡ robot ∷ s'.admin_thread_list
  pub barriers : s.barrier_list ≡ barrier ∷ s'.barrier_list
  pub promised : s'.fulfilled ≡ s.fulfilled ++ (barrier, served_robot admin_id robot) ∷ []

module _ {W : Type 0} (p : Platform W) where
  append_entry-Leaves : (o : MapOp) → Leaves (append_entry p o)
  unfolding append_entry
  append_entry-Leaves o = bind-Leaves get_server _ get_server-Leaves λ s.
      bind-Leaves _ _ (set_last_index-Leaves (next s.last_index)) λ _.
        bind-Leaves _ _ (write_ahead-Leaves p o) λ _.
          bind-Leaves get_server _ get_server-Leaves λ s1.
            bind-Leaves _ _ (lift-Leaves (insert_at s1.last_index o s1.smr_log))
              λ smr_log'. smr_log-Leaves smr_log'

  recheckcommit-Leaves : Leaves {W = W} recheckcommit
  unfolding recheckcommit
  recheckcommit-Leaves = bind-Leaves get_server _ get_server-Leaves λ s.
      if-Leaves (leb_ℤ (pos 0) s.last_index && ltb_ℤ s.committed_index s.last_index) _ _
        (bind-Leaves _ _ (lift-Leaves (at s.smr_log s.last_index))
          λ o. commit-Leaves o s.last_index)
        (pure-Leaves tt)

  recheck-Leaves : Leaves (recheck p)
  unfolding recheck
  recheck-Leaves = bind-Leaves get_server _ get_server-Leaves λ s.
      if-Leaves (eq_ℤ s.recheck_allow (pos 1)) _ _
        (bind-Leaves _ _ recheckcommit-Leaves λ _. bind-Leaves get_server _ get_server-Leaves λ s1.
          bind-Leaves _ _ (net-Leaves (recheckreplsock p s1.factories_record))
            λ fs. rechecked-Leaves fs (pos 0))
        (pure-Leaves tt)

  fulfil-Fulfils :
      (barrier : ℕ) (robot : RobotInf) (s s' : Server) (w w' : W) (a : Unit {0})
      → fulfil barrier robot s w ≡ ok (a, s', w')
      → Fulfils barrier robot s s'
  unfolding fulfil
  fulfil-Fulfils barrier robot s s' w w' a e =
      subst (λ t. Fulfils barrier robot s t) (same_end e)
        (record { robots = refl; barriers = refl; promised = refl })

  Fulfils-after :
      {barrier : ℕ} {robot : RobotInf} {s t u : Server}
      → SameJobs s t
      → Fulfils barrier robot t u
      → Fulfils barrier robot s u
  Fulfils-after {barrier} {robot} a f = record {
    robots = f.robots ∙ a.robots;
    barriers = f.barriers ∙ a.barriers;
    promised = f.promised ∙ ap (λ xs. xs ++ (barrier, robot) ∷ []) a.promised;
  }

  -- An action that sets a promise and changes nothing else of the engineer threads when it ends.
  abbrev FulfilsBy : {A : Type 0} → ℕ → RobotInf → Exec W A → Type 0
  FulfilsBy {A} barrier robot m =
      (s s' : Server) (w w' : W) (a : A) → m s w ≡ ok (a, s', w') → Fulfils barrier robot s s'

  bind-FulfilsBy :
      {A B : Type 0} {barrier : ℕ} {robot : RobotInf} (m : Exec W A) (f : A → Exec W B)
      → Leaves m
      → ((a : A) → FulfilsBy barrier robot (f a))
      → FulfilsBy barrier robot (m >>= f)
  bind-FulfilsBy m f hm hf s s' w w' b e =
      let (a, t, v, e1, e2) = bind_ok m f s s' w w' b e in
      Fulfils-after (hm s t w v a e1) (hf a t s' v w' b e2)

  process_job-FulfilsBy :
      (admin_id : ℤ) (robot : RobotInf) (barrier : ℕ)
      → FulfilsBy barrier (served_robot admin_id robot) (process_job p admin_id robot barrier)
  unfolding process_job
  process_job-FulfilsBy admin_id robot barrier = bind-FulfilsBy get_server _ get_server-Leaves λ s.
      bind-FulfilsBy _ _ (set_primary-Leaves s.my_factory_id) λ _.
        bind-FulfilsBy _ _
          (if-Leaves (is_order robot) _ _ (append_entry-Leaves (entry_of robot)) (pure-Leaves tt))
          λ _. bind-FulfilsBy get_server _ get_server-Leaves λ s1.
            bind-FulfilsBy _ _
              (net-Leaves
                (replicate p (request_of s1 (entry_of robot)) s1.smr_log s1.factories_record))
              λ fs. bind-FulfilsBy _ _ (factories-Leaves fs) λ _.
                bind-FulfilsBy get_server _ get_server-Leaves
                  λ s2. ends (Bool-cases (is_order robot)) s2
    where
      ends :
          (is_order robot ≡ true) ⊎ (is_order robot ≡ false)
          → (s2 : Server)
          → FulfilsBy barrier (served_robot admin_id robot) (
              if is_order robot
              then (commit (entry_of robot) s2.last_index
                  >> fulfil barrier (record robot { admin_id = admin_id }))
              else fulfil barrier robot)
      ends (inl order) s2 = rw order (
          bind-FulfilsBy _ _ (commit-Leaves (entry_of robot) s2.last_index)
            λ _. fulfil-Fulfils barrier (record robot { admin_id = admin_id }))
      ends (inr notice) s2 = rw notice (fulfil-Fulfils barrier robot)

  abbrev job_or : {A : Type 0} → A × Server → Result (A × Server × W) → A × Server
  job_or x (ok (j, t, _)) = (j, t)
  job_or x (fault _) = x

  pop_job-Popped :
      (s s' : Server) (w w' : W) (j : RobotInf × ℕ)
      → pop_job s w ≡ ok (j, s', w')
      → Popped j.0 j.1 s s'
  unfolding pop_job
  pop_job-Popped s s' w w' j e = go s.admin_thread_list s.barrier_list e
    where
      go :
          (rs : List RobotInf) (bs : List ℕ)
          → pop_job (record s { admin_thread_list = rs; barrier_list = bs }) w ≡ ok (j, s', w')
          → Popped j.0 j.1 (record s { admin_thread_list = rs; barrier_list = bs }) s'
      go [] bs e = absurd (fault_not undefined e)
      go (r ∷ rs) [] e = absurd (fault_not undefined e)
      go (r ∷ rs) (b ∷ bs) e =
          subst
            (λ (x : (RobotInf × ℕ) × Server).
              Popped x.0.0 x.0.1 (record s { admin_thread_list = r ∷ rs; barrier_list = b ∷ bs })
                x.1)
            (ap (job_or ((r, b), s)) e) (record { robots = refl; barriers = refl; promised = refl })

  serve_front-Takes :
      (admin_id : ℤ) (s s' : Server) (w w' : W)
      → serve_front p admin_id s w ≡ ok (tt, s', w')
      → Takes admin_id s s'
  unfolding serve_front
  serve_front-Takes admin_id s s' w w' e =
      let (_, t, v, e1, e2) =
        bind_ok (recheck p) (λ _. pop_job >>= λ j. process_job p admin_id j.0 j.1) s s' w w' tt e in
      let (j, u, x, e3, e4) =
        bind_ok pop_job (λ j. process_job p admin_id j.0 j.1) t s' v w' tt e2 in
      let a = recheck-Leaves s t w v tt e1 in
      let b = pop_job-Popped t u v x j e3 in
      let c = process_job-FulfilsBy admin_id j.0 j.1 u s' x w' tt e4 in
      record {
        robot = j.0;
        barrier = j.1;
        robots = sym a.robots ∙ b.robots ∙ ap (λ rs. j.0 ∷ rs) (sym c.robots);
        barriers = sym a.barriers ∙ b.barriers ∙ ap (λ bs. j.1 ∷ bs) (sym c.barriers);
        promised =
            c.promised
            ∙ ap (λ xs. xs ++ (j.1, served_robot admin_id j.0) ∷ []) (b.promised ∙ a.promised);
      }

  -- A round of the admin thread that ends has waited, or has set the promise of the front job.
  pub admin_round-Takes :
      (admin_id : ℤ) (s s' : Server) (w w' : W)
      → admin_round p admin_id s w ≡ ok (tt, s', w')
      → SameJobs s s' ⊎ Takes admin_id s s'
  unfolding admin_round
  admin_round-Takes admin_id s s' w w' e = go s.admin_thread_list e
    where
      go :
          (rs : List RobotInf)
          → unless_empty rs (serve_front p admin_id) s w ≡ ok (tt, s', w')
          → SameJobs s s' ⊎ Takes admin_id s s'
      go [] e = inl (pure-Leaves tt s s' w w' tt e)
      go (r ∷ rs) e = inr (serve_front-Takes admin_id s s' w w' e)
