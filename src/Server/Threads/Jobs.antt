-- ===== src/Server/Threads/Jobs.antt =====
-- A job pushed on the lists, and the front job served.
use load_balancer_with_wal.Base.{
  ℕ, suc, ◌<◌, List, [], ◌∷◌, ◌++◌, ◌≡◌, refl, ◌∙◌, sym, ap, subst, ◌⊎◌, inl, inr, arith,
}
use load_balancer_with_wal.Base.Int.{ℤ}
use load_balancer_with_wal.RobotFactory.{OrderInf, RobotInf}
use load_balancer_with_wal.Server.State.{Server}
use load_balancer_with_wal.Server.Engineer.{assemble_robot}
use load_balancer_with_wal.Server.Threads.{waiting, Engineer, set}
use load_balancer_with_wal.Server.Threads.Primary.{served_robot, Takes}
use mathlib.Core.List.{Memᴰ, map-append}
use load_balancer_with_wal.Server.Threads.Promises.{Kept, Waits, set-cases, cases_last}

module _ (admin_id : ℤ) where
  -- An engineer pushes a job behind a new promise, for which it may wait.
  pub pushes-Kept :
      (i n : ℕ) (e : Engineer) (engineers : ℕ → Engineer) (jobs : List (ℕ × RobotInf))
      (robot : RobotInf) (s s' : Server)
      → s'.admin_thread_list ≡ s.admin_thread_list ++ robot ∷ []
      → s'.barrier_list ≡ s.barrier_list ++ n ∷ []
      → s'.fulfilled ≡ s.fulfilled
      → ((o : OrderInf) (m : ℕ)
          → e.phase ≡ waiting o m
          → (m ≡ n) × (robot ≡ assemble_robot o e.eng_id))
      → Kept admin_id engineers n jobs s
      → Kept admin_id (set i e engineers) (suc n) (jobs ++ (n, robot) ∷ []) s'
  pushes-Kept i n e engineers jobs robot s s' er eb ef own v = record {
    robots =
        er
        ∙ ap (λ xs. xs ++ robot ∷ []) v.robots
        ∙ sym (map-append (λ j. j.1) jobs ((n, robot) ∷ []));
    barriers =
        eb
        ∙ ap (λ xs. xs ++ n ∷ []) v.barriers
        ∙ sym (map-append (λ j. j.0) jobs ((n, robot) ∷ []));
    job_low = λ j mem. elim (cases_last admin_id jobs mem) [
      | inl old ↦ below (v.job_low j old)
      | inr new ↦ omega (arith, ap (λ x. x.0) new)
    ];
    set_low = λ j mem. below (v.set_low j (before mem));
    wait_low = λ j o k waits. elim (who j o k waits) [
      | inl (_, same, _) ↦ omega arith
      | inr (waited, _) ↦ below (v.wait_low j o k waited)
    ];
    job_own = λ j o k r waits mem. elim (who j o k waits) [
      | inl (_, same, mine) ↦ elim (cases_last admin_id jobs mem) [
        | inl old ↦ absurd (not_new (v.job_low (k, r) old) same)
        | inr new ↦ ap (λ x. x.1) new ∙ mine
      ]
      | inr (waited, same) ↦ elim (cases_last admin_id jobs mem) [
        | inl old ↦
            v.job_own j o k r waited old ∙ ap (λ (x : Engineer). assemble_robot o x.eng_id) same
        | inr new ↦ absurd (not_new (v.wait_low j o k waited) (ap (λ x. x.0) new))
      ]
    ];
    set_own = λ j o k r waits mem. elim (who j o k waits) [
      | inl (_, same, _) ↦ absurd (not_new (v.set_low (k, r) (before mem)) same)
      | inr (waited, same) ↦
          v.set_own j o k r waited (before mem)
          ∙ ap (λ (x : Engineer). served_robot admin_id (assemble_robot o x.eng_id)) same
    ];
    alone = λ j j' o o' k a b. elim (who j o k a) [
      | inl (at, same, _) ↦ elim (who j' o' k b) [
        | inl (at', _, _) ↦ at ∙ sym at'
        | inr (waited, _) ↦ absurd (not_new (v.wait_low j' o' k waited) same)
      ]
      | inr (waited, _) ↦ elim (who j' o' k b) [
        | inl (_, same, _) ↦ absurd (not_new (v.wait_low j o k waited) same)
        | inr (waited', _) ↦ v.alone j j' o o' k waited waited'
      ]
    ];
  }
    where
      below : {k : ℕ} → k < n → k < suc n
      below k = omega arith

      not_new : {k : ℕ} → k < n → k ≡ n → ⊥
      not_new h same = omega arith

      before : {j : ℕ × RobotInf} → Memᴰ j s'.fulfilled → Memᴰ j s.fulfilled
      before {j} mem = subst (λ xs. Memᴰ j xs) ef mem

      who :
          (j : ℕ) (o : OrderInf) (k : ℕ)
          → Waits (set i e engineers) j o k
          → ((j ≡ i) × (k ≡ n) × (robot ≡ assemble_robot o (set i e engineers j).eng_id))
            ⊎ (Waits engineers j o k × (engineers j ≡ set i e engineers j))
      who j o k waits = elim (set-cases i j e engineers) [
        | inl (at, new) ↦
            let (same, mine) = own o k (ap (λ (x : Engineer). x.phase) (sym new) ∙ waits) in
            inl (at, same, mine ∙ ap (λ (x : Engineer). assemble_robot o x.eng_id) (sym new))
        | inr old ↦ inr (ap (λ (x : Engineer). x.phase) (sym old) ∙ waits, sym old)
      ]

  -- The front job is served.
  pub Takes-Kept :
      (n : ℕ) (engineers : ℕ → Engineer) (jobs : List (ℕ × RobotInf)) (s s' : Server)
      → Takes admin_id s s'
      → Kept admin_id engineers n jobs s
      → (jobs' : List (ℕ × RobotInf)) × Kept admin_id engineers n jobs' s'
  Takes-Kept n engineers [] s s' t v = absurd (nil_not (sym v.robots ∙ t.robots))
    where
      nil_not : {r : RobotInf} {rs : List RobotInf} → [] ≡ r ∷ rs → ⊥
      nil_not e = cc
  Takes-Kept n engineers ((b, r) ∷ jobs) s s' t v = (
    jobs,
    record {
      robots = sym (tail_of (sym v.robots ∙ t.robots));
      barriers = sym (tail_of (sym v.barriers ∙ t.barriers));
      job_low = λ j mem. v.job_low j (Memᴰ.tail mem);
      set_low = λ j mem. elim (now j mem) [
        | inl old ↦ v.set_low j old
        | inr new ↦ rw new (v.job_low (b, r) (Memᴰ.head refl))
      ];
      wait_low = v.wait_low;
      job_own = λ i o k x waits mem. v.job_own i o k x waits (Memᴰ.tail mem);
      set_own = λ i o k x waits mem. elim (now (k, x) mem) [
        | inl old ↦ v.set_own i o k x waits old
        | inr new ↦
            ap (λ j. j.1) new
            ∙ ap (served_robot admin_id)
                (v.job_own i o k r waits (Memᴰ.head (ap (λ j. (j.0, r)) new)))
      ];
      alone = v.alone;
    },
  )
    where
      tail_of : {A : Type 0} {x y : A} {xs ys : List A} → x ∷ xs ≡ y ∷ ys → xs ≡ ys
      tail_of e = cc

      head_of : {A : Type 0} {x y : A} {xs ys : List A} → x ∷ xs ≡ y ∷ ys → x ≡ y
      head_of e = cc

      now :
          (j : ℕ × RobotInf)
          → Memᴰ j s'.fulfilled
          → Memᴰ j s.fulfilled ⊎ (j ≡ (b, served_robot admin_id r))
      now j mem = elim (cases_last admin_id s.fulfilled (subst (λ xs. Memᴰ j xs) t.promised mem)) [
        | inl old ↦ inl old
        | inr new ↦ inr (
            new
            ∙ same_job (sym (head_of (sym v.barriers ∙ t.barriers)))
                (sym (head_of (sym v.robots ∙ t.robots))))
      ]
        where
          same_job :
              {m n : ℕ} {q r : RobotInf}
              → m ≡ n
              → q ≡ r
              → ◌≡◌ {A = ℕ × RobotInf} (m, served_robot admin_id q) (n, served_robot admin_id r)
          same_job em eq = rw (em, eq) refl
