-- ===== src/Server/Threads/Promises.antt =====
-- The promises of a server's jobs, and the engineer threads that wait for them.
use load_balancer_with_wal.Base.{
  ℕ, ◌<◌, ◌≤◌, ◌==◌, ==_iff, Bool-cases, List, [], ◌∷◌, ◌++◌, ◌≡◌, refl, ◌∙◌, sym, ap, subst, ◌⊎◌,
  inl, inr, arith,
}
use load_balancer_with_wal.Base.Int.{ℤ}
use load_balancer_with_wal.RobotFactory.{OrderInf, RobotInf}
use load_balancer_with_wal.Server.State.{Server}
use load_balancer_with_wal.Server.Primary.Queue.{robots_of, barriers_of}
use load_balancer_with_wal.Server.Engineer.{assemble_robot}
use load_balancer_with_wal.Server.Threads.{waiting, Engineer, set}
use load_balancer_with_wal.Server.Threads.Frames.{SameJobs}
use load_balancer_with_wal.Server.Threads.Primary.{served_robot}
use load_balancer_with_wal.Server.Threads.Engineers.{Free, free}
use mathlib.Core.List.{Memᴰ}
use mathlib.Core.List.Memᴰ as Memᴰ

-- An engineer waits for the robot of an order, behind a promise.
abbrev pub Waits : (ℕ → Engineer) → ℕ → OrderInf → ℕ → Type 0
Waits engineers i o n = (engineers i).phase ≡ waiting o n

-- The jobs in the lists, each with its promise, and what the promises have to do with those who wait.
pub record Kept (admin_id : ℤ) (engineers : ℕ → Engineer) (promises : ℕ)
    (jobs : List (ℕ × RobotInf)) (s : Server) : Type 0 where
  pub robots : s.admin_thread_list ≡ robots_of jobs
  pub barriers : s.barrier_list ≡ barriers_of jobs
  pub job_low : (j : ℕ × RobotInf) → Memᴰ j jobs → j.0 < promises
  pub set_low : (j : ℕ × RobotInf) → Memᴰ j s.fulfilled → j.0 < promises
  pub wait_low : (i : ℕ) (o : OrderInf) (n : ℕ) → Waits engineers i o n → n < promises
  pub job_own :
      (i : ℕ) (o : OrderInf) (n : ℕ) (r : RobotInf)
      → Waits engineers i o n
      → Memᴰ (n, r) jobs
      → r ≡ assemble_robot o (engineers i).eng_id
  pub set_own :
      (i : ℕ) (o : OrderInf) (n : ℕ) (r : RobotInf)
      → Waits engineers i o n
      → Memᴰ (n, r) s.fulfilled
      → r ≡ served_robot admin_id (assemble_robot o (engineers i).eng_id)
  pub alone :
      (i j : ℕ) (o o' : OrderInf) (n : ℕ) → Waits engineers i o n → Waits engineers j o' n → i ≡ j

-- An engineer after `set`.
pub set-cases :
    (i j : ℕ) (e : Engineer) (engineers : ℕ → Engineer)
    → ((j ≡ i) × (set i e engineers j ≡ e)) ⊎ (set i e engineers j ≡ engineers j)
set-cases i j e engineers = elim (Bool-cases (j == i)) [
  | inl same ↦ inl ((==_iff j i).0 same, rw same refl)
  | inr other ↦ inr (rw other refl)
]

module _ (admin_id : ℤ) where
  -- The lists stay, and an engineer is free.
  pub stays-Kept :
      (i n m : ℕ) (e : Engineer) (engineers : ℕ → Engineer) (jobs : List (ℕ × RobotInf))
      (s s' : Server)
      → n ≤ m
      → SameJobs s s'
      → Free e.phase
      → Kept admin_id engineers n jobs s
      → Kept admin_id (set i e engineers) m jobs s'
  stays-Kept i n m e engineers jobs s s' h same free v = record {
    robots = same.robots ∙ v.robots;
    barriers = same.barriers ∙ v.barriers;
    job_low = λ j mem. below (v.job_low j mem);
    set_low = λ j mem. below (v.set_low j (before mem));
    wait_low = λ j o k waits. below (v.wait_low j o k (was j o k waits).0);
    job_own = λ j o k r waits mem.
        v.job_own j o k r (was j o k waits).0 mem
        ∙ ap (λ (x : Engineer). assemble_robot o x.eng_id) (was j o k waits).1;
    set_own = λ j o k r waits mem.
        v.set_own j o k r (was j o k waits).0 (before mem)
        ∙ ap (λ (x : Engineer). served_robot admin_id (assemble_robot o x.eng_id))
            (was j o k waits).1;
    alone = λ j j' o o' k a b. v.alone j j' o o' k (was j o k a).0 (was j' o' k b).0;
  }
    where
      below : {k : ℕ} → k < n → k < m
      below k = omega arith

      before : {j : ℕ × RobotInf} → Memᴰ j s'.fulfilled → Memᴰ j s.fulfilled
      before {j} mem = subst (λ xs. Memᴰ j xs) same.promised mem

      was :
          (j : ℕ) (o : OrderInf) (k : ℕ)
          → Waits (set i e engineers) j o k
          → Waits engineers j o k × (engineers j ≡ set i e engineers j)
      was j o k waits = elim (set-cases i j e engineers) [
        | inl (_, new) ↦ absurd (free o k (ap (λ (x : Engineer). x.phase) (sym new) ∙ waits))
        | inr old ↦ (ap (λ (x : Engineer). x.phase) (sym old) ∙ waits, sym old)
      ]

  pub same-Kept :
      (n : ℕ) (engineers : ℕ → Engineer) (jobs : List (ℕ × RobotInf)) (s s' : Server)
      → SameJobs s s'
      → Kept admin_id engineers n jobs s
      → Kept admin_id engineers n jobs s'
  same-Kept n engineers jobs s s' same v = record {
    robots = same.robots ∙ v.robots;
    barriers = same.barriers ∙ v.barriers;
    job_low = v.job_low;
    set_low = λ j mem. v.set_low j (before mem);
    wait_low = v.wait_low;
    job_own = v.job_own;
    set_own = λ i o k r waits mem. v.set_own i o k r waits (before mem);
    alone = v.alone;
  }
    where
      before : {j : ℕ × RobotInf} → Memᴰ j s'.fulfilled → Memᴰ j s.fulfilled
      before {j} mem = subst (λ xs. Memᴰ j xs) same.promised mem

  pub cases_last :
      {j j' : ℕ × RobotInf} (xs : List (ℕ × RobotInf))
      → Memᴰ j (xs ++ j' ∷ [])
      → Memᴰ j xs ⊎ (j ≡ j')
  cases_last xs mem = elim (Memᴰ.append_cases xs mem) [
    | inl old ↦ inl old
    | inr new ↦ inr (Memᴰ.eq_of_singleton new)
  ]
