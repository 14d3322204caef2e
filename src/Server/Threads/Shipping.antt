-- ===== src/Server/Threads/Shipping.antt =====
-- An engineer thread ships the robot of its own order.
use load_balancer_with_wal.Base.{
  ℕ, suc, ◌==◌, ==_iff, Bool-cases, none, some, List, [], ◌∷◌, ◌++◌, if◌then◌else◌, ◌≡◌, refl, ◌∙◌,
  sym, ap, subst, inl, inr, ok, arith,
}
use load_balancer_with_wal.Base.Int.{ℤ, pos, minus_one}
use load_balancer_with_wal.Platform.{Platform}
use load_balancer_with_wal.RobotFactory.{OrderInf, RobotInf}
use load_balancer_with_wal.ServerStub.{ship_robot}
use load_balancer_with_wal.Server.State.{Server}
use load_balancer_with_wal.Server.Engineer.{assemble_robot}
use load_balancer_with_wal.Server.Threads.{
  listening, waiting, gone, Engineer, Threads, ship, engineer_turn, robot_behind, Step, turn, serve,
  follow, accept, outside, Reach, here, later,
}
use load_balancer_with_wal.Server.Threads.Frames.{SameJobs-refl}
use load_balancer_with_wal.Server.Threads.Primary.{served_robot, admin_round-Takes}
use load_balancer_with_wal.Server.Threads.Replica.{ifa_round-Leaves}
use load_balancer_with_wal.Server.Threads.Engineers.{free, stays, pushes, engineer_turn-Effect}
use load_balancer_with_wal.Server.Threads.Promises.{Kept, stays-Kept, same-Kept}
use load_balancer_with_wal.Server.Threads.Jobs.{pushes-Kept, Takes-Kept}
use mathlib.Core.List.{Memᴰ}
use mathlib.Core.List.Memᴰ as Memᴰ

abbrev Inv : {W : Type 0} → ℤ → Threads W → Type 0
Inv admin_id c = (jobs : List (ℕ × RobotInf)) × Kept admin_id c.engineers c.promises jobs c.server

module _ {W : Type 0} (p : Platform W) (admin_id : ℤ) where
  Step-Inv : (c d : Threads W) → Inv admin_id c → Step p admin_id c d → Inv admin_id d
  Step-Inv c d (jobs, v) (turn i {e'} {s'} {w'} done) =
      elim (engineer_turn-Effect p c.promises (c.engineers i) (c.engineers i).phase c.server s'
        c.world w' e' refl done) [
          | stays same is_free ↦ (
            jobs,
            stays-Kept admin_id i c.promises (suc c.promises) e' c.engineers jobs c.server s'
                (omega arith) same is_free v,
          )
          | pushes robot er eb ef own ↦ (
            jobs ++ (c.promises, robot) ∷ [],
            pushes-Kept admin_id i c.promises e' c.engineers jobs robot c.server s' er eb ef own v,
          )
        ]
  Step-Inv c d (jobs, v) (serve {s'} {w'} done) =
      elim (admin_round-Takes p admin_id c.server s' c.world w' done) [
        | inl same ↦ (jobs, same-Kept admin_id c.promises c.engineers jobs c.server s' same v)
        | inr taken ↦ Takes-Kept admin_id c.promises c.engineers jobs c.server s' taken v
      ]
  Step-Inv c d (jobs, v) (follow sock again {s'} {w'} done) = (
    jobs,
    same-Kept admin_id c.promises c.engineers jobs c.server s'
        (ifa_round-Leaves p sock c.server s' c.world w' again done) v,
  )
  Step-Inv c d (jobs, v) (accept i sock at) = (
    jobs,
    stays-Kept admin_id i c.promises c.promises _ c.engineers jobs c.server c.server (omega arith)
        (SameJobs-refl c.server) (free listening refl) v,
  )
  Step-Inv c d (jobs, v) (outside w') = (jobs, v)

  Reach-Inv : (c d : Threads W) → Inv admin_id c → Reach p admin_id c d → Inv admin_id d
  Reach-Inv c d v here = v
  Reach-Inv c d v (later {d = m} r s) = Step-Inv m d (Reach-Inv c m v r) s

  -- A server with no customer yet.
  abbrev pub no_customer : Engineer
  no_customer = record {
    sock = minus_one;
    eng_id = minus_one;
    send_last_committed_index = pos 0;
    phase = gone;
  }

  abbrev pub started : Server → W → Threads W
  started s w = record { server = s; world = w; engineers = λ i. no_customer; promises = 0 }

  started-Inv :
      (s : Server) (w : W)
      → s.admin_thread_list ≡ []
      → s.barrier_list ≡ []
      → s.fulfilled ≡ []
      → Inv admin_id (started s w)
  started-Inv s w er eb ef = (
    [],
    record {
      robots = er;
      barriers = eb;
      job_low = λ j mem. absurd (Memᴰ.not-nil mem);
      set_low = λ j mem. absurd (Memᴰ.not-nil (subst (λ xs. Memᴰ j xs) ef mem));
      wait_low = λ i o n waits. absurd (free gone refl o n waits);
      job_own = λ i o n r waits mem. absurd (free gone refl o n waits);
      set_own = λ i o n r waits mem. absurd (free gone refl o n waits);
      alone = λ i j o o' n a b. absurd (free gone refl o n a);
    },
  )

  robot_behind-Mem :
      (n : ℕ) (xs : List (ℕ × RobotInf)) (r : RobotInf)
      → robot_behind n xs ≡ some r
      → Memᴰ (n, r) xs
  unfolding robot_behind
  robot_behind-Mem n [] r e = absurd (none_not e)
    where
      none_not : {r : RobotInf} → none ≡ some r → ⊥
      none_not e = cc
  robot_behind-Mem n ((m, x) ∷ xs) r e = elim (Bool-cases (m == n)) [
    | inl same ↦ Memᴰ.head (
        pair (sym ((==_iff m n).0 same))
          (sym (some_inj (sym (ap (λ q. if q then some x else robot_behind n xs) same) ∙ e))))
    | inr other ↦ Memᴰ.tail (
        robot_behind-Mem n xs r (sym (ap (λ q. if q then some x else robot_behind n xs) other) ∙ e))
  ]
    where
      some_inj : {a b : RobotInf} → some a ≡ some b → a ≡ b
      some_inj e = cc

      pair : {a b : ℕ} {x y : RobotInf} → a ≡ b → x ≡ y → ◌≡◌ {A = ℕ × RobotInf} (a, x) (b, y)
      pair ea ex = rw (ea, ex) refl

  -- The robot behind the promise of an order is that of the order.
  pub Reach-own :
      (s : Server) (w : W) (c : Threads W) (i n : ℕ) (make_order : OrderInf) (robot : RobotInf)
      → s.admin_thread_list ≡ []
      → s.barrier_list ≡ []
      → s.fulfilled ≡ []
      → Reach p admin_id (started s w) c
      → (c.engineers i).phase ≡ waiting make_order n
      → robot_behind n c.server.fulfilled ≡ some robot
      → robot ≡ served_robot admin_id (assemble_robot make_order (c.engineers i).eng_id)
  Reach-own s w c i n o robot er eb ef reached waits behind =
      let (jobs, v) = Reach-Inv (started s w) c (started-Inv s w er eb ef) reached in
      v.set_own i o n robot waits (robot_behind-Mem n c.server.fulfilled robot behind)

  -- However the threads of a server that started with empty lists have taken turns, an engineer that
  -- waits for an order sends the customer, once its promise is set, the robot of this very order, with
  -- its own id and the id of the admin thread (which an order of customer -1 does not get), and listens
  -- again.
  pub Reach-ships_own :
      (s : Server) (w : W) (c : Threads W) (i n : ℕ) (make_order : OrderInf) (robot : RobotInf)
      → s.admin_thread_list ≡ []
      → s.barrier_list ≡ []
      → s.fulfilled ≡ []
      → Reach p admin_id (started s w) c
      → (c.engineers i).phase ≡ waiting make_order n
      → robot_behind n c.server.fulfilled ≡ some robot
      → engineer_turn p c.promises (c.engineers i) (c.engineers i).phase c.server c.world
        ≡ ok (
          some (record (c.engineers i) { phase = listening }),
          c.server,
          (ship_robot p
              (c.engineers i).sock
              (served_robot admin_id (assemble_robot make_order (c.engineers i).eng_id))
              c.world).1,
        )
  unfolding engineer_turn ship
  Reach-ships_own s w c i n o robot er eb ef reached waits behind =
      let own = Reach-own s w c i n o robot er eb ef reached waits behind in
      rw (waits, engineer_turn) (rw (behind, ship) (rw own refl))
