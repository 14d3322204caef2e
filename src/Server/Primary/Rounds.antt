-- ===== src/Server/Primary/Rounds.antt =====
-- One round of the admin thread.
use load_balancer_with_wal.Base.{
  ℕ, ◌+◌, ◌<◌, ◌^◌, ◌≡◌, ◌∙◌, ap, false, List, [], ◌∷◌, ◌++◌, length, ok, if◌then◌else◌,
}
use load_balancer_with_wal.Base.Int.{ℤ}
use load_balancer_with_wal.Platform.{Platform}
use load_balancer_with_wal.RobotFactory.{RobotInf}
use load_balancer_with_wal.Server.State.{Server, ◌>>=◌}
use load_balancer_with_wal.Server.State.Spec.{IsCoherent, Ends}
use load_balancer_with_wal.Server.Primary.{
  process_job, pop_job, recheck, serve_front, unless_empty, admin_round, is_order, entry_of,
}
use load_balancer_with_wal.Server.Primary.Orders.{Served, process_job-Served}
use load_balancer_with_wal.Server.Primary.Takeover.{CanServe, recheck-Ready}

module _ {W : Type 0} where
  pop_job_front :
      (robot : RobotInf) (barrier : ℕ) (robots : List RobotInf) (barriers : List ℕ) (s : Server)
      (w : W)
      → s.admin_thread_list ≡ robot ∷ robots
      → s.barrier_list ≡ barrier ∷ barriers
      → pop_job s w
        ≡ ok ((robot, barrier), record s { admin_thread_list = robots; barrier_list = barriers }, w)
  unfolding pop_job
  pop_job_front robot barrier robots barriers s w e f = rw (e, pop_job) (rw f)

module _ {W : Type 0} (p : Platform W) (admin_id : ℤ) (robot : RobotInf) (barrier : ℕ)
    (robots : List RobotInf) (barriers : List ℕ) where
  -- The server with its first job off the lists.
  abbrev pub taken : Server → Server
  taken s = record s { admin_thread_list = robots; barrier_list = barriers }

  pub admin_round_job :
      (s s1 : Server) (w w1 : W)
      → s.admin_thread_list ≡ robot ∷ robots
      → recheck p s w ≡ ok (tt, s1, w1)
      → s1.admin_thread_list ≡ robot ∷ robots
      → s1.barrier_list ≡ barrier ∷ barriers
      → admin_round p admin_id s w ≡ process_job p admin_id robot barrier (taken s1) w1
  unfolding admin_round serve_front
  admin_round_job s s1 w w1 jobs e jobs1 barriers1 =
      ap (λ l. unless_empty l (serve_front p admin_id) s w) jobs
      ∙ rw (e, ◌>>=◌)
          (rw (pop_job_front robot barrier robots barriers s1 w1 jobs1 barriers1, ◌>>=◌))

  module _ (quiet : (w : W) → p.ferror w ≡ false) where
    -- A server is coherent: its record is the replay of the entries of its log that it has committed, and its
    -- two indexes name the last of these and the last entry. It has committed its whole log, or all but the
    -- last entry and is then to recheck (recheck_allow is 1), and it has a job in its list, room in its log and
    -- a disk that reports no error. Whatever the replicas and the network do, one round of the admin thread ends, with the whole log committed, with an order's
    -- entry at the end of the log, with the job off the lists, and with its promise set, with the id of
    -- the admin thread in the robot if it is an order; the server is then its own primary.
    pub admin_round-Served :
        (k : ℕ) (s : Server) (w : W)
        → IsCoherent k s
        → CanServe p k s
        → s.admin_thread_list ≡ robot ∷ robots
        → s.barrier_list ≡ barrier ∷ barriers
        → length s.smr_log + 1 < 2 ^ 31
        → Ends (Served admin_id robot barrier robots barriers s) (admin_round p admin_id s w)
    admin_round-Served k s w v can jobs barriers_first room =
        let (s1, w1, e, ready) = recheck-Ready p k s w v can in
        let c = ready.0 in
        let same = ready.1 in
        let (s', w', e', done) =
          process_job-Served p quiet admin_id robot barrier (taken s1) w1
            (record {
              replayed = record { applied = c.applied; bounded = c.bounded; small = c.small };
              indexed = c.indexed;
              committed = c.committed;
            })
            (rw same.log room) in
        (
          s',
          w',
          admin_round_job s s1 w w1 jobs e (same.robots ∙ jobs) (same.barriers ∙ barriers_first)
              ∙ e',
          record {
            coherent = done.coherent;
            logged =
                done.logged
                ∙ ap (λ log. if is_order robot then log ++ entry_of robot ∷ [] else log) same.log;
            promised = done.promised ∙ ap (λ l. l ++ answer ∷ []) same.replies;
            primary = done.primary ∙ same.id;
            waiting = done.waiting;
            promises = done.promises;
            same_id = done.same_id ∙ same.id;
          },
        )
      where
        answer : ℕ × RobotInf
        answer = (barrier, if is_order robot then record robot { admin_id = admin_id } else robot)
