-- ===== src/Server/Durable/Jobs.antt =====
-- The jobs of a primary put their entries in its file.
use load_balancer_with_wal.Base.{
  ℕ, ◌+◌, ◌<◌, ◌^◌, ◌≡◌, refl, ◌∙◌, ap, inl, inr, true, List, [], ◌∷◌, ◌++◌, Bool-cases, length,
  length-append, insert_at-length, All, ok, arith, if◌then◌else◌,
}
use load_balancer_with_wal.Base.Int.{ℤ, pos, before, next}
use load_balancer_with_wal.Platform.{Platform}
use load_balancer_with_wal.Platform.Laws.{CrcLaws, FileLaws, SocketLaws}
use load_balancer_with_wal.RobotFactory.{RobotInf, MapOp}
use load_balancer_with_wal.RobotFactory.Wire.RoundTrip.{IsMapOp}
use load_balancer_with_wal.CommitLog.{CommitLog}
use load_balancer_with_wal.CommitLog.Batches.{writelogwithcrc-Logs}
use load_balancer_with_wal.Server.State.{Server, write_ahead, with_clog, ◌>>=◌}
use load_balancer_with_wal.Server.State.Spec.{IsCoherent}
use load_balancer_with_wal.Server.Primary.{
  append_entry, entry_of, request_of, is_order, process_job, admin_round,
}
use load_balancer_with_wal.Server.Primary.Orders.{as_primary, process_order, process_notice}
use load_balancer_with_wal.Server.Primary.Takeover.{CanServe, recheck-Ready}
use load_balancer_with_wal.Server.Primary.Rounds.{taken, admin_round_job, admin_round-Served}
use load_balancer_with_wal.Server.Primary.Queue.{robots_of, barriers_of, admin_rounds}
use load_balancer_with_wal.Server.Replica.Recovery.{next-before}
use load_balancer_with_wal.Server.Durable.{Persists, EndsIn}
use load_balancer_with_wal.Server.Durable.Sockets.{replicate-Same}
use load_balancer_with_wal.Server.Durable.Frames.{EndsIn-unique, Persists-Same, recheck-Keeps}

module _ {W : Type 0} (p : Platform W) (x : CrcLaws p) (f : FileLaws p) (n : SocketLaws p f)
    (size : ℕ) where
  write_ahead-Persists :
      (op : MapOp) (s : Server) (w : W)
      → IsMapOp op
      → Persists p f size s w
      → (c : CommitLog) × (w' : W) × (write_ahead p op s w ≡ ok (tt, record s { clog = c }, w'))
        × Persists p f size (record s { clog = c; smr_log = s.smr_log ++ op ∷ [] }) w'
  unfolding write_ahead
  write_ahead-Persists op s w int v =
      let (k, es, c, w', e, logged, same_size, same_flush) =
        writelogwithcrc-Logs p x f v.batches v.entries s.smr_log s.clog w op int v.flushing
          v.is_logged in
      (
        c,
        w',
        rw (e, write_ahead, with_clog),
        record {
          batches = k;
          entries = es;
          is_logged = logged;
          flushing = rw (same_size, same_flush) v.flushing;
          same_size = same_size ∙ v.same_size;
        },
      )

  append_entry-Persists :
      (op : MapOp) (s : Server) (w : W)
      → IsMapOp op
      → s.last_index ≡ before (length s.smr_log)
      → length s.smr_log < 2 ^ 31
      → Persists p f size s w
      → EndsIn (Persists p f size) (append_entry p op s w)
  unfolding append_entry
  append_entry-Persists op s w int indexed small v =
      let here : next s.last_index ≡ pos (length s.smr_log) =
        ap next indexed ∙ next-before (length s.smr_log) small in
      let s1 : Server = record s {
        smr_repl_commit = record s.smr_repl_commit { last_index = pos (length s.smr_log) };
      } in
      let (c, w', e, pers) =
        write_ahead-Persists op s1 w int (Persists-Same p f n size s s1 w w refl refl refl v) in
      (
        record s1 { clog = c; smr_log = s.smr_log ++ op ∷ [] },
        w',
        rw (here, append_entry, ◌>>=◌) (rw (e, ◌>>=◌) (rw (insert_at-length s.smr_log op))),
        pers,
      )

  process_job-Persists :
      (admin_id : ℤ) (robot : RobotInf) (barrier : ℕ) (s : Server) (w : W)
      → IsMapOp (entry_of robot)
      → IsCoherent (length s.smr_log) s
      → Persists p f size s w
      → EndsIn (Persists p f size) (process_job p admin_id robot barrier s w)
  process_job-Persists admin_id robot barrier s w int v pers =
      let start = Persists-Same p f n size s (as_primary s) w w refl refl refl pers in
      elim (Bool-cases (is_order robot)) [
        | inl order ↦
            let (s1, w1, e, pers1) =
              append_entry-Persists (entry_of robot) (as_primary s) w int v.indexed v.small start in
            let req = request_of s1 (entry_of robot) in
            (
              _,
              _,
              process_order p admin_id robot barrier s w s1 w1 order e,
              Persists-Same p f n size s1 _ w1 _ refl refl
                  (replicate-Same p f n req s1.smr_log s1.factories_record w1) pers1,
            )
        | inr notice ↦
            let req = request_of (as_primary s) (entry_of robot) in
            (
              _,
              _,
              process_notice p admin_id robot barrier s w notice,
              Persists-Same p f n size (as_primary s) _ w _ refl refl
                  (replicate-Same p f n req s.smr_log s.factories_record w) start,
            )
      ]

  -- A round of the admin thread.
  pub admin_round-Persists :
      (admin_id : ℤ) (robot : RobotInf) (barrier : ℕ) (robots : List RobotInf) (barriers : List ℕ)
      (k : ℕ) (s : Server) (w : W)
      → IsMapOp (entry_of robot)
      → IsCoherent k s
      → CanServe p k s
      → s.admin_thread_list ≡ robot ∷ robots
      → s.barrier_list ≡ barrier ∷ barriers
      → Persists p f size s w
      → EndsIn (Persists p f size) (admin_round p admin_id s w)
  admin_round-Persists admin_id robot barrier robots barriers k s w int v can jobs promises pers =
      let (s1, w1, e, (c, same)) = recheck-Ready p k s w v can in
      let pers1 = recheck-Keeps p f n size s s1 w w1 tt e pers in
      let ready = taken p admin_id robot barrier robots barriers s1 in
      let (s', w', e', pers') =
        process_job-Persists admin_id robot barrier ready w1 int
          (record {
            replayed = record { applied = c.applied; bounded = c.bounded; small = c.small };
            indexed = c.indexed;
            committed = c.committed;
          })
          (Persists-Same p f n size s1 ready w1 w1 refl refl refl pers1) in
      (
        s',
        w',
        admin_round_job p admin_id robot barrier robots barriers s s1 w w1 jobs e
              (same.robots ∙ jobs) (same.barriers ∙ promises)
            ∙ e',
        pers',
      )

  -- As many rounds as there are orders in the list.
  pub admin_rounds-Persists :
      (admin_id : ℤ) (jobs : List (ℕ × RobotInf)) (s : Server) (w : W)
      → IsCoherent (length s.smr_log) s
      → s.admin_thread_list ≡ robots_of jobs
      → s.barrier_list ≡ barriers_of jobs
      → All (λ j. (is_order j.1 ≡ true) × IsMapOp (entry_of j.1)) jobs
      → length s.smr_log + length jobs < 2 ^ 31
      → Persists p f size s w
      → EndsIn (Persists p f size) (admin_rounds p admin_id (length jobs) s w)
  unfolding admin_rounds
  admin_rounds-Persists admin_id [] s w v robots barriers orders room pers = (s, w, refl, pers)
  admin_rounds-Persists admin_id ((barrier, robot) ∷ jobs) s w v robots barriers (now, later) room
        pers =
      let (order, int) = now in
      let (s1, w1, e, first) =
        admin_round-Served p admin_id robot barrier (robots_of jobs) (barriers_of jobs) f.no_error
          (length s.smr_log) s w v (inl refl) robots barriers (omega arith) in
      let grown : length s1.smr_log ≡ length s.smr_log + 1 =
        ap length
          (first.logged ∙ ap (λ q. if q then s.smr_log ++ entry_of robot ∷ [] else s.smr_log) order)
        ∙ length-append s.smr_log (entry_of robot ∷ []) in
      let pers1 =
        EndsIn-unique (Persists p f size) _ s1 w1
          (admin_round-Persists admin_id robot barrier (robots_of jobs) (barriers_of jobs)
            (length s.smr_log) s w int v (inl refl) robots barriers pers)
          e in
      let (s', w', e', pers') =
        admin_rounds-Persists admin_id jobs s1 w1 first.coherent first.waiting first.promises later
          (omega arith) pers1 in
      (s', w', rw (e, ◌>>=◌) e', pers')
