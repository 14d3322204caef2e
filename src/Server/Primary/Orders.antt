-- ===== src/Server/Primary/Orders.antt =====
-- What a round of the admin thread does to the primary, whatever the replicas and the network do.
use load_balancer_with_wal.Base.{
  ℕ, suc, ◌+◌, ◌<◌, ◌^◌, ◌≡◌, refl, ◌∙◌, ap, sym, subst, inl, inr, true, false, List, [], ◌∷◌, ◌++◌,
  Bool-cases, length, length-append, get_elem?-append_self, insert_at-length, ok, arith,
  if◌then◌else◌,
}
use load_balancer_with_wal.Base.Int.{ℤ, pos, before, next}
use load_balancer_with_wal.Platform.{Platform}
use load_balancer_with_wal.RobotFactory.{MapOp, RobotInf, FactoryRec}
use load_balancer_with_wal.CommitLog.{CommitLog}
use load_balancer_with_wal.Server.State.{Server, ◌>>=◌}
use load_balancer_with_wal.Server.State.Map.{put}
use load_balancer_with_wal.Server.State.Spec.{
  records, records-suc, records-append, IsApplied, IsCoherent, Ends,
}
use load_balancer_with_wal.Server.Replica.Coherence.{write_ahead_ends}
use load_balancer_with_wal.Server.Replica.Recovery.{next-before}
use load_balancer_with_wal.Server.Primary.{
  replicate, append_entry, entry_of, request_of, is_order, process_job,
}

module _ {W : Type 0} (p : Platform W) (quiet : (w : W) → p.ferror w ≡ false) where
  pub append_entry-append :
      (op : MapOp) (s : Server) (w : W)
      → s.last_index ≡ before (length s.smr_log)
      → length s.smr_log < 2 ^ 31
      → (c : CommitLog) × (w' : W) × (append_entry p op s w
          ≡ ok (
            tt,
            record s {
              clog = c;
              smr_log = s.smr_log ++ op ∷ [];
              smr_repl_commit = record s.smr_repl_commit { last_index = pos (length s.smr_log) };
            },
            w',
          ))
  unfolding append_entry
  append_entry-append op s w indexed small =
      let n = length s.smr_log in
      let here : next s.last_index ≡ pos n = ap next indexed ∙ next-before n small in
      let s1 : Server = record s {
        smr_repl_commit = record s.smr_repl_commit { last_index = pos n };
      } in
      let (c, w', e) = write_ahead_ends p quiet op s1 w in
      (c, w', rw (here, append_entry, ◌>>=◌) (rw (e, ◌>>=◌) (rw (insert_at-length s.smr_log op))))

-- The server that takes a job up, and the server with the job done and the sockets fs.
abbrev pub as_primary : Server → Server
as_primary s = record s {
  smr_repl_commit = record s.smr_repl_commit { primary_id = s.my_factory_id };
}

abbrev pub order_done : ℤ → RobotInf → ℕ → List FactoryRec → Server → Server
order_done admin_id robot barrier fs s = record s {
  factories_record = fs;
  customer_record = put robot.customer_id robot.order_number s.customer_record;
  smr_repl_commit = record s.smr_repl_commit { committed_index = s.last_index };
  fulfilled = s.fulfilled ++ (barrier, record robot { admin_id = admin_id }) ∷ [];
}

abbrev pub notice_done : RobotInf → ℕ → List FactoryRec → Server → Server
notice_done robot barrier fs s = record s {
  factories_record = fs;
  fulfilled = s.fulfilled ++ (barrier, robot) ∷ [];
}

module _ {W : Type 0} (p : Platform W) (admin_id : ℤ) (robot : RobotInf) (barrier : ℕ) (s : Server)
    (w : W) where
  pub process_order :
      (s1 : Server) (w1 : W)
      → is_order robot ≡ true
      → append_entry p (entry_of robot) (as_primary s) w ≡ ok (tt, s1, w1)
      → let sent = replicate p (request_of s1 (entry_of robot)) s1.smr_log s1.factories_record w1 in
        process_job p admin_id robot barrier s w
        ≡ ok (tt, order_done admin_id robot barrier sent.0 s1, sent.1)
  unfolding process_job
  process_order s1 w1 order e = rw (order, process_job, ◌>>=◌) (rw (e, ◌>>=◌) (rw (order, ◌>>=◌)))

  pub process_notice :
      is_order robot ≡ false
      → let sent =
          replicate p (request_of (as_primary s) (entry_of robot)) s.smr_log s.factories_record w in
        process_job p admin_id robot barrier s w
        ≡ ok (tt, notice_done robot barrier sent.0 (as_primary s), sent.1)
  unfolding process_job
  process_notice notice = rw (notice, process_job, ◌>>=◌) (rw (notice, ◌>>=◌))

-- What is left after a job: the order is in the log and committed, and its promise is set with the
-- robot, which then has the id of the admin thread.
pub record Served (admin_id : ℤ) (robot : RobotInf) (barrier : ℕ) (robots : List RobotInf)
    (barriers : List ℕ) (s s' : Server) : Type 0 where
  pub coherent : IsCoherent (length s'.smr_log) s'
  pub logged : s'.smr_log ≡ (if is_order robot then s.smr_log ++ entry_of robot ∷ [] else s.smr_log)
  pub promised :
      s'.fulfilled
      ≡ s.fulfilled
        ++ (barrier, if is_order robot then record robot { admin_id = admin_id } else robot) ∷ []
  pub primary : s'.primary_id ≡ s.my_factory_id
  pub waiting : s'.admin_thread_list ≡ robots
  pub promises : s'.barrier_list ≡ barriers
  pub same_id : s'.my_factory_id ≡ s.my_factory_id

module _ {W : Type 0} (p : Platform W) (quiet : (w : W) → p.ferror w ≡ false) where
  order-IsApplied :
      (s : Server) (robot : RobotInf) (s' : Server)
      → IsCoherent (length s.smr_log) s
      → length s.smr_log + 1 < 2 ^ 31
      → s'.smr_log ≡ s.smr_log ++ entry_of robot ∷ []
      → s'.customer_record ≡ put robot.customer_id robot.order_number s.customer_record
      → IsApplied (suc (length s.smr_log)) s'
  unfolding entry_of
  order-IsApplied s robot s' v room log recs =
      let n = length s.smr_log in
      let grown : length s'.smr_log ≡ n + 1 = ap length log ∙ length-append s.smr_log _ in
      record {
        applied =
            recs
            ∙ ap (put robot.customer_id robot.order_number)
                (v.applied ∙ sym (records-append n s.smr_log (entry_of robot ∷ []) (omega arith)))
            ∙ sym (
                records-suc n (s.smr_log ++ entry_of robot ∷ []) (entry_of robot)
                  (get_elem?-append_self s.smr_log [] (entry_of robot)))
            ∙ ap (records (suc n)) (sym log);
        bounded = omega arith;
        small = omega arith;
      }

  pub process_job-Served :
      (admin_id : ℤ) (robot : RobotInf) (barrier : ℕ) (s : Server) (w : W)
      → IsCoherent (length s.smr_log) s
      → length s.smr_log + 1 < 2 ^ 31
      → Ends
          (Served admin_id robot barrier s.admin_thread_list s.barrier_list s)
          (process_job p admin_id robot barrier s w)
  process_job-Served admin_id robot barrier s w v room = elim (Bool-cases (is_order robot)) [
    | inl order ↦
        let n = length s.smr_log in
        let (c, w1, e) =
          append_entry-append p quiet (entry_of robot) (as_primary s) w v.indexed v.small in
        let grown : length (s.smr_log ++ entry_of robot ∷ []) ≡ suc n =
          omega (arith, length-append s.smr_log (entry_of robot ∷ [])) in
        let s1 : Server = record s {
          clog = c;
          smr_log = s.smr_log ++ entry_of robot ∷ [];
          smr_repl_commit = record s.smr_repl_commit {
            last_index = pos n;
            primary_id = s.my_factory_id;
          };
        } in
        let sent = replicate p (request_of s1 (entry_of robot)) s1.smr_log s.factories_record w1 in
        let s2 : Server = order_done admin_id robot barrier sent.0 s1 in
        (
          s2,
          sent.1,
          process_order p admin_id robot barrier s w s1 w1 order e,
          record {
            coherent = record {
              replayed =
                  subst (λ k. IsApplied k s2) (sym grown)
                    (order-IsApplied s robot s2 v room refl refl);
              indexed = sym (ap before grown);
              committed = sym (ap before grown);
            };
            logged = rw order;
            promised = rw order;
            primary = refl;
            waiting = refl;
            promises = refl;
            same_id = refl;
          },
        )
    | inr notice ↦
        let sent =
          replicate p (request_of (as_primary s) (entry_of robot)) s.smr_log s.factories_record w in
        (
          notice_done robot barrier sent.0 (as_primary s),
          sent.1,
          process_notice p admin_id robot barrier s w notice,
          record {
            coherent = record {
              replayed = record { applied = v.applied; bounded = v.bounded; small = v.small };
              indexed = v.indexed;
              committed = v.committed;
            };
            logged = rw notice;
            promised = rw notice;
            primary = refl;
            waiting = refl;
            promises = refl;
            same_id = refl;
          },
        )
  ]
