-- ===== src/Server/Primary/Takeover.antt =====
-- A server that takes over from a primary, and then serves a job.
use load_balancer_with_wal.Base.{
  ℕ, zero, suc, ◌≡◌, refl, ◌∙◌, ap, sym, subst, ◌⊎◌, inl, inr, Bool, true, false, Bool-cases,
  length, get_elem?-total, at, ok, arith, ◌&&◌,
}
use load_balancer_with_wal.Base.Int.{ℤ, pos, before, ltb_ℤ, leb_ℤ, eq_ℤ, eq_ℤ_iff}
use load_balancer_with_wal.Platform.{Platform}
use load_balancer_with_wal.RobotFactory.{MapOp}
use load_balancer_with_wal.Server.State.{Server, ◌>>=◌}
use load_balancer_with_wal.Server.State.Map.{put}
use load_balancer_with_wal.Server.State.Spec.{records, committed_next, IsCoherent, Ends}
use load_balancer_with_wal.Server.Primary.{recheckcommit, recheckreplsock, recheck}

-- The jobs, the log and the replies of two servers are the same.
pub record SameJobs (s s' : Server) : Type 0 where
  pub log : s'.smr_log ≡ s.smr_log
  pub robots : s'.admin_thread_list ≡ s.admin_thread_list
  pub barriers : s'.barrier_list ≡ s.barrier_list
  pub replies : s'.fulfilled ≡ s.fulfilled
  pub id : s'.my_factory_id ≡ s.my_factory_id

abbrev pub Ready : Server → Server → Type 0
Ready s s' = IsCoherent (length s'.smr_log) s' × SameJobs s s'

abbrev due : Server → Bool
due s = leb_ℤ (pos 0) s.last_index && ltb_ℤ s.committed_index s.last_index

due_same : (x : ℤ) → (leb_ℤ (pos 0) x && ltb_ℤ x x) ≡ false
due_same x = ground arith

due_next : (i : ℕ) → (leb_ℤ (pos 0) (pos i) && ltb_ℤ (before i) (pos i)) ≡ true
due_next zero = refl
due_next (suc i) = ground arith

module _ {W : Type 0} (s : Server) (w : W) where
  recheckcommit_skips : due s ≡ false → recheckcommit s w ≡ ok (tt, s, w)
  unfolding recheckcommit
  recheckcommit_skips t = rw (t, recheckcommit)

  recheckcommit_commits :
      (o : MapOp)
      → due s ≡ true
      → at s.smr_log s.last_index ≡ ok o
      → recheckcommit s w
        ≡ ok (
          tt,
          record s {
            customer_record = put o.arg1 o.arg2 s.customer_record;
            smr_repl_commit = record s.smr_repl_commit { committed_index = s.last_index };
          },
          w,
        )
  unfolding recheckcommit
  recheckcommit_commits o t e = rw (t, recheckcommit) (rw (e, ◌>>=◌))

  -- A replica whose log is committed but for the last entry commits that entry.
  recheckcommit-Ready :
      (k n : ℕ)
      → IsCoherent k s
      → length s.smr_log ≡ n
      → (k ≡ n) ⊎ (suc k ≡ n)
      → (s' : Server) × (recheckcommit s w ≡ ok (tt, s', w))
        × Ready s s'
        × (s'.factories_record ≡ s.factories_record)
  recheckcommit-Ready k n v size (inl same) = (
    s,
    recheckcommit_skips (rw (v.indexed, v.committed, size, same) (due_same (before n))),
    (
      subst (λ j. IsCoherent j s) (same ∙ sym size) v,
      record { log = refl; robots = refl; barriers = refl; replies = refl; id = refl },
    ),
    refl,
  )
  recheckcommit-Ready k zero v size (inr behind) = absurd (omega arith)
  recheckcommit-Ready k (suc i) v size (inr behind) =
      let (o, found) = get_elem?-total s.smr_log i (omega arith) in
      let last : s.last_index ≡ pos i = v.indexed ∙ ap before size in
      let here : k ≡ i = omega arith in
      (
        record s {
          customer_record = put o.arg1 o.arg2 s.customer_record;
          smr_repl_commit = record s.smr_repl_commit { committed_index = s.last_index };
        },
        recheckcommit_commits o (rw (last, v.committed, here) (due_next i)) (rw last (rw found)),
        (
          record {
            replayed = record {
              applied =
                  committed_next k i o s v.replayed (inr (ap suc (sym here))) found
                  ∙ ap (λ j. records j s.smr_log) (sym size);
              bounded = omega arith;
              small = v.small;
            };
            indexed = v.indexed;
            committed = v.indexed;
          },
          record { log = refl; robots = refl; barriers = refl; replies = refl; id = refl },
        ),
        refl,
      )

module _ {W : Type 0} (p : Platform W) where
  recheck_skips :
      (s : Server) (w : W) → eq_ℤ s.recheck_allow (pos 1) ≡ false → recheck p s w ≡ ok (tt, s, w)
  unfolding recheck
  recheck_skips s w t = rw (t, recheck)

  recheck_runs :
      (s s1 : Server) (w w1 : W)
      → eq_ℤ s.recheck_allow (pos 1) ≡ true
      → recheckcommit s w ≡ ok (tt, s1, w1)
      → let sockets = recheckreplsock p s1.factories_record w1 in
        recheck p s w
        ≡ ok (tt, record s1 { factories_record = sockets.0; recheck_allow = pos 0 }, sockets.1)
  unfolding recheck
  recheck_runs s s1 w w1 t e = rw (t, recheck) (rw (e, ◌>>=◌))

  -- The server is ready for a job: its whole log is committed, or all but the last entry and it will
  -- recheck.
  abbrev pub CanServe : ℕ → Server → Type 0
  CanServe k s = (k ≡ length s.smr_log) ⊎ ((suc k ≡ length s.smr_log) × (s.recheck_allow ≡ pos 1))

  pub recheck-Ready :
      (k : ℕ) (s : Server) (w : W) → IsCoherent k s → CanServe k s → Ends (Ready s) (recheck p s w)
  recheck-Ready k s w v can = elim (Bool-cases (eq_ℤ s.recheck_allow (pos 1))) [
    | inl on ↦
        let (s1, e, ready, same) =
          recheckcommit-Ready s w k (length s.smr_log) v refl (can_commit can) in
        let sockets = recheckreplsock p s1.factories_record w in
        let c = ready.0 in
        let j = ready.1 in
        (
          record s1 { factories_record = sockets.0; recheck_allow = pos 0 },
          sockets.1,
          recheck_runs s s1 w w on e,
          (
            record {
              replayed = record { applied = c.applied; bounded = c.bounded; small = c.small };
              indexed = c.indexed;
              committed = c.committed;
            },
            record {
              log = j.log;
              robots = j.robots;
              barriers = j.barriers;
              replies = j.replies;
              id = j.id;
            },
          ),
        )
    | inr off ↦ (
      s,
      w,
      recheck_skips s w off,
      (
        subst (λ j. IsCoherent j s) (committed_all can off) v,
        record { log = refl; robots = refl; barriers = refl; replies = refl; id = refl },
      ),
    )
  ]
    where
      can_commit : CanServe k s → (k ≡ length s.smr_log) ⊎ (suc k ≡ length s.smr_log)
      can_commit (inl e) = inl e
      can_commit (inr (e, _)) = inr e

      committed_all : CanServe k s → eq_ℤ s.recheck_allow (pos 1) ≡ false → k ≡ length s.smr_log
      committed_all (inl e) off = e
      committed_all (inr (_, on)) off = cc ((eq_ℤ_iff s.recheck_allow (pos 1)).1 on)
