-- ===== src/Server/Replica/Coherence.antt =====
-- A replica that is in step with its primary stays so.
use load_balancer_with_wal.Base.{
  ℕ, zero, suc, ◌≤◌, ◌<◌, ◌^◌, ◌≡◌, refl, ◌∙◌, ap, sym, subst, ◌⊎◌, inl, inr, true, false, some,
  List, [], ◌∷◌, ◌++◌, Bool-cases, length, length-append, get_elem?-total, insert_at-length, ok,
  arith, if◌then◌else◌,
}
use load_balancer_with_wal.Base.Int.{ℤ, pos, minus_one, before, wrap, ltb_ℤ, ◌-ℤ◌, eq_ℤ}
use load_balancer_with_wal.Platform.{Platform}
use load_balancer_with_wal.RobotFactory.{MapOp, ReplReq}
use load_balancer_with_wal.CommitLog.{CommitLog, sync}
use load_balancer_with_wal.CommitLog.Batches.{writelogwithcrc_ends}
use load_balancer_with_wal.ServerStub.{get_replication_request}
use load_balancer_with_wal.Server.State.{Server, write_ahead, with_clog, ◌>>=◌}
use load_balancer_with_wal.Server.State.Map.{put}
use load_balancer_with_wal.Server.State.Spec.{
  records, records-append, committed_next, IsApplied, IsCoherent, Ends,
}
use load_balancer_with_wal.Server.Replica.{
  append_replicated, follow_primary, apply_request, ifa_thread_read,
}

gap_zero : (n : ℕ) → n < 2 ^ 31 → ltb_ℤ (pos 1) (wrap (before n -ℤ before n)) ≡ false
gap_zero zero h = refl
gap_zero (suc n) h = ground arith

pub gap_one : (n : ℕ) → n < 2 ^ 31 → ltb_ℤ (pos 1) (wrap (before (suc n) -ℤ before n)) ≡ false
gap_one zero h = refl
gap_one (suc n) h = ground arith

-- The log after a request: a request from customer -1 carries no entry.
abbrev pub log_after : ReplReq → List MapOp → List MapOp
log_after req log =
    if eq_ℤ req.mapop_record.arg1 minus_one then log else log ++ req.mapop_record ∷ []

module _ {W : Type 0} (p : Platform W) where
  abbrev pub Follows : ℕ → ReplReq → Server → Server → Type 0
  Follows j req s s' = IsCoherent j s' × (s'.smr_log ≡ s.smr_log) × (s'.primary_id ≡ req.factory_id)

  pub follow_primary-Follows :
      (k j : ℕ) (req : ReplReq) (s : Server) (w : W)
      → IsApplied k s
      → s.committed_index ≡ before k
      → (j ≡ k) ⊎ (j ≡ suc k)
      → j ≤ length s.smr_log
      → req.last_index ≡ before (length s.smr_log)
      → req.committed_index ≡ before j
      → Ends (Follows j req s) (follow_primary p req s w)
  unfolding follow_primary
  follow_primary-Follows k zero req s w v c (inl e) fits last comm = (
    record s {
      smr_repl_commit = record s.smr_repl_commit {
        last_index = req.last_index;
        primary_id = req.factory_id;
      };
    },
    w,
    rw (comm, follow_primary) refl,
    (
      record {
        replayed = record {
          applied = v.applied ∙ ap (λ n. records n s.smr_log) (sym e);
          bounded = fits;
          small = v.small;
        };
        indexed = last;
        committed = c ∙ ap before (sym e);
      },
      refl,
      refl,
    ),
  )
  follow_primary-Follows k zero req s w v c (inr e) fits last comm = absurd (omega arith)
  follow_primary-Follows k (suc i) req s w v c near fits last comm =
      let (o, e) = get_elem?-total s.smr_log i fits in
      (
        record s {
          customer_record = put o.arg1 o.arg2 s.customer_record;
          smr_repl_commit = record s.smr_repl_commit {
            last_index = req.last_index;
            primary_id = req.factory_id;
            committed_index = req.committed_index;
          };
        },
        w,
        rw (comm, follow_primary) (rw e),
        (
          record {
            replayed = record {
              applied = committed_next k i o s v near e;
              bounded = fits;
              small = v.small;
            };
            indexed = last;
            committed = comm;
          },
          refl,
          refl,
        ),
      )

  module _ (quiet : (w : W) → p.ferror w ≡ false) where
    pub write_ahead_ends :
        (op : MapOp) (s : Server) (w : W)
        → (c : CommitLog) × (w' : W) × (write_ahead p op s w ≡ ok (tt, record s { clog = c }, w'))
    unfolding write_ahead
    write_ahead_ends op s w =
        let (c, w', e) = writelogwithcrc_ends p quiet s.clog op w in
        (c, w', rw (e, write_ahead, with_clog))

    pub append_replicated-append :
        (req : ReplReq) (s : Server) (w : W)
        → req.last_index ≡ pos (length s.smr_log)
        → (c : CommitLog) × (w' : W) × (append_replicated p req s w
            ≡ ok (tt, record s { clog = c; smr_log = s.smr_log ++ req.mapop_record ∷ [] }, w'))
    unfolding append_replicated
    append_replicated-append req s w last =
        let (c, w', e) = write_ahead_ends req.mapop_record s w in
        (
          c,
          sync p w',
          rw (e, append_replicated, ◌>>=◌)
              (rw last (rw (insert_at-length s.smr_log req.mapop_record))),
        )

    module _ (ifa : ℤ) (req : ReplReq) (s : Server) (w : W)
        (near_last : ltb_ℤ (pos 1) (wrap (req.last_index -ℤ s.last_index)) ≡ false) where
      pub apply_notice :
          eq_ℤ req.mapop_record.arg1 minus_one ≡ true
          → apply_request p ifa req s w ≡ follow_primary p req s w
      unfolding apply_request
      apply_notice notice = rw (near_last, apply_request) (rw (notice, ◌>>=◌))

      pub apply_entry :
          (s1 : Server) (w1 : W)
          → eq_ℤ req.mapop_record.arg1 minus_one ≡ false
          → append_replicated p req s w ≡ ok (tt, s1, w1)
          → apply_request p ifa req s w ≡ follow_primary p req s1 w1
      unfolding apply_request
      apply_entry s1 w1 entry e = rw (near_last, apply_request) (rw (entry, ◌>>=◌) (rw (e, ◌>>=◌)))

    -- What a request in step does to a replica.
    abbrev pub InStep : ℕ → ReplReq → Server → Server → Type 0
    InStep j req s s' =
        IsCoherent j s' × (s'.smr_log ≡ log_after req s.smr_log) × (s'.primary_id ≡ req.factory_id)

    pub apply_request-InStep :
        (k j : ℕ) (ifa : ℤ) (req : ReplReq) (s : Server) (w : W)
        → IsCoherent k s
        → (j ≡ k) ⊎ (j ≡ suc k)
        → j ≤ length (log_after req s.smr_log)
        → length (log_after req s.smr_log) < 2 ^ 31
        → req.last_index ≡ before (length (log_after req s.smr_log))
        → req.committed_index ≡ before j
        → Ends (InStep j req s) (apply_request p ifa req s w)
    apply_request-InStep k j ifa req s w v near fits small last comm =
        elim (Bool-cases (eq_ℤ req.mapop_record.arg1 minus_one)) [
          | inl notice ↦
              let same : log_after req s.smr_log ≡ s.smr_log = rw notice in
              let last' = last ∙ ap (λ xs. before (length xs)) same in
              let (s', w', e, f) =
                follow_primary-Follows k j req s w v.replayed v.committed near
                  (subst (λ xs. j ≤ length xs) same fits) last' comm in
              (
                s',
                w',
                apply_notice ifa req s w (rw (last', v.indexed) (gap_zero _ v.small)) notice ∙ e,
                (f.0, f.1 ∙ sym same, f.2),
              )
          | inr entry ↦
              let log : List MapOp = s.smr_log ++ req.mapop_record ∷ [] in
              let grown : log_after req s.smr_log ≡ log = rw entry in
              let one_more : length log ≡ suc (length s.smr_log) =
                omega (arith, length-append s.smr_log (req.mapop_record ∷ [])) in
              let last' = last ∙ ap (λ xs. before (length xs)) grown in
              let last'' = last' ∙ ap before one_more in
              let small' = subst (λ xs. length xs < 2 ^ 31) grown small in
              let (c, w1, e1) = append_replicated-append req s w last'' in
              let (s', w', e, f) =
                follow_primary-Follows k j req (record s { clog = c; smr_log = log }) w1
                  (record {
                    applied = v.applied ∙ sym (records-append k s.smr_log _ v.bounded);
                    bounded = omega (arith, v.bounded);
                    small = small';
                  })
                  v.committed near (subst (λ xs. j ≤ length xs) grown fits) last' comm in
              (
                s',
                w',
                apply_entry ifa req s w (rw (last'', v.indexed) (gap_one _ v.small)) _ w1 entry e1
                    ∙ e,
                (f.0, f.1 ∙ sym grown, f.2),
              )
        ]

    pub ifa_thread_read-InStep :
        (k j : ℕ) (ifa : ℤ) (req : ReplReq) (s : Server) (w w1 : W)
        → IsCoherent k s
        → get_replication_request p ifa w ≡ (some req, w1)
        → (j ≡ k) ⊎ (j ≡ suc k)
        → j ≤ length (log_after req s.smr_log)
        → length (log_after req s.smr_log) < 2 ^ 31
        → req.last_index ≡ before (length (log_after req s.smr_log))
        → req.committed_index ≡ before j
        → Ends (InStep j req s) (ifa_thread_read p ifa s w)
    unfolding ifa_thread_read
    ifa_thread_read-InStep k j ifa req s w w1 v got near fits small last comm =
        rw (got, ifa_thread_read, ◌>>=◌)
          (apply_request-InStep k j ifa req s w1 v near fits small last comm)
