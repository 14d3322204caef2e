-- ===== src/Server/Threads/Replica.antt =====
-- The replica's thread leaves the lists of the engineer threads and their promises alone.
use load_balancer_with_wal.Base.{
  ℕ, zero, suc, Bool, true, false, not, Option, none, some, List, ◌≡◌, refl, ◌∙◌, sym, ap, Result,
  ok, fault, at, insert_at,
}
use load_balancer_with_wal.Base.Int.{
  ℤ, pos, minus_one, eq_ℤ, ltb_ℤ, leb_ℤ, next, rounds, wrap, ◌-ℤ◌,
}
use load_balancer_with_wal.Platform.{Platform}
use load_balancer_with_wal.RobotFactory.{MapOp, ReplReq}
use load_balancer_with_wal.CommitLog.{sync}
use load_balancer_with_wal.ServerStub.{
  get_replication_request, replication_ack, send_commited_index, get_recovery_log,
}
use load_balancer_with_wal.Server.State.{Server, Exec, get_server, net, set_primary}
use load_balancer_with_wal.Server.Replica.{
  receive_log, log_recovered, initiate_recovery, append_replicated, follow_primary, apply_request,
  ifa_thread_read, ifa_round,
}
use load_balancer_with_wal.Server.Threads.Frames.{
  SameJobs, Leaves, same_end, same_jobs, fault_not, net-Leaves, lift-Leaves, get_server-Leaves,
  pure-Leaves, bind-Leaves, if-Leaves, set_primary-Leaves, set_last_index-Leaves, smr_log-Leaves,
  commit-Leaves, write_ahead-Leaves,
}

module _ {W : Type 0} (p : Platform W) where
  receive_log-Leaves : (ifa last : ℤ) → Leaves (receive_log p ifa last)
  unfolding receive_log
  receive_log-Leaves ifa last s s' w w' b e =
      go (get_recovery_log p ifa s.smr_log s.last_index last w) refl
    where
      filed : Result (Bool × List MapOp × W) → Result (Bool × Server × W)
      filed (ok (got, smr_log', v)) = ok (got, record s { smr_log = smr_log' }, v)
      filed (fault x) = fault x

      go :
          (r : Result (Bool × List MapOp × W))
          → get_recovery_log p ifa s.smr_log s.last_index last w ≡ r
          → SameJobs s s'
      go (ok (got, smr_log', v)) same =
          same_jobs (same_end (sym (ap filed same) ∙ e)) refl refl refl
      go (fault x) same = absurd (fault_not x (sym (ap filed same) ∙ e))

  log_recovered-Leaves : (n : ℕ) (i committed : ℤ) → Leaves (log_recovered p n i committed)
  unfolding log_recovered
  log_recovered-Leaves zero i committed = pure-Leaves tt
  log_recovered-Leaves (suc n) i committed = bind-Leaves get_server _ get_server-Leaves λ s.
      bind-Leaves _ _ (lift-Leaves (at s.smr_log i)) λ o.
        bind-Leaves _ _ (write_ahead-Leaves p o) λ _.
          bind-Leaves _ _ (if-Leaves (leb_ℤ i committed) _ _ (commit-Leaves o i) (pure-Leaves tt))
            λ _. log_recovered-Leaves n (next i) committed

  initiate_recovery-Leaves :
      (ifa last committed : ℤ) → Leaves (initiate_recovery p ifa last committed)
  unfolding initiate_recovery
  initiate_recovery-Leaves ifa last committed =
      bind-Leaves _ _ (net-Leaves (replication_ack p ifa (pos 2))) λ acked.
        if-Leaves (not acked) _ _ (set_primary-Leaves minus_one) (
          bind-Leaves get_server _ get_server-Leaves λ s.
            bind-Leaves _ _
              (net-Leaves
                (send_commited_index p ifa (record { committed_index = s.committed_index })))
              λ _. bind-Leaves _ _ (receive_log-Leaves ifa last) λ got.
                if-Leaves (not got) _ _ (set_primary-Leaves minus_one) (
                  log_recovered-Leaves (rounds (next s.last_index) last) (next s.last_index)
                    committed))

  append_replicated-Leaves : (req : ReplReq) → Leaves (append_replicated p req)
  unfolding append_replicated
  append_replicated-Leaves req = bind-Leaves _ _ (write_ahead-Leaves p req.mapop_record) λ _.
      bind-Leaves _ _ (net-Leaves (λ w. (tt, sync p w))) λ _.
        bind-Leaves get_server _ get_server-Leaves λ s.
          bind-Leaves _ _ (lift-Leaves (insert_at req.last_index req.mapop_record s.smr_log))
            λ os. smr_log-Leaves os

  follow_primary-Leaves : (req : ReplReq) → Leaves (follow_primary p req)
  unfolding follow_primary
  follow_primary-Leaves req = bind-Leaves _ _ (set_primary-Leaves req.factory_id) λ _.
      bind-Leaves _ _ (set_last_index-Leaves req.last_index) λ _.
        if-Leaves (eq_ℤ req.committed_index minus_one) _ _ (pure-Leaves tt) (
          bind-Leaves get_server _ get_server-Leaves λ s.
            bind-Leaves _ _ (lift-Leaves (at s.smr_log req.committed_index))
              λ o. commit-Leaves o req.committed_index)

  apply_request-Leaves : (ifa : ℤ) (req : ReplReq) → Leaves (apply_request p ifa req)
  unfolding apply_request
  apply_request-Leaves ifa req = bind-Leaves get_server _ get_server-Leaves λ s.
      bind-Leaves _ _
        (if-Leaves (ltb_ℤ (pos 1) (wrap (req.last_index -ℤ s.last_index))) _ _
          (initiate_recovery-Leaves ifa req.last_index req.committed_index)
          (if-Leaves (eq_ℤ req.mapop_record.arg1 minus_one) _ _ (pure-Leaves tt)
            (append_replicated-Leaves req)))
        λ _. follow_primary-Leaves req

  ifa_thread_read-Leaves : (ifa : ℤ) → Leaves (ifa_thread_read p ifa)
  unfolding ifa_thread_read
  ifa_thread_read-Leaves ifa =
      bind-Leaves (net (get_replication_request p ifa)) _
        (net-Leaves (get_replication_request p ifa)) read
    where
      read :
          (got : Option ReplReq)
          → Leaves (elim got as (λ _. Exec W (Unit {0})) [
            | none ↦ set_primary minus_one
            | some req ↦ apply_request p ifa req
          ])
      read none = set_primary-Leaves minus_one
      read (some req) = apply_request-Leaves ifa req

  pub ifa_round-Leaves : (sock : ℤ) → Leaves (ifa_round p sock)
  unfolding ifa_round
  ifa_round-Leaves sock = bind-Leaves _ _ (net-Leaves (p.peek sock 24)) λ peeked.
      if-Leaves (eq_ℤ peeked (pos 0)) _ _
        (bind-Leaves _ _ (net-Leaves (λ w. (tt, p.close sock w)))
          λ _. bind-Leaves _ _ (set_primary-Leaves minus_one) λ _. pure-Leaves false)
        (bind-Leaves _ _ (ifa_thread_read-Leaves sock) λ _.
          bind-Leaves _ _ (net-Leaves (replication_ack p sock (pos 1))) λ acked.
            if-Leaves acked _ _ (pure-Leaves true)
              (bind-Leaves _ _ (set_primary-Leaves minus_one) λ _. pure-Leaves false))
