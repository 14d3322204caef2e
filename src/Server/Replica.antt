-- ===== src/Server/Replica.antt =====
-- The replica's side of replication: ifa_thread_read, initiate_recovery and ifa_thread_body.
pub mod Coherence
pub mod Recovery
pub mod CatchUp
pub mod Misplaced
pub mod MissedOne
use load_balancer_with_wal.Base.{
  diverged, ℕ, zero, suc, Bool, true, false, not, none, some, if◌then◌else◌, at, insert_at, ok,
  fault,
}
use load_balancer_with_wal.Base.Int.{
  ℤ, pos, minus_one, ◌-ℤ◌, ltb_ℤ, leb_ℤ, eq_ℤ, wrap, next, rounds,
}
use load_balancer_with_wal.Platform.{Platform}
use load_balancer_with_wal.RobotFactory.{ReplReq}
use load_balancer_with_wal.CommitLog.{sync}
use load_balancer_with_wal.ServerStub.{
  get_conn_type, get_replication_request, replication_ack, send_commited_index, get_recovery_log,
}
use load_balancer_with_wal.Server.State.{
  Exec, pure, ◌>>=◌, ◌>>◌, get_server, modify, net, lift, set_primary, set_last_index, commit,
  write_ahead, wal_enabled,
}

module _ {W : Type 0} (p : Platform W) where
  -- the call of GetRecoveryLog, which fills `smr_log`
  unfoldable pub receive_log : ℤ → ℤ → Exec W Bool
  receive_log ifa remote_last_log_index s w =
      elim (get_recovery_log p ifa s.smr_log s.last_index remote_last_log_index w) [
        | ok (got, smr_log', w') ↦ ok (got, record s { smr_log = smr_log' }, w')
        | fault e ↦ fault e
      ]

  -- the loop of initiate_recovery from index i, for the given rounds
  unfoldable pub log_recovered : ℕ → ℤ → ℤ → Exec W (Unit {0})
  log_recovered zero i remote_last_commited_index = pure tt
  log_recovered (suc n) i remote_last_commited_index = do
    s ← get_server
    commited_mapop ← lift (at s.smr_log i)
    write_ahead p commited_mapop
    if leb_ℤ i remote_last_commited_index then commit commited_mapop i else pure tt
    log_recovered n (next i) remote_last_commited_index

  unfoldable pub initiate_recovery : ℤ → ℤ → ℤ → Exec W (Unit {0})
  unfolding receive_log log_recovered
  initiate_recovery ifa remote_last_log_index remote_last_commited_index = do
    acked ← net (replication_ack p ifa (pos 2))
    if not acked then set_primary minus_one else do
      s ← get_server
      sent ← net (send_commited_index p ifa (record { committed_index = s.committed_index }))
      got ← receive_log ifa remote_last_log_index
      if not got
          then set_primary minus_one
          else log_recovered (rounds (next s.last_index) remote_last_log_index) (next s.last_index)
              remote_last_commited_index

  -- the write of the request's entry to the log on disk and in memory
  unfoldable pub append_replicated : ReplReq → Exec W (Unit {0})
  append_replicated req = do
    write_ahead p req.mapop_record
    if wal_enabled then net (λ w. (tt, sync p w)) else pure tt
    s ← get_server
    smr_log' ← lift (insert_at req.last_index req.mapop_record s.smr_log)
    modify (λ s. record s { smr_log = smr_log' })

  -- the end of ifa_thread_read, which commits the entry that the primary has committed
  unfoldable pub follow_primary : ReplReq → Exec W (Unit {0})
  follow_primary req = do
    set_primary req.factory_id
    set_last_index req.last_index
    if eq_ℤ req.committed_index minus_one then pure tt else do
      s ← get_server
      commited_mapop ← lift (at s.smr_log req.committed_index)
      commit commited_mapop req.committed_index

  -- ifa_thread_read once the request has been received
  unfoldable pub apply_request : ℤ → ReplReq → Exec W (Unit {0})
  apply_request ifa req = do
    s ← get_server
    if ltb_ℤ (pos 1) (wrap (req.last_index -ℤ s.last_index))
        then initiate_recovery ifa req.last_index req.committed_index
        else if eq_ℤ req.mapop_record.arg1 minus_one
        then pure tt
        else append_replicated req
    follow_primary req

  unfoldable pub ifa_thread_read : ℤ → Exec W (Unit {0})
  unfolding apply_request
  ifa_thread_read ifa = do
    got ← net (get_replication_request p ifa)
    elim got [ none ↦ set_primary minus_one | some req ↦ apply_request ifa req ]

  -- One round of the loop of ifa_thread_body: whether it goes on.
  unfoldable pub ifa_round : ℤ → Exec W Bool
  ifa_round sock = do
    peeked ← net (p.peek sock 24)
    if eq_ℤ peeked (pos 0)
        then (do net (λ w. (tt, p.close sock w)); set_primary minus_one; pure false)
        else (do
          ifa_thread_read sock
          acked ← net (replication_ack p sock (pos 1))
          if acked then pure true else (do set_primary minus_one; pure false))

  -- the loop of ifa_thread_body, on fuel
  unfoldable pub ifa_rounds : ℕ → ℤ → Exec W (Unit {0})
  ifa_rounds zero sock = lift (fault diverged)
  ifa_rounds (suc fuel) sock = do
    again ← ifa_round sock
    elim again [ true ↦ ifa_rounds fuel sock | false ↦ pure tt ]

  -- ifa_thread_body; a connection type that could not be received is unset
  unfoldable pub ifa_thread_body : ℕ → ℤ → Exec W (Unit {0})
  ifa_thread_body fuel sock = do
    get_conn ← net (get_conn_type p sock)
    unset ← net (λ w. (p.uninit w, w))
    if eq_ℤ (elim get_conn [ none ↦ unset | some c ↦ c.get_commit_req ]) (pos 0)
        then ifa_rounds fuel sock
        else (do
          s ← get_server
          sent ← net (send_commited_index p sock (record { committed_index = s.committed_index }))
          net (λ w. (tt, p.close sock w)))
