-- ===== src/Tests/SendLog.antt =====
-- A primary that sends a recovery log.
use load_balancer_with_wal.Base.{◌≡◌, refl, true, List, [], ◌∷◌, length, arith}
use load_balancer_with_wal.Base.Int.{pos}
use load_balancer_with_wal.RobotFactory.{MapOp}
use load_balancer_with_wal.RobotFactory.Wire.{memory, commit_in_words}
use load_balancer_with_wal.ServerStub.{send_recovery_log}
use load_balancer_with_wal.ServerStub.SendLog.{SendLaws, op_messages, send_recovery_log-messages}
use load_balancer_with_wal.Tests.World.{World, little, little-ByteLaws}
use load_balancer_with_wal.Tests.Log.{op, world}

abbrev little-SendLaws : SendLaws little
little-SendLaws = record {
  sent = λ sock w. w.outbox;
  send_count = λ sock bs w. (length bs, refl);
  sent-send = λ sock bs w. refl;
}

abbrev three_entries : List MapOp
three_entries = op 5 1 ∷ op 6 1 ∷ op 5 2 ∷ []

-- a replica that has committed one entry
abbrev asks : World
asks = record world {
  inbox = memory little (commit_in_words (record { committed_index = pos 0 })) ∷ [];
}

send_recovery_log-messages_example :
    ((send_recovery_log little (pos 4) three_entries asks).0 ≡ true)
    × ((send_recovery_log little (pos 4) three_entries asks).1.outbox
        ≡ op_messages little (op 6 1 ∷ op 5 2 ∷ []))
send_recovery_log-messages_example =
    send_recovery_log-messages little little-SendLaws little-ByteLaws 1 (pos 4) three_entries asks
      world (omega arith) refl
