-- ===== src/Tests/Restart.antt =====
-- Restarts at concrete inputs.
use load_balancer_with_wal.Base.{◌≡◌, refl, inl, arith, [], ◌∷◌, fault, out_of_range}
use load_balancer_with_wal.Base.Int.{pos}
use load_balancer_with_wal.Server.State.{Server}
use load_balancer_with_wal.Server.State.Spec.{Ends}
use load_balancer_with_wal.Server.Restart.{
  ask_commited_index, initiate_recovery_from_log, apply_recovered,
}
use load_balancer_with_wal.Server.Restart.Answers.{IsFresh, apply_recovered-out_of_range}
use load_balancer_with_wal.Server.Restart.FromDisk.{Restarted, initiate_recovery_from_log-Restarted}
use load_balancer_with_wal.Tests.World.{little, little-ByteLaws, little-FileLaws}
use load_balancer_with_wal.Tests.Log.{op, world, entry, first_entry-IsSealed, entry_file}
use load_balancer_with_wal.Tests.Replica.{server, one_entry}

initiate_recovery_from_log-Restarted_example :
    Ends (Restarted 1 one_entry) (initiate_recovery_from_log little 2 (server []) entry_file)
initiate_recovery_from_log-Restarted_example =
    initiate_recovery_from_log-Restarted little little-ByteLaws little-FileLaws
      (entry (op 5 1) ∷ []) (1 ∷ 2 ∷ []) 2 0 (server []) entry_file entry_file refl refl refl refl
      nobody (first_entry-IsSealed, tt) (inl (omega arith)) refl (omega arith) (omega arith)
      (inl refl)
  where
    nobody : ask_commited_index little [] entry_file ≡ (pos 0, entry_file)
    nobody = unfold ask_commited_index in refl

abbrev read_back : Server
read_back = record (server []) { smr_log = one_entry }

read_back-IsFresh : IsFresh read_back
read_back-IsFresh = record {
  no_record = refl;
  no_commit = refl;
  no_entry = refl;
  small = omega arith;
}

apply_recovered-out_of_range_example : apply_recovered (pos 1) read_back world ≡ fault out_of_range
apply_recovered-out_of_range_example =
    apply_recovered-out_of_range read_back world read_back-IsFresh (omega arith)
