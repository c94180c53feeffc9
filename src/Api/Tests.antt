-- ===== src/Api/Tests.antt =====
-- The methods of the custom resources at inputs.
use setec.Prelude.{◌*◌, ◌≡◌, refl, true, false, none, some, []}
use setec.Prelude.Int.{pos}
use setec.Prelude.Time.{minute}
use setec.Api.{SandboxCheckpointStatus, SessionRecoveryKind, resumed_from_checkpoint}
use setec.Api.Samples.{session_sandbox}
use setec.Api.Session.{
  is_session, recycle_after, record_recovery, copy_recovery, record_recovery-copy_recovery,
}

abbrev first_checkpoint : SandboxCheckpointStatus
first_checkpoint = record {
  ref = "team-a-worker-7f-ckpt-1";
  backend = "s3";
  sequence = 1;
  taken_at = some (5 * minute);
  pending_restore = false;
  last_recovery = resumed_from_checkpoint;
  last_recovery_at = some (7 * minute);
  last_recovery_state_taken_at = some (5 * minute);
  recoveries = 3;
  size_bytes = 4096;
  pod_uid = "pod-1";
  parents = [];
}

is_a_session : is_session session_sandbox.spec ≡ true
unfolding is_session setec.Api.Session.effective_lifecycle_mode
is_a_session = refl

kept_for_a_week : recycle_after none ≡ pos (7 * 24 * (60 * minute))
unfolding recycle_after
kept_for_a_week = refl

abbrev once_more : SandboxCheckpointStatus
once_more =
    record_recovery (copy_recovery first_checkpoint (some first_checkpoint)) resumed_from_checkpoint
      (9 * minute) (some (5 * minute))

counted_once_more : once_more.recoveries ≡ 4
unfolding record_recovery copy_recovery
counted_once_more = refl
