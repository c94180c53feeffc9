-- ===== src/Api/Session.antt =====
-- The methods of api/v1alpha1/sandbox_types.go and sandboxclass_types.go: the lifecycle mode of a
-- Sandbox, the checkpoint settings of a class, and the record of a session recovery.
use setec.Prelude.{
  ◌+◌, ◌*◌, ◌≡◌, ◌⊎◌, ◌≢◌, String, Bool, true, false, Option, none, some, arith, ◌==◌, string_eq,
  if◌then◌else◌,
}
use setec.Prelude.Int.{pos, leb_ℤ}
use setec.Prelude.Time.{Time, Duration, minute}
use setec.Api.{
  LifecycleMode, ephemeral, session, LifecycleMode-discrete, lifecycle_mode_eq, Lifecycle,
  SandboxSpec, SessionCheckpointSpec, SandboxCheckpointStatus, SessionRecoveryKind,
  resumed_from_checkpoint,
}

effective_mode_of : Option Lifecycle → LifecycleMode
effective_mode_of none = ephemeral
effective_mode_of (some l) = if l.mode == LifecycleMode.unset then ephemeral else l.mode

unfoldable pub effective_lifecycle_mode : {Q : Type 0} → SandboxSpec Q → LifecycleMode
unfolding effective_mode_of
effective_lifecycle_mode s = effective_mode_of s.lifecycle

unfoldable pub is_session : {Q : Type 0} → SandboxSpec Q → Bool
unfolding effective_lifecycle_mode LifecycleMode-discrete
is_session s = effective_lifecycle_mode s == session

unfoldable pub is_ephemeral : {Q : Type 0} → SandboxSpec Q → Bool
unfolding effective_lifecycle_mode LifecycleMode-discrete
is_ephemeral s = effective_lifecycle_mode s == ephemeral

abbrev pub default_suspended_ttl : Duration
default_suspended_ttl = pos (7 * 24 * 60 * minute)

abbrev pub default_session_idle_timeout : Duration
default_session_idle_timeout = pos (10 * minute)

abbrev pub default_durable_interval : Duration
default_durable_interval = pos (15 * minute)

interval_of : Option Duration → Bool → Duration
interval_of (some d) durable = d
interval_of none true = default_durable_interval
interval_of none false = pos 0

unfoldable pub effective_interval : Option SessionCheckpointSpec → Duration
unfolding interval_of
effective_interval none = pos 0
effective_interval (some s) = interval_of s.interval s.durable

recycle_of : Option Duration → Duration
recycle_of none = default_suspended_ttl
recycle_of (some d) = if leb_ℤ d (pos 0) then default_suspended_ttl else d

unfoldable pub recycle_after : Option SessionCheckpointSpec → Duration
unfolding recycle_of
recycle_after none = default_suspended_ttl
recycle_after (some s) = recycle_of s.suspended_ttl

unfoldable pub checkpoint_backend : Option SessionCheckpointSpec → String
checkpoint_backend none = "s3"
checkpoint_backend (some s) = if s.backend == "" then "s3" else s.backend

state_time : SessionRecoveryKind → Option Time → Option Time
state_time resumed_from_checkpoint taken = taken
state_time _ taken = none

unfoldable pub record_recovery :
    SandboxCheckpointStatus → SessionRecoveryKind → Time → Option Time → SandboxCheckpointStatus
unfolding state_time
record_recovery s kind at state_taken_at = record s {
  last_recovery = kind;
  last_recovery_at = some at;
  last_recovery_state_taken_at = state_time kind state_taken_at;
  recoveries = s.recoveries + 1;
}

unfoldable pub copy_recovery :
    SandboxCheckpointStatus → Option SandboxCheckpointStatus → SandboxCheckpointStatus
copy_recovery s none = s
copy_recovery s (some prev) = record s {
  last_recovery = prev.last_recovery;
  last_recovery_at = prev.last_recovery_at;
  last_recovery_state_taken_at = prev.last_recovery_state_taken_at;
  recoveries = prev.recoveries;
}

-- A recovery of a new Pod's status that copies the previous one and records one more: the count
-- goes up by one, and the time of the loaded state is kept exactly when the recovery resumed from
-- a checkpoint.
pub record_recovery-copy_recovery :
    (s prev : SandboxCheckpointStatus) (kind : SessionRecoveryKind) (at : Time)
    (taken : Option Time)
    → let r = record_recovery (copy_recovery s (some prev)) kind at taken in
      (r.recoveries ≡ prev.recoveries + 1)
      × (r.ref ≡ s.ref)
      × (r.sequence ≡ s.sequence)
      × (((kind ≡ resumed_from_checkpoint) × (r.last_recovery_state_taken_at ≡ taken))
          ⊎ ((kind ≢ resumed_from_checkpoint) × (r.last_recovery_state_taken_at ≡ none)))
unfolding record_recovery copy_recovery
record_recovery-copy_recovery s prev kind at taken = ground arith
