-- ===== src/Api.antt =====
-- api/v1alpha1: the custom resources Sandbox, SandboxClass and Snapshot. Each record has the
-- fields that the modelled code reads or writes. A string type with named constants is an
-- enumeration, with `unset` for the empty string. `Q` stands for resource.Quantity, which the
-- Kubernetes libraries define.
pub mod Session
pub mod Samples
mod Tests
use setec.Prelude.{ℕ, String, Bool, Option, List, StringMap, Eq, discrete_eq}
use setec.Prelude.Int.{ℤ}
use setec.Prelude.Time.{Time, Duration}

pub data NetworkMode : Type 0 where
  unset external_only egress_allow_list none_mode : NetworkMode

unfoldable pub NetworkMode-discrete : Discrete NetworkMode
NetworkMode-discrete = hlevel

instance abbrev pub network_mode_eq : Eq NetworkMode
network_mode_eq = discrete_eq NetworkMode-discrete

pub data SandboxPhase : Type 0 where
  unset pending running completed failed paused snapshotting restoring suspended : SandboxPhase

unfoldable pub SandboxPhase-discrete : Discrete SandboxPhase
SandboxPhase-discrete = hlevel

instance abbrev pub sandbox_phase_eq : Eq SandboxPhase
sandbox_phase_eq = discrete_eq SandboxPhase-discrete

pub data LifecycleMode : Type 0 where
  unset ephemeral session : LifecycleMode

unfoldable pub LifecycleMode-discrete : Discrete LifecycleMode
LifecycleMode-discrete = hlevel

instance abbrev pub lifecycle_mode_eq : Eq LifecycleMode
lifecycle_mode_eq = discrete_eq LifecycleMode-discrete

pub data SandboxDesiredState : Type 0 where
  unset state_running state_paused state_suspended : SandboxDesiredState

unfoldable pub SandboxDesiredState-discrete : Discrete SandboxDesiredState
SandboxDesiredState-discrete = hlevel

instance abbrev pub sandbox_desired_state_eq : Eq SandboxDesiredState
sandbox_desired_state_eq = discrete_eq SandboxDesiredState-discrete

pub data SandboxSnapshotAfterCreate : Type 0 where
  unset after_running after_paused after_terminated : SandboxSnapshotAfterCreate

pub record SandboxSnapshotSpec : Type 0 where
  pub create : Bool
  pub name : String
  pub after_create : SandboxSnapshotAfterCreate
  pub ttl : Option Duration
  pub kept : Bool
  pub forkable : Bool
  pub parent : String

pub record Resources (Q : Type 0) : Type 0 where
  pub vcpu : ℤ  -- int32
  pub memory : Q
  pub scratch : Option Q

pub record NetworkAllow : Type 0 where
  pub host : String
  pub port : ℤ  -- int32
  pub cidr : String

pub record Network : Type 0 where
  pub mode : NetworkMode
  pub allow : List NetworkAllow

pub record Lifecycle : Type 0 where
  pub mode : LifecycleMode
  pub timeout : Option Duration

pub record SandboxSpec (Q : Type 0) : Type 0 where
  pub sandbox_class_name : String
  pub image : String
  pub resources : Resources Q
  pub network : Option Network
  pub lifecycle : Option Lifecycle
  pub snapshot : Option SandboxSnapshotSpec
  pub snapshot_ref : Option String
  pub desired_state : SandboxDesiredState
  pub review : Bool

pub data SessionRecoveryKind : Type 0 where
  unset resumed_from_checkpoint restarted_from_workspace : SessionRecoveryKind

pub record SandboxCheckpointStatus : Type 0 where
  pub ref : String
  pub backend : String
  pub sequence : ℕ  -- int64, counted up from 0
  pub taken_at : Option Time
  pub size_bytes : ℕ  -- int64 of a stored size
  pub pending_restore : Bool
  pub last_recovery : SessionRecoveryKind
  pub last_recovery_at : Option Time
  pub last_recovery_state_taken_at : Option Time
  pub recoveries : ℕ  -- int64, counted up from 0
  pub pod_uid : String
  pub parents : List String

pub record SandboxIdentityStatus : Type 0 where
  pub public_key : String
  pub generation : ℕ  -- int64, counted up from 0

pub record SandboxRuntimeStatus : Type 0 where
  pub chosen : String

pub record SandboxStatus : Type 0 where
  pub phase : SandboxPhase
  pub reason : String
  pub exit_code : Option ℤ  -- int32
  pub pod_name : String
  pub started_at : Option Time
  pub last_transition_time : Option Time
  pub paused_at : Option Time
  pub checkpoint : Option SandboxCheckpointStatus
  pub identity : Option SandboxIdentityStatus
  pub runtime : Option SandboxRuntimeStatus

pub record Sandbox (Q : Type 0) : Type 0 where
  pub namespace : String
  pub name : String
  pub uid : String
  pub creation_timestamp : Time
  pub deletion_timestamp : Option Time
  pub finalizers : List String
  pub labels : StringMap
  pub annotations : StringMap
  pub spec : SandboxSpec Q
  pub status : SandboxStatus

pub record SessionCheckpointSpec : Type 0 where
  pub interval : Option Duration
  pub backend : String
  pub durable : Bool
  pub suspended_ttl : Option Duration

pub record SandboxClassRuntime : Type 0 where
  pub backend : String

pub record SandboxClassSpec (Q : Type 0) : Type 0 where
  pub default_resources : Option (Resources Q)
  pub max_resources : Option (Resources Q)
  pub allowed_network_modes : List NetworkMode
  pub default_network_mode : NetworkMode
  pub default_egress_allow : List NetworkAllow
  pub default_class : Bool
  pub cpu_template : String
  pub max_pause_duration : Option Duration
  pub session_idle_timeout : Option Duration
  pub session_checkpoint : Option SessionCheckpointSpec
  pub runtime : Option SandboxClassRuntime
  pub pre_warm_pool_size : ℤ  -- int32
  pub pre_warm_image : String

pub record SandboxClassWarmPoolImage : Type 0 where
  pub image : String
  pub last_used : Time
  pub key : String
  pub ready : ℕ  -- int32, never below 0

pub record SandboxClassStatus : Type 0 where
  pub warm_pool : Option (List SandboxClassWarmPoolImage)

pub record SandboxClass (Q : Type 0) : Type 0 where
  pub name : String
  pub creation_timestamp : Time
  pub annotations : StringMap
  pub spec : SandboxClassSpec Q
  pub status : SandboxClassStatus

pub data SnapshotPhase : Type 0 where
  unset creating ready failed terminating : SnapshotPhase

unfoldable pub SnapshotPhase-discrete : Discrete SnapshotPhase
SnapshotPhase-discrete = hlevel

instance abbrev pub snapshot_phase_eq : Eq SnapshotPhase
snapshot_phase_eq = discrete_eq SnapshotPhase-discrete

pub record SnapshotSpec : Type 0 where
  pub kept : Bool
  pub pinned : Bool
  pub forkable : Bool
  pub parent : String
  pub source_sandbox : String
  pub sandbox_class : String
  pub image_ref : String
  pub ttl : Option Duration
  pub storage_backend : String
  pub storage_ref : String
  pub size : ℕ  -- int64 of a stored size
  pub cpu_template : String
  pub instance_type : String
  pub node : String

pub record SnapshotStatus : Type 0 where
  pub phase : SnapshotPhase
  pub reason : String
  pub last_transition_time : Option Time
  pub reference_count : ℕ  -- int32, never below 0

pub record Snapshot : Type 0 where
  pub namespace : String
  pub name : String
  pub deletion_timestamp : Option Time
  pub finalizers : List String
  pub labels : StringMap
  pub creation_timestamp : Time
  pub annotations : StringMap
  pub spec : SnapshotSpec
  pub status : SnapshotStatus
