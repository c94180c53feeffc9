-- ===== src/Snapshot/Create.antt =====
-- CreateSnapshot of internal/snapshot/coordinator.go with checkNameFree, applyKept, diffParent,
-- newSnapshotCR, markPhase, failSnapshot, abandonSnapshot, failCreate and recordIdentityGeneration. The
-- answers are a record; a run returns what it did, in order, each write with whether it succeeded.
-- Events, spans and durations are left out. The key of TenantKEK is an answer, and so are the texts of
-- a vCPU count and of a quantity. The raised generation is not written back to the Sandbox in memory.
pub mod Lawful
mod Tests
use Prim.Native.String.{◌++◌ as join}
use setec.Prelude.{
  ℕ, suc, not, Bool, true, false, String, Option, none, some, List, [], ◌∷◌, ◌++◌, ◌==◌, ◌!=◌, ◌*◌,
  string_eq, nat_eq, leb, StringMap, value_at, if◌then◌else◌,
}
use setec.Prelude.Int.{ℤ, pos}
use setec.Prelude.Time.{Time, Duration, minute}
use setec.Api.{
  Sandbox, SandboxIdentityStatus, SandboxSnapshotSpec, Snapshot, SnapshotPhase, creating, ready,
  failed, snapshot_phase_eq,
}
use setec.Snapshot.Restore.{Pod}
use setec.Snapshot.Reconcile.{Read, found, missing, unread, Write, done, gone, refused}
use setec.Desired.{Created, taken, unavailable, not_taken}

-- An error of the node agent: it got no call, it has no space left, or another one.
pub data Fault : Type 0 where
  unreachable no_space other : Fault

pub record CreateRequest : Type 0 where
  pub sandbox_id : String
  pub snapshot_id : String
  pub storage_backend : String
  pub source_pod_uid : String
  pub parent_storage_ref : String
  pub session_kek : List ℕ
  pub identity_generation : ℕ

-- The answer of the CreateSnapshot call: an error, or the storage reference and the size.
pub data Reply : Type 0 where
  faulty : Fault → Reply
  stored : String → ℕ → Reply

-- `live` is the identity in the status of the live Sandbox, `none` when the Get fails.
pub record Answers (Q : Type 0) : Type 0 where
  pub now : Time
  pub storage_backend_name : String
  pub vcpu_text : ℤ → String
  pub memory_text : Q → String
  pub existing : Read Snapshot
  pub pod : Option Pod
  pub parent : String → Read Snapshot
  pub cpu_template : String → Option String
  pub instance_type : String → Option String
  pub tenant_kek : Option (List ℕ)
  pub created : Bool
  pub creating_marked : Bool
  pub dial_fault : String → Option Fault
  pub call : CreateRequest → Reply
  pub live : Option (Option SandboxIdentityStatus)
  pub generation_patched : Bool
  pub storage_patched : Bool
  pub ready_marked : Bool
  pub failed_marked : Bool
  pub deleted : Write

pub data Deed : Type 0 where
  create_object : Snapshot → Bool → Deed
  mark : SnapshotPhase → String → Bool → Deed
  call_agent : CreateRequest → Reply → Deed
  record_generation : ℕ → Bool → Deed
  record_storage : String → ℕ → Bool → Deed
  delete_object : Write → Deed

abbrev pub kept_backend : String
kept_backend = "s3"

abbrev pub default_kept_ttl : Duration
default_kept_ttl = pos (30 * 24 * (60 * minute))

-- The first write of a run, and what follows.
before : Deed → List Deed × Created → List Deed × Created
before d (l, r) = (d ∷ l, r)

next_of : Option SandboxIdentityStatus → ℕ
next_of none = 0
next_of (some identity) = suc identity.generation

unfoldable pub next_identity_generation : {Q : Type 0} → Sandbox Q → ℕ
unfolding next_of
next_identity_generation sb = next_of sb.status.identity

-- failCreate: the reason that an error of the call is recorded with.
failure_reason : Fault → String
failure_reason no_space = "InsufficientStorage"
failure_reason _ = "SnapshotCreateFailed"

or_empty : Option String → String
or_empty none = ""
or_empty (some s) = s

module _ {Q : Type 0} (a : Answers Q) where
  unfoldable pub backend_name : String
  backend_name = if a.storage_backend_name != "" then a.storage_backend_name else "local-disk"

  -- diffParent: what the parent that was read allows.
  parent_ref : Sandbox Q → String → Read Snapshot → Option String
  unfolding backend_name
  parent_ref sb uid missing = none
  parent_ref sb uid unread = none
  parent_ref sb uid (found parent) =
      if parent.status.phase != ready
      then none
      else if parent.spec.storage_ref == ""
      then none
      else if parent.spec.source_sandbox != sb.name
      then none
      else if value_at parent.annotations "setec.zeroroot.ai/source-pod-uid" != uid
      then none
      else if parent.spec.storage_backend != backend_name
      then none
      else some parent.spec.storage_ref

  unfoldable pub diff_parent : Sandbox Q → SandboxSnapshotSpec → String → Option String
  unfolding parent_ref
  diff_parent sb spec uid =
      if spec.parent == "" then some "" else parent_ref sb uid (a.parent spec.parent)

  new_snapshot_cr : Sandbox Q → SandboxSnapshotSpec → Pod → Snapshot
  unfolding backend_name or_empty
  new_snapshot_cr sb spec pod =
      let class_name = sb.spec.sandbox_class_name in
      record {
        namespace = sb.namespace;
        name = spec.name;
        deletion_timestamp = none;
        finalizers = [];
        labels = [];
        creation_timestamp = a.now;
        annotations =
            ("setec.zeroroot.ai/source-pod-uid", pod.uid)
            ∷ ("setec.zeroroot.ai/vcpu", a.vcpu_text sb.spec.resources.vcpu)
            ∷ ("setec.zeroroot.ai/memory", a.memory_text sb.spec.resources.memory)
            ∷ [];
        spec = record {
          kept = false;
          pinned = false;
          forkable = spec.forkable;
          parent = spec.parent;
          source_sandbox = sb.name;
          sandbox_class = if class_name == "" then sb.name else class_name;
          image_ref = sb.spec.image;
          ttl = spec.ttl;
          storage_backend = backend_name;
          storage_ref = "";
          size = 0;
          cpu_template = if class_name != "" then or_empty (a.cpu_template class_name) else "";
          instance_type = or_empty (a.instance_type pod.node_name);
          node = pod.node_name;
        };
        status = record {
          phase = SnapshotPhase.unset;
          reason = "";
          last_transition_time = none;
          reference_count = 0;
        };
      }

  kept_ttl : Option Duration → Duration
  kept_ttl none = default_kept_ttl
  kept_ttl (some ttl) = ttl

  with_kek : Snapshot → Option (List ℕ) → Option (Snapshot × String × List ℕ)
  unfolding kept_ttl
  with_kek snap none = none
  with_kek snap (some kek) = some (
    record snap {
      spec = record (snap.spec) {
        kept = true;
        storage_backend = kept_backend;
        ttl = some (kept_ttl snap.spec.ttl);
      };
    },
    kept_backend,
    kek,
  )

  -- applyKept: the Snapshot with its backend and key; `none` for an error.
  unfoldable pub apply_kept :
      SandboxSnapshotSpec → Snapshot → String → Option (Snapshot × String × List ℕ)
  unfolding with_kek backend_name
  apply_kept spec snap ref =
      if not spec.kept
      then some (snap, backend_name, [])
      else if ref != ""
      then none
      else with_kek snap a.tenant_kek

  -- failSnapshot, then the error.
  fail_snapshot : String → List Deed × Created
  fail_snapshot reason = (mark failed reason a.failed_marked ∷ [], not_taken)

  -- abandonSnapshot: the error wraps the cause, that the node agent got no call.
  abandoned : Write → List Deed
  abandoned refused =
      delete_object refused ∷ mark failed "NodeAgentUnreachable" a.failed_marked ∷ []
  abandoned w = delete_object w ∷ []

  abandon_snapshot : List Deed × Created
  unfolding abandoned
  abandon_snapshot = (abandoned a.deleted, unavailable)

  dial_failed : Fault → List Deed × Created
  unfolding fail_snapshot abandon_snapshot
  dial_failed unreachable = abandon_snapshot
  dial_failed _ = fail_snapshot "NodeAgentUnreachable"

  fail_create : Fault → List Deed × Created
  unfolding fail_snapshot abandon_snapshot failure_reason
  fail_create unreachable = abandon_snapshot
  fail_create fault = fail_snapshot (failure_reason fault)

  -- recordIdentityGeneration: whether it ended with no error.
  raised : ℕ → Option (Option SandboxIdentityStatus) → List Deed × Bool
  raised gen none = ([], false)
  raised gen (some none) = ([], true)
  raised gen (some (some identity)) =
      if leb gen identity.generation
      then ([], true)
      else (record_generation gen a.generation_patched ∷ [], a.generation_patched)

  unfoldable pub record_identity_generation : ℕ → List Deed × Bool
  unfolding raised
  record_identity_generation gen = if gen == 0 then ([], true) else raised gen a.live

  -- What the backend wrote is recorded, then the Snapshot is Ready.
  recorded : String → ℕ → List Deed × Created
  unfolding before fail_snapshot
  recorded ref size = before (record_storage ref size a.storage_patched) (
      if a.storage_patched
      then (mark ready "" a.ready_marked ∷ [], taken)
      else fail_snapshot "StorageRefNotRecorded")

  when_raised : String → ℕ → List Deed × Bool → List Deed × Created
  unfolding recorded fail_snapshot
  when_raised ref size (l, true) = (l ++ (recorded ref size).0, (recorded ref size).1)
  when_raised ref size (l, false) =
      (l ++ (fail_snapshot "IdentityGenerationNotRecorded").0, not_taken)

  on_reply : ℕ → Reply → List Deed × Created
  unfolding fail_create when_raised record_identity_generation
  on_reply gen (faulty fault) = fail_create fault
  on_reply gen (stored ref size) = when_raised ref size (record_identity_generation gen)

  on_dial : CreateRequest → Option Fault → List Deed × Created
  unfolding dial_failed before on_reply
  on_dial req (some fault) = dial_failed fault
  on_dial req none =
      before (call_agent req (a.call req)) (on_reply req.identity_generation (a.call req))

  -- The object, marked Creating, and then the node agent.
  made : Snapshot → CreateRequest → List Deed × Created
  unfolding before on_dial
  made snap req =
      let run = on_dial req (a.dial_fault snap.spec.node) in
      before (create_object snap a.created) (
        if a.created
        then before (mark creating "SnapshotWriteInFlight" a.creating_marked)
            (if a.creating_marked then run else ([], not_taken))
        else ([], not_taken))

  create_request : Sandbox Q → SandboxSnapshotSpec → Pod → String → String → List ℕ → CreateRequest
  unfolding next_identity_generation
  create_request sb spec pod ref backend kek = record {
    sandbox_id = join sb.namespace (join "/" sb.name);
    snapshot_id = join sb.namespace (join "-" spec.name);
    storage_backend = backend;
    source_pod_uid = pod.uid;
    parent_storage_ref = ref;
    session_kek = kek;
    identity_generation = next_identity_generation sb;
  }

  when_kept :
      Sandbox Q
      → SandboxSnapshotSpec
      → Pod
      → String
      → Option (Snapshot × String × List ℕ)
      → List Deed × Created
  unfolding made create_request
  when_kept sb spec pod ref none = ([], not_taken)
  when_kept sb spec pod ref (some (snap, backend, kek)) =
      made snap (create_request sb spec pod ref backend kek)

  with_parent : Sandbox Q → SandboxSnapshotSpec → Pod → Option String → List Deed × Created
  unfolding when_kept apply_kept new_snapshot_cr
  with_parent sb spec pod none = ([], not_taken)
  with_parent sb spec pod (some ref) =
      when_kept sb spec pod ref (apply_kept spec (new_snapshot_cr sb spec pod) ref)

  from_pod : Sandbox Q → SandboxSnapshotSpec → Option Pod → List Deed × Created
  unfolding with_parent diff_parent
  from_pod sb spec none = ([], not_taken)
  from_pod sb spec (some pod) =
      if pod.node_name == ""
      then ([], not_taken)
      else with_parent sb spec pod (diff_parent sb spec pod.uid)

  when_free : Sandbox Q → SandboxSnapshotSpec → Read Snapshot → List Deed × Created
  unfolding from_pod
  when_free sb spec missing = from_pod sb spec a.pod
  when_free sb spec _ = ([], not_taken)

  named : Sandbox Q → Option SandboxSnapshotSpec → List Deed × Created
  unfolding when_free
  named sb none = ([], not_taken)
  named sb (some spec) = if spec.name == "" then ([], not_taken) else when_free sb spec a.existing

  -- Coordinator.CreateSnapshot.
  unfoldable pub create_snapshot : Sandbox Q → List Deed × Created
  unfolding named
  create_snapshot sb = named sb sb.spec.snapshot
