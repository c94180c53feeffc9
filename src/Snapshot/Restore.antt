-- ===== src/Snapshot/Restore.antt =====
-- `Coordinator.RestoreSandbox` and `Coordinator.RestoreSessionCheckpoint` of internal/snapshot, with
-- their helpers. The cluster is a record of what each call answers: the reads of SandboxClass and Pod,
-- the tenant key of TenantKEK, the dial, and the answers of the node agent. A run returns what it did
-- to the world, in order: the calls to the node agent and the reasons of the Events. Spans, durations
-- and the texts of messages are left out; a failed pause only changes a message.
pub mod Served
use Prim.Native.String.{◌++◌ as join, slice, len}
use setec.Prelude.{
  ℕ, Bool, true, false, String, Option, none, some, List, [], ◌∷◌, ◌++◌, ◌==◌, ◌!=◌, ◌&&◌, ◌||◌,
  not, string_eq, StringMap, value_at, if◌then◌else◌,
}
use setec.Prelude.Time.{Time}
use setec.Api.{Sandbox, SandboxClass, Snapshot}
use setec.Gate.{Evidence, Decision, Gate, decide}

pub record Pod : Type 0 where
  pub uid : String
  pub node_name : String
  pub ip : String

pub record RestoreRequest : Type 0 where
  pub snapshot_id : String
  pub storage_ref : String
  pub storage_backend : String
  pub target_pod_uid : String
  pub sandbox_id : String
  pub pod_ip : String
  pub hostname : String
  pub state_taken : Option Time
  pub session_kek : List ℕ

pub record RestoreResponse : Type 0 where
  pub success : Bool
  pub entropy_reseeded : Bool
  pub uniquified : Bool
  pub encrypted_at_rest : Bool

-- The answer of the RestoreSandbox call: an error, or a response that may be nil.
pub data Reply : Type 0 where
  rpc_error : Reply
  response : Option RestoreResponse → Reply

pub record Cluster (Q : Type 0) : Type 0 where
  pub gate : Option Gate
  pub pool_namespace : String
  pub get_class : String → Option (SandboxClass Q)
  pub get_pod : String → String → Option Pod
  pub tenant_kek : String → Option (List ℕ)
  pub dial : String → Option (RestoreRequest → Reply)

-- Each path has reasons of its own for `restored` and `restore_failed`: CheckpointRestored and
-- CheckpointRestoreFailed for a session, SnapshotRestoreStarted and SnapshotRestoreFailed otherwise.
pub data Event : Type 0 where
  gate_violation node_agent_unreachable restore_failed unverified_allowed : Event
  restored entropy_reseeded uniquified : Event

pub data Action : Type 0 where
  restore_call : RestoreRequest → Action
  pause_call : String → String → Action
  emit : Event → Action

pub data Outcome : Type 0 where
  served violation failed : Outcome

abbrev pub Run : Type 0
Run = List Action × Outcome

unfoldable pub class_of : {Q : Type 0} → Cluster Q → Sandbox Q → Option (SandboxClass Q)
class_of c sb =
    if sb.spec.sandbox_class_name == "" then none else c.get_class sb.spec.sandbox_class_name

unfoldable pub is_clean_base : {Q : Type 0} → Cluster Q → Snapshot → Bool
is_clean_base c snap =
    c.pool_namespace != ""
    && snap.namespace == c.pool_namespace
    && value_at snap.labels "setec.zeroroot.ai/base" == "true"
    && value_at snap.annotations "setec.zeroroot.ai/clean-base" == "true"
    && value_at snap.annotations "setec.zeroroot.ai/base-key" != ""

unfoldable pub is_own_fork : {Q : Type 0} → Sandbox Q → Snapshot → Bool
is_own_fork sb snap =
    snap.spec.forkable && snap.namespace == sb.namespace && snap.spec.source_sandbox != ""

unfoldable pub is_review_of : {Q : Type 0} → Sandbox Q → Snapshot → Bool
is_review_of sb snap = snap.spec.kept && sb.spec.review && snap.namespace == sb.namespace

unfoldable pub is_bound : {Q : Type 0} → Cluster Q → Sandbox Q → Snapshot → Bool
unfolding is_clean_base is_own_fork is_review_of
is_bound c sb snap =
    snap.spec.source_sandbox == sb.name
    || is_clean_base c snap
    || is_own_fork sb snap
    || is_review_of sb snap

unfoldable pub preflight : Bool → Evidence
preflight bound = record {
  clean_base_ok = bound;
  entropy_reseeded = true;
  identity_uniquified = true;
  single_session_ok = bound;
  provenance_verified = bound;
  encrypted_ok = true;
}

-- The getters of a nil response answer false.
unfoldable pub evidence : Bool → Option RestoreResponse → Evidence
evidence bound none = record {
  clean_base_ok = bound;
  entropy_reseeded = false;
  identity_uniquified = false;
  single_session_ok = bound;
  provenance_verified = bound;
  encrypted_ok = false;
}
evidence bound (some r) = record {
  clean_base_ok = bound;
  entropy_reseeded = r.entropy_reseeded;
  identity_uniquified = r.uniquified;
  single_session_ok = bound;
  provenance_verified = bound;
  encrypted_ok = r.encrypted_at_rest;
}

pub get_pod_of : {Q : Type 0} → Cluster Q → Sandbox Q → Option Pod
get_pod_of c sb =
    c.get_pod sb.namespace
      (if sb.status.pod_name == "" then join sb.name "-vm" else sb.status.pod_name)

on_node : Snapshot → Pod → Option Pod
on_node snap pod =
    let local = snap.spec.storage_backend == "" || snap.spec.storage_backend == "local-disk" in
    if pod.node_name == ""
    then none
    else if local && pod.node_name != snap.spec.node
    then none
    else some pod

target_from : Snapshot → Option Pod → Option Pod
unfolding on_node
target_from snap none = none
target_from snap (some pod) = on_node snap pod

unfoldable pub restore_target : {Q : Type 0} → Cluster Q → Sandbox Q → Snapshot → Option Pod
unfolding get_pod_of target_from
restore_target c sb snap = target_from snap (get_pod_of c sb)

unfoldable pub restore_kek : {Q : Type 0} → Cluster Q → Snapshot → Option (List ℕ)
restore_kek c snap = if snap.spec.kept then c.tenant_kek snap.namespace else some []

pub sandbox_id_of : {Q : Type 0} → Sandbox Q → String
sandbox_id_of sb = join sb.namespace (join "/" sb.name)

-- resp != nil && !resp.Success
unsuccessful : Option RestoreResponse → Bool
unsuccessful none = false
unsuccessful (some r) = not r.success

abbrev when : Bool → Event → List Action
when true e = emit e ∷ []
when false e = []

confirmations : Option RestoreResponse → List Action
confirmations none = []
confirmations (some r) = when r.entropy_reseeded entropy_reseeded ++ when r.uniquified uniquified

-- The node reported success: the gate decides on the evidence of its response.
after_load : {Q : Type 0} → Cluster Q → Sandbox Q → Pod → Decision → Option RestoreResponse → Run
unfolding sandbox_id_of confirmations
after_load c sb pod decision resp =
    if not decision.allowed
    then (pause_call (sandbox_id_of sb) pod.uid ∷ emit gate_violation ∷ [], violation)
    else (
      when decision.dev_opt_out unverified_allowed ++ emit restored ∷ confirmations resp,
      served,
    )

on_reply : {Q : Type 0} → Cluster Q → Sandbox Q → Pod → Bool → Reply → Run
unfolding unsuccessful after_load
on_reply c sb pod bound rpc_error = (emit restore_failed ∷ [], failed)
on_reply c sb pod bound (response resp) =
    if unsuccessful resp
    then (emit restore_failed ∷ [], failed)
    else after_load c sb pod (decide c.gate (class_of c sb) (evidence bound resp)).0 resp

then_run : Action → Run → Run
then_run a (actions, o) = (a ∷ actions, o)

load :
    {Q : Type 0}
    → Cluster Q
    → Sandbox Q
    → Pod
    → Bool
    → RestoreRequest
    → Option (RestoreRequest → Reply)
    → Run
unfolding on_reply then_run
load c sb pod bound req none = (emit node_agent_unreachable ∷ [], failed)
load c sb pod bound req (some na) = then_run (restore_call req) (on_reply c sb pod bound (na req))

-- The gate on what the operator itself can verify, before anything is loaded.
gated : {Q : Type 0} → Cluster Q → Sandbox Q → Bool → Run → Run
gated c sb bound run =
    if not (decide c.gate (class_of c sb) (preflight bound)).0.allowed
    then (emit gate_violation ∷ [], violation)
    else run

request :
    {Q : Type 0}
    → Sandbox Q
    → Pod
    → String
    → String
    → String
    → Option Time
    → List ℕ
    → RestoreRequest
unfolding sandbox_id_of
request sb pod id ref backend taken kek = record {
  snapshot_id = id;
  storage_ref = ref;
  storage_backend = backend;
  target_pod_uid = pod.uid;
  sandbox_id = sandbox_id_of sb;
  pod_ip = pod.ip;
  hostname = sb.name;
  state_taken = taken;
  session_kek = kek;
}

into_pod : {Q : Type 0} → Cluster Q → Sandbox Q → Snapshot → Pod → Option (List ℕ) → Run
unfolding load request
into_pod c sb snap pod none = ([], failed)
into_pod c sb snap pod (some kek) =
    load c sb pod (is_bound c sb snap)
      (request sb pod (join snap.namespace (join "-" snap.name)) snap.spec.storage_ref
        snap.spec.storage_backend (some snap.creation_timestamp) kek)
      (c.dial pod.node_name)

into_target : {Q : Type 0} → Cluster Q → Sandbox Q → Snapshot → Option Pod → Run
unfolding into_pod
into_target c sb snap none = ([], failed)
into_target c sb snap (some pod) = into_pod c sb snap pod (restore_kek c snap)

unfoldable pub restore_sandbox :
    {Q : Type 0} → Cluster Q → Option (Sandbox Q) → Option Snapshot → Run
unfolding gated into_target
restore_sandbox c none snap = ([], failed)
restore_sandbox c (some sb) none = ([], failed)
restore_sandbox c (some sb) (some snap) =
    gated c sb (is_bound c sb snap) (into_target c sb snap (restore_target c sb snap))

unfoldable pub session_checkpoint_prefix : {Q : Type 0} → Sandbox Q → String
session_checkpoint_prefix sb =
    if sb.uid == ""
    then join sb.namespace (join "-" (join sb.name "-ckpt-"))
    else join sb.namespace (join "-" (join sb.name (join "-" (join sb.uid "-ckpt-"))))

-- strings.HasPrefix(s, prefix)
unfoldable pub has_prefix : String → String → Bool
has_prefix s prefix = slice s 0 (len prefix) == prefix

into_session_pod :
    {Q : Type 0} → Cluster Q → Sandbox Q → String → String → List ℕ → Option Time → Option Pod → Run
unfolding load request
into_session_pod c sb ref backend kek taken none = ([], failed)
into_session_pod c sb ref backend kek taken (some pod) =
    if pod.node_name == ""
    then ([], failed)
    else load c sb pod (has_prefix ref (session_checkpoint_prefix sb))
        (request sb pod ref ref backend taken kek) (c.dial pod.node_name)

unfoldable pub restore_session_checkpoint :
    {Q : Type 0} → Cluster Q → Sandbox Q → String → String → List ℕ → Option Time → Run
unfolding gated into_session_pod get_pod_of
restore_session_checkpoint c sb ref backend kek taken =
    gated c sb (has_prefix ref (session_checkpoint_prefix sb))
      (into_session_pod c sb ref backend kek taken (get_pod_of c sb))
