-- ===== src/Api/Samples.antt =====
-- Values for the tests of the other modules: a session Sandbox with a timeout, a class, a Snapshot.
-- Quantities are numbers here.
use setec.Prelude.{ℕ, ◌*◌, true, false, none, some, [], ◌∷◌}
use setec.Prelude.Int.{pos}
use setec.Prelude.Time.{minute}
use setec.Api.{
  NetworkMode, external_only, none_mode, SandboxPhase, state_running, session, Resources,
  SandboxStatus, Sandbox, SandboxClass, Snapshot, ready,
}

abbrev pub new_status : SandboxStatus
new_status = record {
  phase = SandboxPhase.unset;
  reason = "";
  exit_code = none;
  pod_name = "";
  started_at = none;
  last_transition_time = none;
  paused_at = none;
  checkpoint = none;
  identity = none;
  runtime = none;
}

abbrev pub small : Resources ℕ
small = record { vcpu = pos 2; memory = 512; scratch = none }

abbrev pub session_sandbox : Sandbox ℕ
session_sandbox = record {
  namespace = "team-a";
  name = "worker";
  uid = "7f";
  creation_timestamp = 100 * minute;
  deletion_timestamp = none;
  finalizers = [];
  labels = [];
  annotations = [];
  spec = record {
    sandbox_class_name = "standard";
    image = "img@sha256:1";
    resources = small;
    network = none;
    lifecycle = some (record { mode = session; timeout = some (pos (30 * minute)) });
    snapshot = none;
    snapshot_ref = none;
    desired_state = state_running;
    review = false;
  };
  status = new_status;
}

abbrev pub standard_class : SandboxClass ℕ
standard_class = record {
  name = "standard";
  creation_timestamp = 10 * minute;
  annotations = [];
  spec = record {
    default_resources = none;
    max_resources = some (record { vcpu = pos 4; memory = 1024; scratch = some 20 });
    allowed_network_modes = none_mode ∷ external_only ∷ [];
    default_network_mode = NetworkMode.unset;
    default_egress_allow = [];
    default_class = true;
    cpu_template = "T2";
    max_pause_duration = some (pos (5 * minute));
    session_idle_timeout = some (pos (10 * minute));
    session_checkpoint = none;
    runtime = none;
    pre_warm_pool_size = pos 0;
    pre_warm_image = "";
  };
  status = record { warm_pool = none };
}

abbrev pub ready_snapshot : Snapshot
ready_snapshot = record {
  namespace = "team-a";
  name = "snap";
  deletion_timestamp = none;
  finalizers = [];
  labels = [];
  creation_timestamp = 50 * minute;
  annotations = [];
  spec = record {
    kept = false;
    pinned = false;
    forkable = false;
    parent = "";
    source_sandbox = "worker";
    sandbox_class = "standard";
    image_ref = "img@sha256:1";
    ttl = none;
    storage_backend = "local-disk";
    storage_ref = "team-a-snap";
    size = 4096;
    cpu_template = "T2";
    instance_type = "";
    node = "node-1";
  };
  status = record { phase = ready; reason = ""; last_transition_time = none; reference_count = 0 };
}
