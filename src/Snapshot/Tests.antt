-- ===== src/Snapshot/Tests.antt =====
-- Restores of a small cluster, and the theorems at inputs.
use setec.Prelude.{ℕ, ◌≡◌, ◌↔◌, refl, Bool, true, false, none, some, [], ◌∷◌, string_eq}
use setec.Api.Samples.{session_sandbox, standard_class, ready_snapshot}
use setec.Snapshot.{Violation, validate, other_class}
use setec.Snapshot.Compatible.{Compatible, validate-Compatible}
use setec.Snapshot.Restore.{
  Pod, RestoreRequest, RestoreResponse, Reply, response, Cluster, Event, gate_violation, restored,
  entropy_reseeded, uniquified, Action, restore_call, pause_call, emit, Outcome, served, violation,
  Run, is_bound, has_prefix, session_checkpoint_prefix, restore_sandbox, restore_session_checkpoint,
}
use setec.Snapshot.Restore.Served.{
  Course, restore_sandbox-Course, restore_session_checkpoint-Course,
}

abbrev answer : Bool → RestoreRequest → Reply
answer fresh req = response (
    some (record {
      success = true;
      entropy_reseeded = fresh;
      uniquified = true;
      encrypted_at_rest = true;
    }))

-- One node, which confirms the reseed or not.
abbrev cluster : Bool → Cluster ℕ
cluster fresh = record {
  gate = none;
  pool_namespace = "";
  get_class = λ n. some standard_class;
  get_pod = λ ns n. some (record { uid = "p1"; node_name = "node-1"; ip = "10.0.0.7" });
  tenant_kek = λ ns. none;
  dial = λ n. some (answer fresh);
}

abbrev sent : RestoreRequest
sent = record {
  snapshot_id = "team-a-snap";
  storage_ref = "team-a-snap";
  storage_backend = "local-disk";
  target_pod_uid = "p1";
  sandbox_id = "team-a/worker";
  pod_ip = "10.0.0.7";
  hostname = "worker";
  state_taken = some ready_snapshot.creation_timestamp;
  session_kek = [];
}

confirmed_is_served :
    restore_sandbox (cluster true) (some session_sandbox) (some ready_snapshot)
    ≡ (restore_call sent ∷ emit restored ∷ emit entropy_reseeded ∷ emit uniquified ∷ [], served)
unfolding restore_sandbox setec.Gate.decide setec.Gate.evaluate
    setec.Snapshot.Restore.restore_target setec.Snapshot.Restore.restore_kek
    setec.Snapshot.Restore.class_of is_bound setec.Snapshot.Restore.preflight
    setec.Snapshot.Restore.evidence
confirmed_is_served = refl

unconfirmed_is_paused :
    restore_sandbox (cluster false) (some session_sandbox) (some ready_snapshot)
    ≡ (restore_call sent ∷ pause_call "team-a/worker" "p1" ∷ emit gate_violation ∷ [], violation)
unfolding restore_sandbox setec.Gate.decide setec.Gate.evaluate setec.Gate.class_opts_out
    setec.Snapshot.Restore.restore_target setec.Snapshot.Restore.restore_kek
    setec.Snapshot.Restore.class_of is_bound setec.Snapshot.Restore.preflight
    setec.Snapshot.Restore.evidence
unconfirmed_is_paused = refl

restore_sandbox-Course_example :
    Course
      (cluster true)
      session_sandbox
      (is_bound (cluster true) session_sandbox ready_snapshot)
      ready_snapshot.spec.storage_ref
      (restore_sandbox (cluster true) (some session_sandbox) (some ready_snapshot))
restore_sandbox-Course_example =
    restore_sandbox-Course (cluster true) session_sandbox ready_snapshot

restore_session_checkpoint-Course_example :
    Course
      (cluster true)
      session_sandbox
      (has_prefix "team-a-worker-7f-ckpt-3" (session_checkpoint_prefix session_sandbox))
      "team-a-worker-7f-ckpt-3"
      (restore_session_checkpoint
        (cluster true)
        session_sandbox
        "team-a-worker-7f-ckpt-3"
        "s3"
        (1 ∷ [])
        none)
restore_session_checkpoint-Course_example =
    restore_session_checkpoint-Course (cluster true) session_sandbox "team-a-worker-7f-ckpt-3" "s3"
      (1 ∷ []) none

validate-Compatible_example :
    (validate (some session_sandbox) (some ready_snapshot) (some standard_class) ≡ [])
    ↔ Compatible session_sandbox ready_snapshot (some standard_class)
validate-Compatible_example =
    validate-Compatible session_sandbox ready_snapshot (some standard_class)
