-- ===== src/Desired/Tests.antt =====
-- A Sandbox that asks for a snapshot and to be deleted afterwards.
use setec.Prelude.{◌≡◌, refl, true, false, none, some, ◌*◌}
use setec.Prelude.Time.{minute}
use setec.Api.{Sandbox, running, after_terminated}
use setec.Prelude.{ℕ}
use setec.Api.Samples.{session_sandbox}
use setec.Snapshot.Reconcile.{missing, done, response}
use setec.Desired.{taken, Answers, reconcile_phase3_lifecycle}
use setec.Desired.Saved.{deletes, Honest, reconcile_phase3_lifecycle-Honest}

abbrev asking : Sandbox ℕ
asking = record session_sandbox {
  spec = record (session_sandbox.spec) {
    snapshot = some (record {
      create = true;
      name = "nightly";
      after_create = after_terminated;
      ttl = none;
      kept = false;
      forkable = false;
      parent = "";
    });
  };
}

abbrev answers : Answers
answers = record {
  now = 120 * minute;
  pod = some (record { uid = "pod-1"; node_name = "node-1"; ip = "10.0.0.7" });
  dial = λ node. some (response (some true));
  existing = missing;
  created = taken;
  snapshotting_patched = true;
  phase_patched = true;
  sandbox_deleted = done;
}

deleted_after : deletes (reconcile_phase3_lifecycle answers asking running).0 ≡ true
unfolding reconcile_phase3_lifecycle
deleted_after = refl

reconcile_phase3_lifecycle-Honest_example :
    Honest answers asking (reconcile_phase3_lifecycle answers asking running).0
reconcile_phase3_lifecycle-Honest_example = reconcile_phase3_lifecycle-Honest answers asking running
