-- ===== src/Snapshot/Create/Tests.antt =====
-- A snapshot that is taken, and one whose node agent has no Ready Pod.
use setec.Prelude.{ℕ, suc, ◌≡◌, refl, true, false, none, some, List, ◌∷◌, [], ◌*◌}
use setec.Prelude.Time.{minute}
use setec.Api.{Sandbox, after_terminated}
use setec.Api.Samples.{session_sandbox}
use setec.Snapshot.Reconcile.{missing, done}
use setec.Desired.{taken, unavailable}
use setec.Snapshot.Create.{Answers, Deed, stored, unreachable, create_snapshot}
use setec.Snapshot.Create.Lawful.{absent, Lawful, create_snapshot-Lawful}

abbrev asking : Sandbox ℕ
asking = record session_sandbox {
  spec = record (session_sandbox.spec) {
    snapshot = some (record {
      create = true;
      name = "nightly";
      after_create = after_terminated;
      ttl = none;
      kept = true;
      forkable = false;
      parent = "";
    });
  };
  status = record (session_sandbox.status) {
    identity = some (record { public_key = "key"; generation = 4 });
  };
}

abbrev answers : Answers ℕ
answers = record {
  now = 120 * minute;
  storage_backend_name = "";
  vcpu_text = λ n. "2";
  memory_text = λ q. "4Gi";
  existing = missing;
  pod = some (record { uid = "pod-1"; node_name = "node-1"; ip = "10.0.0.7" });
  parent = λ name. missing;
  cpu_template = λ name. none;
  instance_type = λ node. some "m5.metal";
  tenant_kek = some (7 ∷ 9 ∷ []);
  created = true;
  creating_marked = true;
  dial_fault = λ node. none;
  call = λ req. stored "s3://nightly" 4096;
  live = some (some (record { public_key = "key"; generation = 4 }));
  generation_patched = true;
  storage_patched = true;
  ready_marked = true;
  failed_marked = true;
  deleted = done;
}

abbrev writes : List Deed → ℕ
writes [] = 0
writes (d ∷ l) = suc (writes l)

six_steps : writes (create_snapshot answers asking).0 ≡ 6
unfolding create_snapshot
six_steps = refl

was_taken : (create_snapshot answers asking).1 ≡ taken
unfolding create_snapshot
was_taken = refl

abbrev no_agent : Answers ℕ
no_agent = record answers { dial_fault = λ node. some unreachable }

to_be_retried :
    ((create_snapshot no_agent asking).1 ≡ unavailable)
    × (writes (create_snapshot no_agent asking).0 ≡ 3)
unfolding create_snapshot
to_be_retried = (refl, refl)

create_snapshot-Lawful_example : Lawful absent (create_snapshot answers asking)
create_snapshot-Lawful_example = create_snapshot-Lawful answers asking
