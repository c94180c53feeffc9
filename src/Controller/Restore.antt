-- ===== src/Controller/Restore.antt =====
-- launcher_restore.go: the restore of a launcher Sandbox, and holdUntilRestored.
use Prim.Native.String.{String, ◌++◌ as join, find, len, slice}
use setec.Prelude.{
  ◌+◌, Bool, Option, none, some, List, [], ◌∷◌, ◌==◌, ◌!=◌, ◌&&◌, ◌||◌, not, leb, string_eq, nat_eq,
  value_at, if◌then◌else◌,
}
use setec.Api.{
  Sandbox, SandboxStatus, SandboxPhase, pending, SandboxPhase-discrete, sandbox_phase_eq,
  network_mode_eq, Snapshot,
}
use setec.Status.{runs}
use setec.Checkpoint.{Loaded, loaded, gate_refused, load_failed, is_launcher_sandbox}
use setec.Controller.{LivePod, Act, load, mark_restored, Server}
use setec.Controller.Admission.{snapshot_name}
use setec.Controller.Launch.{warm_base_annotation, annotated}

abbrev pub restored_annotation : String
restored_annotation = "setec.zeroroot.ai/restored-from"

abbrev pub reason_restoring : String
reason_restoring = "Restoring"

abbrev pub reason_restore_failed : String
reason_restore_failed = "RestoreFailed"

abbrev pub reason_gate_violation : String
reason_gate_violation = "InvariantGateViolation"

-- strings.Cut at the first "/": the namespace and the name, both empty when there is none.
cut : String → String × String
cut s =
    if leb (find s "/") (len s)
    then (slice s 0 (find s "/"), slice s (find s "/" + 1) (len s))
    else ("", "")

-- The Snapshot that the launcher loads; the empty name for a Sandbox that boots.
unfoldable pub restore_source : {Q : Type 0} → Sandbox Q → String × String
unfolding cut snapshot_name
restore_source sb =
    if snapshot_name sb.spec.snapshot_ref != ""
    then (sb.namespace, snapshot_name sb.spec.snapshot_ref)
    else cut (value_at sb.annotations warm_base_annotation)

unfoldable pub restored_value : {Q : Type 0} → Sandbox Q → String × String → String
restored_value sb (namespace, name) =
    if namespace == sb.namespace then name else join namespace (join "/" name)

unfoldable pub needs_launcher_restore : {Q : Type 0} → Sandbox Q → Bool
unfolding restore_source restored_value is_launcher_sandbox
needs_launcher_restore sb =
    (restore_source sb).1 != ""
    && is_launcher_sandbox sb
    && value_at sb.annotations restored_annotation != restored_value sb (restore_source sb)

-- holdUntilRestored.
unfoldable pub hold_until_restored : {Q : Type 0} → Sandbox Q → SandboxStatus → SandboxStatus
unfolding needs_launcher_restore SandboxPhase-discrete
hold_until_restored sb st =
    if needs_launcher_restore sb && st.phase == pending && st.reason == ""
    then record st { reason = reason_restoring }
    else st

module _ {Q P : Type 0} (c : Server Q P) where
  fail_restore : SandboxStatus → String → SandboxStatus
  fail_restore st reason = record st { phase = SandboxPhase.failed; reason = reason }

  -- The answer of RestoreSandbox, and the record of a restore.
  unfoldable pub on_loaded :
      Sandbox Q
      → SandboxStatus
      → String
      → Snapshot
      → Loaded
      → List (Act P) × Sandbox Q × SandboxStatus
  unfolding fail_restore annotated
  on_loaded sb st value snap gate_refused =
      (load snap gate_refused ∷ [], sb, fail_restore st reason_gate_violation)
  on_loaded sb st value snap load_failed =
      (load snap load_failed ∷ [], sb, fail_restore st reason_restore_failed)
  on_loaded sb st value snap loaded =
      let marked = record sb { annotations = annotated restored_annotation value sb.annotations } in
      (
        load snap loaded ∷ mark_restored value c.restored_marked ∷ [],
        marked,
        if c.restored_marked then st else fail_restore st reason_restore_failed,
      )

  unfoldable pub from_source :
      Sandbox Q
      → SandboxStatus
      → String
      → Option Snapshot
      → List (Act P) × Sandbox Q × SandboxStatus
  unfolding on_loaded fail_restore
  from_source sb st value none = ([], sb, fail_restore st reason_restore_failed)
  from_source sb st value (some snap) = on_loaded sb st value snap (c.restore_sandbox snap)

  unfoldable pub maybe_restore_launcher :
      Sandbox Q → LivePod → SandboxStatus → List (Act P) × Sandbox Q × SandboxStatus
  unfolding needs_launcher_restore from_source fail_restore restore_source restored_value runs
      SandboxPhase-discrete
  maybe_restore_launcher sb pod st =
      let (namespace, name) = restore_source sb in
      let restored =
        from_source sb st (restored_value sb (namespace, name)) (c.load_source namespace name) in
      if not (needs_launcher_restore sb)
        || not (runs pod.pod.phase)
        || st.phase == SandboxPhase.failed
      then ([], sb, st)
      else if not c.has_coordinator
      then ([], sb, fail_restore st reason_restore_failed)
      else restored
