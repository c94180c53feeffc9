-- ===== src/Checkpoint/Take.antt =====
-- ensureSessionKEK, readSessionKEK, sessionPodUID, deleteCheckpointChain and takeCheckpoint.
pub mod Chain
pub mod Recorded
use setec.Prelude.{
  ℕ, ◌+◌, Bool, true, false, String, Option, none, some, List, [], ◌∷◌, ◌++◌, ◌==◌, ◌!=◌, nat_eq,
  string_eq, if◌then◌else◌, ◌&&◌, ltb, length,
}
use setec.Api.{
  Sandbox, SandboxStatus, SandboxCheckpointStatus, SessionRecoveryKind, SessionCheckpointSpec,
}
use setec.Api.Session.{checkpoint_backend, copy_recovery}
use setec.Checkpoint.{
  Fault, kek_terminating, kek_unread, kek_size, kek_not_created, save_failed, status_not_patched,
  Read, found, missing, unread, Write, refused, Secret, VmPod, Call, create_kek, save, drop,
  patch_status, emit, Cluster, Outcome, ok, err, Run, ◌>>=◌, ◌>>◌, say, attempt, kek_len,
  max_diff_chain, is_launcher_sandbox,
}

-- ensureSessionKEK.
ensure_found : {Q : Type 0} → Cluster Q → Read Secret → Run (Unit {0})
ensure_found c (found s) = if s.terminating then ([], err kek_terminating) else ([], ok tt)
ensure_found c unread = ([], err kek_unread)
ensure_found c missing =
    attempt create_kek c.kek_created kek_not_created >> say (emit "SessionKEKCreated")

unfoldable pub ensure_session_kek : {Q : Type 0} → Cluster Q → Run (Unit {0})
unfolding ensure_found
ensure_session_kek c = ensure_found c c.kek_before

kek_of : Read Secret → Outcome (List ℕ)
kek_of (found s) = if length s.kek != kek_len then err kek_size else ok s.kek
kek_of _ = err kek_unread

unfoldable pub read_session_kek : {Q : Type 0} → Cluster Q → Outcome (List ℕ)
unfolding kek_of
read_session_kek c = kek_of c.kek_after

uid_of : Read VmPod → String
uid_of (found p) = p.uid
uid_of _ = ""

unfoldable pub session_pod_uid : {Q : Type 0} → Cluster Q → String
unfolding uid_of
session_pod_uid c = uid_of c.session_pod

drop_refs : List String → List Call
drop_refs [] = []
drop_refs (r ∷ rs) = if r == "" then drop_refs rs else drop r ∷ drop_refs rs

-- The chain below a checkpoint, then the checkpoint.
unfoldable pub delete_checkpoint_chain : SandboxCheckpointStatus → List Call
unfolding drop_refs
delete_checkpoint_chain ck = drop_refs (ck.parents ++ ck.ref ∷ [])

next_sequence : Option SandboxCheckpointStatus → ℕ
next_sequence none = 1
next_sequence (some prev) = prev.sequence + 1

-- The parent of a diff, and the chain below it; `""` and the empty list for a full checkpoint.
pub diff_base : Bool → String → Option SandboxCheckpointStatus → String × List String
diff_base chained uid none = ("", [])
diff_base chained uid (some prev) =
    if chained
      && prev.ref != ""
      && uid != ""
      && prev.pod_uid == uid
      && ltb (length prev.parents) max_diff_chain
    then (prev.ref, prev.parents ++ prev.ref ∷ [])
    else ("", [])

-- What a checkpoint replaces is deleted, unless the new one is a diff on it.
pub superseded : String → Option SandboxCheckpointStatus → List Call
unfolding delete_checkpoint_chain
superseded parent none = []
superseded parent (some prev) =
    if prev.ref != "" && parent == "" then delete_checkpoint_chain prev else []

saved : ℕ → Bool → String → Option (String × ℕ) → Run (String × ℕ)
saved seq leave parent none = (save seq leave parent none ∷ [], err save_failed)
saved seq leave parent (some (ref, size)) = (save seq leave parent (some ref) ∷ [], ok (ref, size))

module _ {Q : Type 0} (c : Cluster Q) (sb : Sandbox Q) (policy : SessionCheckpointSpec) where
  -- takeCheckpoint up to the new status of the checkpoint.
  unfoldable pub fresh_checkpoint : Bool → Run SandboxCheckpointStatus
  unfolding ensure_session_kek read_session_kek session_pod_uid next_sequence diff_base superseded
      saved
  fresh_checkpoint leave_paused = do
    ensure_session_kek c
    kek ← ([], read_session_kek c)
    let prev = sb.status.checkpoint
    let seq = next_sequence prev
    let backend = checkpoint_backend (some policy)
    let uid = session_pod_uid c
    let base = diff_base (policy.durable && is_launcher_sandbox sb) uid prev
    new ← saved seq leave_paused base.0 (c.checkpoint_session seq kek leave_paused base.0)
    (
      superseded base.0 prev,
      ok (
          copy_recovery
            (record {
              ref = new.0;
              backend = backend;
              sequence = seq;
              taken_at = some c.now;
              size_bytes = new.1;
              pending_restore = false;
              last_recovery = SessionRecoveryKind.unset;
              last_recovery_at = none;
              last_recovery_state_taken_at = none;
              recoveries = 0;
              pod_uid = uid;
              parents = base.1;
            })
            prev),
    )

  -- takeCheckpoint: its calls, the status in memory after it, and its error.
  recorded : Run SandboxCheckpointStatus → List Call × SandboxStatus × Option Fault
  recorded (l, err e) = (l, sb.status, some e)
  recorded (l, ok ck) =
      let st = record (sb.status) { checkpoint = some ck } in
      if c.checkpoint_patched
      then (l ++ patch_status sb.status st ∷ emit "SessionCheckpointTaken" ∷ [], st, none)
      else (l ++ patch_status sb.status st ∷ [], st, some status_not_patched)

  unfoldable pub take_checkpoint : Bool → List Call × SandboxStatus × Option Fault
  unfolding recorded
  take_checkpoint leave_paused = recorded (fresh_checkpoint leave_paused)
