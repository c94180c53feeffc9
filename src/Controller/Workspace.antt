-- ===== src/Controller/Workspace.antt =====
-- handleWorkspaceFinalizer, teardownWorkspace and ensureWorkspacePVC: the durable workspace of a
-- session.
pub mod Wiped
use setec.Prelude.{
  Bool, true, false, String, Option, none, some, List, [], ◌∷◌, ◌++◌, ◌==◌, ◌&&◌, not, string_eq,
  map, is_some, ◌*◌, if◌then◌else◌,
}
use setec.Prelude.Int.{pos}
use setec.Prelude.Time.{Duration, second}
use setec.Api.{Sandbox}
use setec.Api.Session.{is_session}
use setec.Snapshot.Reconcile.{Ended, requeue_after}
use setec.Checkpoint.{Read, found, missing, unread, Write, done, moot, refused}
use setec.Checkpoint.Resume.{teardown_session_checkpoint}
use setec.Controller.{
  LivePod, Act, add_finalizer, remove_finalizer, delete_pod, delete_claim, create_claim, keep_claim,
  checkpoint, Server, Stage, ended, going, Run, after_acts, stop,
}

abbrev pub workspace_finalizer : String
workspace_finalizer = "setec.zeroroot.ai/workspace-teardown"

abbrev pub workspace_teardown_requeue : Duration
workspace_teardown_requeue = pos (2 * second)

pub contains_finalizer : List String → Bool
contains_finalizer [] = false
contains_finalizer (f ∷ fs) = if f == workspace_finalizer then true else contains_finalizer fs

module _ {Q P : Type 0} (c : Server Q P) where
  -- The end of the teardown.
  unfoldable pub released : Run P
  released = (
    remove_finalizer c.finalizer_removed ∷ [],
    if c.finalizer_removed then stop else Ended.failed,
  )

  -- (b): the claim; `true` for one whose deletion was accepted.
  unfoldable pub by_claim : Read Bool → Run P
  unfolding released
  by_claim missing = released
  by_claim unread = ([], Ended.failed)
  by_claim (found true) = released
  by_claim (found false) = (
    delete_claim c.claim_deleted ∷ [],
    elim c.claim_deleted [ refused ↦ Ended.failed | _ ↦ requeue_after workspace_teardown_requeue ],
  )

  unfoldable pub pod_gone : Write → Run P
  unfolding by_claim after_acts
  pod_gone refused = (delete_pod refused ∷ [], Ended.failed)
  pod_gone w = after_acts (delete_pod w ∷ []) (by_claim c.claim)

  -- (a): the Pod, so that the claim can unmount.
  unfoldable pub by_session_pod : Read LivePod → Run P
  unfolding by_claim pod_gone
  by_session_pod missing = by_claim c.claim
  by_session_pod unread = ([], Ended.failed)
  by_session_pod (found p) = if p.terminating then by_claim c.claim else pod_gone c.pod_deleted

  unfoldable pub teardown_workspace : Sandbox Q → Run P
  unfolding by_session_pod after_acts
  teardown_workspace sb =
      after_acts (map checkpoint (teardown_session_checkpoint c.checkpoints sb c.kek_deleted))
        (by_session_pod c.pod)

  unfoldable pub handle_workspace_finalizer : Sandbox Q → Stage P (Sandbox Q)
  unfolding contains_finalizer teardown_workspace
  handle_workspace_finalizer sb =
      let (l, e) = teardown_workspace sb in
      let marked = record sb { finalizers = sb.finalizers ++ workspace_finalizer ∷ [] } in
      if is_some sb.deletion_timestamp
      then if contains_finalizer sb.finalizers then ended l e else ended [] stop
      else if is_session sb.spec && not (contains_finalizer sb.finalizers)
      then if c.finalizer_added
        then going (add_finalizer true ∷ []) marked
        else ended (add_finalizer false ∷ []) Ended.failed
      else going [] sb

  unfoldable pub claim_made : Write → List (Act P) × Bool
  claim_made refused = (create_claim refused ∷ [], false)
  claim_made w = (create_claim w ∷ [], true)

  unfoldable pub by_existing_claim : Read Bool → List (Act P) × Bool
  unfolding claim_made
  by_existing_claim (found true) = ([], false)
  by_existing_claim (found false) = (keep_claim ∷ [], true)
  by_existing_claim unread = ([], false)
  by_existing_claim missing = claim_made c.claim_created

  -- ensureWorkspacePVC: whether it ended with no error.
  unfoldable pub ensure_workspace_pvc : List (Act P) × Bool
  unfolding by_existing_claim
  ensure_workspace_pvc = by_existing_claim c.claim
