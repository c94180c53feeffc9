-- ===== src/Checkpoint/Reconcile/Loads.antt =====
-- What a reconcile loads into a machine, and that no second reconcile loads it again.
use setec.Prelude.{
  ◌≡◌, ◌≢◌, ◌⊎◌, refl, inl, inr, true, false, String, Option, none, some, [], ◌∷◌, ◌==◌, ◌!=◌, ◌&&◌,
  not, string_eq, Bool-cases, value_at, if◌then◌else◌, arith, eq_iff,
}
use setec.Prelude.Time.{Time, Duration}
use setec.Api.{
  Sandbox, SandboxClass, SandboxStatus, SandboxCheckpointStatus, SessionCheckpointSpec,
  SessionRecoveryKind, sandbox_phase_eq,
}
use setec.Status.{pod_running}
use setec.Checkpoint.{
  VmPod, emit, remove_pod, Cluster, ok, Run, ◌>>◌, Handled, session_checkpoint_policy, say,
  suspend_wait_requeue, attempt, pod_not_deleted, reason_checkpoint_on_drain,
}
use setec.Checkpoint.Calls.{loads, written, NoLoads-bind}
use setec.Checkpoint.Take.Recorded.{take_checkpoint-Quiet}
use setec.Checkpoint.Suspend.Released.{suspend_session-NoLoads}
use setec.Checkpoint.Restored.{
  restore_due, restore_still_pending, restore_pending_checkpoint, consumed,
}
use setec.Checkpoint.Restored.Once.{
  restore_pending_checkpoint-Restores, restore_due-eq_true, consumed-not_pending,
}
use setec.Checkpoint.Reconcile.{
  suspend_reason, node_lost_for, mark_pending, resume_after_node_loss, lost_node,
  periodic_checkpoint, by_reason, while_alive, by_node, with_policy, reconcile_session_checkpoint,
}

module _ {Q : Type 0} (parse : String → Option Time) (c : Cluster Q) (sb : Sandbox Q)
    (cls : Option (SandboxClass Q)) (pod : VmPod) (desired : SandboxStatus) where
  abbrev NoLoads : Run Handled → Type 0
  NoLoads run = loads run.0 ≡ []

  periodic_checkpoint-NoLoads :
      (policy : SessionCheckpointSpec) → NoLoads (periodic_checkpoint parse c sb policy)
  unfolding periodic_checkpoint
  periodic_checkpoint-NoLoads policy =
      let quiet = (take_checkpoint-Quiet c sb policy false).0 in ground arith

  by_reason-NoLoads :
      (policy : SessionCheckpointSpec) (reason : String)
      → NoLoads (by_reason parse c sb cls pod desired policy reason)
  unfolding by_reason
  by_reason-NoLoads policy reason =
      let suspended = suspend_session-NoLoads c sb policy pod reason in
      let periodic = periodic_checkpoint-NoLoads policy in ground arith

  while_alive-NoLoads :
      (policy : SessionCheckpointSpec) → NoLoads (while_alive parse c sb cls pod desired policy)
  unfolding while_alive
  while_alive-NoLoads policy =
      let suspended = suspend_session-NoLoads c sb policy pod reason_checkpoint_on_drain in
      let other = by_reason-NoLoads policy (suspend_reason parse c.now sb cls desired) in
      ground arith

  mark_pending-NoLoads :
      (o : Option SandboxCheckpointStatus) → loads (mark_pending parse c sb o).0 ≡ []
  unfolding mark_pending
  mark_pending-NoLoads none = refl
  mark_pending-NoLoads (some ck) = ground arith

  resume_after_node_loss-NoLoads : NoLoads (resume_after_node_loss parse c sb)
  unfolding resume_after_node_loss
  resume_after_node_loss-NoLoads =
      let marked = say (emit "SessionNodeLost") >> mark_pending parse c sb sb.status.checkpoint in
      NoLoads-bind (marked >> attempt remove_pod c.pod_deleted pod_not_deleted)
        (λ u. ([], ok (record { after = suspend_wait_requeue; handled = true })))
        (NoLoads-bind marked (λ u. attempt remove_pod c.pod_deleted pod_not_deleted)
          (NoLoads-bind (say (emit "SessionNodeLost"))
            (λ u. mark_pending parse c sb sb.status.checkpoint) refl
            (λ u. mark_pending-NoLoads sb.status.checkpoint))
          (λ u. ground arith))
        (λ u. refl)

  lost_node-NoLoads : (lost_for : Duration) → NoLoads (lost_node parse c sb lost_for)
  unfolding lost_node
  lost_node-NoLoads lost_for = let resumed = resume_after_node_loss-NoLoads in ground arith

  by_node-NoLoads :
      (policy : SessionCheckpointSpec) (lost : Option Duration)
      → NoLoads (by_node parse c sb cls pod desired policy lost)
  unfolding by_node
  by_node-NoLoads policy none = while_alive-NoLoads policy
  by_node-NoLoads policy (some lost_for) = lost_node-NoLoads lost_for

  -- The Pod runs, is not on its way out, and is not the one that wrote the checkpoint.
  abbrev pub NewPod : SandboxCheckpointStatus → Type 0
  NewPod ck =
      (pod.phase ≡ pod_running)
      × (pod.terminating ≡ false)
      × (value_at pod.annotations "setec.zeroroot.ai/suspended" ≡ "")
      × ((ck.pod_uid ≡ "") ⊎ (pod.uid ≢ ck.pod_uid))

  restore_due-NewPod :
      (ck : SandboxCheckpointStatus)
      → sb.status.checkpoint ≡ some ck
      → restore_due sb pod desired ≡ true
      → (value_at pod.annotations "setec.zeroroot.ai/suspended" != "") ≡ false
      → (ck.pending_restore ≡ true) × NewPod ck
  restore_due-NewPod ck e d m =
      let named : (value_at pod.annotations "setec.zeroroot.ai/suspended" == "") ≡ true =
        ground arith in
      let (due, p, t, u) = restore_due-eq_true sb pod desired ck e d in
      (due, (p, t, (eq_iff (value_at pod.annotations "setec.zeroroot.ai/suspended") "").0 named, u))

  abbrev pub Loads : Run Handled → Type 0
  Loads run =
      (loads run.0 ≡ [])
      ⊎ ((ck : SandboxCheckpointStatus) × (live : Sandbox Q) × (sb.status.checkpoint ≡ some ck)
          × (c.live ≡ some live)
          × (restore_still_pending (some live) ck.ref ≡ ok true)
          × (ck.pending_restore ≡ true)
          × NewPod ck
          × (loads run.0 ≡ ck.ref ∷ [])
          × ((h : Handled)
              → run.1 ≡ ok h
              → (kind : SessionRecoveryKind) × (written run.0
                  ≡ some (record (sb.status) { checkpoint = some (consumed ck kind c.now) }))))

  restored-Loads :
      (policy : SessionCheckpointSpec)
      → restore_due sb pod desired ≡ true
      → (value_at pod.annotations "setec.zeroroot.ai/suspended" != "") ≡ false
      → Loads (restore_pending_checkpoint c sb policy)
  restored-Loads policy d m = elim (restore_pending_checkpoint-Restores c sb policy) [
    | inl e ↦ inl e
    | inr (ck, live, e, n, p, one, w) ↦
        let (due, new) = restore_due-NewPod ck e d m in inr (ck, live, e, n, p, due, new, one, w)
  ]

  with_policy-Loads :
      (policy : Option SessionCheckpointSpec)
      → Loads (with_policy parse c sb cls pod desired policy)
  unfolding with_policy
  with_policy-Loads none = inl refl
  with_policy-Loads (some policy) = elim (Bool-cases (not c.has_coordinator)) [
    | inl n ↦ rw n (inl refl)
    | inr n ↦ elim (Bool-cases (value_at pod.annotations "setec.zeroroot.ai/suspended" != "")) [
      | inl m ↦ rw (n, m) (inl refl)
      | inr m ↦ elim (Bool-cases (restore_due sb pod desired)) [
        | inl d ↦ rw (n, m, d) (restored-Loads policy d m)
        | inr d ↦
            rw (n, m, d)
              (inl (
                by_node-NoLoads policy (
                  if policy.durable && pod.node_name != ""
                  then node_lost_for c.now c.node_lost
                  else none)))
      ]
    ]
  ]

  pub reconcile_session_checkpoint-Loads :
      Loads (reconcile_session_checkpoint parse c sb cls pod desired)
  unfolding reconcile_session_checkpoint
  reconcile_session_checkpoint-Loads = with_policy-Loads (session_checkpoint_policy sb cls)

-- Two reconciles of a Sandbox, whatever the second one sees of it: when the first one loaded a
-- checkpoint and ended with no error, and the live Sandbox of the second one has the status that the
-- first one wrote, the second one loads nothing.
pub reconcile_session_checkpoint-once :
    {Q : Type 0} (parse : String → Option Time) (c d : Cluster Q) (sb seen live : Sandbox Q)
    (cls : Option (SandboxClass Q)) (pod next : VmPod) (desired derived : SandboxStatus)
    (h : Handled)
    → (reconcile_session_checkpoint parse c sb cls pod desired).1 ≡ ok h
    → loads (reconcile_session_checkpoint parse c sb cls pod desired).0 ≢ []
    → d.live ≡ some live
    → written (reconcile_session_checkpoint parse c sb cls pod desired).0 ≡ some live.status
    → loads (reconcile_session_checkpoint parse d seen cls next derived).0 ≡ []
reconcile_session_checkpoint-once parse c d sb seen live cls pod next desired derived h o l e w =
    elim (reconcile_session_checkpoint-Loads parse c sb cls pod desired) [
      | inl n ↦ absurd (l n)
      | inr (ck, before, _, _, _, _, _, _, f) ↦
          elim (reconcile_session_checkpoint-Loads parse d seen cls next derived) [
            | inl n ↦ n
            | inr (again, now, _, n, p, _, _, _, _) ↦
                let (kind, same) = f h o in
                let it : live.status
                    ≡ record (sb.status) { checkpoint = some (consumed ck kind c.now) } =
                  cc in
                let off = consumed-not_pending live sb.status ck kind c.now again.ref it in
                let same_live : now ≡ live = cc in absurd (let x = rw same_live at p in cc)
          ]
    ]
