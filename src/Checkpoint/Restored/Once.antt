-- ===== src/Checkpoint/Restored/Once.antt =====
-- What a restore loads, and what it leaves of the checkpoint.
use setec.Prelude.{
  ℕ, ◌≡◌, ◌≢◌, ◌⊎◌, refl, sym, ap, ◌∙◌, inl, inr, Bool, true, false, String, Option, none, some,
  List, [], ◌∷◌, ◌++◌, ◌==◌, ◌||◌, string_eq, Bool-cases, arith, eq_iff,
}
use setec.Prelude.Time.{Time, Duration}
use setec.Api.{
  Sandbox, SandboxStatus, SandboxCheckpointStatus, SessionRecoveryKind, SessionCheckpointSpec,
  running, sandbox_phase_eq,
}
use setec.Api.Session.{record_recovery, copy_recovery, effective_interval}
use setec.Status.{PodPhase, pod_pending, pod_running, pod_succeeded, pod_failed, pod_unknown, runs}
use setec.Checkpoint.{
  VmPod, Call, patch_status, Cluster, Loaded, loaded, gate_refused, load_failed, Outcome, ok, err,
  Run, ◌>>=◌, ◌>>◌, Handled, is_launcher_sandbox,
}
use setec.Checkpoint.Calls.{loads, written, loads-append, bind-ok, NoLoads-bind}
use setec.Checkpoint.Take.{read_session_kek, delete_checkpoint_chain}
use setec.Checkpoint.Take.Chain.{delete_checkpoint_chain-Quiet}
use setec.Checkpoint.Restored.{
  due, restore_due, still, restore_still_pending, consumed, delete_session_pod, delete_found, tried,
  answered, consume, restore_now, when_pending, attempt_restore, restore_of,
  restore_pending_checkpoint,
}

-- Calls that load nothing but this ref, once at most.
abbrev AtMost : String → List Call → Type 0
AtMost ref cs = (loads cs ≡ []) ⊎ (loads cs ≡ ref ∷ [])

module _ {Q : Type 0} (c : Cluster Q) where
  answered-loads : (launcher : Bool) (answer : Loaded) → loads (answered c launcher answer).0 ≡ []
  unfolding answered delete_session_pod delete_found
  answered-loads launcher loaded = refl
  answered-loads launcher gate_refused = ground arith
  answered-loads launcher load_failed = ground arith

  consume-loads :
      (from to : SandboxStatus) (interval : Duration) → loads (consume c from to interval).0 ≡ []
  unfolding consume
  consume-loads from to interval = ground arith

  tried-AtMost :
      (ck : SandboxCheckpointStatus) (kek : Outcome (List ℕ)) → AtMost ck.ref (tried c ck kek).0
  unfolding tried
  tried-AtMost ck (err e) = inl refl
  tried-AtMost ck (ok kek) = inr refl

  -- Later calls that load nothing.
  AtMost-append :
      (ref : String) (cs ds : List Call) → AtMost ref cs → loads ds ≡ [] → AtMost ref (cs ++ ds)
  AtMost-append ref cs ds (inl e) h = inl (rw (loads-append cs ds, e, h) refl)
  AtMost-append ref cs ds (inr e) h = inr (rw (loads-append cs ds, e, h) refl)

  module _ (sb : Sandbox Q) (policy : SessionCheckpointSpec) (ck : SandboxCheckpointStatus) where
    abbrev after : SessionRecoveryKind → SandboxStatus
    after kind = record (sb.status) { checkpoint = some (consumed ck kind c.now) }

    ending : SessionRecoveryKind → Run Handled
    ending kind =
        (delete_checkpoint_chain ck, ok tt)
        >> consume c sb.status (after kind) (effective_interval (some policy))

    ending-loads : (kind : SessionRecoveryKind) → loads (ending kind).0 ≡ []
    unfolding ending
    ending-loads kind =
        NoLoads-bind (delete_checkpoint_chain ck, ok tt)
          (λ u. consume c sb.status (after kind) (effective_interval (some policy)))
          (delete_checkpoint_chain-Quiet ck).0
          (λ u. consume-loads sb.status (after kind) (effective_interval (some policy)))

    restore_now-AtMost : AtMost ck.ref (restore_now c sb policy ck).0
    unfolding restore_now ending
    restore_now-AtMost =
        let (calls, answer) = tried c ck (read_session_kek c) in
        let launcher = is_launcher_sandbox sb in
        AtMost-append ck.ref calls (answered c launcher answer >>= ending).0
          (tried-AtMost ck (read_session_kek c))
          (NoLoads-bind (answered c launcher answer) ending (answered-loads launcher answer)
            ending-loads)

    written-more :
        (cs ds : List Call) (st : SandboxStatus)
        → written ds ≡ some st
        → written (cs ++ ds) ≡ some st
    written-more [] ds st h = h
    written-more (patch_status f t ∷ cs) ds st h = rw (written-more cs ds st h) refl
    written-more (k ∷ cs) ds st h = written-more cs ds st h

    consume-written :
        (from to : SandboxStatus) (d : Duration) → written (consume c from to d).0 ≡ some to
    unfolding consume
    consume-written from to d = elim (Bool-cases c.recovery_patched) [
      | inl e ↦ rw e refl
      | inr e ↦ rw e refl
    ]

    restore_now-written :
        (h : Handled)
        → (restore_now c sb policy ck).1 ≡ ok h
        → (kind : SessionRecoveryKind) × (written (restore_now c sb policy ck).0
            ≡ some (after kind))
    unfolding restore_now ending
    restore_now-written h e =
        let (calls, answer) = tried c ck (read_session_kek c) in
        let (kind, p, q, whole) = bind-ok (answered c (is_launcher_sandbox sb) answer) ending h e in
        (
          kind,
          written-more calls (answered c (is_launcher_sandbox sb) answer >>= ending).0 (after kind)
              (rw whole (
                written-more (answered c (is_launcher_sandbox sb) answer).0 (ending kind).0
                  (after kind)
                  (written-more (delete_checkpoint_chain ck) _ (after kind)
                    (consume-written sb.status (after kind) (effective_interval (some policy)))))),
        )

  -- A restore loads nothing, or it loads the ref that is pending in the live Sandbox; and when it ends
  -- without an error, the status that it wrote has the checkpoint consumed.
  abbrev pub Restores : Sandbox Q → Run Handled → Type 0
  Restores sb (calls, out) =
      (loads calls ≡ [])
      ⊎ ((ck : SandboxCheckpointStatus) × (live : Sandbox Q) × (sb.status.checkpoint ≡ some ck)
          × (c.live ≡ some live)
          × (restore_still_pending (some live) ck.ref ≡ ok true)
          × (loads calls ≡ ck.ref ∷ [])
          × ((h : Handled)
              → out ≡ ok h
              → (kind : SessionRecoveryKind) × (written calls
                  ≡ some (record (sb.status) { checkpoint = some (consumed ck kind c.now) }))))

  pending-Restores :
      (sb : Sandbox Q) (policy : SessionCheckpointSpec) (ck : SandboxCheckpointStatus)
      (live : Sandbox Q) (pending : Bool)
      → sb.status.checkpoint ≡ some ck
      → c.live ≡ some live
      → restore_still_pending (some live) ck.ref ≡ ok pending
      → Restores sb (when_pending c pending (restore_now c sb policy ck))
  unfolding when_pending
  pending-Restores sb policy ck live false e n p = inl refl
  pending-Restores sb policy ck live true e n p = elim (restore_now-AtMost sb policy ck) [
    | inl none_loaded ↦ inl none_loaded
    | inr one_loaded ↦
        inr (ck, live, e, n, p, one_loaded, λ h o. restore_now-written sb policy ck h o)
  ]

  live-Restores :
      (sb : Sandbox Q) (policy : SessionCheckpointSpec) (ck : SandboxCheckpointStatus)
      (seen : Option (Sandbox Q))
      → sb.status.checkpoint ≡ some ck
      → c.live ≡ seen
      → Restores sb (
          ([], restore_still_pending seen ck.ref) >>= λ p.
          when_pending c p (restore_now c sb policy ck))
  unfolding restore_still_pending
  live-Restores sb policy ck none e n = inl refl
  live-Restores sb policy ck (some live) e n =
      pending-Restores sb policy ck live (still ck.ref live.status.checkpoint) e n refl

  restore_of-Restores :
      (sb : Sandbox Q) (policy : SessionCheckpointSpec) (o : Option SandboxCheckpointStatus)
      → sb.status.checkpoint ≡ o
      → Restores sb (restore_of c sb policy o)
  unfolding restore_of attempt_restore
  restore_of-Restores sb policy none e = inl refl
  restore_of-Restores sb policy (some ck) e = live-Restores sb policy ck c.live e refl

  pub restore_pending_checkpoint-Restores :
      (sb : Sandbox Q) (policy : SessionCheckpointSpec)
      → Restores sb (restore_pending_checkpoint c sb policy)
  unfolding restore_pending_checkpoint
  restore_pending_checkpoint-Restores sb policy =
      restore_of-Restores sb policy sb.status.checkpoint refl

-- A status whose checkpoint was consumed is not pending, whatever the ref.
pub consumed-not_pending :
    {Q : Type 0} (live : Sandbox Q) (st : SandboxStatus) (ck : SandboxCheckpointStatus)
    (kind : SessionRecoveryKind) (at : Time) (ref : String)
    → live.status ≡ record st { checkpoint = some (consumed ck kind at) }
    → restore_still_pending (some live) ref ≡ ok false
unfolding restore_still_pending still consumed record_recovery copy_recovery
consumed-not_pending live st ck kind at ref e = ap (λ s. ok (still ref s.checkpoint)) e

runs-eq_true : (phase : PodPhase) → runs phase ≡ true → phase ≡ pod_running
unfolding runs
runs-eq_true pod_running h = refl
runs-eq_true PodPhase.unset h = absurd (cc)
runs-eq_true pod_pending h = absurd (cc)
runs-eq_true pod_succeeded h = absurd (cc)
runs-eq_true pod_failed h = absurd (cc)
runs-eq_true pod_unknown h = absurd (cc)

due-eq_true :
    (started : Bool) (pod : VmPod) (ck : SandboxCheckpointStatus)
    → due started pod (some ck) ≡ true
    → (ck.pending_restore ≡ true)
      × (pod.phase ≡ pod_running)
      × (pod.terminating ≡ false)
      × ((ck.pod_uid ≡ "") ⊎ (pod.uid ≢ ck.pod_uid))
unfolding due
due-eq_true started pod ck h =
    let at_run : runs pod.phase ≡ true = ground arith in
    (
      ground arith,
      runs-eq_true pod.phase at_run,
      ground arith,
      elim (Bool-cases (ck.pod_uid == "")) [
        | inl e ↦ inl ((eq_iff ck.pod_uid "").0 e)
        | inr e ↦ inr (λ same.
            let two : (pod.uid == ck.pod_uid) ≡ true = (eq_iff pod.uid ck.pod_uid).1 same in
            absurd (ground arith))
      ],
    )

-- A restore is due only for a pending checkpoint and a Pod that runs, is not terminating, and did not write the checkpoint.
pub restore_due-eq_true :
    {Q : Type 0} (sb : Sandbox Q) (pod : VmPod) (desired : SandboxStatus)
    (ck : SandboxCheckpointStatus)
    → sb.status.checkpoint ≡ some ck
    → restore_due sb pod desired ≡ true
    → (ck.pending_restore ≡ true)
      × (pod.phase ≡ pod_running)
      × (pod.terminating ≡ false)
      × ((ck.pod_uid ≡ "") ⊎ (pod.uid ≢ ck.pod_uid))
unfolding restore_due
restore_due-eq_true sb pod desired ck e h =
    let started = desired.phase == running || is_launcher_sandbox sb in
    due-eq_true started pod ck (ap (λ o. due started pod o) (sym e) ∙ h)
