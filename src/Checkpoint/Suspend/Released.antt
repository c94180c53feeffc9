-- ===== src/Checkpoint/Suspend/Released.antt =====
-- What a suspend releases, and the status that it leaves.
use setec.Prelude.{
  ◌≡◌, ◌⊎◌, refl, ap, ◌∙◌, is_none, inl, inr, Bool, true, false, String, Option, none, some, List,
  [], ◌∷◌, ◌++◌, ◌==◌, ◌!=◌, ◌&&◌, ◌||◌, string_eq, Bool-cases, arith, eq_iff,
}
use mathlib.Core.List.{append-nil}
use setec.Api.Session.{checkpoint_backend}
use setec.Api.{Sandbox, SandboxStatus, SandboxCheckpointStatus, SessionCheckpointSpec, suspended}
use setec.Checkpoint.{
  Fault, VmPod, Call, patch_status, emit, Cluster, ok, err, Run, ◌>>=◌, ◌>>◌, Handled,
  reason_checkpoint_on_drain, is_launcher_sandbox,
}
use setec.Checkpoint.Calls.{
  loads, saves, saved_refs, releases, written, saved_refs-append, loads-append, saves-append, Quiet,
  Quiet-append, bind-closed, bind-ok, written-last,
}
use setec.Checkpoint.Take.{take_checkpoint}
use setec.Checkpoint.Take.Recorded.{take_checkpoint-Quiet, take_checkpoint-Based}
use setec.Checkpoint.Suspend.{
  fail_with, or_empty, reported, suspended_status, release_pod, mark_suspended, after_checkpoint,
  suspend_session,
}

abbrev NoLoads : List Call → Type 0
NoLoads cs = loads cs ≡ []

NoLoads-append : (cs ds : List Call) → NoLoads cs → NoLoads ds → NoLoads (cs ++ ds)
NoLoads-append cs ds p q = rw (loads-append cs ds, p, q) refl

module _ {Q : Type 0} (c : Cluster Q) where
  release_pod-NoLoads : (pod : VmPod) → NoLoads (release_pod c pod).0
  unfolding release_pod reported
  release_pod-NoLoads pod = ground arith

  mark_suspended-Quiet : (from to : SandboxStatus) → Quiet (mark_suspended c from to).0
  unfolding mark_suspended
  mark_suspended-Quiet from to = elim (Bool-cases c.suspend_patched) [
    | inl e ↦ rw e (refl, refl)
    | inr e ↦ rw e (refl, refl)
  ]

  released :
      (policy : SessionCheckpointSpec) (pod : VmPod) (reason : String) (fresh : Bool)
      (l : List Call) (st : SandboxStatus)
      → NoLoads l
      → NoLoads
          ((l, ok tt)
            >> release_pod c pod
            >> mark_suspended c st (suspended_status policy reason c.now fresh st)).0
  released policy pod reason fresh l st h =
      bind-closed NoLoads NoLoads-append ((l, ok tt) >> release_pod c pod)
        (λ u. mark_suspended c st (suspended_status policy reason c.now fresh st))
        (bind-closed NoLoads NoLoads-append (l, ok tt) (λ u. release_pod c pod) h
          (λ a e. release_pod-NoLoads pod))
        (λ a e. (mark_suspended-Quiet st (suspended_status policy reason c.now fresh st)).0)

  after_checkpoint-NoLoads :
      (policy : SessionCheckpointSpec) (pod : VmPod) (reason : String)
      (t : List Call × SandboxStatus × Option Fault)
      → NoLoads t.0
      → NoLoads (after_checkpoint c policy pod reason t).0
  unfolding after_checkpoint fail_with
  after_checkpoint-NoLoads policy pod reason (l, st, none) h =
      released policy pod reason true l st h
  after_checkpoint-NoLoads policy pod reason (l, st, some e) h =
      elim (Bool-cases (reason != reason_checkpoint_on_drain)) [
        | inl n ↦ rw n (NoLoads-append l (emit "ReconcileError" ∷ []) h refl)
        | inr n ↦ rw n (released policy pod reason false l st h)
      ]

  -- A suspend loads nothing.
  pub suspend_session-NoLoads :
      (sb : Sandbox Q) (policy : SessionCheckpointSpec) (pod : VmPod) (reason : String)
      → loads (suspend_session c sb policy pod reason).0 ≡ []
  unfolding suspend_session
  suspend_session-NoLoads sb policy pod reason =
      after_checkpoint-NoLoads policy pod reason
        (take_checkpoint c sb policy (is_launcher_sandbox sb))
        (take_checkpoint-Quiet c sb policy (is_launcher_sandbox sb)).0

  release_pod-saved : (pod : VmPod) → saved_refs (release_pod c pod).0 ≡ []
  unfolding release_pod reported
  release_pod-saved pod = ground arith

  -- The calls of a suspend after its checkpoint save nothing more.
  released_calls-saved :
      (pod : VmPod) (l : List Call) → saved_refs ((l, ok tt) >> release_pod c pod).0 ≡ saved_refs l
  released_calls-saved pod l =
      saved_refs-append l (release_pod c pod).0
      ∙ ap (λ r. saved_refs l ++ r) (release_pod-saved pod)
      ∙ append-nil (saved_refs l)

  -- The status in memory has the checkpoint that these calls saved.
  abbrev Names : SessionCheckpointSpec → List Call → SandboxStatus → Type 0
  Names policy l st =
      saved_refs l ≡ (or_empty (checkpoint_backend (some policy)) st.checkpoint).ref ∷ []

  -- The status that a suspend writes, for a status in memory and a checkpoint that is fresh or not.
  abbrev pub Left : SessionCheckpointSpec → String → Bool → List Call → Type 0
  Left policy reason fresh calls =
      (st : SandboxStatus) × (ck : SandboxCheckpointStatus) × (written calls ≡ some st)
      × (st.phase ≡ suspended)
      × (st.reason ≡ reason)
      × (st.paused_at ≡ none)
      × (st.checkpoint ≡ some ck)
      × (fresh ≡ true → saved_refs calls ≡ ck.ref ∷ [])
      × (ck.pending_restore ≡ (ck.ref != "" && (fresh || policy.durable)))

  suspended-Left :
      (policy : SessionCheckpointSpec) (reason : String) (fresh : Bool) (l : List Call)
      (from st : SandboxStatus)
      → (fresh ≡ true → Names policy l st)
      → Left policy reason fresh (
          l
          ++ patch_status from (suspended_status policy reason c.now fresh st)
            ∷ emit "SessionSuspended"
            ∷ [])
  unfolding suspended_status
  suspended-Left policy reason fresh l from st named =
      let to = suspended_status policy reason c.now fresh st in
      let rest = patch_status from to ∷ emit "SessionSuspended" ∷ [] in
      (
        to,
        _,
        written-last l from to "SessionSuspended",
        refl,
        refl,
        refl,
        refl,
        λ f. saved_refs-append l rest ∙ append-nil (saved_refs l) ∙ named f,
        refl,
      )

  marked_calls :
      (from to : SandboxStatus) (h : Handled)
      → (mark_suspended c from to).1 ≡ ok h
      → (mark_suspended c from to).0 ≡ patch_status from to ∷ emit "SessionSuspended" ∷ []
  unfolding mark_suspended
  marked_calls from to h e = elim (Bool-cases c.suspend_patched) [
    | inl p ↦ rw p refl
    | inr p ↦ absurd (let q = rw p at e in cc)
  ]

  ends-Left :
      (policy : SessionCheckpointSpec) (pod : VmPod) (reason : String) (fresh : Bool)
      (l : List Call) (st : SandboxStatus) (h : Handled)
      → (fresh ≡ true → Names policy l st)
      → let run =
          (l, ok tt)
          >> release_pod c pod
          >> mark_suspended c st (suspended_status policy reason c.now fresh st) in
        run.1 ≡ ok h → Left policy reason fresh run.0
  ends-Left policy pod reason fresh l st h named e =
      let to = suspended_status policy reason c.now fresh st in
      let (u, p, q, whole) =
        bind-ok ((l, ok tt) >> release_pod c pod) (λ u. mark_suspended c st to) h e in
      rw (whole, marked_calls st to h q)
        (suspended-Left policy reason fresh ((l, ok tt) >> release_pod c pod).0 st st
          (λ f. released_calls-saved pod l ∙ named f))

  -- The machine is released with its state saved, or on a drain; and so is the Suspended status
  -- written, with a restore pending when its checkpoint may be used. The third argument is the error
  -- of the checkpoint.
  abbrev pub Safe : SessionCheckpointSpec → String → Option Fault → Run Handled → Type 0
  Safe policy reason fault run =
      ((releases run.0 ≡ true) ⊎ ((h : Handled) × (run.1 ≡ ok h))
        → (saves run.0 ≡ true) ⊎ (reason ≡ reason_checkpoint_on_drain))
      × ((h : Handled) → run.1 ≡ ok h → Left policy reason (is_none fault) run.0)

  saves-bind :
      {A B : Type 0} (m : Run A) (f : A → Run B) → saves m.0 ≡ true → saves (m >>= f).0 ≡ true
  saves-bind (l, ok a) f h = rw (saves-append l (f a).0, h) refl
  saves-bind (l, err e) f h = h

  after_checkpoint-Safe :
      (policy : SessionCheckpointSpec) (pod : VmPod) (reason : String)
      (t : List Call × SandboxStatus × Option Fault)
      → Quiet t.0
      → (t.2 ≡ none → (saves t.0 ≡ true) × Names policy t.0 t.1)
      → Safe policy reason t.2 (after_checkpoint c policy pod reason t)
  unfolding after_checkpoint fail_with
  after_checkpoint-Safe policy pod reason (l, st, none) q s =
      let kept =
        saves-bind ((l, ok tt) >> release_pod c pod)
          (λ u. mark_suspended c st (suspended_status policy reason c.now true st))
          (saves-bind (l, ok tt) (λ u. release_pod c pod) (s refl).0) in
      (λ r. inl kept, λ h e. ends-Left policy pod reason true l st h (λ f. (s refl).1) e)
  after_checkpoint-Safe policy pod reason (l, st, some e) q s =
      elim (Bool-cases (reason != reason_checkpoint_on_drain)) [
        | inl n ↦ rw n (
          λ r. elim r [
            | inl x ↦
                absurd
                  (let y = (Quiet-append l (emit "ReconcileError" ∷ []) q (refl, refl)).1 in cc)
            | inr (h, x) ↦ absurd (cc)
          ],
          λ h x. absurd (cc),
        )
        | inr n ↦
            let drain : (reason == reason_checkpoint_on_drain) ≡ true = ground arith in
            rw n (
              λ r. inr ((eq_iff reason reason_checkpoint_on_drain).0 drain),
              λ h x. ends-Left policy pod reason false l st h (λ f. absurd (cc)) x,
            )
      ]

  -- The status of a checkpoint that ended with no error names what was saved.
  take_checkpoint-Names :
      (sb : Sandbox Q) (policy : SessionCheckpointSpec) (leave : Bool)
      → (take_checkpoint c sb policy leave).2 ≡ none
      → (saves (take_checkpoint c sb policy leave).0 ≡ true)
        × Names policy (take_checkpoint c sb policy leave).0 (take_checkpoint c sb policy leave).1
  unfolding or_empty
  take_checkpoint-Names sb policy leave e =
      let (ck, same, s, v, short, b) = (take_checkpoint-Based c sb policy leave).1 e in
      (s, rw same v)

  -- Whatever the answers are: a suspend deletes the Pod or succeeds only when a checkpoint was
  -- saved in the same run, or on a drain; and when it succeeds, the status that it wrote is
  -- Suspended for that reason, has no pause time, and has a restore pending exactly when its
  -- checkpoint has a ref and the checkpoint of the run ended with no error or the session is durable;
  -- with no error, that ref is the one that the run saved.
  pub suspend_session-Safe :
      (sb : Sandbox Q) (policy : SessionCheckpointSpec) (pod : VmPod) (reason : String)
      → Safe policy reason
          (take_checkpoint c sb policy (is_launcher_sandbox sb)).2
          (suspend_session c sb policy pod reason)
  unfolding suspend_session
  suspend_session-Safe sb policy pod reason =
      let leave = is_launcher_sandbox sb in
      after_checkpoint-Safe policy pod reason (take_checkpoint c sb policy leave)
        (take_checkpoint-Quiet c sb policy leave) (take_checkpoint-Names sb policy leave)
