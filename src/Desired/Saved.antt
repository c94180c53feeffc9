-- ===== src/Desired/Saved.antt =====
-- A Sandbox is deleted after its snapshot, and shown as Paused, only when that is so.
use setec.Prelude.{
  ◌≡◌, ◌≢◌, ◌⊎◌, refl, sym, ◌∙◌, inl, inr, Bool, true, false, String, Option, none, some, List, [],
  ◌∷◌, ◌++◌, ◌==◌, ◌!=◌, ◌&&◌, ◌||◌, string_eq, is_some, Bool-cases, Option-cases, if◌then◌else◌,
  arith,
}
use setec.Prelude.Int.{pos}
use setec.Api.{
  Sandbox, SandboxStatus, SandboxPhase, running, paused, snapshotting, sandbox_phase_eq,
  SandboxDesiredState, state_running, state_paused, sandbox_desired_state_eq, SandboxSnapshotSpec,
  SandboxSnapshotAfterCreate, after_running, after_paused, after_terminated, Snapshot,
  SnapshotPhase, creating, ready, terminating,
}
use setec.Snapshot.Restore.{Pod}
use setec.Snapshot.Reconcile.{
  Read, found, missing, unread, Erase, rpc_error, response, Ended, requeue_after, failed,
}
use setec.Desired.{
  Created, taken, unavailable, not_taken, Step, pause_vm, resume_vm, create_snapshot,
  delete_sandbox, patch_status, accepted, Answers, patch_phase, pause, resume, vm_call, dialled,
  last_patch, then_patch, apply_after_create, by_answer, take_snapshot, by_phase, by_existing,
  request_snapshot, on_request, is_stable, reconcile_phase3_lifecycle,
}

abbrev pub deletes : List Step → Bool
deletes [] = false
deletes (delete_sandbox ∷ l) = true
deletes (s ∷ l) = deletes l

-- The phase that the last patch that succeeded shows.
abbrev pub shows : List Step → Option SandboxPhase
shows [] = none
shows (patch_status st true ∷ l) = elim (shows l) [ none ↦ some st.phase | some p ↦ some p ]
shows (s ∷ l) = shows l

-- A snapshot was taken.
abbrev pub takes : List Step → Bool
takes [] = false
takes (create_snapshot taken ∷ l) = true
takes (s ∷ l) = takes l

-- The first pause of a machine: its Pod and the answer.
abbrev pub paused_vm : List Step → Option (String × Erase)
paused_vm [] = none
paused_vm (pause_vm uid answer ∷ l) = some (uid, answer)
paused_vm (s ∷ l) = paused_vm l

-- A patch to Running does not show Paused.
running_patch :
    (st : SandboxStatus) (ok : Bool)
    → st.phase ≡ running
    → shows (patch_status st ok ∷ []) ≢ some paused
running_patch st false e h = absurd (cc)
running_patch st true e h = absurd (cc)

module _ (a : Answers) where
  -- What a run for a snapshot request with an intent may do, when it may at all.
  abbrev Saved : (List Step → Type 0) → SandboxSnapshotAfterCreate → List Step × Ended → Type 0
  Saved May intent run =
      (deletes run.0 ≡ true → May run.0 × (intent ≡ after_terminated))
      × (shows run.0 ≡ some paused → May run.0 × (intent ≡ after_paused))

  -- By the answer of the call, and by the step of the run.
  abbrev Answered : List Step → Type 0
  Answered l = a.created ≡ taken

  abbrev Took : List Step → Type 0
  Took l = takes l ≡ true

  nothing-Saved :
      (May : List Step → Type 0) (intent : SandboxSnapshotAfterCreate) (e : Ended)
      → Saved May intent ([], e)
  nothing-Saved May intent e = (λ h. absurd (cc), λ h. absurd (cc))

  to_running :
      (May : List Step → Type 0) (intent : SandboxSnapshotAfterCreate) (st : SandboxStatus)
      (reason : String) (e : Ended)
      → Saved May intent
          (patch_status (patch_phase st running reason false a.now) a.phase_patched ∷ [], e)
  unfolding patch_phase
  to_running May intent st reason e = (
    λ h. absurd (cc),
    λ h. absurd (running_patch (patch_phase st running reason false a.now) a.phase_patched refl h),
  )

  by_answer-Saved :
      (st : SandboxStatus) (intent : SandboxSnapshotAfterCreate) (created : Created)
      → a.created ≡ created
      → Saved Answered intent (by_answer a st intent created)
  unfolding by_answer apply_after_create last_patch patch_phase
  by_answer-Saved st after_paused taken e = (λ h. absurd (cc), λ h. (e, refl))
  by_answer-Saved st after_terminated taken e = (λ h. (e, refl), λ h. absurd (cc))
  by_answer-Saved st after_running taken e =
      to_running Answered after_running st ""
        (if a.phase_patched then requeue_after (pos 0) else failed)
  by_answer-Saved st SandboxSnapshotAfterCreate.unset taken e =
      to_running Answered SandboxSnapshotAfterCreate.unset st ""
        (if a.phase_patched then requeue_after (pos 0) else failed)
  by_answer-Saved st intent unavailable e =
      to_running Answered intent st "NodeAgentUnreachable" failed
  by_answer-Saved st intent not_taken e =
      to_running Answered intent st "SnapshotCreateFailed" failed

  -- Marking the Sandbox and the call before it change neither.
  marked-Saved :
      (intent : SandboxSnapshotAfterCreate) (marked : SandboxStatus) (l : List Step) (e : Ended)
      → marked.phase ≡ snapshotting
      → Saved Answered intent (l, e)
      → Saved Took intent (patch_status marked true ∷ create_snapshot a.created ∷ l, e)
  marked-Saved intent marked l e m (p, q) = (
    λ h. let (t, i) = p h in (rw t refl, i),
    λ h. elim (Option-cases (shows l)) [
      | inl n ↦ absurd (let k = rw n at h in cc)
      | inr (shown, n) ↦ let k = rw n at h in let (t, i) = q (n ∙ k) in (rw t refl, i)
    ],
  )

  take_snapshot-Saved :
      (st : SandboxStatus) (intent : SandboxSnapshotAfterCreate)
      → Saved Took intent (take_snapshot a st intent)
  unfolding take_snapshot patch_phase
  take_snapshot-Saved st intent =
      let marked = patch_phase st snapshotting "SnapshotInProgress" true a.now in
      elim (Bool-cases a.snapshotting_patched) [
        | inl e ↦ rw e (
            marked-Saved intent marked (by_answer a marked intent a.created).0
              (by_answer a marked intent a.created).1 refl
              (by_answer-Saved marked intent a.created refl))
        | inr e ↦ rw e (λ h. absurd (cc), λ h. absurd (cc))
      ]

  by_phase-Saved :
      (st : SandboxStatus) (intent : SandboxSnapshotAfterCreate) (phase : SnapshotPhase)
      → Saved Took intent (by_phase a st phase)
  unfolding by_phase last_patch patch_phase
  by_phase-Saved st intent SnapshotPhase.failed =
      to_running Took intent st "SnapshotCreateFailed"
        (if a.phase_patched then requeue_after (pos 0) else failed)
  by_phase-Saved st intent creating = nothing-Saved Took intent failed
  by_phase-Saved st intent SnapshotPhase.unset = nothing-Saved Took intent failed
  by_phase-Saved st intent ready = nothing-Saved Took intent failed
  by_phase-Saved st intent terminating = nothing-Saved Took intent failed

  by_existing-Saved :
      (st : SandboxStatus) (intent : SandboxSnapshotAfterCreate) (r : Read Snapshot)
      → Saved Took intent (by_existing a st intent r)
  unfolding by_existing
  by_existing-Saved st intent missing = take_snapshot-Saved st intent
  by_existing-Saved st intent unread = nothing-Saved Took intent failed
  by_existing-Saved st intent (found snap) =
      elim (Bool-cases (is_some snap.deletion_timestamp && snap.spec.storage_ref == "")) [
        | inl e ↦ rw e (nothing-Saved Took intent failed)
        | inr e ↦ rw e (by_phase-Saved st intent snap.status.phase)
      ]

  -- The Sandbox asked for a snapshot with that intent.
  abbrev pub Asked : {Q : Type 0} → Sandbox Q → SandboxSnapshotAfterCreate → Type 0
  Asked sb intent =
      (spec : SandboxSnapshotSpec) × (sb.spec.snapshot ≡ some spec)
      × (spec.create ≡ true)
      × (spec.after_create ≡ intent)

  -- The node agent of the Pod was asked to pause its machine, and neither failed nor refused.
  abbrev pub Paused : List Step → Type 0
  Paused steps =
      (pod : Pod) × (answer : Erase) × (a.pod ≡ some pod)
      × (a.dial pod.node_name ≡ some answer)
      × (paused_vm steps ≡ some (pod.uid, answer))
      × (answer ≢ rpc_error)
      × (answer ≢ response (some false))

  -- What a run has done when it deletes the Sandbox, and when it shows Paused.
  abbrev pub Honest : {Q : Type 0} → Sandbox Q → List Step → Type 0
  Honest sb steps =
      (deletes steps ≡ true → (takes steps ≡ true) × Asked sb after_terminated)
      × (shows steps ≡ some paused → Paused steps ⊎ ((takes steps ≡ true) × Asked sb after_paused))

  on_request-Honest :
      {Q : Type 0} (sb : Sandbox Q) (phase : SandboxPhase) (o : Option SandboxSnapshotSpec)
      → sb.spec.snapshot ≡ o
      → Honest sb (on_request a sb.status phase o).0
  unfolding on_request request_snapshot
  on_request-Honest sb phase none e = (λ h. absurd (cc), λ h. absurd (cc))
  on_request-Honest sb phase (some spec) e =
      elim (Bool-cases (spec.create && spec.name != "" && is_stable phase)) [
        | inl c ↦
            let (p, q) = by_existing-Saved sb.status spec.after_create a.existing in
            let asked : spec.create ≡ true = ground arith in
            rw c (
              λ h. let (t, i) = p h in (t, (spec, e, asked, i)),
              λ h. let (t, i) = q h in inr (t, (spec, e, asked, i)),
            )
        | inr c ↦ rw c (λ h. absurd (cc), λ h. absurd (cc))
      ]

  -- A call of the node agent neither deletes nor shows anything.
  abbrev Silent : List Step → Type 0
  Silent l =
      (deletes l ≡ false)
      × (shows l ≡ none)
      × ((tail : List Step)
          → (deletes (l ++ tail) ≡ deletes tail) × (shows (l ++ tail) ≡ shows tail))

  vm_call-Silent :
      (step : String → Erase → Step) (o : Option Pod)
      → ((uid : String) (answer : Erase) → Silent (step uid answer ∷ []))
      → Silent (vm_call step a o).0
  unfolding vm_call dialled
  vm_call-Silent step none q = (refl, refl, λ tail. (refl, refl))
  vm_call-Silent step (some pod) q = elim (Option-cases (a.dial pod.node_name)) [
    | inl e ↦ rw e (refl, refl, λ tail. (refl, refl))
    | inr (answer, e) ↦ rw e (q pod.uid answer)
  ]

  then_patch-shows :
      (st : SandboxStatus) (run : List Step × Bool)
      → Silent run.0
      → (deletes (then_patch a st run).0 ≡ false)
        × (shows (then_patch a st run).0 ≡ some paused → (st.phase ≡ paused) × (run.1 ≡ true))
  unfolding then_patch last_patch
  then_patch-shows st (l, false) (d, s, t) = (d, λ h. absurd (cc))
  then_patch-shows st (l, true) (d, s, t) =
      let (d2, s2) = t (patch_status st a.phase_patched ∷ []) in
      (
        d2,
        λ h. elim (Bool-cases a.phase_patched) [
          | inl e ↦ let k = rw e at (sym s2 ∙ h) in (cc, refl)
          | inr e ↦ absurd (let k = rw e at (sym s2 ∙ h) in cc)
        ],
      )

  accepted-good :
      (answer : Erase)
      → accepted answer ≡ true
      → (answer ≢ rpc_error) × (answer ≢ response (some false))
  unfolding accepted
  accepted-good rpc_error h = absurd (cc)
  accepted-good (response none) h = (λ e. cc, λ e. cc)
  accepted-good (response (some true)) h = (λ e. cc, λ e. cc)
  accepted-good (response (some false)) h = absurd (cc)

  vm_call-Paused :
      (o : Option Pod) (tail : List Step)
      → a.pod ≡ o
      → (vm_call pause_vm a o).1 ≡ true
      → Paused ((vm_call pause_vm a o).0 ++ tail)
  unfolding vm_call dialled
  vm_call-Paused none tail e h = absurd (cc)
  vm_call-Paused (some pod) tail e h = elim (Option-cases (a.dial pod.node_name)) [
    | inl n ↦ absurd (let k = rw n at h in cc)
    | inr (answer, n) ↦
        let (good, kind) = accepted-good answer (rw n at h) in
        (pod, answer, e, n, rw n refl, good, kind)
  ]

  then_patch-Paused :
      (st : SandboxStatus) (run : List Step × Bool)
      → run.1 ≡ true
      → ((tail : List Step) → Paused (run.0 ++ tail))
      → Paused (then_patch a st run).0
  unfolding then_patch
  then_patch-Paused st (l, false) h p = absurd (cc)
  then_patch-Paused st (l, true) h p = p (last_patch a st).0

-- Whatever the answers are: a reconcile deletes the Sandbox only when that is what its snapshot request
-- asks for afterwards and the snapshot was taken in the same run; and the last status that it writes
-- shows Paused only when in the same run the node agent of the Pod was asked to pause its machine and
-- neither failed nor refused, or the snapshot was taken and Paused is what the request asks for
-- afterwards.
pub reconcile_phase3_lifecycle-Honest :
    {Q : Type 0} (a : Answers) (sb : Sandbox Q) (phase : SandboxPhase)
    → Honest a sb (reconcile_phase3_lifecycle a sb phase).0
unfolding reconcile_phase3_lifecycle pause resume patch_phase
reconcile_phase3_lifecycle-Honest a sb phase =
    let desired = sb.spec.desired_state in
    let paused_status = patch_phase sb.status paused "UserPaused" true a.now in
    let running_status = patch_phase sb.status running "" false a.now in
    let (d, p) =
      then_patch-shows a paused_status (pause a)
        (vm_call-Silent a pause_vm a.pod (λ uid answer. (refl, refl, λ tail. (refl, refl)))) in
    let (e, r) =
      then_patch-shows a running_status (resume a)
        (vm_call-Silent a resume_vm a.pod (λ uid answer. (refl, refl, λ tail. (refl, refl)))) in
    elim (Bool-cases (desired == state_paused && phase == running)) [
      | inl c ↦ rw c (
        λ h. absurd (cc),
        λ h. inl (
            then_patch-Paused a paused_status (pause a) (p h).1
              (λ tail. vm_call-Paused a a.pod tail refl (p h).1)),
      )
      | inr c ↦
          elim (Bool-cases (
            (desired == SandboxDesiredState.unset || desired == state_running)
            && phase == paused)) [
              | inl k ↦ rw (c, k) (λ h. absurd (cc), λ h. absurd (let (x, y) = r h in cc))
              | inr k ↦ rw (c, k) (on_request-Honest a sb phase sb.spec.snapshot refl)
            ]
    ]
