-- ===== src/Controller/Workspace/Wiped.antt =====
-- When the teardown of a session's workspace takes the finalizer off.
use setec.Prelude.{
  ◌≡◌, ◌≢◌, ◌⊎◌, ◌↔◌, refl, inl, inr, Bool, true, false, List, [], ◌∷◌, ◌++◌, map, Bool-cases,
}
use setec.Api.{Sandbox}
use setec.Checkpoint.{Read, found, missing, unread, Write, done, moot, refused, Call}
use setec.Checkpoint.Resume.{teardown_session_checkpoint}
use setec.Controller.{LivePod, Act, checkpoint, Server, after_acts}
use setec.Controller.Trace.{releases}
use setec.Controller.Workspace.{released, by_claim, pod_gone, by_session_pod, teardown_workspace}

module _ {Q P : Type 0} (c : Server Q P) where
  -- The Pod is missing or terminating, or its deletion was accepted.
  abbrev pub PodGone : Read LivePod → Type 0
  PodGone r =
      (r ≡ missing)
      ⊎ ((p : LivePod) × (r ≡ found p) × ((p.terminating ≡ true) ⊎ (c.pod_deleted ≢ refused)))

  -- The claim is missing, or its deletion was accepted before.
  abbrev pub ClaimGone : Read Bool → Type 0
  ClaimGone r = (r ≡ missing) ⊎ (r ≡ found true)

  by_claim-releases : (r : Read Bool) → (releases (by_claim c r).0 ≡ true) ↔ ClaimGone r
  unfolding by_claim released
  by_claim-releases missing = (λ h. inl refl, λ g. refl)
  by_claim-releases unread = (λ h. cc, λ g. elim g [ inl e ↦ cc | inr e ↦ cc ])
  by_claim-releases (found true) = (λ h. inr refl, λ g. refl)
  by_claim-releases (found false) = (λ h. cc, λ g. elim g [ inl e ↦ cc | inr e ↦ cc ])

  pod_gone-releases :
      (w : Write) → (releases (pod_gone c w).0 ≡ true) ↔ ((w ≢ refused) × ClaimGone c.claim)
  unfolding pod_gone after_acts
  pod_gone-releases refused = (λ h. cc, λ (n, g). absurd (n refl))
  pod_gone-releases done =
      let (to, from) = by_claim-releases c.claim in (λ h. (λ e. cc, to h), λ (n, g). from g)
  pod_gone-releases moot =
      let (to, from) = by_claim-releases c.claim in (λ h. (λ e. cc, to h), λ (n, g). from g)

  by_session_pod-releases :
      (r : Read LivePod)
      → (releases (by_session_pod c r).0 ≡ true) ↔ (PodGone r × ClaimGone c.claim)
  unfolding by_session_pod
  by_session_pod-releases missing =
      let (to, from) = by_claim-releases c.claim in (λ h. (inl refl, to h), λ (p, g). from g)
  by_session_pod-releases unread = (λ h. cc, λ (p, g). elim p [ inl e ↦ cc | inr (q, e, k) ↦ cc ])
  by_session_pod-releases (found p) = elim (Bool-cases p.terminating) [
    | inl t ↦
        let same : by_session_pod c (found p) ≡ by_claim c c.claim = rw t refl in
        let (to, from) = by_claim-releases c.claim in
        (λ h. (inr (p, refl, inl t), to (rw same at h)), λ (k, g). rw same (from g))
    | inr t ↦
        let same : by_session_pod c (found p) ≡ pod_gone c c.pod_deleted = rw t refl in
        let (to, from) = pod_gone-releases c.pod_deleted in
        (
          λ h. let (n, g) = to (rw same at h) in (inr (p, refl, inr n), g),
          λ (k, g). rw same (from (accepted t k, g)),
        )
  ]
    where
      accepted : p.terminating ≡ false → PodGone (found p) → c.pod_deleted ≢ refused
      accepted t (inl e) = cc
      accepted t (inr (q, e, inr n)) = n
      accepted t (inr (q, e, inl k)) = cc

  checkpoints-releases :
      (calls : List Call) (l : List (Act P)) → releases (map checkpoint calls ++ l) ≡ releases l
  checkpoints-releases [] l = refl
  checkpoints-releases (a ∷ calls) l = checkpoints-releases calls l

  -- The teardown of a workspace takes the finalizer off exactly when the Pod is missing, terminating or
  -- its deletion was accepted, and the claim is missing or terminating; whatever the other answers are.
  pub teardown_workspace-releases :
      (sb : Sandbox Q)
      → (releases (teardown_workspace c sb).0 ≡ true) ↔ (PodGone c.pod × ClaimGone c.claim)
  unfolding teardown_workspace after_acts
  teardown_workspace-releases sb =
      rw
        (checkpoints-releases (teardown_session_checkpoint c.checkpoints sb c.kek_deleted)
          (by_session_pod c c.pod).0)
        (by_session_pod-releases c.pod)
