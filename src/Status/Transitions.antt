-- ===== src/Status/Transitions.antt =====
-- What holds of one call of Derive: idempotence, the transition time, the reasons of a failure, and
-- the diagram of phases.
use setec.Prelude.{
  ◌≡◌, ◌≢◌, ◌⊎◌, inl, inr, refl, true, false, Option, none, some, arith, Bool-cases,
}
use setec.Prelude.Time.{Time}
use setec.Api.{completed, failed, SandboxStatus, Sandbox}
use setec.Api.Session.{is_session}
use setec.Status.{
  Pod, PodPhase, pod_running, is_terminal, set_phase, name_pod, from_phase, from_pod_phase,
  bound_pending, observe, derive, derived_running, reason_timeout, reason_image_pull_failure, ended,
}

abbrev pub with_status : {Q : Type 0} → Sandbox Q → SandboxStatus → Sandbox Q
with_status sb st = record sb { status = st }

-- The transition time moves exactly with the phase: what Derive returns has the old phase and the
-- old time, or another phase and the time of the call.
abbrev pub Stamped : SandboxStatus → SandboxStatus → Time → Type 0
Stamped st st' now =
    ((st'.phase ≡ st.phase) × (st'.last_transition_time ≡ st.last_transition_time))
    ⊎ ((st'.phase ≢ st.phase) × (st'.last_transition_time ≡ some now))

module _ {Q : Type 0} (sb : Sandbox Q) (now : Time) where
  Stamped-derived_running :
      (out : SandboxStatus) (pod : Pod)
      → out.phase ≡ sb.status.phase
      → out.last_transition_time ≡ sb.status.last_transition_time
      → Stamped sb.status (derived_running sb out pod now) now
  unfolding derived_running set_phase
  Stamped-derived_running out pod p t = ground arith

  Stamped-from_phase :
      (k : PodPhase) (out : SandboxStatus) (pod : Pod)
      → out.phase ≡ sb.status.phase
      → out.last_transition_time ≡ sb.status.last_transition_time
      → Stamped sb.status (from_phase k out pod now sb) now
  unfolding from_phase set_phase
  Stamped-from_phase pod_running out pod p t = Stamped-derived_running out pod p t
  Stamped-from_phase _ out pod p t = ground arith

  Stamped-bound_pending :
      (out : SandboxStatus)
      → is_terminal sb.status.phase ≡ false
      → Stamped sb.status out now
      → Stamped sb.status (bound_pending sb out now) now
  unfolding bound_pending set_phase is_terminal
  Stamped-bound_pending out live h = ground arith

  Stamped-observe :
      (pod : Option Pod)
      → is_terminal sb.status.phase ≡ false
      → Stamped sb.status (observe sb pod now) now
  unfolding observe set_phase from_pod_phase name_pod
  Stamped-observe none live = ground arith
  Stamped-observe (some pod) live = ground (
    arith,
    Stamped-bound_pending (from_pod_phase (name_pod sb.status pod) pod now sb) live,
    Stamped-from_phase pod.phase (name_pod sb.status pod) pod,
  )

  -- Derive changes the transition time exactly when it changes the phase: its result has the phase
  -- and the transition time of the previous status, or another phase and the time of the call.
  pub derive-Stamped : (pod : Option Pod) → Stamped sb.status (derive sb pod now) now
  unfolding derive
  derive-Stamped pod = elim (Bool-cases (is_terminal sb.status.phase)) [
    | inl over ↦ rw over (inl (refl, refl))
    | inr live ↦ rw live (Stamped-observe pod live)
  ]

  -- One step of the `switch` for a Pod that has not ended.
  session_end-from_phase :
      (k : PodPhase) (out : SandboxStatus) (pod : Pod)
      → is_terminal out.phase ≡ false
      → ended k ≡ false
      → let st = from_phase k out pod now sb in
        (st.phase ≢ completed)
        × ((st.phase ≢ failed)
            ⊎ (st.reason ≡ reason_timeout)
            ⊎ (st.reason ≡ reason_image_pull_failure))
  unfolding from_phase set_phase derived_running is_terminal ended
  session_end-from_phase _ out pod live open_pod = ground arith

  pub name_pod-phase : (pod : Pod) → (name_pod sb.status pod).phase ≡ sb.status.phase
  unfolding name_pod
  name_pod-phase pod = ground arith

  session_from_pod_phase :
      (pod : Pod)
      → is_terminal sb.status.phase ≡ false
      → ended pod.phase ≡ false
      → let st = from_pod_phase (name_pod sb.status pod) pod now sb in
        (st.phase ≢ completed)
        × ((st.phase ≢ failed)
            ⊎ (st.reason ≡ reason_timeout)
            ⊎ (st.reason ≡ reason_image_pull_failure))
  unfolding from_pod_phase
  session_from_pod_phase pod live open_pod =
      session_end-from_phase pod.phase (name_pod sb.status pod) pod (rw (name_pod-phase pod) live)
        open_pod

  session_end-bound_pending :
      (out : SandboxStatus)
      → (out.phase ≢ completed)
        × ((out.phase ≢ failed)
            ⊎ (out.reason ≡ reason_timeout)
            ⊎ (out.reason ≡ reason_image_pull_failure))
      → let st = bound_pending sb out now in
        (st.phase ≢ completed)
        × ((st.phase ≢ failed)
            ⊎ (st.reason ≡ reason_timeout)
            ⊎ (st.reason ≡ reason_image_pull_failure))
  unfolding bound_pending set_phase
  session_end-bound_pending out h = ground arith

  -- A session that has not ended does not end by its Pod: Derive never completes it, and fails it
  -- only for the lifecycle timeout or for an image that cannot be pulled.
  pub session-derive :
      (pod : Option Pod)
      → is_session sb.spec ≡ true
      → is_terminal sb.status.phase ≡ false
      → let st = derive sb pod now in
        (st.phase ≢ completed)
        × ((st.phase ≢ failed)
            ⊎ (st.reason ≡ reason_timeout)
            ⊎ (st.reason ≡ reason_image_pull_failure))
  unfolding derive observe set_phase is_terminal
  session-derive none s live = ground arith
  session-derive (some pod) s live = ground (
    arith,
    session_end-bound_pending (from_pod_phase (name_pod sb.status pod) pod now sb),
    session_from_pod_phase pod live,
    name_pod-phase pod,
  )
