-- ===== src/Status/Timeout.antt =====
-- The lifecycle timeout in Derive: how long a Sandbox can stay Running or Pending.
use setec.Prelude.{ℕ, ◌+◌, ◌≤◌, ◌<◌, ◌≡◌, ◌⊎◌, inl, inr, false, none, some, arith, ◌&&◌}
use setec.Prelude.Int.{pos}
use setec.Prelude.Time.{Time, max_duration}
use setec.Api.{pending, running, Lifecycle, SandboxStatus, Sandbox}
use setec.Api.Session.{is_session}
use setec.Status.Stable.{observe-cases}
use setec.Status.Transitions.{name_pod-phase}
use setec.Status.{
  Pod, PodPhase, pod_running, is_terminal, is_coordinator_phase, set_phase, name_pod, from_phase,
  from_pod_phase, bound_pending, observe, derive, timed_out, derived_running, ended,
}

-- The Sandbox may run for `d` nanoseconds, a positive duration below the largest.
pub record HasTimeout {Q : Type 0} (sb : Sandbox Q) (d : ℕ) : Type 0 where
  pub lifecycle : Lifecycle
  pub is_set : sb.spec.lifecycle ≡ some lifecycle
  pub value : lifecycle.timeout ≡ some (pos d)
  pub positive : 0 < d
  pub below : d < max_duration

-- The start that counts for a status: its startedAt, or the creation of the Sandbox.
abbrev pub start_of : {Q : Type 0} → Sandbox Q → SandboxStatus → Time
start_of sb st = elim st.started_at [ none ↦ sb.creation_timestamp | some t ↦ t ]

-- `0` is the zero time, from which nothing is counted.
abbrev pub Within : Time → ℕ → Time → Type 0
Within start d now = (start ≡ 0) ⊎ (now ≤ start + d)

module _ {Q : Type 0} (sb : Sandbox Q) (d : ℕ) (limit : HasTimeout sb d) (now : Time) where
  not_over :
      (st : SandboxStatus) → timed_out sb st.started_at now ≡ false → Within (start_of sb st) d now
  unfolding timed_out
  not_over st h = ground arith

  Within-derived_running :
      (out : SandboxStatus) (pod : Pod)
      → let st = derived_running sb out pod now in
        st.phase ≡ running → Within (start_of sb st) d now
  unfolding derived_running set_phase
  Within-derived_running out pod h = ground (arith, not_over (derived_running sb out pod now))

  Within-from_phase :
      (k : PodPhase) (out : SandboxStatus) (pod : Pod)
      → let st = from_phase k out pod now sb in st.phase ≡ running → Within (start_of sb st) d now
  unfolding from_phase set_phase
  Within-from_phase pod_running out pod h = Within-derived_running out pod h
  Within-from_phase _ out pod h = ground arith

  Within-bound_pending :
      (out : SandboxStatus)
      → (out.phase ≡ running → Within (start_of sb out) d now)
      → let st = bound_pending sb out now in
        (st.phase ≡ running) ⊎ (st.phase ≡ pending) → Within (start_of sb st) d now
  unfolding bound_pending set_phase
  Within-bound_pending out h live = ground (arith, not_over out)

  Within-observe :
      (pod : Pod)
      → is_coordinator_phase sb.status.phase ≡ false
      → (is_session sb.spec && ended pod.phase) ≡ false
      → let st = observe sb (some pod) now in
        (st.phase ≡ running) ⊎ (st.phase ≡ pending) → Within (start_of sb st) d now
  unfolding from_pod_phase
  Within-observe pod free open_pod = elim (observe-cases sb now pod) [
    | inl (e, c) ↦ ground (arith, name_pod-phase sb now pod)
    | inr (inl (e, s)) ↦ cc
    | inr (inr (e, s)) ↦ rw e (
        Within-bound_pending (from_pod_phase (name_pod sb.status pod) pod now sb)
          (Within-from_phase pod.phase (name_pod sb.status pod) pod))
  ]

  -- While a Pod is observed and the coordinator owns no phase, the lifecycle timeout bounds the
  -- Sandbox: if Derive returns Running, or Pending for a Pod that did not end a session, then at most
  -- the timeout has passed since the start (or since the creation, when nothing started yet), or
  -- that instant is the zero time.
  pub derive-Within :
      (pod : Pod)
      → is_coordinator_phase sb.status.phase ≡ false
      → (is_session sb.spec && ended pod.phase) ≡ false
      → let st = derive sb (some pod) now in
        (st.phase ≡ running) ⊎ (st.phase ≡ pending) → Within (start_of sb st) d now
  unfolding derive is_terminal
  derive-Within pod free open_pod live = ground (arith, Within-observe pod free open_pod)
