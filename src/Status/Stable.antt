-- ===== src/Status/Stable.antt =====
-- Repeated calls of Derive.
use setec.Prelude.{
  ◌≡◌, ◌⊎◌, inl, inr, refl, String, true, false, Option, none, some, arith, ◌∙◌, ap, ◌&&◌,
}
use setec.Prelude.Time.{Time}
use setec.Api.{SandboxPhase, pending, SandboxStatus, Sandbox}
use setec.Api.Session.{is_session}
use setec.Status.{
  Pod, PodPhase, pod_running, is_terminal, is_coordinator_phase, set_phase, name_pod, from_phase,
  from_pod_phase, bound_pending, observe, derive, timed_out, derived_running, runs, ended,
  reason_session_vm_restarting,
}
use setec.Status.Transitions.{with_status}

module _ {Q : Type 0} (sb : Sandbox Q) (now : Time) where
  abbrev again : SandboxStatus → Option Pod → SandboxStatus
  again st pod = derive (with_status sb st) pod now

  set_phase-again :
      (st : SandboxStatus) (p : SandboxPhase) (reason : String)
      → let r = set_phase st p reason now in set_phase r p reason now ≡ r
  unfolding set_phase
  set_phase-again st p reason = ground arith

  again-running :
      (out : SandboxStatus) (pod : Pod)
      → let r = derived_running sb out pod now in
        is_terminal r.phase ≡ false → derived_running sb r pod now ≡ r
  unfolding derived_running set_phase is_terminal
  again-running out pod live = ground arith

  again-from_phase :
      (k : PodPhase) (out : SandboxStatus) (pod : Pod)
      → let r = from_phase k out pod now sb in
        is_terminal r.phase ≡ false → from_phase k r pod now sb ≡ r
  unfolding from_phase set_phase is_terminal
  again-from_phase pod_running out pod live = again-running out pod live
  again-from_phase _ out pod live = ground arith

  name_pod-again :
      (st : SandboxStatus) (pod : Pod) → name_pod (name_pod st pod) pod ≡ name_pod st pod
  unfolding name_pod
  name_pod-again st pod = ground arith

  pod_name-from_phase :
      (k : PodPhase) (out : SandboxStatus) (pod : Pod)
      → (from_phase k out pod now sb).pod_name ≡ out.pod_name
  unfolding from_phase derived_running set_phase
  pod_name-from_phase pod_running out pod = ground arith
  pod_name-from_phase _ out pod = ground arith

  named :
      (st out : SandboxStatus) (pod : Pod)
      → out.pod_name ≡ (name_pod st pod).pod_name
      → name_pod out pod ≡ out
  unfolding name_pod
  named st out pod e = ground arith

  from_phase-with_status :
      (k : PodPhase) (st out : SandboxStatus) (pod : Pod)
      → from_phase k out pod now (with_status sb st) ≡ from_phase k out pod now sb
  unfolding from_phase derived_running timed_out
  from_phase-with_status pod_running st out pod = refl
  from_phase-with_status _ st out pod = refl

  bound_pending-with_status :
      (st out : SandboxStatus)
      → bound_pending (with_status sb st) out now ≡ bound_pending sb out now
  unfolding bound_pending timed_out
  bound_pending-with_status st out = refl

  -- A status that `bound_pending` leaves alive is the one that it was given.
  bound_pending-live :
      (out : SandboxStatus)
      → is_terminal (bound_pending sb out now).phase ≡ false
      → bound_pending sb out now ≡ out
  unfolding bound_pending set_phase is_terminal
  bound_pending-live out live = ground arith

  -- The phases after the `switch` on a Pod are none of the coordinator's.
  not_coordinator :
      (k : PodPhase) (out : SandboxStatus) (pod : Pod)
      → is_coordinator_phase (from_phase k out pod now sb).phase ≡ false
  unfolding from_phase derived_running set_phase is_coordinator_phase
  not_coordinator pod_running out pod = ground arith
  not_coordinator _ out pod = ground arith

  -- A status that each step of Derive leaves alone is a fixed point of it.
  observe-fixed :
      (pod : Pod) (r : SandboxStatus)
      → is_coordinator_phase r.phase ≡ false
      → (is_session sb.spec && ended pod.phase) ≡ false
      → name_pod r pod ≡ r
      → from_phase pod.phase r pod now sb ≡ r
      → bound_pending sb r now ≡ r
      → observe (with_status sb r) (some pod) now ≡ r
  unfolding observe from_pod_phase
  observe-fixed pod r free s n f b =
      simp (n, free, s, from_phase-with_status, f, bound_pending-with_status, b)

  again-mapped :
      (pod : Pod) (out : SandboxStatus)
      → out ≡ name_pod sb.status pod
      → (is_session sb.spec && ended pod.phase) ≡ false
      → let r = bound_pending sb (from_pod_phase out pod now sb) now in
        is_terminal r.phase ≡ false → observe (with_status sb r) (some pod) now ≡ r
  unfolding from_pod_phase
  again-mapped pod out e s live =
      let r = from_phase pod.phase out pod now sb in
      let same : bound_pending sb r now ≡ r = bound_pending-live r live in
      rw same (
        observe-fixed pod r (not_coordinator pod.phase out pod) s
          (named sb.status r pod
            (pod_name-from_phase pod.phase out pod ∙ ap (λ (o : SandboxStatus). o.pod_name) e))
          (again-from_phase pod.phase out pod (rw same at live)) same)

  -- The two other branches of Derive for a live Sandbox and a Pod.
  again-coordinator :
      (pod : Pod) (r : SandboxStatus)
      → r ≡ name_pod sb.status pod
      → (is_coordinator_phase r.phase && runs pod.phase) ≡ true
      → observe (with_status sb r) (some pod) now ≡ r
  unfolding observe
  again-coordinator pod r e c =
      let n : name_pod r pod ≡ r = rw e (name_pod-again sb.status pod) in simp (n, c)

  again-session :
      (pod : Pod) (out r : SandboxStatus)
      → out ≡ name_pod sb.status pod
      → r ≡ set_phase out pending reason_session_vm_restarting now
      → (is_session sb.spec && ended pod.phase) ≡ true
      → observe (with_status sb r) (some pod) now ≡ r
  unfolding observe
  again-session pod out r e f s =
      let n : name_pod r pod ≡ r = named sb.status r pod (unfold set_phase in ground arith) in
      let free : is_coordinator_phase r.phase ≡ false =
        rw f (unfold set_phase is_coordinator_phase in ground arith) in
      simp (n, free, s) (rw f (set_phase-again out pending reason_session_vm_restarting))

  -- The branches of Derive for a live Sandbox and a Pod.
  pub observe-cases :
      (pod : Pod)
      → let out = name_pod sb.status pod in
        let o = observe sb (some pod) now in
        ((o ≡ out) × ((is_coordinator_phase out.phase && runs pod.phase) ≡ true))
        ⊎ ((o ≡ set_phase out pending reason_session_vm_restarting now)
            × ((is_session sb.spec && ended pod.phase) ≡ true))
        ⊎ ((o ≡ bound_pending sb (from_pod_phase out pod now sb) now)
            × ((is_session sb.spec && ended pod.phase) ≡ false))
  unfolding observe
  observe-cases pod = ground arith

  again-observe :
      (pod : Option Pod)
      → is_terminal (observe sb pod now).phase ≡ false
      → observe (with_status sb (observe sb pod now)) pod now ≡ observe sb pod now
  again-observe none live = unfold observe in set_phase-again sb.status pending ""
  again-observe (some pod) live = elim (observe-cases pod) [
    | inl (e, c) ↦ rw e (again-coordinator pod (name_pod sb.status pod) refl c)
    | inr (inl (e, s)) ↦ rw e (again-session pod (name_pod sb.status pod) _ refl refl s)
    | inr (inr (e, s)) ↦ rw e (again-mapped pod (name_pod sb.status pod) refl s (rw e at live))
  ]

  -- Derive is idempotent: from the status that it returned, with the same Pod at the same time, it
  -- returns that status again.
  pub derive_idem :
      (pod : Option Pod) → derive (with_status sb (derive sb pod now)) pod now ≡ derive sb pod now
  unfolding derive
  derive_idem pod = ground (arith, again-observe pod)
