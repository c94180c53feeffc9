-- ===== src/Snapshot/Restore/Served.antt =====
-- The restores under the gate: what runs before it, and what is handed over after it.
use setec.Prelude.{
  ℕ, ◌≡◌, arith, ◌⊎◌, inl, inr, refl, sym, Bool, true, false, String, Option, none, some, List, [],
  ◌∷◌, Bool-cases, ◌==◌, ◌!=◌, ◌&&◌, ◌||◌, ap, string_eq,
}
use setec.Prelude.Time.{Time}
use setec.Api.{Sandbox, Snapshot}
use setec.Gate.{Evidence, decide}
use setec.Gate.Safety.{AllConfirmed, OptedOut, verified, opted_out, refused, decide-Answer}
use setec.Snapshot.Restore.{
  Pod, RestoreRequest, RestoreResponse, Reply, rpc_error, response, Cluster, gate_violation,
  node_agent_unreachable, restore_failed, Action, restore_call, pause_call, emit, served, violation,
  failed, Run, class_of, is_bound, preflight, evidence, restore_target, restore_kek,
  restore_sandbox, has_prefix, session_checkpoint_prefix, restore_session_checkpoint, unsuccessful,
  after_load, on_reply, then_run, load, gated, on_node, target_from, into_pod, into_target,
  into_session_pod, get_pod_of, request, sandbox_id_of,
}

-- The artifact is bound to the Sandbox, or the dev-mode opt-out is granted.
abbrev pub Trusted : {Q : Type 0} → Cluster Q → Sandbox Q → Bool → Type 0
Trusted c sb bound = (bound ≡ true) ⊎ OptedOut c.gate (class_of c sb)

-- The evidence of the response confirms all, or the opt-out is granted.
abbrev pub Cleared : {Q : Type 0} → Cluster Q → Sandbox Q → Evidence → Type 0
Cleared c sb ev = AllConfirmed ev ⊎ OptedOut c.gate (class_of c sb)

-- A response that does not report a failure: a nil one reports none.
abbrev pub IsLoaded : Option RestoreResponse → Type 0
IsLoaded none = Unit
IsLoaded (some r) = r.success ≡ true

-- A call that fails, or that reports its failure.
abbrev pub IsUnrestored : Reply → Type 0
IsUnrestored rpc_error = Unit
IsUnrestored (response none) = ⊥
IsUnrestored (response (some r)) = r.success ≡ false

unsuccessful-IsLoaded : (resp : Option RestoreResponse) → unsuccessful resp ≡ false → IsLoaded resp
unfolding unsuccessful
unsuccessful-IsLoaded none h = tt
unsuccessful-IsLoaded (some r) h = ground arith

unsuccessful-IsUnrestored :
    (resp : Option RestoreResponse) → unsuccessful resp ≡ true → IsUnrestored (response resp)
unfolding unsuccessful
unsuccessful-IsUnrestored none h = absurd (cc)
unsuccessful-IsUnrestored (some r) h = ground arith

-- What the node agent of the Sandbox's Pod answers to a request to load a storage ref into it.
pub record Answered {Q : Type 0} (c : Cluster Q) (sb : Sandbox Q) (ref : String)
    (req : RestoreRequest) (reply : Reply) : Type 0 where
  pub pod : Pod
  pub its_own : get_pod_of c sb ≡ some pod
  pub agent : RestoreRequest → Reply
  pub dialled : c.dial pod.node_name ≡ some agent
  pub answer : agent req ≡ reply
  pub for_sandbox : req.sandbox_id ≡ sandbox_id_of sb
  pub for_pod : req.target_pod_uid ≡ pod.uid
  pub for_ref : req.storage_ref ≡ ref

-- The only courses that a restore can take.
pub data Course {Q : Type 0} (c : Cluster Q) (sb : Sandbox Q) (bound : Bool) (ref : String)
    : Run → Type 0 where
  refused_before :
      (¬ Trusted c sb bound) → Course c sb bound ref (emit gate_violation ∷ [], violation)
  not_sent : Trusted c sb bound → Course c sb bound ref ([], failed)
  not_reached :
      Trusted c sb bound → Course c sb bound ref (emit node_agent_unreachable ∷ [], failed)
  not_restored :
      Trusted c sb bound
      → (req : RestoreRequest) (reply : Reply) → Answered c sb ref req reply
      → IsUnrestored reply
      → Course c sb bound ref (restore_call req ∷ emit restore_failed ∷ [], failed)
  refused_after :
      Trusted c sb bound
      → (req : RestoreRequest) (resp : Option RestoreResponse)
      → Answered c sb ref req (response resp)
      → IsLoaded resp
      → (¬ Cleared c sb (evidence bound resp))
      → Course c sb bound ref (
        restore_call req ∷ pause_call req.sandbox_id req.target_pod_uid ∷ emit gate_violation ∷ [],
        violation,
      )
  handed_over :
      Trusted c sb bound
      → (req : RestoreRequest) (resp : Option RestoreResponse)
      → Answered c sb ref req (response resp)
      → IsLoaded resp
      → Cleared c sb (evidence bound resp)
      → (events : List Action) → Course c sb bound ref (restore_call req ∷ events, served)

-- The gate's answer, as a decision on clearance.
abbrev cleared_cases :
    {Q : Type 0} (c : Cluster Q) (sb : Sandbox Q) (ev : Evidence)
    → ((decide c.gate (class_of c sb) ev).0.allowed ≡ true) × Cleared c sb ev
      ⊎ ((decide c.gate (class_of c sb) ev).0.allowed ≡ false) × (¬ Cleared c sb ev)
cleared_cases c sb ev = elim (decide-Answer c.gate (class_of c sb) ev).0 [
  | verified a h _ ↦ inl (h, inl a)
  | opted_out _ o h _ ↦ inl (h, inr o)
  | refused n o h _ ↦ inr (h, λ x. elim x [ inl a ↦ n a | inr b ↦ o b ])
]

preflight-AllConfirmed : (b : Bool) → b ≡ true → AllConfirmed (preflight b)
unfolding preflight
preflight-AllConfirmed b h = record {
  clean = h;
  reseeded = refl;
  unique = refl;
  single = h;
  proven = h;
  encrypted = refl;
}

AllConfirmed-preflight : (b : Bool) → AllConfirmed (preflight b) → b ≡ true
unfolding preflight
AllConfirmed-preflight b a = a.clean

module _ {Q : Type 0} (c : Cluster Q) (sb : Sandbox Q) (bound : Bool) (ref : String) where
  trusted : Cleared c sb (preflight bound) → Trusted c sb bound
  trusted (inl a) = inl (AllConfirmed-preflight bound a)
  trusted (inr o) = inr o

  cleared : Trusted c sb bound → Cleared c sb (preflight bound)
  cleared (inl h) = inl (preflight-AllConfirmed bound h)
  cleared (inr o) = inr o

  module _ (t : Trusted c sb bound) (pod : Pod) (req : RestoreRequest)
      (i : req.sandbox_id ≡ sandbox_id_of sb) (u : req.target_pod_uid ≡ pod.uid)
      (n : req.storage_ref ≡ ref) (g : get_pod_of c sb ≡ some pod) where
    answered :
        (na : RestoreRequest → Reply) (r : Reply)
        → c.dial pod.node_name ≡ some na
        → na req ≡ r
        → Answered c sb ref req r
    answered na r d h = record {
      pod = pod;
      its_own = g;
      agent = na;
      dialled = d;
      answer = h;
      for_sandbox = i;
      for_pod = u;
      for_ref = n;
    }

    loaded-Course :
        (resp : Option RestoreResponse)
        → Answered c sb ref req (response resp)
        → IsLoaded resp
        → Course c sb bound ref (
            then_run
              (restore_call req)
              (after_load c sb pod (decide c.gate (class_of c sb) (evidence bound resp)).0 resp))
    unfolding then_run after_load
    loaded-Course resp a l = elim (cleared_cases c sb (evidence bound resp)) [
      | inl (h, y) ↦ rw h (handed_over t req resp a l y _)
      | inr (h, uncleared) ↦ rw (h, sym i, sym u) (refused_after t req resp a l uncleared)
    ]

    on_reply-Course :
        (r : Reply)
        → Answered c sb ref req r
        → Course c sb bound ref (then_run (restore_call req) (on_reply c sb pod bound r))
    unfolding then_run on_reply
    on_reply-Course rpc_error a = not_restored t req rpc_error a tt
    on_reply-Course (response resp) a = elim (Bool-cases (unsuccessful resp)) [
      | inl h ↦ rw h (not_restored t req (response resp) a (unsuccessful-IsUnrestored resp h))
      | inr h ↦ rw h (loaded-Course resp a (unsuccessful-IsLoaded resp h))
    ]

    load-Course :
        (na : Option (RestoreRequest → Reply))
        → c.dial pod.node_name ≡ na
        → Course c sb bound ref (load c sb pod bound req na)
    unfolding load
    load-Course none d = not_reached t
    load-Course (some na) d = on_reply-Course (na req) (answered na (na req) d refl)

  gated-Course :
      (run : Run)
      → (Trusted c sb bound → Course c sb bound ref run)
      → Course c sb bound ref (gated c sb bound run)
  unfolding gated
  gated-Course run k = elim (cleared_cases c sb (preflight bound)) [
    | inl (h, y) ↦ rw h (k (trusted y))
    | inr (h, n) ↦ rw h (refused_before (λ t. n (cleared t)))
  ]

module _ {Q : Type 0} (c : Cluster Q) (sb : Sandbox Q) where
  on_node-eq_some : (snap : Snapshot) (pod next : Pod) → on_node snap pod ≡ some next → pod ≡ next
  unfolding on_node
  on_node-eq_some snap pod next h =
      let local = snap.spec.storage_backend == "" || snap.spec.storage_backend == "local-disk" in
      elim (Bool-cases (pod.node_name == "")) [
        | inl e ↦ absurd (let k = rw e at h in cc)
        | inr e ↦ elim (Bool-cases (local && pod.node_name != snap.spec.node)) [
          | inl f ↦ absurd (let k = rw (e, f) at h in cc)
          | inr f ↦ let k : some pod ≡ some next = rw (e, f) at h in cc
        ]
      ]

  target_from-eq_some :
      (snap : Snapshot) (o : Option Pod) (pod : Pod) → target_from snap o ≡ some pod → o ≡ some pod
  unfolding target_from
  target_from-eq_some snap none pod h = absurd (cc)
  target_from-eq_some snap (some found) pod h = ap some (on_node-eq_some snap found pod h)

  -- The Pod that is restored into is the Sandbox's own.
  restore_target-eq_some :
      (snap : Snapshot) (pod : Pod)
      → restore_target c sb snap ≡ some pod
      → get_pod_of c sb ≡ some pod
  unfolding restore_target
  restore_target-eq_some snap pod h = target_from-eq_some snap (get_pod_of c sb) pod h

  into_pod-Course :
      (snap : Snapshot) (pod : Pod) (kek : Option (List ℕ))
      → Trusted c sb (is_bound c sb snap)
      → get_pod_of c sb ≡ some pod
      → Course c sb (is_bound c sb snap) snap.spec.storage_ref (into_pod c sb snap pod kek)
  unfolding into_pod request
  into_pod-Course snap pod none t g = not_sent t
  into_pod-Course snap pod (some kek) t g =
      load-Course c sb (is_bound c sb snap) snap.spec.storage_ref t pod _ refl refl refl g
        (c.dial pod.node_name) refl

  into_target-Course :
      (snap : Snapshot) (pod : Option Pod)
      → restore_target c sb snap ≡ pod
      → Trusted c sb (is_bound c sb snap)
      → Course c sb (is_bound c sb snap) snap.spec.storage_ref (into_target c sb snap pod)
  unfolding into_target
  into_target-Course snap none e t = not_sent t
  into_target-Course snap (some pod) e t =
      into_pod-Course snap pod (restore_kek c snap) t (restore_target-eq_some snap pod e)

  -- RestoreSandbox calls the node agent only for a Snapshot that is bound to the Sandbox (its
  -- source, a clean base, its own fork or its review), or with the opt-out. It asks the agent of
  -- the node of the Sandbox's Pod to load the storage ref of that Snapshot into that Pod. It serves
  -- the result only if that agent's answer to the request reports no failure and confirms all five
  -- invariants, or with the opt-out for these; once the agent was called, the restore fails only
  -- for an answer that is an error or reports a failure; and a result that it does not clear is
  -- paused, with a violation as the outcome.
  pub restore_sandbox-Course :
      (snap : Snapshot)
      → Course c sb
          (is_bound c sb snap)
          snap.spec.storage_ref
          (restore_sandbox c (some sb) (some snap))
  unfolding restore_sandbox
  restore_sandbox-Course snap =
      gated-Course c sb (is_bound c sb snap) snap.spec.storage_ref _
        (into_target-Course snap (restore_target c sb snap) refl)

  into_session_pod-Course :
      (ref backend : String) (kek : List ℕ) (taken : Option Time) (pod : Option Pod)
      → get_pod_of c sb ≡ pod
      → Trusted c sb (has_prefix ref (session_checkpoint_prefix sb))
      → Course c sb
          (has_prefix ref (session_checkpoint_prefix sb))
          ref
          (into_session_pod c sb ref backend kek taken pod)
  unfolding into_session_pod request
  into_session_pod-Course ref backend kek taken none g t = not_sent t
  into_session_pod-Course ref backend kek taken (some pod) g t =
      elim (Bool-cases (pod.node_name == "")) [
        | inl h ↦ rw h (not_sent t)
        | inr h ↦ rw h (
            load-Course c sb (has_prefix ref (session_checkpoint_prefix sb)) ref t pod _ refl refl
              refl g (c.dial pod.node_name) refl)
      ]

  -- RestoreSessionCheckpoint calls the node agent only for a checkpoint whose reference starts with
  -- the prefix of the Sandbox, or with the opt-out. It asks the agent of the node of the Sandbox's
  -- Pod to load that reference into that Pod. It serves the result only if that agent's answer to
  -- the request reports no failure and confirms all five invariants, or with the opt-out for these;
  -- once the agent was called, the restore fails only for an answer that is an error or reports a
  -- failure; and a result that it does not clear is paused, with a violation as the outcome.
  pub restore_session_checkpoint-Course :
      (ref backend : String) (kek : List ℕ) (taken : Option Time)
      → Course c sb
          (has_prefix ref (session_checkpoint_prefix sb))
          ref
          (restore_session_checkpoint c sb ref backend kek taken)
  unfolding restore_session_checkpoint
  restore_session_checkpoint-Course ref backend kek taken =
      gated-Course c sb (has_prefix ref (session_checkpoint_prefix sb)) ref _
        (into_session_pod-Course ref backend kek taken (get_pod_of c sb) refl)
