-- ===== src/Checkpoint/Resume/Settled.antt =====
-- A suspended session stays suspended until there is a reason to resume it, and is recycled in time.
use setec.Prelude.{
  ℕ, ◌+◌, ◌*◌, ◌-◌, ◌≤◌, ◌<◌, min, ◌≡◌, ◌≢◌, ◌⊎◌, refl, ap, inl, inr, Bool, true, false, String,
  Option, none, some, Option-cases, [], ◌∷◌, ◌==◌, ◌&&◌, ◌||◌, not, string_eq, nat_eq, Bool-cases,
  if◌then◌else◌, arith, lookup,
}
use setec.Prelude.Int.{pos, negsuc, leb_ℤ}
use setec.Prelude.Time.{Time, Duration, max_duration, before, minute}
use setec.Api.{
  Sandbox, SandboxClass, SandboxStatus, SessionCheckpointSpec, running, paused, state_paused,
  state_suspended, sandbox_phase_eq, SandboxDesiredState-discrete, sandbox_desired_state_eq,
}
use setec.Api.Session.{is_session, recycle_after, default_suspended_ttl}
use setec.Status.Policy.{
  last_session_activity, later_of, parsed_activity, class_idle_limit, session_idle_deadline,
  is_ahead, pause_deadline,
}
use setec.Checkpoint.{
  delete_sandbox, emit, Cluster, ok, reason_suspended_idle, reason_user_suspended,
  reason_suspended_pause_timeout, session_checkpoint_policy,
}
use setec.Checkpoint.Take.{take_checkpoint}
use setec.Checkpoint.Take.Recorded.{take_checkpoint-started_at}
use setec.Checkpoint.Calls.{Write-cases}
use setec.Checkpoint.Suspend.{suspended_status}
use setec.Checkpoint.Reconcile.{suspend_reason}
use setec.Checkpoint.Resume.{
  suspended_sandbox_action, time_or, recycle_deadline, recycle_if_expired,
}

module _ {Q : Type 0} (sb : Sandbox Q) (cls : Option (SandboxClass Q)) where
  -- When the wait of a suspended session began: its last transition, or its creation.
  abbrev pub Since : Time → Type 0
  Since t =
      (sb.status.last_transition_time ≡ some t)
      ⊎ ((sb.status.last_transition_time ≡ none) × (t ≡ sb.creation_timestamp))

  -- A class sets a time for its sessions.
  abbrev pub Sets : ℕ → Type 0
  Sets n =
      (is_session sb.spec ≡ true)
      × ((k : SandboxClass Q) × (policy : SessionCheckpointSpec) × (cls ≡ some k)
          × (k.spec.session_checkpoint ≡ some policy)
          × (policy.suspended_ttl ≡ some (pos n))
          × (0 < n))

  -- How long it is kept: the time that the class sets, or seven days when it sets none.
  abbrev pub Kept : ℕ → Type 0
  Kept n = Sets n ⊎ (((m : ℕ) → ¬ Sets m) × (n ≡ 7 * 24 * (60 * minute)))

  Since-time_or :
      (t : Time) → Since t → time_or sb.status.last_transition_time sb.creation_timestamp ≡ t
  unfolding time_or
  Since-time_or t (inl e) = rw e refl
  Since-time_or t (inr (e, same)) = rw (e, same) refl

  Sets-recycle_after : (n : ℕ) → Sets n → recycle_after (session_checkpoint_policy sb cls) ≡ pos n
  unfolding recycle_after session_checkpoint_policy
  Sets-recycle_after n (session, (k, policy, is_k, is_policy, is_n, positive)) =
      rw (session, is_k, is_policy, is_n) (ground arith)

  unset-recycle_after :
      ((m : ℕ) → ¬ Sets m)
      → recycle_after (session_checkpoint_policy sb cls) ≡ pos (7 * 24 * (60 * minute))
  unfolding recycle_after session_checkpoint_policy
  unset-recycle_after unset = elim (Bool-cases (is_session sb.spec)) [
    | inr e ↦ rw e refl
    | inl e ↦ elim (Option-cases cls) [
      | inl f ↦ rw (e, f) refl
      | inr (k, f) ↦ elim (Option-cases k.spec.session_checkpoint) [
        | inl g ↦ rw (e, f, g) refl
        | inr (policy, g) ↦ elim (Option-cases policy.suspended_ttl) [
          | inl h ↦ rw (e, f, g, h) refl
          | inr (d, h) ↦ rw (e, f, g, h) (by_time k policy d e f g h)
        ]
      ]
    ]
  ]
    where
      by_time :
          (k : SandboxClass Q) (policy : SessionCheckpointSpec) (d : Duration)
          → is_session sb.spec ≡ true
          → cls ≡ some k
          → k.spec.session_checkpoint ≡ some policy
          → policy.suspended_ttl ≡ some d
          → (if leb_ℤ d (pos 0) then default_suspended_ttl else d) ≡ pos (7 * 24 * (60 * minute))
      by_time k policy (negsuc m) e f g h = ground arith
      by_time k policy (pos m) e f g h = elim (Bool-cases (leb_ℤ (pos m) (pos 0))) [
        | inl z ↦ rw z refl
        | inr z ↦ absurd (unset m (e, (k, policy, f, g, h, ground arith)))
      ]

  Kept-recycle_after : (n : ℕ) → Kept n → recycle_after (session_checkpoint_policy sb cls) ≡ pos n
  Kept-recycle_after n (inl h) = Sets-recycle_after n h
  Kept-recycle_after n (inr (unset, e)) = rw e (unset-recycle_after unset)

  recycle_deadline-Kept : (t n : ℕ) → Since t → Kept n → recycle_deadline sb cls ≡ t + n
  unfolding recycle_deadline
  recycle_deadline-Kept t n s k = rw (Since-time_or t s, Kept-recycle_after n k) refl

  -- A suspended session is kept from its last transition, or from its creation when it has none, for the
  -- positive time that the checkpoint settings of its class set, or for seven days when they set none.
  -- Until then the reconcile does nothing and returns after the time that is left, or after the longest
  -- Duration; from then on, it deletes the Sandbox.
  pub recycle_if_expired-deadline :
      (c : Cluster Q) (t n : ℕ)
      → Since t
      → Kept n
      → (c.now < t + n
          → recycle_if_expired c sb cls ≡ ([], ok (pos (min (t + n - c.now) max_duration))))
        × (t + n ≤ c.now
            → (recycle_if_expired c sb cls).0 ≡ emit "SessionRecycled" ∷ delete_sandbox ∷ [])
  unfolding recycle_if_expired
  recycle_if_expired-deadline c t n s k = rw (recycle_deadline-Kept t n s k) (
    λ h. ground arith,
    λ h. elim (Write-cases c.sandbox_deleted) [
      | inl e ↦ ground arith
      | inr (inl e) ↦ ground arith
      | inr (inr e) ↦ ground arith
    ],
  )

and_left : (a b : Bool) → (a && b) ≡ true → a ≡ true
and_left true b h = refl
and_left false b h = absurd (cc)

not_right : (a b : Bool) → (a && not b) ≡ true → b ≡ false
not_right a false h = refl
not_right false true h = absurd (cc)
not_right true true h = absurd (cc)

first_of :
    (a b c : Bool) (x y z w : String)
    → let r = if a then x else if b then y else if c then z else w in
      ((r ≡ x) × (a ≡ true)) ⊎ ((r ≡ y) × (b ≡ true)) ⊎ ((r ≡ z) × (c ≡ true)) ⊎ (r ≡ w)
first_of true b c x y z w = inl (refl, refl)
first_of false true c x y z w = inr (inl (refl, refl))
first_of false false true x y z w = inr (inr (inl (refl, refl)))
first_of false false false x y z w = inr (inr (inr refl))

module _ {Q : Type 0} (parse : String → Option Time) (sb : Sandbox Q)
    (cls : Option (SandboxClass Q)) where
  -- The Sandbox with the status that a suspend at an instant leaves.
  abbrev pub after_suspend :
      SessionCheckpointSpec → String → Time → Bool → SandboxStatus → Sandbox Q
  after_suspend policy reason now fresh st = record sb {
    status = suspended_status policy reason now fresh st;
  }

  -- Why a session is suspended.
  suspend_reason-cases :
      (now : Time) (desired : SandboxStatus)
      → let reason = suspend_reason parse now sb cls desired in
        ((reason ≡ reason_user_suspended) × (sb.spec.desired_state ≡ state_suspended))
        ⊎ (reason ≡ reason_suspended_pause_timeout)
        ⊎ ((reason ≡ reason_suspended_idle)
            × (is_ahead (session_idle_deadline parse sb cls) now ≡ false))
        ⊎ (reason ≡ "")
  unfolding suspend_reason
  suspend_reason-cases now desired =
      let wanted = sb.spec.desired_state == state_suspended in
      let alive = desired.phase == running || desired.phase == paused in
      let over = desired.phase == paused && not (is_ahead (pause_deadline desired cls) now) in
      let ahead = is_ahead (session_idle_deadline parse sb cls) now in
      elim (first_of (wanted && alive) over (desired.phase == running && not ahead)
        reason_user_suspended reason_suspended_pause_timeout reason_suspended_idle "") [
          | inl (e, a) ↦ inl (
            e,
            (sandbox_desired_state_eq.equal_iff sb.spec.desired_state state_suspended).0
                (and_left wanted alive a),
          )
          | inr (inl (e, b)) ↦ inr (inl e)
          | inr (inr (inl (e, k))) ↦
              inr (inr (inl (e, not_right (desired.phase == running) ahead k)))
          | inr (inr (inr e)) ↦ inr (inr (inr e))
        ]

idle_within :
    {Q : Type 0} (parse : String → Option Time) (sb : Sandbox Q) (cls : SandboxClass Q) (now : Time)
    (limit : Option Duration)
    → cls.spec.session_idle_timeout ≡ limit
    → is_ahead (session_idle_deadline parse sb (some cls)) now ≡ false
    → last_session_activity parse sb < now
unfolding session_idle_deadline is_ahead class_idle_limit
idle_within parse sb cls now none e h = elim (Option-cases cls.spec.session_checkpoint) [
  | inl k ↦ ground arith
  | inr (policy, k) ↦ ground arith
]
idle_within parse sb cls now (some (pos d)) e h = ground arith
idle_within parse sb cls now (some (negsuc d)) e h = absurd (ground arith)

-- An idle session had its last activity before the instant at which it is found idle.
idle_before :
    {Q : Type 0} (parse : String → Option Time) (sb : Sandbox Q) (cls : Option (SandboxClass Q))
    (now : Time)
    → is_ahead (session_idle_deadline parse sb cls) now ≡ false
    → last_session_activity parse sb < now
unfolding session_idle_deadline is_ahead class_idle_limit
idle_before parse sb none now h = absurd (ground arith)
idle_before parse sb (some cls) now h =
    idle_within parse sb cls now cls.spec.session_idle_timeout refl h

module _ {Q : Type 0} (parse : String → Option Time) (sb : Sandbox Q)
    (cls : Option (SandboxClass Q)) (policy : SessionCheckpointSpec) (now : Time) (fresh : Bool)
    (st : SandboxStatus) where
  -- Suspended for a request: only a new desired state resumes it.
  stays_user :
      (reason : String)
      → sb.spec.desired_state ≡ state_suspended
      → suspended_sandbox_action parse (after_suspend parse sb cls policy reason now fresh st)
        ≡ false
  unfolding suspended_sandbox_action
  stays_user reason e = rw e refl

  -- Suspended for a pause past its cap: it stays suspended while the pause is wanted.
  stays_paused :
      sb.spec.desired_state ≡ state_paused
      → suspended_sandbox_action parse
          (after_suspend parse sb cls policy reason_suspended_pause_timeout now fresh st)
        ≡ false
  unfolding suspended_sandbox_action suspended_status SandboxDesiredState-discrete
  stays_paused e = rw e refl

  same_activity :
      (reason : String)
      → st.started_at ≡ sb.status.started_at
      → last_session_activity parse (after_suspend parse sb cls policy reason now fresh st)
        ≡ last_session_activity parse sb
  unfolding last_session_activity suspended_status
  same_activity reason e =
      ap
        (λ o.
          later_of (later_of sb.creation_timestamp o)
            (parsed_activity parse (lookup "setec.zeroroot.ai/last-activity" sb.annotations)))
        e

  -- Suspended for idleness: the activity that there was is older than the suspend.
  stays_idle :
      st.started_at ≡ sb.status.started_at
      → last_session_activity parse sb < now
      → suspended_sandbox_action parse
          (after_suspend parse sb cls policy reason_suspended_idle now fresh st)
        ≡ false
  unfolding suspended_sandbox_action suspended_status time_or
  stays_idle e h =
      let same = same_activity reason_suspended_idle e in
      let old : before
            (last_session_activity parse
              (after_suspend parse sb cls policy reason_suspended_idle now fresh st))
            now
          ≡ true =
        ground (arith, same) in
      elim (Bool-cases (sb.spec.desired_state == state_suspended)) [
        | inl k ↦ rw k refl
        | inr k ↦ rw k (ap not old)
      ]

-- A session that a suspend has just released for a reason that `suspend_reason` gives, so not on a
-- drain, is not resumed before something changes: whatever the answers to the checkpoint, the Sandbox with the status that the suspend leaves stays suspended, unless
-- it was suspended for a pause past its cap and its desired state is no longer Paused.
pub suspended_sandbox_action-suspend_reason :
    {Q : Type 0} (parse : String → Option Time) (c : Cluster Q) (sb : Sandbox Q)
    (cls : Option (SandboxClass Q)) (policy : SessionCheckpointSpec) (desired : SandboxStatus)
    (leave fresh : Bool)
    → suspend_reason parse c.now sb cls desired ≢ ""
    → (suspend_reason parse c.now sb cls desired ≢ reason_suspended_pause_timeout)
      ⊎ (sb.spec.desired_state ≡ state_paused)
    → suspended_sandbox_action parse (
        after_suspend parse sb cls policy
          (suspend_reason parse c.now sb cls desired)
          c.now
          fresh
          (take_checkpoint c sb policy leave).1)
      ≡ false
suspended_sandbox_action-suspend_reason parse c sb cls policy desired leave fresh some_reason
      pause =
    let st = (take_checkpoint c sb policy leave).1 in
    let started = take_checkpoint-started_at c sb policy leave in
    elim (suspend_reason-cases parse sb cls c.now desired) [
      | inl (e, wanted) ↦ stays_user parse sb cls policy c.now fresh st _ wanted
      | inr (inl e) ↦ elim pause [
        | inl n ↦ absurd (n e)
        | inr wanted ↦ rw e (stays_paused parse sb cls policy c.now fresh st wanted)
      ]
      | inr (inr (inl (e, idle))) ↦ rw e (
          stays_idle parse sb cls policy c.now fresh st started
            (idle_before parse sb cls c.now idle))
      | inr (inr (inr e)) ↦ absurd (some_reason e)
    ]
