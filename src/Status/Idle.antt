-- ===== src/Status/Idle.antt =====
-- The idle policy of a session: exactly when it fails a Sandbox.
use setec.Prelude.{
  ℕ, ◌+◌, ◌≤◌, ◌<◌, ◌≡◌, ◌≢◌, ◌⊎◌, inl, inr, refl, sym, ap, ◌∙◌, String, true, Option, none, some,
  arith, lookup,
}
use setec.Prelude.Int.{pos, negsuc}
use setec.Prelude.Time.{Time, Duration}
use setec.Api.{running, failed, SandboxStatus, Sandbox, SandboxClass}
use setec.Api.Session.{is_session}
use setec.Status.{set_phase}
use setec.Status.Policy.{
  last_session_activity, class_idle_limit, session_idle_deadline, parsed_activity, later_of,
  apply_session_idle_policy, reason_idle_timeout,
}

abbrev pub activity_key : String
activity_key = "setec.zeroroot.ai/last-activity"

-- The class sets a positive idle time of `d` nanoseconds, and no checkpoints.
abbrev pub IdleBound : {Q : Type 0} → Option (SandboxClass Q) → ℕ → Type 0
IdleBound none d = ⊥
IdleBound (some cls) d =
    (cls.spec.session_idle_timeout ≡ some (pos d)) × (0 < d) × (cls.spec.session_checkpoint ≡ none)

-- A Running session of such a class, with no activity in the last `bound` nanoseconds: not its
-- creation, not its start, and not the instant of its activity annotation.
pub record IdleOver {Q : Type 0} (parse : String → Option Time) (sb : Sandbox Q)
    (cls : Option (SandboxClass Q)) (st : SandboxStatus) (now : Time) : Type 0 where
  pub bound : ℕ
  pub is_running : st.phase ≡ running
  pub is_session_mode : is_session sb.spec ≡ true
  pub is_bound : IdleBound cls bound
  pub since_creation : sb.creation_timestamp + bound ≤ now
  pub since_start : (t : Time) → sb.status.started_at ≡ some t → t + bound ≤ now
  pub since_annotation :
      (raw : String) (t : Time)
      → lookup activity_key sb.annotations ≡ some raw
      → parse raw ≡ some t
      → t + bound ≤ now

-- What every known instant satisfies, the latest one satisfies.
later_of-le :
    (n d last : ℕ) (o : Option Time)
    → last + d ≤ n
    → ((t : Time) → o ≡ some t → t + d ≤ n)
    → later_of last o + d ≤ n
unfolding later_of
later_of-le n d last none h k = h
later_of-le n d last (some t) h k = ground (arith, k t refl)

parsed-le :
    (parse : String → Option Time) (n d : ℕ) (o : Option String)
    → ((raw : String) (t : Time) → o ≡ some raw → parse raw ≡ some t → t + d ≤ n)
    → (t : Time) → parsed_activity parse o ≡ some t
    → t + d ≤ n
unfolding parsed_activity
parsed-le parse n d none k t e = cc
parsed-le parse n d (some raw) k t e = k raw t refl e

module _ {Q : Type 0} (parse : String → Option Time) (sb : Sandbox Q) where
  last_activity_upper :
      (sb.creation_timestamp ≤ last_session_activity parse sb)
      × ((t : Time) → sb.status.started_at ≡ some t → t ≤ last_session_activity parse sb)
      × ((raw : String) (t : Time)
          → lookup activity_key sb.annotations ≡ some raw
          → parse raw ≡ some t
          → t ≤ last_session_activity parse sb)
  unfolding last_session_activity
  last_activity_upper = (ground arith, λ t e. ground arith, λ raw t e f. ground arith)

  last_activity_attained :
      (n d : ℕ)
      → sb.creation_timestamp + d ≤ n
      → ((t : Time) → sb.status.started_at ≡ some t → t + d ≤ n)
      → ((raw : String) (t : Time)
          → lookup activity_key sb.annotations ≡ some raw
          → parse raw ≡ some t
          → t + d ≤ n)
      → last_session_activity parse sb + d ≤ n
  unfolding last_session_activity
  last_activity_attained n d c s a =
      later_of-le n d _ _ (later_of-le n d _ _ c s)
        (parsed-le parse n d (lookup activity_key sb.annotations) a)

  module _ (st : SandboxStatus) (now : Time) where
    IdleOver-to :
        (cls : Option (SandboxClass Q))
        → IdleOver parse sb cls st now
        → apply_session_idle_policy parse sb cls st now
          ≡ set_phase st failed reason_idle_timeout now
    unfolding apply_session_idle_policy session_idle_deadline class_idle_limit
    IdleOver-to none h = ground arith
    IdleOver-to (some cls) h = ground (
      arith,
      last_activity_attained now h.bound h.since_creation h.since_start h.since_annotation,
    )

    IdleOver-parts :
        (cls : SandboxClass Q) (limit : Option Duration)
        → cls.spec.session_idle_timeout ≡ limit
        → st.phase ≢ failed
        → (apply_session_idle_policy parse sb (some cls) st now).phase ≡ failed
        → IdleOver parse sb (some cls) st now
    unfolding apply_session_idle_policy session_idle_deadline class_idle_limit set_phase
    IdleOver-parts cls none e live h = absurd (ground arith)
    IdleOver-parts cls (some (negsuc d)) e live h = absurd (ground arith)
    IdleOver-parts cls (some (pos d)) e live h =
        let late : last_session_activity parse sb + d ≤ now = ground arith in
        let (c, s, a) = last_activity_upper in
        record {
          bound = d;
          is_running = ground arith;
          is_session_mode = ground arith;
          is_bound = (e, ground arith, ground arith);
          since_creation = omega arith;
          since_start = λ t f. omega (arith, s t f);
          since_annotation = λ raw t f g. omega (arith, a raw t f g);
        }

    IdleOver-from :
        (cls : Option (SandboxClass Q))
        → st.phase ≢ failed
        → (apply_session_idle_policy parse sb cls st now).phase ≡ failed
        → IdleOver parse sb cls st now
    IdleOver-from none live h = absurd (
        unfold apply_session_idle_policy session_idle_deadline class_idle_limit set_phase in
        ground arith)
    IdleOver-from (some cls) live h = IdleOver-parts cls cls.spec.session_idle_timeout refl live h

    idle_unchanged_or :
        (cls : Option (SandboxClass Q))
        → (apply_session_idle_policy parse sb cls st now ≡ st)
          ⊎ ((apply_session_idle_policy parse sb cls st now).phase ≡ failed)
    unfolding apply_session_idle_policy set_phase
    idle_unchanged_or cls = ground arith

    set_phase-failed : (set_phase st failed reason_idle_timeout now).phase ≡ failed
    unfolding set_phase
    set_phase-failed = ground arith

    -- The idle policy on a Sandbox that has not failed: either it is a Running session, its class sets
    -- a positive idle time and no checkpoints, that time has passed since the creation, since the
    -- start when there is one and since the activity annotation when there is one that parses, and
    -- the result is Failed for that reason; or that does not hold, and nothing changes.
    pub apply_session_idle_policy-exact :
        (cls : Option (SandboxClass Q))
        → st.phase ≢ failed
        → (IdleOver parse sb cls st now
            × (apply_session_idle_policy parse sb cls st now
                ≡ set_phase st failed reason_idle_timeout now))
          ⊎ ((¬ IdleOver parse sb cls st now)
              × (apply_session_idle_policy parse sb cls st now ≡ st))
    apply_session_idle_policy-exact cls live = elim (idle_unchanged_or cls) [
      | inl e ↦ inr (
        λ h.
            live
              (ap (λ (s : SandboxStatus). s.phase) (sym e ∙ IdleOver-to cls h) ∙ set_phase-failed),
        e,
      )
      | inr f ↦ let over = IdleOver-from cls live f in inl (over, IdleOver-to cls over)
    ]
