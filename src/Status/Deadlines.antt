-- ===== src/Status/Deadlines.antt =====
-- The pause and idle policies: exactly when they fail a Sandbox, and that they do nothing else.
use setec.Prelude.{
  ℕ, ◌+◌, ◌≤◌, ◌<◌, ◌≡◌, ◌≢◌, ◌⊎◌, inl, inr, refl, sym, ap, ◌∙◌, String, false, Option, none, some,
  arith, ◌&&◌,
}
use setec.Prelude.Int.{pos, negsuc}
use setec.Prelude.Time.{Time, Duration}
use setec.Api.{failed, paused, SandboxStatus, Sandbox, SandboxClass}
use setec.Api.Session.{is_session}
use setec.Status.{set_phase}
use setec.Status.Policy.{has_checkpoint, pause_deadline, apply_pause_policy, reason_pause_timeout}

-- The class bounds a pause by `d` nanoseconds.
abbrev pub PauseBound : {Q : Type 0} → Option (SandboxClass Q) → ℕ → Type 0
PauseBound none d = ⊥
PauseBound (some cls) d = (cls.spec.max_pause_duration ≡ some (pos d)) × (0 < d)

-- A pause that a failure must end: the Sandbox is Paused since `t`, its class bounds a pause by `d`,
-- the bound is over, and it is no session of a class with checkpoints.
pub record PauseOver {Q : Type 0} (sb : Sandbox Q) (cls : Option (SandboxClass Q))
    (st : SandboxStatus) (now : Time) : Type 0 where
  pub since : Time
  pub bound : ℕ
  pub is_paused : st.phase ≡ paused
  pub is_stamped : st.paused_at ≡ some since
  pub is_bound : PauseBound cls bound
  pub is_over : since + bound ≤ now
  pub not_owned : (is_session sb.spec && has_checkpoint cls) ≡ false

module _ {Q : Type 0} (sb : Sandbox Q) (st : SandboxStatus) (now : Time) where
  set_phase-phase : (reason : String) → (set_phase st failed reason now).phase ≡ failed
  unfolding set_phase
  set_phase-phase reason = ground arith

  pub pause_unchanged_or :
      (cls : Option (SandboxClass Q))
      → (apply_pause_policy sb cls st now ≡ st)
        ⊎ ((apply_pause_policy sb cls st now).phase ≡ failed)
  unfolding apply_pause_policy set_phase
  pause_unchanged_or cls = ground arith

  PauseOver-parts :
      (cls : SandboxClass Q) (since : Option Time) (bound : Option Duration)
      → st.paused_at ≡ since
      → cls.spec.max_pause_duration ≡ bound
      → st.phase ≢ failed
      → (apply_pause_policy sb (some cls) st now).phase ≡ failed
      → PauseOver sb (some cls) st now
  unfolding apply_pause_policy pause_deadline set_phase
  PauseOver-parts cls (some t) (some (pos d)) e f live h = record {
    since = t;
    bound = d;
    is_paused = ground arith;
    is_stamped = e;
    is_bound = (f, ground arith);
    is_over = ground arith;
    not_owned = ground arith;
  }
  PauseOver-parts cls (some t) (some (negsuc d)) e f live h = absurd (ground arith)
  PauseOver-parts cls (some t) none e f live h = absurd (ground arith)
  PauseOver-parts cls none bound e f live h = absurd (ground arith)

  pub PauseOver-from :
      (cls : Option (SandboxClass Q))
      → st.phase ≢ failed
      → (apply_pause_policy sb cls st now).phase ≡ failed
      → PauseOver sb cls st now
  PauseOver-from none live h =
      absurd (unfold apply_pause_policy pause_deadline set_phase in ground arith)
  PauseOver-from (some cls) live h =
      PauseOver-parts cls st.paused_at cls.spec.max_pause_duration refl refl live h

  PauseOver-to :
      (cls : Option (SandboxClass Q))
      → PauseOver sb cls st now
      → apply_pause_policy sb cls st now ≡ set_phase st failed reason_pause_timeout now
  unfolding apply_pause_policy pause_deadline
  PauseOver-to none h = ground arith
  PauseOver-to (some cls) h = ground arith

  -- The pause policy on a Sandbox that has not failed: either it is Paused, the class bounds a pause
  -- by a positive duration that has passed since pausedAt, it is no session of a class with
  -- checkpoints, and the result is Failed for that reason; or that does not hold, and nothing changes.
  pub apply_pause_policy-exact :
      (cls : Option (SandboxClass Q))
      → st.phase ≢ failed
      → (PauseOver sb cls st now
          × (apply_pause_policy sb cls st now ≡ set_phase st failed reason_pause_timeout now))
        ⊎ ((¬ PauseOver sb cls st now) × (apply_pause_policy sb cls st now ≡ st))
  apply_pause_policy-exact cls live = elim (pause_unchanged_or cls) [
    | inl e ↦ inr (
      λ h. live (
          ap (λ (s : SandboxStatus). s.phase) (sym e ∙ PauseOver-to cls h)
          ∙ set_phase-phase reason_pause_timeout),
      e,
    )
    | inr f ↦ let over = PauseOver-from cls live f in inl (over, PauseOver-to cls over)
  ]
