-- ===== src/Controller/Deadlines/Wakes.antt =====
-- When the pass over an existing Pod asks to be called again.
use setec.Prelude.{
  ℕ, zero, suc, ◌+◌, ◌*◌, ◌≤◌, ◌<◌, ◌≡◌, ◌≢◌, ◌⊎◌, refl, inl, inr, Bool, true, false, Option, none,
  some, nat_eq, ◌==◌, ◌||◌, Bool-cases, if◌then◌else◌, arith,
}
use setec.Prelude.Int.{pos, negsuc, pos_part, ltb_ℤ}
use setec.Prelude.Time.{Time, Duration, second, is_zero, sub, before}
use setec.Api.{
  Sandbox, SandboxClass, SandboxStatus, running, paused, SandboxPhase-discrete, sandbox_phase_eq,
  Lifecycle,
}
use setec.Status.Policy.{pause_deadline, session_idle_deadline}
use setec.Controller.{Server}
use setec.Controller.Deadlines.{
  default_refresh_interval, timeout_at, lifecycle_timeout, earlier, deadline_by_phase, wait_until,
  next_lifecycle_deadline, depends_on_dns, zero_wait, sooner, with_deadline, requeue_for,
}

-- A wait that is positive and ends at `t`, or within a second when `t` is nearer than that.
abbrev pub WakesBy : Time → Time → Duration → Type 0
WakesBy now t d = (n : ℕ) × (d ≡ pos n) × (0 < n) × ((n ≤ second) ⊎ (now + n ≤ t))

-- A wait that is positive and at most `b`.
abbrev pub Within : ℕ → Duration → Type 0
Within b d = (n : ℕ) × (d ≡ pos n) × (0 < n) × (n ≤ b)

wait_until-WakesBy :
    (t now : Time) → 0 < t → (d : Duration) × (wait_until (some t) now ≡ some d) × WakesBy now t d
unfolding wait_until
wait_until-WakesBy t now h = elim (Bool-cases (is_zero t)) [
  | inl z ↦ absurd (ground arith)
  | inr z ↦ elim (Bool-cases (ltb_ℤ (sub t now) (pos second))) [
    | inl s ↦ rw (z, s) (pos second, refl, (second, refl, omega arith, inl (omega arith)))
    | inr s ↦
        rw (z, s)
          (sub t now, refl, (pos_part (sub t now), ground arith, ground arith, ground arith))
  ]
]

-- The shorter wait is no longer than either.
sooner-Within :
    (a : ℕ) (b : ℕ)
    → 0 < b
    → (n : ℕ) × (sooner (pos a) (pos b) ≡ pos n) × (0 < n) × (n ≤ b) × (0 < a → n ≤ a)
unfolding sooner zero_wait
sooner-Within a b h = elim (Bool-cases (zero_wait (pos a) || ltb_ℤ (pos b) (pos a))) [
  | inl e ↦ rw e (b, refl, h, omega arith, λ p. ground arith)
  | inr e ↦ rw e (a, refl, ground arith, ground arith, λ p. omega arith)
]

earlier-some :
    (t : Time) (o : Option Time)
    → 0 < t
    → o ≢ some 0
    → (e : Time) × (earlier (some t) o ≡ some e) × (0 < e) × (e ≤ t)
unfolding earlier
earlier-some t none h k = (t, refl, h, omega arith)
earlier-some t (some u) h k = elim (Bool-cases (is_zero t || before u t)) [
  | inl e ↦ rw e (u, refl, positive u k, ground arith)
  | inr e ↦ rw e (t, refl, h, omega arith)
]
  where
    positive : (u : ℕ) → some u ≢ some 0 → 0 < u
    positive zero n = absurd (n refl)
    positive (suc u) n = omega arith

earlier-last :
    (o : Option Time) (u : Time)
    → 0 < u
    → (e : Time) × (earlier o (some u) ≡ some e) × (0 < e) × (e ≤ u)
unfolding earlier
earlier-last none u h = (u, refl, h, omega arith)
earlier-last (some t) u h = elim (Bool-cases (is_zero t || before u t)) [
  | inl e ↦ rw e (u, refl, h, omega arith)
  | inr e ↦ rw e (t, refl, ground arith, ground arith)
]

pos_of : (d : Duration) → ltb_ℤ (pos 0) d ≡ true → (n : ℕ) × (d ≡ pos n) × (0 < n)
pos_of (pos n) h = (n, refl, ground arith)
pos_of (negsuc n) h = absurd (ground arith)

-- The wait before the deadlines: the DNS refresh and the checkpoint.
refresh-pos :
    (b : Bool) (r : Duration)
    → (n : ℕ) × ((if b then (if ltb_ℤ (pos 0) r then r else default_refresh_interval) else pos 0)
        ≡ pos n)
refresh-pos false r = (0, refl)
refresh-pos true r = elim (Bool-cases (ltb_ℤ (pos 0) r)) [
  | inl e ↦ rw e (let (n, same, p) = pos_of r e in (n, same))
  | inr e ↦ rw e (60 * second, refl)
]

checkpoint-pos :
    (n : ℕ) (w : Duration)
    → (m : ℕ) × ((if ltb_ℤ (pos 0) w then sooner (pos n) w else pos n) ≡ pos m)
checkpoint-pos n w = elim (Bool-cases (ltb_ℤ (pos 0) w)) [
  | inr e ↦ rw e (n, refl)
  | inl e ↦
      let (k, same, p) = pos_of w e in
      let (m, is_m, q, le, le2) = sooner-Within n k p in rw (e, same) (m, is_m)
]

timeout_some :
    (o : Option Time) (p : Option Lifecycle) (started : Time) (d : ℕ) (l : Lifecycle)
    → o ≡ some started
    → p ≡ some l
    → l.timeout ≡ some (pos d)
    → 0 < d
    → timeout_at o (lifecycle_timeout p) ≡ some (started + d)
unfolding timeout_at lifecycle_timeout
timeout_some o p started d l h k e positive =
    let long : ltb_ℤ (pos 0) (pos d) ≡ true = ground arith in rw (h, k, e, long) refl

module _ {Q P : Type 0} (c : Server Q P) where
  -- A deadline that is ahead of a Running or a Paused Sandbox.
  abbrev pub Deadline : Sandbox Q → Option (SandboxClass Q) → SandboxStatus → Time → Type 0
  Deadline sb cls st t =
      ((st.phase ≡ running)
        × ((started : Time) × (d : ℕ) × (l : Lifecycle) × (st.started_at ≡ some started)
            × (sb.spec.lifecycle ≡ some l)
            × (l.timeout ≡ some (pos d))
            × (0 < d)
            × (t ≡ started + d)))
      ⊎ ((st.phase ≡ running) × (session_idle_deadline c.parse sb cls ≡ some t) × (0 < t))
      ⊎ ((st.phase ≡ paused) × (pause_deadline st cls ≡ some t) × (0 < t))

  deadline_by_phase-Deadline :
      (sb : Sandbox Q) (cls : Option (SandboxClass Q)) (st : SandboxStatus) (t : Time)
      → session_idle_deadline c.parse sb cls ≢ some 0
      → Deadline sb cls st t
      → (e : Time) × (deadline_by_phase c.parse sb cls st ≡ some e) × (0 < e) × (e ≤ t)
  unfolding deadline_by_phase SandboxPhase-discrete
  deadline_by_phase-Deadline sb cls st t n (inl (r, (s, d, l, start, life, limit, p, same))) =
      rw (r, timeout_some st.started_at sb.spec.lifecycle s d l start life limit p, same)
        (earlier-some (s + d) (session_idle_deadline c.parse sb cls) (omega arith) n)
  deadline_by_phase-Deadline sb cls st t n (inr (inl (r, idle, p))) =
      rw (r, idle)
        (earlier-last (timeout_at st.started_at (lifecycle_timeout sb.spec.lifecycle)) t p)
  deadline_by_phase-Deadline sb cls st t n (inr (inr (r, pause, p))) =
      let a : (st.phase == running) ≡ false = rw r refl in
      let b : (st.phase == paused) ≡ true = rw r refl in rw (a, b, pause) (t, refl, p, omega arith)

  -- The wait that requeueAfter gives for a derived status and a checkpoint interval ends at the deadline
  -- of the Sandbox, or earlier, or within a second; it is never no wait. The deadline `t` of a Running
  -- Sandbox is the end of its timeout or its idle time, and of a Paused one the end of its pause; no idle
  -- deadline is the zero time, which the code reads as none. A pass that ends before requeueAfter, as
  -- with a checkpoint or a restore, has a wait of its own.
  pub requeue_for-WakesBy :
      (sb : Sandbox Q) (cls : Option (SandboxClass Q)) (st : SandboxStatus) (w : Duration)
      (t : Time)
      → session_idle_deadline c.parse sb cls ≢ some 0
      → Deadline sb cls st t
      → WakesBy c.now t (requeue_for c sb cls st w)
  unfolding requeue_for with_deadline next_lifecycle_deadline
  requeue_for-WakesBy sb cls st w t n h =
      let (e, is_e, p, le) = deadline_by_phase-Deadline sb cls st t n h in
      let (d, is_d, (k, same, q, at)) = wait_until-WakesBy e c.now p in
      let (x, is_x) = refresh-pos (depends_on_dns c.is_address sb cls) c.refresh_interval in
      let (y, is_y) = checkpoint-pos x w in
      let (m, is_m, positive, within, _) = sooner-Within y k q in
      rw (is_x, is_y, is_e, is_d, same) (m, is_m, positive, closer m k e at within le)
    where
      closer :
          (m k e : ℕ)
          → ((k ≤ second) ⊎ (c.now + k ≤ e))
          → m ≤ k
          → e ≤ t
          → (m ≤ second) ⊎ (c.now + m ≤ t)
      closer m k e (inl a) b d = inl (omega arith)
      closer m k e (inr a) b d = inr (omega arith)
