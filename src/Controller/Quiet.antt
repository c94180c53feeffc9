-- ===== src/Controller/Quiet.antt =====
-- Steps of a pass that touch neither the policies nor the claim, nor create a Pod.
use mathlib.Core.Path.{subst}
use setec.Prelude.{
  ◌≡◌, refl, Bool, true, false, String, List, [], ◌∷◌, ◌++◌, not, string_eq, map, arith,
}
use setec.Prelude.Time.{Duration}
use setec.Api.{sandbox_phase_eq, SandboxPhase, pending, Sandbox}
use setec.Api.Session.{is_session}
use setec.Snapshot.Reconcile.{Ended, requeue_after}
use setec.Checkpoint.{Call}
use setec.Controller.{
  Act, checkpoint, Server, Stage, ended, going, Run, and_then, patched, patch_pending_status,
  ending, hold,
}
use setec.Controller.Trace.{guarded, all_neutral, guarded-skip, guarded-creates, creates-neutral}

module _ {Q P : Type 0} (c : Server Q P) where
  pub neutral-checkpoint : (l : List Call) → all_neutral {P = P} (map checkpoint l) ≡ true
  neutral-checkpoint [] = refl
  neutral-checkpoint (call ∷ l) = neutral-checkpoint l

  pub patched-neutral :
      (sb : Sandbox Q) (phase : SandboxPhase) (reason : String)
      → all_neutral (patched c sb phase reason).0 ≡ true
  unfolding patched
  patched-neutral sb phase reason = ground arith

  pub ending-neutral :
      (r : List (Act P) × Bool) (e : Ended)
      → all_neutral r.0 ≡ true
      → all_neutral (ending c r e).0 ≡ true
  unfolding ending
  ending-neutral (l, true) e h = h
  ending-neutral (l, false) e h = h

  pub hold-neutral :
      (sb : Sandbox Q) (reason : String) (wait : Duration)
      → all_neutral (hold c sb reason wait).0 ≡ true
  unfolding hold patch_pending_status
  hold-neutral sb reason wait =
      ending-neutral (patched c sb pending reason) (requeue_after wait)
        (patched-neutral sb pending reason)

  pub all_neutral-append :
      (l m : List (Act P))
      → all_neutral l ≡ true
      → all_neutral m ≡ true
      → all_neutral (l ++ m) ≡ true
  all_neutral-append [] m h k = k
  all_neutral-append (a ∷ l) m h k = ground (arith, all_neutral-append l m)

  -- The flags that a Sandbox starts with: what it does not need is in place.
  abbrev pub Guarded : Sandbox Q → List (Act P) → Type 0
  Guarded sb l = guarded (not c.namespace_baseline_deny) false (not (is_session sb.spec)) l ≡ true

  -- A stage that does neutral things and hands on a Sandbox of the same spec.
  abbrev pub Quiet : Sandbox Q → Stage P (Sandbox Q) → Type 0
  Quiet sb (ended l e) = all_neutral l ≡ true
  Quiet sb (going l next) = (all_neutral l ≡ true) × (next.spec ≡ sb.spec)

  pub and_then-Guarded :
      (sb : Sandbox Q) (s : Stage P (Sandbox Q)) (k : Sandbox Q → Run P)
      → Quiet sb s
      → ((next : Sandbox Q) → Guarded next (k next).0)
      → Guarded sb (and_then s k).0
  unfolding and_then
  and_then-Guarded sb (ended l e) k q h = guarded-creates _ _ _ l (creates-neutral l q)
  and_then-Guarded sb (going l next) k (q, e) h =
      rw
        (guarded-skip (not c.namespace_baseline_deny) false (not (is_session sb.spec)) l (k next).0
          q)
        (subst
          (λ spec.
            guarded (not c.namespace_baseline_deny) false (not (is_session spec)) (k next).0 ≡ true)
          e (h next))
