-- ===== src/Controller/Launch/Guarded.antt =====
-- The steps of handleMissingPod, with what comes before the policies.
use setec.Prelude.{
  ◌≡◌, refl, inl, inr, true, String, Option, none, some, List, ◌==◌, ◌!=◌, ◌&&◌, not, string_eq,
  map, Bool-cases,
}
use setec.Prelude.Time.{Duration}
use setec.Api.{sandbox_phase_eq, suspended, Sandbox, SandboxClass, SessionCheckpointSpec}
use setec.Api.Session.{is_session}
use setec.Checkpoint.{
  Read, found, missing, unread, Write, done, moot, refused, Outcome, ok, err, Call,
  session_checkpoint_policy,
}
use setec.Checkpoint
use setec.Controller.Reap.{is_terminal_phase}
use setec.Checkpoint.Take.{ensure_session_kek}
use setec.Checkpoint.Resume.{recycle_if_expired, suspended_sandbox_action}
use setec.Controller.{Act, checkpoint, Server, Stage, ended, going, and_then}
use setec.Controller.Launch.{
  check_backend, valid_backend, runtime_of, chosen, live_checkpoint, marked_pending, policed, keyed,
  prefixed, by_policy_of, recycled, handle_missing_pod,
}
use setec.Controller.Trace.{all_neutral, guarded-creates, creates-neutral}
use setec.Controller.Quiet.{
  neutral-checkpoint, all_neutral-append, Guarded, Quiet, and_then-Guarded,
}
use setec.Controller.Launch.Policed.{policed-Guarded}

module _ {Q P : Type 0} (c : Server Q P) where
  pub check_backend-Quiet :
      (sb : Sandbox Q) (cls : Option (SandboxClass Q)) → Quiet c sb (check_backend c sb cls)
  unfolding check_backend
  check_backend-Quiet sb cls = elim (Bool-cases (not (valid_backend (runtime_of cls)))) [
    | inl e ↦ rw e refl
    | inr e ↦ elim (Bool-cases (chosen sb.status.runtime != "launcher")) [
      | inl d ↦ rw (e, d) (refl, refl)
      | inr d ↦ rw (e, d) (refl, refl)
    ]
  ]

  keyed-Quiet : (sb : Sandbox Q) (o : Outcome (Unit {0})) → Quiet c sb (keyed c sb o)
  unfolding keyed
  keyed-Quiet sb (err e) = refl
  keyed-Quiet sb (ok u) =
      let st = record (sb.status) { checkpoint = marked_pending sb.status.checkpoint } in
      elim (Bool-cases (live_checkpoint sb.status.checkpoint)) [
        | inr l ↦ rw l (refl, refl)
        | inl l ↦ elim (Bool-cases (c.status_patched st)) [
          | inl p ↦ rw (l, p) (refl, refl)
          | inr p ↦ rw (l, p) refl
        ]
      ]

  prefixed-Quiet :
      (sb : Sandbox Q) (l : List (Act P)) (s : Stage P (Sandbox Q))
      → all_neutral l ≡ true
      → Quiet c sb s
      → Quiet c sb (prefixed c l s)
  unfolding prefixed
  prefixed-Quiet sb l (ended m e) h q = all_neutral-append c l m h q
  prefixed-Quiet sb l (going m next) h (q, e) = (all_neutral-append c l m h q, e)

  pub by_policy_of-Quiet :
      (sb : Sandbox Q) (o : Option SessionCheckpointSpec) → Quiet c sb (by_policy_of c sb o)
  unfolding by_policy_of
  by_policy_of-Quiet sb none = (refl, refl)
  by_policy_of-Quiet sb (some spec) =
      let run = ensure_session_kek c.checkpoints in
      prefixed-Quiet sb (map checkpoint run.0) (keyed c sb run.1) (neutral-checkpoint c run.0)
        (keyed-Quiet sb run.1)

  recycled-Guarded : (sb : Sandbox Q) (r : Checkpoint.Run Duration) → Guarded c sb (recycled c r).0
  unfolding recycled
  recycled-Guarded sb (l, ok wait) =
      guarded-creates _ _ _ (map checkpoint l)
        (creates-neutral {P = P} (map checkpoint l) (neutral-checkpoint c l))
  recycled-Guarded sb (l, err e) =
      guarded-creates _ _ _ (map checkpoint l)
        (creates-neutral {P = P} (map checkpoint l) (neutral-checkpoint c l))

  pub handle_missing_pod-Guarded :
      (sb : Sandbox Q) (cls : Option (SandboxClass Q)) (pinned : String)
      → Guarded c sb (handle_missing_pod c sb cls pinned).0
  unfolding handle_missing_pod
  handle_missing_pod-Guarded sb cls pinned =
      let waits =
        is_session sb.spec
        && sb.status.phase == suspended
        && not (suspended_sandbox_action c.parse sb) in
      elim (Bool-cases (is_terminal_phase sb.status.phase)) [
        | inl t ↦ rw t refl
        | inr t ↦ elim (Bool-cases waits) [
          | inl w ↦ rw (t, w) (recycled-Guarded sb (recycle_if_expired c.checkpoints sb cls))
          | inr w ↦
              rw (t, w)
                (and_then-Guarded c sb (by_policy_of c sb (session_checkpoint_policy sb cls))
                  (λ sb1. and_then (check_backend c sb1 cls) (λ sb2. policed c sb2 cls pinned))
                  (by_policy_of-Quiet sb (session_checkpoint_policy sb cls))
                  λ sb1.
                    and_then-Guarded c sb1 (check_backend c sb1 cls)
                      (λ sb2. policed c sb2 cls pinned) (check_backend-Quiet sb1 cls)
                      λ sb2. policed-Guarded c sb2 cls pinned)
        ]
      ]
