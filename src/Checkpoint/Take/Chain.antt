-- ===== src/Checkpoint/Take/Chain.antt =====
-- What a checkpoint saves and what it deletes.
use setec.Prelude.{
  ℕ, ◌≡◌, ◌⊎◌, refl, inl, inr, Bool, true, false, String, Option, none, some, List, [], ◌∷◌, ◌++◌,
  ◌==◌, ◌!=◌, ◌&&◌, string_eq, Bool-cases,
}
use setec.Api.{Sandbox, SandboxCheckpointStatus, SessionCheckpointSpec}
use setec.Api.Session.{copy_recovery}
use setec.Checkpoint.{
  Fault, Read, found, missing, unread, Secret, Call, Cluster, ok, err, save_failed, Run, ◌>>=◌,
  is_launcher_sandbox,
}
use setec.Checkpoint.Calls.{
  drops, saves, saved_refs, drops-append, saves-append, saved_refs-append, Quiet, Quiet-append,
  Write-cases,
}
use setec.Checkpoint.Take.{
  ensure_found, ensure_session_kek, read_session_kek, session_pod_uid, saved, superseded,
  delete_checkpoint_chain, drop_refs, next_sequence, diff_base, fresh_checkpoint,
}

-- What a deletion saves: nothing.
drop_refs-saved : (rs : List String) → saved_refs (drop_refs rs) ≡ []
unfolding drop_refs
drop_refs-saved [] = refl
drop_refs-saved (r ∷ rs) = elim (Bool-cases (r == "")) [
  | inl e ↦ rw e (drop_refs-saved rs)
  | inr e ↦ rw e (drop_refs-saved rs)
]

superseded-saved :
    (parent : String) (prev : Option SandboxCheckpointStatus)
    → saved_refs (superseded parent prev) ≡ []
unfolding superseded delete_checkpoint_chain
superseded-saved parent none = refl
superseded-saved parent (some prev) = elim (Bool-cases (prev.ref != "" && parent == "")) [
  | inl e ↦ rw e (drop_refs-saved (prev.parents ++ prev.ref ∷ []))
  | inr e ↦ rw e refl
]

drop_refs-Quiet : (rs : List String) → Quiet (drop_refs rs)
unfolding drop_refs
drop_refs-Quiet [] = (refl, refl)
drop_refs-Quiet (r ∷ rs) = elim (Bool-cases (r == "")) [
  | inl e ↦ rw e (drop_refs-Quiet rs)
  | inr e ↦ rw e (drop_refs-Quiet rs)
]

pub delete_checkpoint_chain-Quiet :
    (ck : SandboxCheckpointStatus) → Quiet (delete_checkpoint_chain ck)
unfolding delete_checkpoint_chain
delete_checkpoint_chain-Quiet ck = drop_refs-Quiet (ck.parents ++ ck.ref ∷ [])

superseded-Quiet :
    (parent : String) (prev : Option SandboxCheckpointStatus) → Quiet (superseded parent prev)
unfolding superseded
superseded-Quiet parent none = (refl, refl)
superseded-Quiet parent (some prev) = elim (Bool-cases (prev.ref != "" && parent == "")) [
  | inl e ↦ rw e (delete_checkpoint_chain-Quiet prev)
  | inr e ↦ rw e (refl, refl)
]

-- The making of the key loads, releases, drops and saves nothing.
abbrev Idle : List Call → Type 0
Idle cs = Quiet cs × (drops cs ≡ []) × (saves cs ≡ false) × (saved_refs cs ≡ [])

ensure_found-Idle : {Q : Type 0} (c : Cluster Q) (r : Read Secret) → Idle (ensure_found c r).0
unfolding ensure_found
ensure_found-Idle c (found s) = elim (Bool-cases s.terminating) [
  | inl e ↦ rw e ((refl, refl), refl, refl, refl)
  | inr e ↦ rw e ((refl, refl), refl, refl, refl)
]
ensure_found-Idle c unread = ((refl, refl), refl, refl, refl)
ensure_found-Idle c missing = elim (Write-cases c.kek_created) [
  | inl e ↦ rw e ((refl, refl), refl, refl, refl)
  | inr (inl e) ↦ rw e ((refl, refl), refl, refl, refl)
  | inr (inr e) ↦ rw e ((refl, refl), refl, refl, refl)
]

module _ (uid : String) (base : String × List String) (prev : Option SandboxCheckpointStatus) where
  -- A checkpoint that failed has deleted nothing; one that was saved has the base as its chain, and
  -- has deleted what it supersedes.
  abbrev pub Course : Run SandboxCheckpointStatus → Type 0
  Course r =
      Quiet r.0
      × (((e : Fault) × (r.1 ≡ err e) × (drops r.0 ≡ []) × (saves r.0 ≡ false))
          ⊎ ((ck : SandboxCheckpointStatus) × (r.1 ≡ ok ck)
              × (saves r.0 ≡ true)
              × (saved_refs r.0 ≡ ck.ref ∷ [])
              × (drops r.0 ≡ drops (superseded base.0 prev))
              × (ck.parents ≡ base.1)
              × (ck.pod_uid ≡ uid)))

  Course-step :
      {A : Type 0} (m : Run A) (f : A → Run SandboxCheckpointStatus)
      → Idle m.0
      → ((a : A) → Course (f a))
      → Course (m >>= f)
  Course-step (l, err e) f (q, d, s, v) h = (q, inl (e, refl, d, s))
  Course-step (l, ok a) f (q, d, s, v) h =
      let (q2, rest) = h a in
      (
        Quiet-append l (f a).0 q q2,
        elim rest [
          | inl (e, r, d2, s2) ↦ inl (
            e,
            r,
            rw (drops-append l (f a).0, d, d2) refl,
            rw (saves-append l (f a).0, s, s2) refl,
          )
          | inr (ck, r, s2, v2, d2, p, u) ↦ inr (
            ck,
            r,
            rw (saves-append l (f a).0, s, s2) refl,
            rw (saved_refs-append l (f a).0, v) v2,
            rw (drops-append l (f a).0, d) d2,
            p,
            u,
          )
        ],
      )

  copied :
      (ck : SandboxCheckpointStatus) (p : Option SandboxCheckpointStatus)
      → ((copy_recovery ck p).ref ≡ ck.ref)
        × ((copy_recovery ck p).parents ≡ ck.parents)
        × ((copy_recovery ck p).pod_uid ≡ ck.pod_uid)
  unfolding copy_recovery
  copied ck none = (refl, refl, refl)
  copied ck (some p) = (refl, refl, refl)

  Course-saved :
      (seq : ℕ) (leave : Bool) (answer : Option (String × ℕ))
      (ck : String × ℕ → SandboxCheckpointStatus)
      → ((new : String × ℕ)
          → ((ck new).ref ≡ new.0) × ((ck new).parents ≡ base.1) × ((ck new).pod_uid ≡ uid))
      → Course (saved seq leave base.0 answer >>= λ new. (superseded base.0 prev, ok (ck new)))
  unfolding saved
  Course-saved seq leave none ck h = ((refl, refl), inl (save_failed, refl, refl, refl))
  Course-saved seq leave (some (ref, size)) ck h =
      let (named, below, machine) = h (ref, size) in
      (
        superseded-Quiet base.0 prev,
        inr (
          ck (ref, size),
          refl,
          refl,
          rw (named, superseded-saved base.0 prev) refl,
          refl,
          below,
          machine,
        ),
      )

module _ {Q : Type 0} (c : Cluster Q) (sb : Sandbox Q) (policy : SessionCheckpointSpec) where
  abbrev pub base_of : String × List String
  base_of =
      diff_base (policy.durable && is_launcher_sandbox sb) (session_pod_uid c) sb.status.checkpoint

  pub fresh_checkpoint-Course :
      (leave : Bool)
      → Course (session_pod_uid c) base_of sb.status.checkpoint (fresh_checkpoint c sb policy leave)
  unfolding fresh_checkpoint ensure_session_kek
  fresh_checkpoint-Course leave =
      let uid = session_pod_uid c in
      let prev = sb.status.checkpoint in
      Course-step uid base_of prev (ensure_session_kek c) _ (ensure_found-Idle c c.kek_before) (λ u.
        Course-step uid base_of prev ([], read_session_kek c) _ ((refl, refl), refl, refl, refl)
          (λ kek.
            Course-saved uid base_of prev (next_sequence prev) leave
              (c.checkpoint_session (next_sequence prev) kek leave base_of.0) _
              (λ new. copied uid base_of prev _ prev)))
