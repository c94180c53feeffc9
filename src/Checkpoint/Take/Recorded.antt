-- ===== src/Checkpoint/Take/Recorded.antt =====
-- What a checkpoint records, and the chain that it stands on.
use setec.Prelude.{
  ◌≤◌, ◌<◌, ◌≡◌, ◌≢◌, ◌⊎◌, refl, sym, ap, ◌∙◌, inl, inr, Bool, true, false, String, Option, none,
  some, List, [], ◌∷◌, ◌++◌, ◌==◌, ◌!=◌, ◌&&◌, string_eq, length, ltb, Bool-cases, arith,
  length-append, eq_iff,
}
use mathlib.Core.List.{append-nil}
use setec.Api.{Sandbox, SandboxStatus, SandboxCheckpointStatus, SessionCheckpointSpec}
use setec.Checkpoint.{
  Fault, Call, patch_status, emit, Cluster, ok, err, Run, max_diff_chain, is_launcher_sandbox,
}
use setec.Checkpoint.Calls.{
  drops, saves, saved_refs, drops-append, saves-append, saved_refs-append, Quiet, Quiet-append,
}
use setec.Checkpoint.Take.{
  session_pod_uid, superseded, diff_base, fresh_checkpoint, recorded, take_checkpoint,
}
use setec.Checkpoint.Take.Chain.{Course, base_of, fresh_checkpoint-Course}

-- The base of a diff: none, or the last checkpoint, when the same machine wrote it and its chain is
-- not full.
diff_base-cases :
    (chained : Bool) (uid : String) (prev : Option SandboxCheckpointStatus)
    → (diff_base chained uid prev ≡ ("", []))
      ⊎ ((p : SandboxCheckpointStatus) × (prev ≡ some p)
          × (diff_base chained uid prev ≡ (p.ref, p.parents ++ p.ref ∷ []))
          × (p.pod_uid ≡ uid)
          × (length p.parents < max_diff_chain)
          × ((p.ref == "") ≡ false))
unfolding diff_base
diff_base-cases chained uid none = inl refl
diff_base-cases chained uid (some p) =
    elim (Bool-cases (
      chained
      && p.ref != ""
      && uid != ""
      && p.pod_uid == uid
      && ltb (length p.parents) max_diff_chain)) [
        | inl e ↦
            let same : (p.pod_uid == uid) ≡ true = ground arith in
            inr (p, refl, rw e refl, (eq_iff p.pod_uid uid).0 same, ground arith, ground arith)
        | inr e ↦ inl (rw e refl)
      ]

superseded-diff :
    (parent : String) (prev : Option SandboxCheckpointStatus)
    → (parent == "") ≡ false
    → superseded parent prev ≡ []
unfolding superseded
superseded-diff parent none h = refl
superseded-diff parent (some p) h = ground arith

module _ {Q : Type 0} (c : Cluster Q) (sb : Sandbox Q) (policy : SessionCheckpointSpec) where
  -- A full checkpoint, or a diff on the last one, which is still there.
  abbrev pub Based : List Call → SandboxCheckpointStatus → Type 0
  Based calls ck =
      (ck.parents ≡ [])
      ⊎ ((prev : SandboxCheckpointStatus) × (sb.status.checkpoint ≡ some prev)
          × (ck.parents ≡ prev.parents ++ prev.ref ∷ [])
          × (prev.pod_uid ≡ ck.pod_uid)
          × (drops calls ≡ []))

  based :
      (calls : List Call) (ck : SandboxCheckpointStatus)
      → drops calls ≡ drops (superseded (base_of c sb policy).0 sb.status.checkpoint)
      → ck.parents ≡ (base_of c sb policy).1
      → ck.pod_uid ≡ session_pod_uid c
      → Based calls ck × (length ck.parents ≤ max_diff_chain)
  based calls ck d p u =
      elim (diff_base-cases (policy.durable && is_launcher_sandbox sb) (session_pod_uid c)
        sb.status.checkpoint) [
          | inl e ↦
              let none_below : ck.parents ≡ [] = p ∙ ap (λ b. b.1) e in
              (inl none_below, rw none_below (omega arith))
          | inr (prev, e, b, same, short, named) ↦
              let chain : ck.parents ≡ prev.parents ++ prev.ref ∷ [] = p ∙ ap (λ x. x.1) b in
              (
                inr (
                  prev,
                  e,
                  chain,
                  same ∙ sym u,
                  d
                      ∙ ap drops (
                          superseded-diff (base_of c sb policy).0 sb.status.checkpoint
                            (ap (λ x. x.0 == "") b ∙ named)),
                ),
                rw chain (omega (arith, short, length-append prev.parents (prev.ref ∷ []))),
              )
        ]

  abbrev pub Told : List Call × SandboxStatus × Option Fault → Type 0
  Told (calls, st, e) =
      (saves calls ≡ false → (drops calls ≡ []) × (e ≢ none))
      × (e ≡ none
          → (ck : SandboxCheckpointStatus) × (st.checkpoint ≡ some ck)
            × (saves calls ≡ true)
            × (saved_refs calls ≡ ck.ref ∷ [])
            × (length ck.parents ≤ max_diff_chain)
            × Based calls ck)

  drops-more : (cs ds : List Call) → drops ds ≡ [] → drops (cs ++ ds) ≡ drops cs
  drops-more cs ds h = drops-append cs ds ∙ ap (λ l. drops cs ++ l) h ∙ append-nil (drops cs)

  saves-more : (cs ds : List Call) → saves cs ≡ true → saves (cs ++ ds) ≡ true
  saves-more cs ds h = rw (saves-append cs ds, h) refl

  saved_refs-more :
      (cs ds : List Call) (r : String)
      → saved_refs ds ≡ []
      → saved_refs cs ≡ r ∷ []
      → saved_refs (cs ++ ds) ≡ r ∷ []
  saved_refs-more cs ds r h k = rw (saved_refs-append cs ds, k, h) refl

  recorded-Told :
      (r : Run SandboxCheckpointStatus)
      → Course (session_pod_uid c) (base_of c sb policy) sb.status.checkpoint r
      → Told (recorded c sb policy r)
  unfolding recorded
  recorded-Told (l, err e) (q, inl (f, same, d, s)) = (λ n. (d, λ h. cc), λ h. absurd (cc))
  recorded-Told (l, err e) (q, inr (ck, same, s, v, d, p, u)) = absurd (cc)
  recorded-Told (l, ok ck) (q, inl (f, same, d, s)) = absurd (cc)
  recorded-Told (l, ok ck) (q, inr (new, same, s, v, d, p, u)) =
      let it : ck ≡ new = cc in
      let st = record (sb.status) { checkpoint = some ck } in
      let patched = patch_status sb.status st ∷ emit "SessionCheckpointTaken" ∷ [] in
      elim (Bool-cases c.checkpoint_patched) [
        | inl yes_patched ↦ rw yes_patched (
          λ n. absurd (let k = saves-more l patched s in cc),
          λ h.
              let (b, short) =
                based (l ++ patched) ck (drops-more l patched refl ∙ d) (ap (λ k. k.parents) it ∙ p)
                  (ap (λ k. k.pod_uid) it ∙ u) in
              (
                ck,
                refl,
                saves-more l patched s,
                saved_refs-more l patched ck.ref refl (rw (ap (λ k. k.ref) it) v),
                short,
                b,
              ),
        )
        | inr not_patched ↦ rw not_patched (
          λ n. absurd (let k = saves-more l (patch_status sb.status st ∷ []) s in cc),
          λ h. absurd (cc),
        )
      ]

  pub take_checkpoint-Based :
      (leave : Bool)
      → let (calls, st, e) = take_checkpoint c sb policy leave in
        (saves calls ≡ false → (drops calls ≡ []) × (e ≢ none))
        × (e ≡ none
            → (ck : SandboxCheckpointStatus) × (st.checkpoint ≡ some ck)
              × (saves calls ≡ true)
              × (saved_refs calls ≡ ck.ref ∷ [])
              × (length ck.parents ≤ max_diff_chain)
              × Based calls ck)
  unfolding take_checkpoint
  take_checkpoint-Based leave =
      recorded-Told (fresh_checkpoint c sb policy leave) (fresh_checkpoint-Course c sb policy leave)

  recorded-Quiet : (r : Run SandboxCheckpointStatus) → Quiet r.0 → Quiet (recorded c sb policy r).0
  unfolding recorded
  recorded-Quiet (l, err e) q = q
  recorded-Quiet (l, ok ck) q = elim (Bool-cases c.checkpoint_patched) [
    | inl e ↦ rw e (Quiet-append l _ q (refl, refl))
    | inr e ↦ rw e (Quiet-append l _ q (refl, refl))
  ]

  pub take_checkpoint-Quiet : (leave : Bool) → Quiet (take_checkpoint c sb policy leave).0
  unfolding take_checkpoint
  take_checkpoint-Quiet leave =
      recorded-Quiet (fresh_checkpoint c sb policy leave)
        (fresh_checkpoint-Course c sb policy leave).0

  recorded-started_at :
      (r : Run SandboxCheckpointStatus)
      → (recorded c sb policy r).1.started_at ≡ sb.status.started_at
  unfolding recorded
  recorded-started_at (l, err e) = refl
  recorded-started_at (l, ok ck) = elim (Bool-cases c.checkpoint_patched) [
    | inl e ↦ rw e refl
    | inr e ↦ rw e refl
  ]

  -- A checkpoint leaves the start of the session's machine as it was.
  pub take_checkpoint-started_at :
      (leave : Bool) → (take_checkpoint c sb policy leave).1.started_at ≡ sb.status.started_at
  unfolding take_checkpoint
  take_checkpoint-started_at leave = recorded-started_at (fresh_checkpoint c sb policy leave)
