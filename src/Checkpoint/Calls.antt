-- ===== src/Checkpoint/Calls.antt =====
-- What a list of calls loaded, dropped, saved and released; and what the steps other than a restore do.
use setec.Prelude.{
  ◌≡◌, ◌⊎◌, refl, ap, inl, inr, Bool, true, false, String, Option, none, some, List, [], ◌∷◌, ◌++◌,
  ◌||◌, string_eq,
}
use setec.Api.{SandboxStatus}
use setec.Checkpoint.{
  Write, done, moot, refused, Call, delete_pod, save, load, drop, patch_status, emit, ok, err, Run,
  ◌>>=◌,
}

-- The refs that were loaded.
abbrev pub loads : List Call → List String
loads [] = []
loads (load r ∷ cs) = r ∷ loads cs
loads (c ∷ cs) = loads cs

-- The refs that were dropped.
abbrev pub drops : List Call → List String
drops [] = []
drops (drop r ∷ cs) = r ∷ drops cs
drops (c ∷ cs) = drops cs

-- A checkpoint was saved.
abbrev pub saves : List Call → Bool
saves [] = false
saves (save seq leave parent (some ref) ∷ cs) = true
saves (c ∷ cs) = saves cs

-- The refs that were saved.
abbrev pub saved_refs : List Call → List String
saved_refs [] = []
saved_refs (save seq leave parent (some ref) ∷ cs) = ref ∷ saved_refs cs
saved_refs (c ∷ cs) = saved_refs cs

-- A Pod was deleted with its grace, so that its machine ends.
abbrev pub releases : List Call → Bool
releases [] = false
releases (delete_pod ∷ cs) = true
releases (c ∷ cs) = releases cs

-- The status that the last patch wrote.
abbrev pub written : List Call → Option SandboxStatus
written [] = none
written (patch_status from to ∷ cs) = elim (written cs) [ none ↦ some to | some s ↦ some s ]
written (c ∷ cs) = written cs

pub loads-append : (cs ds : List Call) → loads (cs ++ ds) ≡ loads cs ++ loads ds
loads-append [] ds = refl
loads-append (load r ∷ cs) ds = ap (λ l. r ∷ l) (loads-append cs ds)
loads-append (c ∷ cs) ds = loads-append cs ds

pub drops-append : (cs ds : List Call) → drops (cs ++ ds) ≡ drops cs ++ drops ds
drops-append [] ds = refl
drops-append (drop r ∷ cs) ds = ap (λ l. r ∷ l) (drops-append cs ds)
drops-append (c ∷ cs) ds = drops-append cs ds

pub saves-append : (cs ds : List Call) → saves (cs ++ ds) ≡ (saves cs || saves ds)
saves-append [] ds = refl
saves-append (save seq leave parent (some ref) ∷ cs) ds = refl
saves-append (c ∷ cs) ds = saves-append cs ds

pub saved_refs-append : (cs ds : List Call) → saved_refs (cs ++ ds) ≡ saved_refs cs ++ saved_refs ds
saved_refs-append [] ds = refl
saved_refs-append (save seq leave parent (some ref) ∷ cs) ds =
    ap (λ l. ref ∷ l) (saved_refs-append cs ds)
saved_refs-append (c ∷ cs) ds = saved_refs-append cs ds

pub releases-append : (cs ds : List Call) → releases (cs ++ ds) ≡ (releases cs || releases ds)
releases-append [] ds = refl
releases-append (delete_pod ∷ cs) ds = refl
releases-append (c ∷ cs) ds = releases-append cs ds

-- Calls that neither load a checkpoint nor end a machine.
abbrev pub Quiet : List Call → Type 0
Quiet cs = (loads cs ≡ []) × (releases cs ≡ false)

pub Quiet-append : (cs ds : List Call) → Quiet cs → Quiet ds → Quiet (cs ++ ds)
Quiet-append cs ds p q =
    (rw (loads-append cs ds, p.0, q.0) refl, rw (releases-append cs ds, p.1, q.1) refl)

-- A chain of steps does what its steps do.
pub bind-closed :
    {A B : Type 0} (P : List Call → Type 0)
    → ((cs ds : List Call) → P cs → P ds → P (cs ++ ds))
    → (m : Run A) (f : A → Run B) → P m.0
    → ((a : A) → m.1 ≡ ok a → P (f a).0)
    → P (m >>= f).0
bind-closed P closed (l, ok a) f p q = closed l (f a).0 p (q a refl)
bind-closed P closed (l, err e) f p q = p

pub bind-ok :
    {A B : Type 0} (m : Run A) (f : A → Run B) (b : B)
    → (m >>= f).1 ≡ ok b
    → (a : A) × (m.1 ≡ ok a) × ((f a).1 ≡ ok b) × ((m >>= f).0 ≡ m.0 ++ (f a).0)
bind-ok (l, ok a) f b h = (a, refl, h, refl)
bind-ok (l, err e) f b h = absurd (cc)

pub Write-cases : (w : Write) → (w ≡ done) ⊎ (w ≡ moot) ⊎ (w ≡ refused)
Write-cases done = inl refl
Write-cases moot = inr (inl refl)
Write-cases refused = inr (inr refl)

pub written-last :
    (cs : List Call) (from to : SandboxStatus) (event : String)
    → written (cs ++ patch_status from to ∷ emit event ∷ []) ≡ some to
written-last [] from to event = refl
written-last (patch_status f t ∷ cs) from to event = rw (written-last cs from to event) refl
written-last (c ∷ cs) from to event = written-last cs from to event

pub NoLoads-bind :
    {A B : Type 0} (m : Run A) (f : A → Run B)
    → loads m.0 ≡ []
    → ((a : A) → loads (f a).0 ≡ [])
    → loads (m >>= f).0 ≡ []
NoLoads-bind (l, ok a) f p q = rw (loads-append l (f a).0, p, q a) refl
NoLoads-bind (l, err e) f p q = p
