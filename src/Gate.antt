-- ===== src/Gate.antt =====
-- internal/snapshot/gate/gate.go: the invariant gate of snapshot restores, which fails closed, and its
-- dev-mode opt-out.
pub mod Safety
mod Tests
use Prim.Native.Nat.{Ordering}
use Prim.Native.String.{compare}
use setec.Prelude.{
  ℕ, Bool, true, false, String, Option, none, some, List, [], ◌∷◌, ◌++◌, ◌==◌, ◌||◌, ◌&&◌, not,
  string_eq, StringMap, value_at, if◌then◌else◌,
}
use setec.Api.{SandboxClass}

pub data Invariant : Type 0 where
  clean_base uniquified single_session provenance encrypted_at_rest : Invariant

-- The values of the constants, by which they are sorted.
abbrev pub text : Invariant → String
text clean_base = "clean-base"
text uniquified = "per-restore-uniquification"
text single_session = "one-session-then-destroy"
text provenance = "template-provenance"
text encrypted_at_rest = "encrypted-at-rest"

pub record Evidence : Type 0 where
  pub clean_base_ok : Bool
  pub entropy_reseeded : Bool
  pub identity_uniquified : Bool
  pub single_session_ok : Bool
  pub provenance_verified : Bool
  pub encrypted_ok : Bool

abbrev text_le : Invariant → Invariant → Bool
text_le a b = elim (compare (text a) (text b)) [ Ordering.gt ↦ false | _ ↦ true ]

-- slices.Sort.
abbrev insert : Invariant → List Invariant → List Invariant
insert a [] = a ∷ []
insert a (b ∷ l) = let rest = insert a l in if text_le a b then a ∷ b ∷ l else b ∷ rest

abbrev sort : List Invariant → List Invariant
sort [] = []
sort (a ∷ l) = insert a (sort l)

abbrev pub when : Bool → Invariant → List Invariant
when true a = a ∷ []
when false a = []

unfoldable pub evaluate : Evidence → List Invariant
evaluate ev = sort (
    when (not ev.clean_base_ok) clean_base
    ++ (when (not ev.entropy_reseeded || not ev.identity_uniquified) uniquified
        ++ (when (not ev.single_session_ok) single_session
            ++ (when (not ev.provenance_verified) provenance
                ++ when (not ev.encrypted_ok) encrypted_at_rest))))

pub record Decision : Type 0 where
  pub allowed : Bool
  pub violations : List Invariant
  pub dev_opt_out : Bool

-- The reader gets the labels of a namespace, or fails.
pub record Gate : Type 0 where
  pub reader : Option (String → Option StringMap)
  pub allow_dev_label : String
  pub gate_namespace : String

abbrev pub default_allow_dev_label : String
default_allow_dev_label = "setec.zeroroot.ai/allow-dev-runtimes"

abbrev pub default_gate_namespace : String
default_gate_namespace = "default"

abbrev or_default : String → String → String
or_default s d = if s == "" then d else s

abbrev allow_dev_label_of : Option Gate → String
allow_dev_label_of none = default_allow_dev_label
allow_dev_label_of (some g) = or_default g.allow_dev_label default_allow_dev_label

abbrev gate_namespace_of : Option Gate → String
gate_namespace_of none = default_gate_namespace
gate_namespace_of (some g) = or_default g.gate_namespace default_gate_namespace

unfoldable pub class_opts_out : {Q : Type 0} → Option (SandboxClass Q) → Bool
class_opts_out none = false
class_opts_out (some cls) =
    value_at cls.annotations "setec.zeroroot.ai/allow-unverified-restores" == "true"

-- The result and whether an error came with it.
label_read : String → Option StringMap → Bool × Bool
label_read key none = (false, true)
label_read key (some labels) = (value_at labels key == "true", false)

dev_mode_by : Option Gate → Option (String → Option StringMap) → Bool × Bool
unfolding label_read
dev_mode_by g none = (false, false)
dev_mode_by g (some reader) = label_read (allow_dev_label_of g) (reader (gate_namespace_of g))

unfoldable pub dev_mode_active : Option Gate → Bool × Bool
unfolding dev_mode_by
dev_mode_active none = (false, false)
dev_mode_active (some g) = dev_mode_by (some g) g.reader

decide_on : {Q : Type 0} → Option Gate → Option (SandboxClass Q) → List Invariant → Decision × Bool
decide_on g cls [] = (record { allowed = true; violations = []; dev_opt_out = false }, false)
decide_on g cls (v ∷ vs) =
    let refusal : Decision = record { allowed = false; violations = v ∷ vs; dev_opt_out = false } in
    if not (class_opts_out cls)
    then (refusal, false)
    else let (dev, failed) = dev_mode_active g in
      if failed || not dev
      then (refusal, failed)
      else (record { allowed = true; violations = v ∷ vs; dev_opt_out = true }, false)

-- The decision, and whether an error came with it.
unfoldable pub decide :
    {Q : Type 0} → Option Gate → Option (SandboxClass Q) → Evidence → Decision × Bool
unfolding decide_on
decide g cls ev = decide_on g cls (evaluate ev)
