-- ===== src/Gate/Tests.antt =====
-- The gate on evidence without a reseed, and the theorems at that evidence.
use setec.Prelude.{◌≡◌, refl, true, false, some, [], ◌∷◌}
use setec.Api.Samples.{standard_class}
use setec.Gate.{uniquified, encrypted_at_rest, Evidence, evaluate, decide, Gate}
use setec.Gate.Safety.{Answer, decide-Answer}

abbrev not_reseeded : Evidence
not_reseeded = record {
  clean_base_ok = true;
  entropy_reseeded = false;
  identity_uniquified = true;
  single_session_ok = true;
  provenance_verified = true;
  encrypted_ok = false;
}

sorted : evaluate not_reseeded ≡ encrypted_at_rest ∷ uniquified ∷ []
unfolding evaluate
sorted = refl

abbrev dev_gate : Gate
dev_gate = record {
  reader = some (λ ns. some (("setec.zeroroot.ai/allow-dev-runtimes", "true") ∷ []));
  allow_dev_label = "";
  gate_namespace = "";
}

decide-Answer_example :
    Answer
      (some dev_gate)
      (some standard_class)
      not_reseeded
      (decide (some dev_gate) (some standard_class) not_reseeded).0
    × ((decide (some dev_gate) (some standard_class) not_reseeded).0.violations
        ≡ evaluate not_reseeded)
decide-Answer_example = decide-Answer (some dev_gate) (some standard_class) not_reseeded
