-- ===== src/Uniquify/Tests.antt =====
-- Runs of the protocol on small inputs, and the theorems at inputs.
use setec.Prelude.{ℕ, ◌≡◌, ◌⊎◌, refl, none, some, List, [], ◌∷◌, ◌++◌, arith}
use setec.Uniquify.{
  Spec, Report, Codec, Result, ok, err, write_frame, read_frame, spec_magic, report_magic,
  bad_magic, frame_bytes,
}
use setec.Uniquify.Frame.{read_frame-write_frame}
use setec.Uniquify.Host.{verify, VerifyError, Confirms}
use setec.Uniquify.Guest.{Identity, Appliers, Adopted, apply}
use setec.Uniquify.Exchange.{
  confirmed, refused, uniquify, uniquify-Confirms, guest_peer, guest_report, uniquify-guest_peer,
}
use setec.Uniquify.Hostname.{sanitize_hostname, IsHostname, sanitize_hostname-IsHostname}

abbrev small_frame : List ℕ
small_frame = b'S' ∷ b'U' ∷ b'N' ∷ b'Q' ∷ 1 ∷ 0 ∷ 0 ∷ 0 ∷ 2 ∷ 7 ∷ 8 ∷ []

small_frame_written : write_frame spec_magic (7 ∷ 8 ∷ []) ≡ ok small_frame
unfolding write_frame
small_frame_written = refl

wrong_magic : read_frame report_magic small_frame ≡ err bad_magic
unfolding read_frame setec.Wire.read_full
wrong_magic = refl

small_frame_again : read_frame spec_magic (small_frame ++ (9 ∷ [])) ≡ ok (7 ∷ 8 ∷ [], 9 ∷ [])
small_frame_again =
    read_frame-write_frame spec_magic (7 ∷ 8 ∷ []) small_frame (9 ∷ []) small_frame_written

-- A guest whose state is its identity and that takes every directive.
abbrev obedient : Appliers Identity
obedient = record {
  apply_machine_id = λ id g. (none, record g { machine_id = id });
  apply_boot_id = λ id g. (none, record g { boot_id = id });
  apply_hostname = λ name g. (none, record g { hostname = name });
  reconcile = λ ip g. ((ip ∷ [], none), g);
  read = λ g. g;
  local_cid = λ g. (3, none);
}

abbrev old_identity : Identity
old_identity = record { machine_id = "0"; boot_id = "0"; hostname = "old"; failed = none }

abbrev new_spec : Spec
new_spec = record { machine_id = "a1"; boot_id = "b2"; hostname = "worker"; pod_ip = "10.0.0.7" }

abbrev adopted_report : Report
adopted_report = record {
  status = 0;
  error_text = "";
  digest = "d";
  machine_id = "a1";
  boot_id = "b2";
  hostname = "worker";
  observed_ips = "10.0.0.7" ∷ [];
  guest_cid = 3;
}

-- A codec that serves for these two messages.
abbrev toy_codec : Codec
toy_codec = record {
  marshal_spec = λ s. 1 ∷ [];
  unmarshal_spec = λ b. some new_spec;
  marshal_report = λ r. 2 ∷ [];
  unmarshal_report = λ b. some adopted_report;
  digest_hex = λ b. "d";
}

reported : guest_report obedient toy_codec new_spec old_identity ≡ adopted_report
unfolding apply
reported = refl

uniquify-guest_peer_example :
    (Adopted obedient new_spec old_identity
      × (uniquify toy_codec new_spec (guest_peer obedient toy_codec new_spec old_identity)
          ≡ confirmed (guest_report obedient toy_codec new_spec old_identity)))
    ⊎ ((¬ Adopted obedient new_spec old_identity)
        × ((e : VerifyError) × (uniquify toy_codec new_spec
                (guest_peer obedient toy_codec new_spec old_identity)
              ≡ refused (guest_report obedient toy_codec new_spec old_identity) e)))
unfolding apply
uniquify-guest_peer_example =
    uniquify-guest_peer obedient toy_codec new_spec old_identity refl refl (omega arith)
      (omega arith) (omega arith) (omega arith)

uniquify-Confirms_example : Confirms toy_codec new_spec (1 ∷ []) adopted_report
unfolding uniquify setec.Uniquify.write_spec setec.Uniquify.read_report write_frame read_frame
    setec.Wire.read_full verify
uniquify-Confirms_example =
    uniquify-Confirms toy_codec new_spec
      (λ out. b'S' ∷ b'U' ∷ b'N' ∷ b'A' ∷ 1 ∷ 0 ∷ 0 ∷ 0 ∷ 1 ∷ 2 ∷ []) adopted_report refl

sanitize_hostname-IsHostname_example :
    IsHostname (sanitize_hostname (λ c. c) (b'-' ∷ b'a' ∷ b'.' ∷ []))
sanitize_hostname-IsHostname_example =
    sanitize_hostname-IsHostname (λ c. c) (b'-' ∷ b'a' ∷ b'.' ∷ [])

sanitized : sanitize_hostname (λ c. c) (b'-' ∷ b'a' ∷ b'.' ∷ b'b' ∷ []) ≡ b'a' ∷ b'-' ∷ b'b' ∷ []
unfolding sanitize_hostname
sanitized = refl
