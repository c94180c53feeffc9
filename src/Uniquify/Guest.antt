-- ===== src/Uniquify/Guest.antt =====
-- internal/uniquify/guest.go: the handler in the guest. `G` is the state of the guest's system, and
-- the appliers are the interfaces IdentityApplier, NetworkReconciler and CIDReporter: each call
-- returns its error text, if any, and the new state.
use Prim.Native.String.{◌++◌ as join}
use setec.Prelude.{
  ℕ, ◌≡◌, ◌≢◌, ◌⊎◌, String, Bool, true, Option, none, some, List, [], ◌==◌, nat_eq, string_eq,
  contains, if◌then◌else◌,
}
use setec.Uniquify.{
  Spec, Report, Codec, Result, ok, err, ◌>>=◌, status_ok, status_error, read_spec, write_report,
}

-- What Read returns: the three names, and the error.
pub record Identity : Type 0 where
  pub machine_id : String
  pub boot_id : String
  pub hostname : String
  pub failed : Option String

pub record Appliers (G : Type 0) : Type 0 where
  pub apply_machine_id : String → G → Option String × G
  pub apply_boot_id : String → G → Option String × G
  pub apply_hostname : String → G → Option String × G
  pub reconcile : String → G → (List String × Option String) × G
  pub read : G → Identity
  pub local_cid : G → ℕ × Option String

-- The closure `fail`: the status becomes an error, and the texts are joined.
add_failure : String → Option String → Report → Report
add_failure label none report = report
add_failure label (some text) report = record report {
  status = status_error;
  error_text =
      if report.error_text == ""
      then join label text
      else join report.error_text (join "; " (join label text));
}

abbrev blank_report : Report
blank_report = record {
  status = status_ok;
  error_text = "";
  digest = "";
  machine_id = "";
  boot_id = "";
  hostname = "";
  observed_ips = [];
  guest_cid = 0;
}

module _ {G : Type 0} (a : Appliers G) where
  -- The states after the three names, and after the network too.
  abbrev pub named_state : Spec → G → G
  named_state spec g0 =
      let g1 = (a.apply_machine_id spec.machine_id g0).1 in
      let g2 = (a.apply_boot_id spec.boot_id g1).1 in (a.apply_hostname spec.hostname g2).1

  abbrev pub final_state : Spec → G → G
  final_state spec g0 = (a.reconcile spec.pod_ip (named_state spec g0)).1

  -- Every directive is tried, in the source's order, whatever failed before.
  unfoldable pub apply : Spec → G → Report × G
  unfolding add_failure
  apply spec g0 =
      let (e1, g1) = a.apply_machine_id spec.machine_id g0 in
      let (e2, g2) = a.apply_boot_id spec.boot_id g1 in
      let (e3, g3) = a.apply_hostname spec.hostname g2 in
      let (net, g4) = a.reconcile spec.pod_ip g3 in
      let seen = a.read g4 in
      let (cid, e6) = a.local_cid g4 in
      let r1 = add_failure "machine-id: " e1 blank_report in
      let r2 = add_failure "boot-id: " e2 r1 in
      let r3 = add_failure "hostname: " e3 r2 in
      let r4 = record (add_failure "network: " net.1 r3) { observed_ips = net.0 } in
      let r5 = record (add_failure "read identity: " seen.failed r4) {
        machine_id = seen.machine_id;
        boot_id = seen.boot_id;
        hostname = seen.hostname;
      } in
      (record (add_failure "local cid: " e6 r5) { guest_cid = cid }, g4)

  -- ServeConn on the bytes of one connection: what is written back and whether it returned nil, or
  -- the error that ended it; and the new state of the guest.
  unfoldable pub serve_conn : Codec → List ℕ → G → Result (List ℕ × Bool) × G
  serve_conn c input g = elim (read_spec c input) [
    | err e ↦ (err e, g)
    | ok (spec, raw) ↦
        let (report, g') = apply spec g in
        let reply = write_report c (record report { digest = c.digest_hex raw }) in
        ((do w ← reply; ok (w, report.status == status_ok)), g')
  ]

  -- The guest adopted the directive: no step failed, and what it observes afterwards is the directed
  -- identity, with the Pod IP if there is one and a vsock address.
  pub record Adopted (spec : Spec) (g0 : G) : Type 0 where
    pub machine_id_ok : (a.apply_machine_id spec.machine_id g0).0 ≡ none
    pub boot_id_ok :
        (a.apply_boot_id spec.boot_id (a.apply_machine_id spec.machine_id g0).1).0 ≡ none
    pub hostname_ok :
        (a.apply_hostname spec.hostname
          (a.apply_boot_id spec.boot_id (a.apply_machine_id spec.machine_id g0).1).1).0
        ≡ none
    pub network_ok : (a.reconcile spec.pod_ip (named_state spec g0)).0.1 ≡ none
    pub read_ok : (a.read (final_state spec g0)).failed ≡ none
    pub cid_ok : (a.local_cid (final_state spec g0)).1 ≡ none
    pub same_machine : (a.read (final_state spec g0)).machine_id ≡ spec.machine_id
    pub same_boot : (a.read (final_state spec g0)).boot_id ≡ spec.boot_id
    pub same_hostname : (a.read (final_state spec g0)).hostname ≡ spec.hostname
    pub sees_ip :
        (spec.pod_ip ≡ "")
        ⊎ (contains (a.reconcile spec.pod_ip (named_state spec g0)).0.0 spec.pod_ip ≡ true)
    pub has_cid : (a.local_cid (final_state spec g0)).0 ≢ 0
