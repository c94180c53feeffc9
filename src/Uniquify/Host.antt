-- ===== src/Uniquify/Host.antt =====
-- internal/uniquify/host.go: the check of the guest's report, and what it accepts.
use setec.Prelude.{
  ℕ, ◌≡◌, ◌≢◌, ◌⊎◌, ◌↔◌, true, Option, none, some, List, ◌==◌, ◌!=◌, ◌&&◌, not, nat_eq, string_eq,
  contains, eq_iff, arith, if◌then◌else◌,
}
use setec.Uniquify.{Spec, Report, Codec, status_ok}

pub data VerifyError : Type 0 where
  guest_failed digest_mismatch machine_id_mismatch boot_id_mismatch hostname_mismatch : VerifyError
  pod_ip_missing cid_missing : VerifyError

-- `none` is a nil error.
unfoldable pub verify : Codec → Spec → List ℕ → Report → Option VerifyError
verify c spec raw_spec report =
    if report.status != status_ok
    then some guest_failed
    else if report.digest != c.digest_hex raw_spec
    then some digest_mismatch
    else if report.machine_id != spec.machine_id
    then some machine_id_mismatch
    else if report.boot_id != spec.boot_id
    then some boot_id_mismatch
    else if report.hostname != spec.hostname
    then some hostname_mismatch
    else if spec.pod_ip != "" && not (contains report.observed_ips spec.pod_ip)
    then some pod_ip_missing
    else if report.guest_cid == 0
    then some cid_missing
    else none

-- The report confirms the directive: the guest says that all of it applied, acknowledges the very
-- bytes that were sent, observes the directed identity, sees the Pod IP if there is one, and knows
-- its vsock address.
pub record Confirms (c : Codec) (spec : Spec) (raw_spec : List ℕ) (report : Report) : Type 0 where
  pub applied : report.status ≡ status_ok
  pub acked : report.digest ≡ c.digest_hex raw_spec
  pub same_machine : report.machine_id ≡ spec.machine_id
  pub same_boot : report.boot_id ≡ spec.boot_id
  pub same_hostname : report.hostname ≡ spec.hostname
  pub sees_ip : (spec.pod_ip ≡ "") ⊎ (contains report.observed_ips spec.pod_ip ≡ true)
  pub has_cid : report.guest_cid ≢ 0

module _ (c : Codec) (spec : Spec) (raw_spec : List ℕ) (report : Report) where
  verify-to : verify c spec raw_spec report ≡ none → Confirms c spec raw_spec report
  unfolding verify
  verify-to h = ground (
    arith,
    eq_iff report.digest (c.digest_hex raw_spec),
    eq_iff report.machine_id spec.machine_id,
    eq_iff report.boot_id spec.boot_id,
    eq_iff report.hostname spec.hostname,
    eq_iff spec.pod_ip "",
  )

  verify-from : Confirms c spec raw_spec report → verify c spec raw_spec report ≡ none
  unfolding verify
  verify-from h = ground (
    arith,
    eq_iff report.digest (c.digest_hex raw_spec),
    eq_iff report.machine_id spec.machine_id,
    eq_iff report.boot_id spec.boot_id,
    eq_iff report.hostname spec.hostname,
    eq_iff spec.pod_ip "",
  )

  -- Verify returns nil exactly when the report confirms every part of the directive.
  pub verify-none : (verify c spec raw_spec report ≡ none) ↔ Confirms c spec raw_spec report
  verify-none = (verify-to, verify-from)
