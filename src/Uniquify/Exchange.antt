-- ===== src/Uniquify/Exchange.antt =====
-- The two ends together: `Uniquify` of internal/uniquify/host.go after the vsock handshake, and the
-- guest's ServeConn on what it sends.
use setec.Prelude.{
  ℕ, ◌≡◌, ◌⊎◌, inl, inr, ◌∙◌, Bool, Option, none, some, Option-cases, length, ◌<◌, ◌≤◌, List, [],
  nat_eq, string_eq, arith,
}
use setec.Uniquify.{
  Spec, Report, Codec, Result, ok, err, Error, max_frame_bytes, write_frame, spec_magic,
  report_magic, write_spec, read_spec, write_report, read_report,
}
use setec.Uniquify.Frame.{read_frame-alone, write_frame-fits}
use setec.Uniquify.Host.{verify, VerifyError, Confirms, verify-none}
use setec.Uniquify.Guest.{Appliers, apply, serve_conn, Adopted}

-- How `Uniquify` ends: the report that passed, an error of a message, or a report that Verify refused.
pub data Outcome : Type 0 where
  confirmed : Report → Outcome
  refused : Report → VerifyError → Outcome
  broken : Error → Outcome

verdict : Report → Option VerifyError → Outcome
verdict report none = confirmed report
verdict report (some e) = refused report e

judge : Codec → Spec → List ℕ → Result Report → Outcome
unfolding verdict
judge c spec raw (err e) = broken e
judge c spec raw (ok report) = verdict report (verify c spec raw report)

-- The exchange of `Uniquify` against a peer that answers the bytes it is sent.
unfoldable pub uniquify : Codec → Spec → (List ℕ → List ℕ) → Outcome
unfolding judge
uniquify c spec peer = elim (write_spec c spec) [
  | err e ↦ broken e
  | ok (out, raw) ↦ judge c spec raw (read_report c (peer out))
]

module _ (c : Codec) (spec : Spec) where
  confirmed-Confirms :
      (raw : List ℕ) (answer : Result Report) (report : Report)
      → judge c spec raw answer ≡ confirmed report
      → verify c spec raw report ≡ none
  unfolding judge
  confirmed-Confirms raw answer report h = ground arith

  -- Whatever the peer answers, `Uniquify` succeeds only with a report that confirms the directive and
  -- acknowledges the very bytes that the host sent.
  pub uniquify-Confirms :
      (peer : List ℕ → List ℕ) (report : Report)
      → uniquify c spec peer ≡ confirmed report
      → Confirms c spec (c.marshal_spec spec) report
  unfolding uniquify write_spec
  uniquify-Confirms peer report h =
      (verify-none c spec (c.marshal_spec spec) report).0
        (ground (arith, confirmed-Confirms (c.marshal_spec spec)))

-- What a peer that runs the guest's handler answers; nothing if the handler could not answer.
replied : Result (List ℕ × Bool) → List ℕ
replied (err e) = []
replied (ok (w, done)) = w

module _ {G : Type 0} (a : Appliers G) (c : Codec) (spec : Spec) (g : G) where
  unfoldable pub guest_peer : List ℕ → List ℕ
  unfolding replied
  guest_peer input = replied (serve_conn a c input g).0

  -- The report that the guest makes of the directive.
  abbrev pub guest_report : Report
  guest_report = record (apply a spec g).0 { digest = c.digest_hex (c.marshal_spec spec) }

  Adopted-to : Confirms c spec (c.marshal_spec spec) guest_report → Adopted a spec g
  unfolding apply
  Adopted-to h = ground arith

  Adopted-from : Adopted a spec g → Confirms c spec (c.marshal_spec spec) guest_report
  unfolding apply
  Adopted-from h = ground arith

  -- The JSON of the two messages decodes to them.
  module _ (spec_back : c.unmarshal_spec (c.marshal_spec spec) ≡ some spec)
      (report_back : c.unmarshal_report (c.marshal_report guest_report) ≡ some guest_report) where
    read-write_spec :
        (w : List ℕ)
        → write_frame spec_magic (c.marshal_spec spec) ≡ ok w
        → read_spec c w ≡ ok (spec, c.marshal_spec spec)
    unfolding read_spec
    read-write_spec w h = simp (read_frame-alone spec_magic (c.marshal_spec spec) w h, spec_back)

    read-write_report :
        (w : List ℕ) → write_report c guest_report ≡ ok w → read_report c w ≡ ok guest_report
    unfolding read_report write_report
    read-write_report w h =
        simp (read_frame-alone report_magic (c.marshal_report guest_report) w h, report_back)

    peer_answer :
        (ws wr : List ℕ)
        → write_frame spec_magic (c.marshal_spec spec) ≡ ok ws
        → write_report c guest_report ≡ ok wr
        → guest_peer ws ≡ wr
    unfolding guest_peer serve_conn
    peer_answer ws wr hs hr = ground (arith, read-write_spec ws hs)

    -- With a spec and a report that fit their frames, the host's verdict is Verify's on the report.
    verdict-guest :
        (ws wr : List ℕ)
        → write_frame spec_magic (c.marshal_spec spec) ≡ ok ws
        → write_report c guest_report ≡ ok wr
        → uniquify c spec guest_peer
          ≡ verdict guest_report (verify c spec (c.marshal_spec spec) guest_report)
    unfolding uniquify write_spec
    verdict-guest ws wr hs hr = ground (arith, peer_answer ws wr hs hr, read-write_report wr hr)

    -- Against the guest's own handler, when the JSON of the directive and of the report fit a frame and
    -- decode to themselves: the host succeeds with the guest's report if the guest adopted the
    -- directive, and refuses that report otherwise.
    pub uniquify-guest_peer :
        0 < length (c.marshal_spec spec)
        → length (c.marshal_spec spec) ≤ max_frame_bytes
        → 0 < length (c.marshal_report guest_report)
        → length (c.marshal_report guest_report) ≤ max_frame_bytes
        → (Adopted a spec g × (uniquify c spec guest_peer ≡ confirmed guest_report))
          ⊎ ((¬ Adopted a spec g)
              × ((e : VerifyError) × (uniquify c spec guest_peer ≡ refused guest_report e)))
    unfolding verdict
    uniquify-guest_peer p q r s =
        let (ws, hs) = write_frame-fits spec_magic (c.marshal_spec spec) p q in
        let (wr, hr) = write_frame-fits report_magic (c.marshal_report guest_report) r s in
        let same = verdict-guest ws wr hs (unfold write_report in hr) in
        let v = verify-none c spec (c.marshal_spec spec) guest_report in
        elim (Option-cases (verify c spec (c.marshal_spec spec) guest_report)) [
          | inl e ↦ inl (Adopted-to (v.0 e), same ∙ rw e)
          | inr (x, e) ↦ inr ((λ h. cc (v.1 (Adopted-from h), e)), (x, same ∙ rw e))
        ]
