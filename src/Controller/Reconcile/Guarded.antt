-- ===== src/Controller/Reconcile/Guarded.antt =====
-- In a pass, a Pod comes behind its policies and its claim.
use setec.Prelude.{string_eq}
use setec.Api.{snapshot_phase_eq}
use setec.Controller.Quiet.{Guarded}
