-- ===== src/Tests/System.antt =====
-- A run of deliveries and a visit.
use sambung.Common.{◌≤◌, true, [], ◌∷◌}
use sambung.Db.Overlap.{IsConsistent, occupants}
use sambung.Payments.Webhook.Emits.{times}
use sambung.System.{Run, start, next, delivery}
use sambung.System.Consistent.{Run-occupants}
use sambung.System.Notified.{Run-times}
use sambung.Payments.{key_of, GatewayCredential, ParsedPaymentEvent}
use sambung.Payments.Webhook.{handle}
use sambung.Tests.Data.{tables-IsConsistent}
use sambung.Tests.Payments.{awaiting, gateway, paid_in, settled_tables}

awaiting-IsConsistent : IsConsistent awaiting
awaiting-IsConsistent = record {
  unique_ids = tables-IsConsistent.unique_ids;
  no_overlap = tables-IsConsistent.no_overlap;
  own_units = tables-IsConsistent.own_units;
}

-- The settlement arrives twice.
twice :
    Run (GatewayCredential × ParsedPaymentEvent) (λ url. true) awaiting (101 ∷ []) settled_tables
unfolding handle
twice =
    next (next start (delivery gateway "midtrans" (key_of 7, paid_in)))
      (delivery gateway "midtrans" (key_of 7, paid_in))

Run-occupants_example : occupants 10 104 settled_tables.bookings ≤ 1
Run-occupants_example = Run-occupants (λ url. true) 10 104 awaiting-IsConsistent twice

Run-times_example : times 101 (101 ∷ []) ≤ 1
Run-times_example = Run-times (λ url. true) 101 awaiting-IsConsistent twice
