-- ===== src/Pseudosettle/Tests.antt =====
-- The theorems on settlement by time at concrete runs (pkg/settlement/pseudosettle/pseudosettle.go).
use sana.Common.{◌≡◌, refl, true, false, Option, none, some, [], ◌∷◌, arith}
use sana.Common.Int.{pos, ◌-ℤ◌, ◌*ℤ◌}
use sana.Common.Word.{wrap64}
use sana.Pseudosettle.State.{
  LastPayment, ok, Request, handler, peer_allowance, Exchange, pay, or_new, out_of_sync,
}
use sana.Pseudosettle.Granting.{Fair, handler-Fair}
use sana.Pseudosettle.Limits.{Within, told, serve, serve-Within}
use sana.Pseudosettle.Paying.{pay-handler}

abbrev before : Option LastPayment
before = some (record { timestamp = pos 100; check_timestamp = pos 100; total = pos 40 })

abbrev request : Request
request = record {
  read_fails = false;
  amount = 70;
  known = true;
  load_fails = false;
  now = pos 110;
  debt = some (pos 80);
  write_fails = false;
  reload_fails = false;
  save_fails = false;
  notify_fails = false;
}

abbrev later_request : Request
later_request = record request { now = pos 112; save_fails = true }

abbrev exchange : Exchange
exchange = record {
  load_fails = false;
  now = pos 109;
  stream_fails = false;
  write_fails = false;
  check_time = pos 110;
  answer = some (50, pos 110);
  save_fails = false;
}

handler-Fair_example :
    Fair
      (pos 5)
      request
      before
      (handler (pos 5) request before).ack
      (handler (pos 5) request before)
handler-Fair_example = handler-Fair (pos 5) request before

serve-Within_example :
    Within 5
      (told (pos 5) (request ∷ later_request ∷ []) none)
      (serve (pos 5) (request ∷ later_request ∷ []) none)
serve-Within_example =
    serve-Within 5 (request ∷ later_request ∷ [])
      (110, refl, omega arith, omega arith, (112, refl, omega arith, omega arith, tt))

-- Ten seconds at a rate of 5 are less than the request and the debt.
granted_fifty : (handler (pos 5) request before).ack ≡ some (pos 50, pos 110)
unfolding handler peer_allowance wrap64 ◌*ℤ◌ ◌-ℤ◌
granted_fifty = refl

in_sync : out_of_sync (or_new before) (pos 110) (pos 110) ≡ false
unfolding wrap64 ◌-ℤ◌
in_sync = refl

pay-handler_example : (pay (pos 5) (pos 70) (pos 60) exchange before).0 ≡ ok (pos 50, pos 110)
pay-handler_example =
    pay-handler (pos 5) (pos 60) (pos 80) request exchange before before 50 granted_fifty refl
      (omega arith) refl refl in_sync (refl, refl, refl, refl, refl)
