-- ===== src/Tests/Server.antt =====
-- The theorems on servers, applied to a service that answers with the data of its request.
use endurox_java.Base.{
  ℕ, ◌≡◌, ◌⊎◌, refl, true, false, inl, inr, Option, none, some, List, [], ◌∷◌, arith, set_at,
  set_at_other, set_at-cases,
}
use endurox_java.Base.Bytes.{CString, codes}
use endurox_java.Buffers.{other_code, World, out_of_memory, translate}
use endurox_java.Buffers.Prepared.{OwnedWorld}
use endurox_java.Calls.Contract.{Sole}
use endurox_java.Calls.Return.{Taker, Takes, tpreturn, tpreturn-Owned}
use endurox_java.Calls.History.{begin, then_step, returned}
use endurox_java.Server.{ServiceCode, ServiceMap, Request, dispatch_call, Boot}
use endurox_java.Server.Dispatched.{Behaves, Unowned, dispatch_call_lem}
use endurox_java.Server.Booted.{given}
use endurox_java.Server.Unsolicited.{unsol_dispatcher, unsol_dispatcher_lem}
use endurox_java.Tests.Calls.{answers, first_world}

-- The library frees the buffer.
abbrev freeing : Taker
freeing buf len h = set_at h buf none

freeing-Takes : Takes freeing
freeing-Takes buf len h null = (
  elim (set_at-cases h buf none 0) [ inl (p, v) ↦ v | inr (ne, v) ↦ rw v null ],
  λ x ne. set_at_other h buf x none (λ e. ne (omega (arith, e))),
)

abbrev echo : ServiceCode
echo jdata w = tpreturn answers freeing jdata w

echo-Sole : (jdata : Option ℕ) (w : World) → OwnedWorld w → Sole w jdata → Sole (echo jdata w) jdata
echo-Sole none w owned sole = tt
echo-Sole (some i) w owned sole =
    let (kept, empty) = tpreturn-Owned answers (some i) w owned sole freeing freeing-Takes in
    let (null, off) = empty refl in λ j ne own p. own.1 (omega (arith, p, null))

echo-Behaves : Behaves echo
echo-Behaves jdata w owned sole = (
  then_step w (echo jdata w) begin (returned answers freeing jdata freeing-Takes sole),
  echo-Sole jdata w owned sole,
)

abbrev services : ServiceMap
services name = some echo

abbrev request : Request
request = record {
  name = codes "ECHO";
  buffer = 200;
  len = 5;
  client_made = true;
  info_made = true;
}

abbrev requested : World
requested = record first_world { heap = set_at first_world.heap 200 (some (codes "STRING")) }

requested-Owned : OwnedWorld requested
requested-Owned = record {
  null = refl;
  live = λ i own. cc (own.0);
  apart = λ i j ne own. cc (own.0);
}

requested-Unowned : Unowned requested 200
requested-Unowned j own = cc (own.0)

service_of : (s : ServiceCode) → some echo ≡ some s → Behaves s
service_of s e = let same : echo ≡ s = cc in rw (← same) echo-Behaves

dispatch_call_lem_example :
    let w' = dispatch_call answers freeing services request requested in
    OwnedWorld w'
    × (((true ≡ true) × (w'.ctx_set ≡ true) × (w'.pending ≡ none))
        ⊎ ((true ≡ false)
            × (w'.heap
                ≡ (translate true true (other_code 1) true 200 5 none false requested).1.heap)
            × (w'.pending ≡ some out_of_memory)))
dispatch_call_lem_example =
    dispatch_call_lem answers freeing freeing-Takes services request requested service_of
      requested-Owned requested-Unowned

abbrev arguments : List CString
arguments = codes "-k" ∷ codes "key" ∷ codes "-i" ∷ codes "1" ∷ []

abbrev boot : Boot
boot = record {
  known = true;
  nocheck = false;
  jargv = some (given arguments);
  calloc_ok = true;
  progname = codes "java";
  main_ok = true;
  main_err = none;
}

abbrev requested_in : World
requested_in = record requested { ctx_set = true }

unsol_dispatcher_lem_example :
    let w' = unsol_dispatcher answers true (some echo) 200 5 requested_in in
    OwnedWorld w' × (w'.pending ≡ none) × (w'.ctx_set ≡ true)
unsol_dispatcher_lem_example =
    unsol_dispatcher_lem answers true (some echo) 200 5 requested_in service_of requested-Owned
      requested-Unowned refl
