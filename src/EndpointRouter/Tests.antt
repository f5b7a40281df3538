-- ===== src/EndpointRouter/Tests.antt =====
-- Endpoints "a" and "b", a factory that knows them, and one whose clients show another host.
use mctrader_data.Prelude.{◌+◌, String, ◌≡◌, refl, true, Option, none, some, str_eq, if◌then◌else◌}
use mctrader_data.EndpointRouter.{
  flipped, dual_write_grace_active, flip_blocked, Router, no_grace, no_file, corrupted,
  reload_grace_state, reload_endpoint, init, remaining_days, violates, start_grace, swap, flip,
  roll, rollback,
}
use mctrader_data.EndpointRouter.Atomic.{Flips, flip-Flips}
use mctrader_data.EndpointRouter.Rollback.{RollsBack, rollback-flip}

abbrev factory : String → Option String
factory e = if str_eq e "bad" then none else some e

abbrev host : String → Option String
host c = some c

abbrev elsewhere : String → Option String
elsewhere c = some "elsewhere"

abbrev router : Router String
router = record { env = "a"; endpoint_url = "a"; client = some "a"; grace = no_grace }

flip-Flips_example :
    Flips factory host "b" true 50 7 router
      (flip factory host "b" true 50 7 router)
      (flip factory host "b" true 50 7 router).0.status
flip-Flips_example = flip-Flips factory host "b" true 50 7 router

abbrev raises : String → Option String
raises e = none

rollback-flip_example :
    RollsBack factory raises host "b" true 50 7 router
      (rollback raises host "a" (flip factory host "b" true 50 7 router).1)
      (raises "a")
rollback-flip_example = rollback-flip factory raises host "b" true 50 7 router

-- A flip, a second one, one whose factory raises, one whose client is elsewhere; the grace mode after
-- a day and a half; the start with a file that is corrupted.
scenario :
    ((flip factory host "b" true 50 7 router).0.status ≡ flipped)
    × ((flip factory host "c" true 60 7 (flip factory host "b" true 50 7 router).1).0.status
        ≡ dual_write_grace_active)
    × ((flip factory host "bad" true 50 7 router).1 ≡ record router { env = "bad" })
    × ((flip factory elsewhere "b" true 50 7 router).0.status ≡ flip_blocked)
    × ((flip factory elsewhere "b" true 50 7 router).1.endpoint_url ≡ "b")
    × (remaining_days factory host
          (50 + 129600)
          (record { active = true; started_at = some 50; grace_days = 7 })
        ≡ 5)
    × ((init factory host "" corrupted).client ≡ none)
    × (init factory host "a" no_file ≡ router)
    × ((rollback factory host "bad" router).0.status ≡ flip_blocked)
unfolding flip swap violates start_grace remaining_days init reload_endpoint reload_grace_state
    rollback roll
scenario = (refl, refl, refl, refl, refl, refl, refl, refl, refl)
