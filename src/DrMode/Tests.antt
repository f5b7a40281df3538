-- ===== src/DrMode/Tests.antt =====
-- Three failures in a row open the breaker, and ten ticks of the clock later it may be tried again.
use mctrader_data.Prelude.{◌≡◌, refl, false, none, some, [], arith}
use mctrader_data.DrMode.{
  closed, opened, half_open, unknown_tier, DrMode, DrThresholds, dr_init, same_state, enter,
  transition, try_half_open, current_state, add_sample, record_success, prune, is_server_error,
  is_slow, check_window, check_thresholds, record_failure, set_mode,
}
use mctrader_data.DrMode.Moves.{Move, asks, react, react-Move}
use mctrader_data.DrMode.Recovery.{recovers}

abbrev limits : DrThresholds
limits = record {
  consecutive_failure = 3;
  sliding_window = 60;
  error_count = 5;
  latency_p99 = 500;
  latency_count = 2;
  half_open_delay = 10;
}

abbrev fresh : DrMode
fresh = record {
  thresholds = limits;
  state = closed;
  consecutive_failure = 0;
  window = [];
  open_started_at = none;
  override_active = false;
  transition_count = 0;
  ambiguity_count = 0;
}

abbrev tripped : DrMode
tripped = record fresh { state = opened; open_started_at = some 5 }

react-Move_example : Move opened (react (asks 15) tripped).state
react-Move_example = react-Move (asks 15) tripped

recovers_example :
    ((current_state 15 tripped).0 ≡ half_open)
    × ((record_success 16 (current_state 15 tripped).1).state ≡ closed)
    × ((record_success 16 (current_state 15 tripped).1).consecutive_failure ≡ 0)
    × ((record_success 16 (current_state 15 tripped).1).open_started_at ≡ none)
recovers_example = recovers 5 15 16 tripped refl refl (omega arith)

-- Two slow answers open it before the third failure; old samples do not count; an override is a
-- state like the others.
scenario :
    ((record_failure 2 404 600 (record_failure 1 404 600 (dr_init limits))).state ≡ opened)
    × ((record_failure 99 404 600 (record_failure 1 404 600 (dr_init limits))).state ≡ closed)
    × ((set_mode 3 unknown_tier fresh).ambiguity_count ≡ 1)
    × ((current_state 14 tripped).0 ≡ opened)
unfolding record_failure add_sample check_thresholds check_window prune is_server_error is_slow
    transition enter same_state set_mode current_state try_half_open dr_init
scenario = (refl, refl, refl, refl)
