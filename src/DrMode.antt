-- ===== src/DrMode.antt =====
-- src/mctrader_data/io/dr_mode.py: DRMode, the circuit breaker of the readers, each operation under
-- its lock and with one reading of the clock. Times and latencies are whole numbers of one unit.
-- The gauges and counters of Prometheus repeat the state and are left out.
mod Moves
mod Recovery
mod Tests
use mctrader_data.Prelude.{
  ℕ, suc, ◌+◌, ◌-◌, Bool, true, false, ◌&&◌, not, Option, none, some, List, [], ◌∷◌, ◌++◌, ltb, leb,
  if◌then◌else◌,
}
use mctrader_data.Prelude.Sort.{count}

pub data DrState : Type 0 where
  closed opened half_open unknown_tier : DrState

pub record DrThresholds : Type 0 where
  pub consecutive_failure : ℕ
  pub sliding_window : ℕ
  pub error_count : ℕ
  pub latency_p99 : ℕ
  pub latency_count : ℕ
  pub half_open_delay : ℕ

pub record Sample : Type 0 where
  pub at : ℕ
  pub succeeded : Bool
  pub status_code : ℕ
  pub latency : ℕ

pub record DrMode : Type 0 where
  pub thresholds : DrThresholds
  pub state : DrState
  pub consecutive_failure : ℕ
  pub window : List Sample
  pub open_started_at : Option ℕ
  pub override_active : Bool
  pub transition_count : ℕ
  pub ambiguity_count : ℕ

pub dr_init : DrThresholds → DrMode
dr_init thresholds = record {
  thresholds = thresholds;
  state = closed;
  consecutive_failure = 0;
  window = [];
  open_started_at = none;
  override_active = false;
  transition_count = 0;
  ambiguity_count = 0;
}

pub same_state : DrState → DrState → Bool
same_state closed closed = true
same_state opened opened = true
same_state half_open half_open = true
same_state unknown_tier unknown_tier = true
same_state s t = false

pub enter : ℕ → DrState → DrMode → DrMode
enter now closed m = record m { open_started_at = none; consecutive_failure = 0 }
enter now opened m = record m { open_started_at = some now }
enter now half_open m = m
enter now unknown_tier m = m

pub transition : ℕ → DrState → DrMode → DrMode
transition now new_state m =
    if same_state m.state new_state
    then m
    else enter now new_state
        (record m { state = new_state; transition_count = m.transition_count + 1 })

pub try_half_open : ℕ → DrMode → DrMode
try_half_open now m = elim m.open_started_at [
  | none ↦ m
  | some started ↦
      if same_state m.state opened && leb m.thresholds.half_open_delay (now - started)
      then transition now half_open m
      else m
]

pub current_state : ℕ → DrMode → DrState × DrMode
current_state now m = let m' = try_half_open now m in (m'.state, m')

pub add_sample : ℕ → Bool → ℕ → ℕ → DrMode → DrMode
add_sample now ok status latency m = record m {
  window =
      m.window ++ record { at = now; succeeded = ok; status_code = status; latency = latency } ∷ [];
}

pub record_success : ℕ → DrMode → DrMode
record_success now m =
    let m' = record (add_sample now true 200 0 m) { consecutive_failure = 0 } in
    if same_state m.state half_open then transition now closed m' else m'

-- The entries that are older than the window go, from the left.
pub prune : ℕ → ℕ → List Sample → List Sample
prune now width [] = []
prune now width (s ∷ rest) =
    let left = prune now width rest in if ltb (s.at + width) now then left else s ∷ rest

pub is_server_error : Sample → Bool
is_server_error s = not s.succeeded && (leb 500 s.status_code && ltb s.status_code 600)

pub is_slow : ℕ → Sample → Bool
is_slow limit s = ltb limit s.latency

pub check_window : ℕ → DrMode → DrMode
check_window now m =
    if leb m.thresholds.error_count (count is_server_error m.window)
    then transition now opened m
    else if leb m.thresholds.latency_count (count (is_slow m.thresholds.latency_p99) m.window)
    then transition now opened m
    else m

pub check_thresholds : ℕ → DrMode → DrMode
check_thresholds now m =
    if leb m.thresholds.consecutive_failure m.consecutive_failure
    then transition now opened m
    else check_window now (record m { window = prune now m.thresholds.sliding_window m.window })

pub record_failure : ℕ → ℕ → ℕ → DrMode → DrMode
record_failure now status latency m =
    let m' = record (add_sample now false status latency m) {
      consecutive_failure = m.consecutive_failure + 1;
    } in
    if same_state m.state half_open
    then transition now opened m'
    else if same_state m.state closed
    then check_thresholds now m'
    else m'

pub set_mode : ℕ → DrState → DrMode → DrMode
set_mode now s m = record m {
  state = s;
  override_active = true;
  ambiguity_count = if same_state s unknown_tier then m.ambiguity_count + 1 else m.ambiguity_count;
  open_started_at = if same_state s opened then some now else m.open_started_at;
}
