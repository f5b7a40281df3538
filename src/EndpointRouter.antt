-- ===== src/EndpointRouter.antt =====
-- src/mctrader_data/io/endpoint_router.py: EndpointRouter, with the environment variable that it
-- writes. The factory of clients is a parameter of each call: it raises, or it gives a client of a
-- type of its own, whose host, if it shows one, is a parameter too. Times are whole seconds, a text
-- that is no time is `none`, and the file of the grace mode is what yaml and the conversions make of it. Durations are left out.
mod Atomic
mod Grace
mod Rollback
mod Tests
use mctrader_data.Prelude.{
  ℕ, ◌+◌, ◌-◌, ◌*◌, ◌/◌, String, Bool, true, false, ◌&&◌, not, Option, none, some, str_eq,
  if◌then◌else◌,
}

pub data FlipStatus : Type 0 where
  flipped dual_write_grace_active flip_blocked : FlipStatus

pub record FlipResult : Type 0 where
  pub status : FlipStatus
  pub new_endpoint : String
  pub previous_endpoint : String
  pub grace_remaining : ℕ

-- The time of `started_at_iso`, if there is one.
pub record GraceModeState : Type 0 where
  pub active : Bool
  pub started_at : Option ℕ
  pub grace_days : ℕ

-- The attributes, and os.environ[MINIO_ENDPOINT], with "" for a variable that is not set.
pub record Router (C : Type 0) : Type 0 where
  pub env : String
  pub endpoint_url : String
  pub client : Option C
  pub grace : GraceModeState

abbrev pub no_grace : GraceModeState
no_grace = record { active = false; started_at = none; grace_days = 7 }

-- The file: not there, not a mapping or not understood, or the fields.
pub data GraceFile : Type 0 where
  no_file corrupted : GraceFile
  mapping : GraceModeState → GraceFile

pub reload_grace_state : GraceFile → GraceModeState
reload_grace_state no_file = no_grace
reload_grace_state corrupted = no_grace
reload_grace_state (mapping g) = g

module _ {C : Type 0} (factory : String → Option C) (host : C → Option String) where
  -- `_reload_endpoint`: the client is None without an endpoint, and when the factory raises.
  pub reload_endpoint : String → Option C
  reload_endpoint env = if str_eq env "" then none else factory env

  pub init : String → GraceFile → Router C
  init env file = record {
    env = env;
    endpoint_url = env;
    client = reload_endpoint env;
    grace = reload_grace_state file;
  }

  pub remaining_days : ℕ → GraceModeState → ℕ
  remaining_days now g =
      if g.active
      then elim g.started_at [ none ↦ 0 | some at ↦ (at + g.grace_days * 86400 - now) / 86400 ]
      else 0

  -- The client shows a host, and it is another one.
  pub violates : String → Option String → Bool
  violates new_endpoint none = false
  violates new_endpoint (some shown) = not (str_eq shown "") && not (str_eq shown new_endpoint)

  pub start_grace : Bool → ℕ → ℕ → GraceModeState → GraceModeState
  start_grace activate now days g =
      if activate then record { active = true; started_at = some now; grace_days = days } else g

  -- The environment is written first; then the client is made.
  pub swap : String → Bool → ℕ → ℕ → Router C → Option C → FlipResult × Router C
  swap new_endpoint activate now days r none = (
    record {
      status = flip_blocked;
      new_endpoint = new_endpoint;
      previous_endpoint = r.endpoint_url;
      grace_remaining = 0;
    },
    record r { env = new_endpoint },
  )
  swap new_endpoint activate now days r (some client) =
      if violates new_endpoint (host client)
      then (
        record {
          status = flip_blocked;
          new_endpoint = new_endpoint;
          previous_endpoint = r.endpoint_url;
          grace_remaining = 0;
        },
        record r { env = new_endpoint; client = some client; endpoint_url = new_endpoint },
      )
      else (
        record {
          status = flipped;
          new_endpoint = new_endpoint;
          previous_endpoint = r.endpoint_url;
          grace_remaining = if activate then days else 0;
        },
        record {
          env = new_endpoint;
          client = some client;
          endpoint_url = new_endpoint;
          grace = start_grace activate now days r.grace;
        },
      )

  pub flip : String → Bool → ℕ → ℕ → Router C → FlipResult × Router C
  flip new_endpoint activate now days r =
      if r.grace.active
      then (
        record {
          status = dual_write_grace_active;
          new_endpoint = r.endpoint_url;
          previous_endpoint = r.endpoint_url;
          grace_remaining = remaining_days now r.grace;
        },
        r,
      )
      else swap new_endpoint activate now days r (factory new_endpoint)

  pub roll : String → Router C → Option C → FlipResult × Router C
  roll previous_endpoint r none = (
    record {
      status = flip_blocked;
      new_endpoint = previous_endpoint;
      previous_endpoint = r.endpoint_url;
      grace_remaining = 0;
    },
    record r { env = previous_endpoint },
  )
  roll previous_endpoint r (some client) = (
    record {
      status = flipped;
      new_endpoint = previous_endpoint;
      previous_endpoint = r.endpoint_url;
      grace_remaining = 0;
    },
    record {
      env = previous_endpoint;
      client = some client;
      endpoint_url = previous_endpoint;
      grace = record r.grace { active = false };
    },
  )

  pub rollback : String → Router C → FlipResult × Router C
  rollback previous_endpoint r = roll previous_endpoint r (factory previous_endpoint)

  pub activate_grace_mode : ℕ → ℕ → Router C → Router C
  activate_grace_mode now days r = record r {
    grace = record {
      active = true;
      started_at = if r.grace.active then r.grace.started_at else some now;
      grace_days = days;
    };
  }
