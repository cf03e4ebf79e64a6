-- ===== src/Ws/Reconnect.antt =====
-- The reconnect loop of the WebSocket client: `WsConfig`, `run_background` and the handshake of
-- `run_connection` (src/ws/client.rs), and `WireMode::from_selected` (src/ws/compress.rs).
-- Durations are in milliseconds. The token of the embedded dictionary is a parameter, and what
-- each handshake and each connection comes to is an input.
pub mod Backoff
use text.Mathlib.Text.{◌==◌ as str_eq}
use metaflux_client_rust.Base.{
  ℕ, ◌+◌, ◌*◌, min, String, Bool, true, false, List, [], ◌∷◌, Option, none, some, if◌then◌else◌,
}
use metaflux_client_rust.Ws.Connection.{ConnectionExit, user_shutdown, recoverable, failed}

pub record WsConfig : Type 0 where
  pub ping_interval : ℕ
  pub initial_backoff : ℕ
  pub max_backoff : ℕ
  pub channel_capacity : ℕ
  pub post_timeout : ℕ

abbrev pub default_config : WsConfig
default_config = record {
  ping_interval = 30000;
  initial_backoff = 250;
  max_backoff = 30000;
  channel_capacity = 1024;
  post_timeout = 10000;
}

pub data WireMode : Type 0 where
  text_mode zstd zstd_dict : WireMode

abbrev pub proto_plain : String
proto_plain = "mtf-zstd.v1"

-- `WireMode::from_selected`, with the token of the dictionary.
abbrev pub from_selected : String → Option String → WireMode
from_selected proto_dict none = text_mode
from_selected proto_dict (some t) =
    if str_eq t proto_dict then zstd_dict else if str_eq t proto_plain then zstd else text_mode

-- What one `connect_async` comes to: the subprotocol that the server echoed, the refusal of the
-- offer, or another error.
pub data Attempt : Type 0 where
  accepted : Option String → Attempt
  subprotocol_refused connect_failed : Attempt

-- A handshake without an offer.
abbrev pub plain : Attempt → Option WireMode
plain (accepted token) = some text_mode
plain subprotocol_refused = none
plain connect_failed = none

-- The handshake of `run_connection`: the flag afterwards, and the mode, or an error. The retry is
-- used only where the first one fails on the offer.
abbrev pub connect : String → Bool → Attempt → Attempt → Bool × Option WireMode
connect proto_dict false first retry = (false, plain first)
connect proto_dict true (accepted token) retry = (true, some (from_selected proto_dict token))
connect proto_dict true subprotocol_refused retry = (false, plain retry)
connect proto_dict true connect_failed retry = (true, none)

-- One round of the loop: its handshakes, and how the connection would end where they succeed.
pub record Round : Type 0 where
  pub first : Attempt
  pub retry : Attempt
  pub exit : ConnectionExit

abbrev pub run_exit : Option WireMode → ConnectionExit → ConnectionExit
run_exit none e = failed
run_exit (some m) e = e

-- The state of the loop, and its record: what it slept, the latest last, how many handshakes it
-- made, and whether it is alive.
pub record Background : Type 0 where
  pub offer_compression : Bool
  pub backoff : ℕ

pub record Log : Type 0 where
  pub slept : List ℕ
  pub handshakes : ℕ
  pub alive : Bool

abbrev pub handshakes_of : Bool → Attempt → ℕ
handshakes_of true subprotocol_refused = 2
handshakes_of true (accepted token) = 1
handshakes_of true connect_failed = 1
handshakes_of false first = 1

abbrev pub after_round : ConnectionExit → ℕ → ℕ → Log → Log
after_round user_shutdown backoff n rest = record { slept = []; handshakes = n; alive = false }
after_round recoverable backoff n rest = record rest {
  slept = backoff ∷ rest.slept;
  handshakes = n + rest.handshakes;
}
after_round failed backoff n rest = record rest {
  slept = backoff ∷ rest.slept;
  handshakes = n + rest.handshakes;
}

-- `run_background`, for the given rounds; it is alive after the last of them unless it has ended.
unfoldable pub run_background : String → WsConfig → Background → List Round → Log
run_background proto_dict config s [] = record { slept = []; handshakes = 0; alive = true }
run_background proto_dict config s (r ∷ rs) =
    let (offer, mode) = connect proto_dict s.offer_compression r.first r.retry in
    let rest =
      run_background proto_dict config
        (record { offer_compression = offer; backoff = min (s.backoff * 2) config.max_backoff })
        rs in
    after_round (run_exit mode r.exit) s.backoff (handshakes_of s.offer_compression r.first) rest

-- `connect_with` starts the loop.
abbrev pub started : WsConfig → Background
started config = record { offer_compression = true; backoff = config.initial_backoff }
