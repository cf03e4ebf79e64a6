-- ===== src/Ws/Connection.antt =====
-- One connection of the WebSocket client: `run_connection` and `dispatch` (src/ws/client.rs). The
-- select loop takes one event at a time, in any order: a command with whether the socket took the
-- frame, a tick of the ping timer, or what the socket yielded. A one-shot reply channel is a
-- number, and so is a caller.
pub mod Correlation
pub mod Once
use text.Mathlib.Text.{◌==◌ as str_eq}
use metaflux_client_rust.Base.{
  ℕ, zero, suc, String, Bool, true, false, List, [], ◌∷◌, Option, none, some, if◌then◌else◌, ◌==◌,
  ◌≡◌, and_then, unwrap_or,
}
use metaflux_client_rust.Json.{Value, null, get, as_str, as_u64, as_bool}
use metaflux_client_rust.Ws.Subscription.{Subscription}

pub data Command : Type 0 where
  subscribe unsubscribe : Subscription → Command
  -- the correlation id, the frame, and the reply channel of the caller
  post : ℕ → String → ℕ → Command
  cancel_post : ℕ → Command
  shutdown : Command

-- A text frame that the client writes; the last stands for a close frame.
pub data Sent : Type 0 where
  subscribe_frame unsubscribe_frame : Subscription → Sent
  post_frame : String → Sent
  ping_frame close_frame : Sent

pub data Message : Type 0 where
  text_message : String → Message
  binary : List ℕ → Message
  pong ping close frame : Message

-- What one turn of the select loop takes.
pub data Event : Type 0 where
  -- `none` where every sender is gone; whether the socket took what is sent
  command : Option Command → Bool → Event
  ping_tick : Bool → Event
  received : Message → Event
  -- the stream ended, or yielded an error
  ended stream_error : Event

pub data ConnectionExit : Type 0 where
  -- `Ok(Shutdown)`, `Ok(Recoverable)` and `Err(_)`
  user_shutdown recoverable failed : ConnectionExit

-- A broadcast frame, before serde gives its message a type.
pub record WsFrame : Type 0 where
  pub message : Value
  pub is_snapshot : Bool

abbrev pub frame_from_value : Value → WsFrame
frame_from_value v = record {
  message = v;
  is_snapshot = unwrap_or (and_then (get "is_snapshot" v) as_bool) false;
}

-- The latest first, in the three records of what has happened.
pub record Connection : Type 0 where
  pub pending : List (ℕ × ℕ)
  pub sent : List Sent
  pub replies : List (ℕ × Value)
  pub inbound : List WsFrame

-- `HashMap::get`, `remove` and `insert`.
abbrev pub lookup : ℕ → List (ℕ × ℕ) → Option ℕ
lookup id [] = none
lookup id ((k, caller) ∷ p) = if k == id then some caller else lookup id p

abbrev pub remove : ℕ → List (ℕ × ℕ) → List (ℕ × ℕ)
remove id [] = []
remove id ((k, caller) ∷ p) = if k == id then remove id p else (k, caller) ∷ remove id p

abbrev pub insert : ℕ → ℕ → List (ℕ × ℕ) → List (ℕ × ℕ)
insert id caller p = (id, caller) ∷ remove id p

-- `/channel` is `post`; `/data/id`; `/data/response`.
abbrev pub is_text : Option String → String → Bool
is_text none t = false
is_text (some s) t = str_eq s t

abbrev pub is_post : Value → Bool
is_post v = is_text (and_then (get "channel" v) as_str) "post"

abbrev pub response_id : Value → Option ℕ
response_id v = and_then (and_then (get "data" v) (get "id")) as_u64

abbrev pub response : Value → Value
response v = unwrap_or (and_then (get "data" v) (get "response")) null

-- `dispatch`, after the parse.
abbrev pub reply_to : Option ℕ → ℕ → Value → Connection → Connection
reply_to none id v c = c
reply_to (some caller) id v c = record c {
  pending = remove id c.pending;
  replies = (caller, response v) ∷ c.replies;
}

abbrev pub correlate : Option ℕ → Value → Connection → Connection
correlate none v c = c
correlate (some id) v c = reply_to (lookup id c.pending) id v c

unfoldable pub dispatch_value : Value → Connection → Connection
dispatch_value v c =
    if is_post v
    then correlate (response_id v) v c
    else record c { inbound = frame_from_value v ∷ c.inbound }

abbrev pub dispatch_parsed : Option Value → Connection → Connection
dispatch_parsed none c = c
dispatch_parsed (some v) c = dispatch_value v c

pub data Turn : Type 0 where
  running : Connection → Turn
  exited : ConnectionExit → Turn

abbrev pub send_or : Bool → Connection → ConnectionExit → Turn
send_or true c e = running c
send_or false c e = exited e

-- The replay on (re)connect: the socket takes `n` frames, and fails at the next.
abbrev pub replay : ℕ → List Subscription → Connection → Turn
replay n [] c = running c
replay zero (s ∷ subs) c = exited failed
replay (suc n) (s ∷ subs) c = replay n subs (record c { sent = subscribe_frame s ∷ c.sent })

abbrev pub opened : Connection
opened = record { pending = []; sent = []; replies = []; inbound = [] }

-- `serde_json::from_str`, and the zstd decoder of the connection where it has one.
module _ (parse : String → Option Value) (decoder : Option (List ℕ → Option String)) where
  abbrev pub incoming : Message → Option Value
  incoming (text_message t) = parse t
  incoming (binary bytes) = and_then (and_then decoder (λ decode. decode bytes)) parse
  incoming pong = none
  incoming ping = none
  incoming close = none
  incoming frame = none

  abbrev pub turn : Event → Connection → Turn
  turn (command none ok) c = exited user_shutdown
  turn (command (some shutdown) ok) c = exited user_shutdown
  turn (command (some (subscribe s)) ok) c =
      send_or ok (record c { sent = subscribe_frame s ∷ c.sent }) failed
  turn (command (some (unsubscribe s)) ok) c =
      send_or ok (record c { sent = unsubscribe_frame s ∷ c.sent }) failed
  turn (command (some (post id f caller)) ok) c =
      send_or ok (record c { pending = insert id caller c.pending; sent = post_frame f ∷ c.sent })
        failed
  turn (command (some (cancel_post id)) ok) c = running (record c { pending = remove id c.pending })
  turn (ping_tick ok) c = send_or ok (record c { sent = ping_frame ∷ c.sent }) recoverable
  turn (received close) c = exited recoverable
  turn (received pong) c = running c
  turn (received ping) c = running c
  turn (received frame) c = running c
  turn (received (text_message t)) c = running (dispatch_parsed (incoming (text_message t)) c)
  turn (received (binary b)) c = running (dispatch_parsed (incoming (binary b)) c)
  turn ended c = exited recoverable
  turn stream_error c = exited recoverable

  -- The connections that the loop reaches from `c` by these events, the latest first.
  pub data Reach (c : Connection) : List Event → Connection → Type 0 where
    begin : Reach c [] c
    next :
        {es : List Event} {d d' : Connection} (e : Event)
        → Reach c es d
        → turn e d ≡ running d'
        → Reach c (e ∷ es) d'
