-- ===== src/Ws/Tests.antt =====
-- Runs of the WebSocket client (src/ws).
use metaflux_client_rust.Base.{
  ℕ, false, ◌+◌, ◌≤◌, String, true, List, [], ◌∷◌, Option, none, some, length, if◌then◌else◌, ◌≡◌,
  refl,
}
use metaflux_client_rust.Base.{Result, ok, err, and_then, unwrap_or}
use metaflux_client_rust.Envelope.{decode_envelope}
use metaflux_client_rust.Envelope.Split.{Payload}
use metaflux_client_rust.Ws.Connection.{is_text}
use metaflux_client_rust.Ws.Post.{answered, post_command, post_request}
use metaflux_client_rust.Ws.Post.Outcomes.{post_request_succeeds}
use metaflux_client_rust.Json.{null, get, as_str}
use metaflux_client_rust.Json.{Value, number, string, object, end, field}
use metaflux_client_rust.Ws.Subscription.{Subscription, l2_book, trades, markets}
use metaflux_client_rust.Ws.Active.{subscribe, unsubscribe}
use metaflux_client_rust.Ws.Active.Unique.{Distinct, Distinct-subscribe}
use metaflux_client_rust.Ws.Active.Views.{same_view, holder, holder-subscribe}
use metaflux_client_rust.Ws.Connection.{
  Event, command, received, post, text_message, Connection, opened, dispatch_value, Reach, begin,
  next, subscribe_frame, post_frame,
}
use metaflux_client_rust.Ws.Connection.Correlation.{Correlated, Reach-Correlated}
use metaflux_client_rust.Ws.Connection.Once.{replied, awaited, posts, replied_once}
use metaflux_client_rust.Ws.Reconnect.{
  accepted, subprotocol_refused, connect_failed, Round, run_background, started, default_config,
}
use metaflux_client_rust.Ws.Connection.{recoverable}
use metaflux_client_rust.Ws.Reconnect.Backoff.{
  nth, delay, NoShutdown, run_background-delay, run_background-handshakes,
}

abbrev full_book : Subscription
full_book = l2_book "BTC" none none none

abbrev grouped_book : Subscription
grouped_book = l2_book "BTC" (some 5) (some 2) none

holder-subscribe_example :
    holder full_book (subscribe grouped_book (full_book ∷ trades "BTC" ∷ [])) ≡ (
      if same_view grouped_book full_book
      then some grouped_book
      else holder full_book (full_book ∷ trades "BTC" ∷ []))
holder-subscribe_example = holder-subscribe grouped_book full_book (full_book ∷ trades "BTC" ∷ [])

Distinct-subscribe_example :
    Distinct (subscribe markets (full_book ∷ [])) × Distinct (unsubscribe markets (full_book ∷ []))
Distinct-subscribe_example = Distinct-subscribe markets (full_book ∷ []) (tt, tt)

-- the server answers the post with id 1, whatever it says
abbrev reply_frame : Value
reply_frame = object (
    field "channel" (string "post")
      (field "data" (object (field "id" (number 1) (field "response" (string "done") end))) end))

abbrev parse_reply : String → Option Value
parse_reply s = some reply_frame

abbrev replayed : Connection
replayed = record opened { sent = subscribe_frame full_book ∷ [] }

abbrev waiting : Connection
waiting = record replayed {
  pending = (1, 7) ∷ [];
  sent = post_frame "frame" ∷ subscribe_frame full_book ∷ [];
}

abbrev replied_to : Connection
replied_to = record waiting { pending = []; replies = (7, string "done") ∷ [] }

abbrev history : List Event
history = received (text_message "answer") ∷ command (some (post 1 "frame" 7)) true ∷ []

dispatch_run : dispatch_value reply_frame waiting ≡ replied_to
unfolding dispatch_value
dispatch_run = refl

history_run : Reach parse_reply none replayed history replied_to
unfolding dispatch_value
history_run =
    next {d = waiting} (received (text_message "answer"))
      (next {d = replayed} (command (some (post 1 "frame" 7)) true) begin refl) refl

Reach-Correlated_example : Correlated parse_reply none history replied_to
Reach-Correlated_example =
    Reach-Correlated parse_reply none 3 (full_book ∷ []) replayed replied_to history refl
      history_run

replied_once_example : replied 7 replied_to.replies + awaited 7 replied_to.pending ≤ posts 7 history
replied_once_example =
    replied_once parse_reply none 7 3 (full_book ∷ []) replayed replied_to history refl history_run

-- an old gateway refuses the offer, and the connection then drops twice
abbrev rounds : List Round
rounds =
    record { first = subprotocol_refused; retry = accepted none; exit = recoverable }
    ∷ record { first = connect_failed; retry = connect_failed; exit = recoverable }
    ∷ record { first = accepted none; retry = connect_failed; exit = recoverable }
    ∷ []

third_sleep :
    nth 2 (run_background "mtf-zstd.v1.d00" default_config (started default_config) rounds).slept
    ≡ some 1000
unfolding run_background
third_sleep = refl

run_background-delay_example : 1000 ≡ delay 250 30000 2
run_background-delay_example =
    run_background-delay "mtf-zstd.v1.d00" default_config rounds 2 1000 third_sleep

run_background-handshakes_example :
    (run_background "mtf-zstd.v1.d00" default_config (started default_config) rounds).handshakes
    ≤ length rounds + 1
run_background-handshakes_example =
    run_background-handshakes "mtf-zstd.v1.d00" default_config rounds

rounds-NoShutdown : NoShutdown rounds
rounds-NoShutdown = ((λ e. cc e), ((λ e. cc e), ((λ e. cc e), tt)))

-- the node answers a read with a data half
abbrev info_payload : Value
info_payload = object (field "data" (number 5) end)

abbrev info_response : Value
info_response = object (field "type" (string "info") (field "payload" info_payload end))

abbrev no_api_error : Value → Result ℕ ℕ
no_api_error v = err 0

abbrev frame_of : ℕ → String → Value → String
frame_of id request_type v = request_type

post_run :
    (post_request {T = ℕ} no_api_error frame_of 1 true "info" null (answered info_response)).result
    ≡ ok (number 5)
unfolding post_request decode_envelope
post_run = refl

post_request_succeeds_example :
    (v : Value) × (true ≡ true)
    × (answered info_response ≡ answered v)
    × (is_text (and_then (get "type" v) as_str) "error" ≡ false)
    × Payload (unwrap_or (get "payload" v) null) (number 5)
    × ((post_request {T = ℕ} no_api_error frame_of 1 true "info" null
          (answered info_response)).commands
        ≡ post_command frame_of 1 "info" null ∷ [])
post_request_succeeds_example =
    post_request_succeeds {T = ℕ} no_api_error frame_of 1 true "info" null (answered info_response)
      (number 5) post_run
