-- ===== src/Ws/Post.antt =====
-- The caller's side of a post over the WebSocket: `post_request` (src/ws/client.rs). Whether the
-- task takes a command and what the wait for the reply comes to are inputs; the text of the frame is
-- the parameter `frame_text`, and a reply channel is named by the id of its post.
pub mod Outcomes
use metaflux_client_rust.Base.{
  ℕ, ◌+◌, ◌%◌, String, Bool, true, false, List, [], ◌∷◌, Option, none, some, if◌then◌else◌,
  and_then, unwrap_or, Result, ok, err, map_err,
}
use metaflux_client_rust.Grid.{u64_mod}
use metaflux_client_rust.Json.{Value, null, get, as_str}
use metaflux_client_rust.Envelope.{ClientError, decode_envelope}
use metaflux_client_rust.Ws.Connection.{Command, post, cancel_post, is_text}

-- What `timeout(post_timeout, reply_rx)` comes to.
pub data Wait : Type 0 where
  answered : Value → Wait
  -- the sender was dropped, because the connection cycled
  dropped : Wait
  elapsed : Wait

pub data PostError (E : Type 0) : Type 0 where
  task_is_dead closed_before_response timed_out : PostError E
  -- the message of an error reply
  refused_post : String → PostError E
  envelope : E → PostError E

-- A call: the id source afterwards, the commands that it gave to the task, and its result.
pub record Call (E : Type 0) : Type 0 where
  pub post_id : ℕ
  pub commands : List Command
  pub result : Result (PostError E) Value

abbrev pub post_command : (ℕ → String → Value → String) → ℕ → String → Value → Command
post_command frame_text id request_type payload = post id (frame_text id request_type payload) id

module _ {T J P : Type 0} (api_error : Value → Result J P) where
  abbrev pub read_response : Value → Result (PostError (ClientError T J P)) Value
  read_response v =
      if is_text (and_then (get "type" v) as_str) "error"
      then err (refused_post (unwrap_or (and_then (get "payload" v) as_str) "unknown post error"))
      else map_err envelope (decode_envelope api_error (unwrap_or (get "payload" v) null))

  abbrev pub await_reply : ℕ → Command → Wait → Call (ClientError T J P)
  await_reply id c (answered v) = record {
    post_id = (id + 1) % u64_mod;
    commands = c ∷ [];
    result = read_response v;
  }
  await_reply id c dropped = record {
    post_id = (id + 1) % u64_mod;
    commands = c ∷ [];
    result = err closed_before_response;
  }
  await_reply id c elapsed = record {
    post_id = (id + 1) % u64_mod;
    commands = c ∷ cancel_post id ∷ [];
    result = err timed_out;
  }

  unfoldable pub post_request :
      (ℕ → String → Value → String) → ℕ → Bool → String → Value → Wait → Call (ClientError T J P)
  post_request frame_text id true request_type payload w =
      await_reply id (post_command frame_text id request_type payload) w
  post_request frame_text id false request_type payload w = record {
    post_id = (id + 1) % u64_mod;
    commands = [];
    result = err task_is_dead;
  }
