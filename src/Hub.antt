-- ===== src/Hub.antt =====
-- internal/hub/hub.go: one browser socket's subscriptions, rate limit, queue and drop counter, and
-- the fan-out of a message. A method that holds a lock is one step. `json.Marshal` is the
-- parameter `encode`, since a frame carries any value: `none` is the nil that a failed encoding
-- leaves. The socket itself appears as the events that it delivers.
pub mod Commands
pub mod Tokens
pub mod Fanout
use mqttview.Common.{
  ℕ, zero, suc, ◌+◌, ◌-◌, ◌*◌, ◌%◌, ◌^◌, Bool, true, false, not, ◌&&◌, ◌||◌, Option, none, some,
  List, [], ◌∷◌, ◌++◌, Bytes, codes, bytes_eq, lookup, insert, delete, ℤ, pos, negsuc, u64_mod,
  length, ltb, leb, ◌==◌, if◌then◌else◌, min, map,
}
use mqttview.Message.{Message, Time}
use mqttview.Topic.{TopicError, validate_filter, match_filter, is_empty, hash}

-- What `err.Error()` and the literals say.
pub data ErrorText : Type 0 where
  malformed_command watch_requires_connection : ErrorText
  invalid_filter : TopicError → ErrorText
  unknown_command : Bytes → ErrorText

-- A frame, by its type, with its data. A status and a plugin's payload are values of any kind.
pub data Frame : Type 0 where
  hello : ℕ → Frame
  message : Message → Frame
  status : Bytes → Frame
  event : Bytes → Bytes → Frame
  stats : ℕ → Frame
  error : ErrorText → Frame
  pong : Frame

pub record Command : Type 0 where
  pub type : Bytes
  pub connection_id : Bytes
  pub filter : Bytes
  pub max_rate : ℤ

abbrev pub send_buffer : ℕ
send_buffer = 512

abbrev pub default_rate : ℕ
default_rate = 200

abbrev pub max_client_rate : ℕ
max_client_rate = 5000

-- `time.Second`, in nanoseconds.
abbrev pub second : ℕ
second = 10 ^ 9

-- `send` is the buffered channel, oldest frame first.
pub record Client : Type 0 where
  pub send : List Bytes
  pub watch : List (Bytes × Bytes)
  pub rate : ℕ
  pub dropped : ℕ
  pub tokens : ℕ
  pub window_start : Time

unfoldable pub count_drop : Client → Client
count_drop c = record c { dropped = (c.dropped + 1) % u64_mod }

unfoldable pub push : Option Bytes → Client → Client
unfolding count_drop
push none c = c
push (some raw) c =
    if ltb (length c.send) send_buffer then record c { send = c.send ++ raw ∷ [] } else count_drop c

unfoldable pub wants : Client → Message → Bool
wants c msg = elim (lookup msg.connection_id c.watch) [
  | none ↦ false
  | some filter ↦
      if is_empty filter || bytes_eq filter hash then true else match_filter filter msg.topic
]

-- `takeToken`, at the time `now`.
unfoldable pub refill : Time → Client → Client
refill now c =
    if leb second (now - c.window_start)
    then record c { window_start = now; tokens = c.rate }
    else c

unfoldable pub spend : Client → Client × Bool
spend c = if c.tokens == 0 then (c, false) else (record c { tokens = c.tokens - 1 }, true)

unfoldable pub take_token : Time → Client → Client × Bool
unfolding refill spend
take_token now c = spend (refill now c)

-- `rate` is an int; a positive one is capped.
unfoldable pub set_rate : ℤ → Client → Client
set_rate (pos zero) c = c
set_rate (pos (suc n)) c = record c { rate = min (suc n) max_client_rate }
set_rate (negsuc _) c = c

module _ (encode : Frame → Option Bytes) where
  -- The new client of `Serve`, with its first frame queued.
  unfoldable pub connect : Time → Client
  unfolding push
  connect now = push (encode (hello default_rate)) (record {
    send = [];
    watch = [];
    rate = default_rate;
    dropped = 0;
    tokens = default_rate;
    window_start = now;
  })

  unfoldable pub push_frame : Frame → Client → Client
  unfolding push
  push_frame f c = push (encode f) c

  -- The loop of `BroadcastMessage` and what follows it, for one client: each client's state is
  -- its own, so that the order in which the map gives them does not matter. The frame is encoded
  -- once if any client is interested, and encoding has no effect, so it is one value here.
  unfoldable pub offer : Time → Message → Client → Client
  unfolding wants take_token push count_drop
  offer now msg c =
      if not (wants c msg)
      then c
      else (let (c', passed) = take_token now c in
          if passed then push (encode (message msg)) c' else count_drop c')

  unfoldable pub broadcast_message : Time → Message → List Client → List Client
  unfolding offer
  broadcast_message now msg clients = map (offer now msg) clients

  unfoldable pub broadcast : Frame → List Client → List Client
  unfolding push
  broadcast f clients = map (push (encode f)) clients

  unfoldable pub handle_watch : Command → Client → Client
  unfolding push_frame set_rate
  handle_watch cmd c =
      if is_empty cmd.connection_id
      then push_frame (error watch_requires_connection) c
      else (elim (if is_empty cmd.filter then none else validate_filter cmd.filter) [
        | some err ↦ push_frame (error (invalid_filter err)) c
        | none ↦
            set_rate cmd.max_rate (record c { watch = insert cmd.connection_id cmd.filter c.watch })
      ])

  -- The `switch` of `readLoop`.
  unfoldable pub handle : Command → Client → Client
  unfolding handle_watch push_frame set_rate
  handle cmd c =
      if bytes_eq cmd.type (codes "watch")
      then handle_watch cmd c
      else if bytes_eq cmd.type (codes "unwatch")
      then record c { watch = delete cmd.connection_id c.watch }
      else if bytes_eq cmd.type (codes "rate")
      then set_rate cmd.max_rate c
      else if bytes_eq cmd.type (codes "ping")
      then push_frame pong c
      else push_frame (error (unknown_command cmd.type)) c

-- What `conn.Read` gives: a frame that is not text, text that does not decode, or a command. An
-- error ends the loop, as the end of the list does.
pub data Inbound : Type 0 where
  not_text undecodable : Inbound
  command : Command → Inbound

module _ (encode : Frame → Option Bytes) where
  unfoldable pub read_loop : List Inbound → Client → Client
  unfolding handle push_frame
  read_loop [] c = c
  read_loop (not_text ∷ rest) c = read_loop rest c
  read_loop (undecodable ∷ rest) c = read_loop rest (push_frame encode (error malformed_command) c)
  read_loop (command cmd ∷ rest) c = read_loop rest (handle encode cmd c)
