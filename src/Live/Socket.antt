-- ===== src/Live/Socket.antt =====
-- The component `WebSocketProvider` of frontend/components/shared/WebSocketProvider.tsx: the
-- subscriptions, the socket that `wsRef` holds, the timer, and what is sent. A callback is a number,
-- and stands for the identity of the function. There is one socket at a time: the effect that opens it
-- runs once, and a reconnection follows the close.
use llmplane.Common.{
  ℕ, Bool, true, false, not, List, [], ◌∷◌, ◌++◌, none, some, Text, Dict, lookup, insert, remove,
  any, keep_if, is_empty, if◌then◌else◌, ◌==◌,
}

-- `readyState` of the socket; `absent` is `wsRef.current` before the first one.
pub data ReadyState : Type 0 where
  absent connecting opened closing closed : ReadyState

pub data Frame : Type 0 where
  subscribe_to unsubscribe_from : Text → Frame
  data_frame : Text → Text → Frame

-- `timer` is whether a reconnection is due; `mounted` is whether the effect's cleanup has not run.
pub record Provider : Type 0 where
  pub subscriptions : Dict (List ℕ)
  pub socket : ReadyState
  pub is_connected : Bool
  pub timer : Bool
  pub mounted : Bool

unfoldable pub initial : Provider
initial = record {
  subscriptions = [];
  socket = absent;
  is_connected = false;
  timer = false;
  mounted = true;
}

-- The callers, and the browser: in `mount_fails` and
-- `timer_fires_and_fails` the constructor of the socket throws.
pub data Event : Type 0 where
  mount mount_fails unmount timer_fires timer_fires_and_fails on_open on_close on_error : Event
  subscribe unsubscribe : Text → ℕ → Event
  send : Text → Text → Event

abbrev pub is_open : ReadyState → Bool
is_open opened = true
is_open _ = false

-- `connect`, where the constructor succeeds.
unfoldable pub connect : Provider → Provider
connect p = record p { socket = connecting; timer = false }

-- `connect`, where it throws: `wsRef` keeps the old socket.
unfoldable pub connect_fails : Provider → Provider
connect_fails p = record p { timer = true }

abbrev pub keys {ℓ} : {V : Type ℓ} → Dict V → List Text
keys [] = []
keys ((k, v) ∷ m) = k ∷ keys m

-- The frames of `onopen`.
unfoldable pub resubscribe : List Text → List Frame
resubscribe [] = []
resubscribe (k ∷ ks) = subscribe_to k ∷ resubscribe ks

unfoldable pub on_socket_open : Provider → Provider × List Frame
unfolding resubscribe
on_socket_open p =
    (record p { socket = opened; is_connected = true }, resubscribe (keys p.subscriptions))

unfoldable pub on_socket_close : Provider → Provider
on_socket_close p = record p { socket = closed; is_connected = false; timer = true }

-- `close()` on the socket.
abbrev closing_of : ReadyState → ReadyState
closing_of absent = absent
closing_of closed = closed
closing_of _ = closing

unfoldable pub if_open : Provider → Frame → List Frame
if_open p f = if is_open p.socket then f ∷ [] else []

-- `Set.prototype.add`.
unfoldable pub add_callback : ℕ → List ℕ → List ℕ
add_callback c cs = if any (λ d. d == c) cs then cs else cs ++ c ∷ []

unfoldable pub delete_callback : ℕ → List ℕ → List ℕ
delete_callback c cs = keep_if (λ d. not (d == c)) cs

unfoldable pub on_subscribe : Text → ℕ → Provider → Provider × List Frame
unfolding if_open add_callback insert lookup
on_subscribe topic c p = elim (lookup topic p.subscriptions) [
  | none ↦ (
    record p { subscriptions = insert topic (c ∷ []) p.subscriptions },
    if_open p (subscribe_to topic),
  )
  | some cs ↦ (record p { subscriptions = insert topic (add_callback c cs) p.subscriptions }, [])
]

-- The function that `subscribe` returns.
unfoldable pub on_unsubscribe : Text → ℕ → Provider → Provider × List Frame
unfolding if_open delete_callback insert remove lookup
on_unsubscribe topic c p = elim (lookup topic p.subscriptions) [
  | none ↦ (p, [])
  | some cs ↦
      if is_empty (delete_callback c cs)
      then (
        record p { subscriptions = remove topic p.subscriptions },
        if_open p (unsubscribe_from topic),
      )
      else (record p { subscriptions = insert topic (delete_callback c cs) p.subscriptions }, [])
]

-- One event, and the frames sent. The events of the browser need a socket in a state to have them.
unfoldable pub step : Provider → Event → Provider × List Frame
unfolding connect connect_fails on_socket_open on_socket_close on_subscribe on_unsubscribe if_open
step p mount = (connect p, [])
step p mount_fails = (connect_fails p, [])
step p unmount = (record p { socket = closing_of p.socket; timer = false; mounted = false }, [])
step p timer_fires = (if p.timer then connect p else p, [])
step p timer_fires_and_fails = (if p.timer then connect_fails p else p, [])
step p on_open = elim p.socket [ connecting ↦ on_socket_open p | _ ↦ (p, []) ]
step p on_close = elim p.socket [
  | absent ↦ (p, [])
  | closed ↦ (p, [])
  | _ ↦ (on_socket_close p, [])
]
step p on_error = (record p { socket = closing_of p.socket }, [])
step p (subscribe topic c) = on_subscribe topic c p
step p (unsubscribe topic c) = on_unsubscribe topic c p
step p (send topic d) = (p, if_open p (data_frame topic d))

unfoldable pub run : Provider → List Event → Provider × List Frame
unfolding step
run p [] = (p, [])
run p (e ∷ es) = let (p1, sent) = step p e in let (p2, later) = run p1 es in (p2, sent ++ later)

-- `onmessage`: the callbacks that are called for a message of the topic, in order.
unfoldable pub on_message : Text → Provider → List ℕ
unfolding lookup
on_message topic p = elim (lookup topic p.subscriptions) [ none ↦ [] | some cs ↦ cs ]
