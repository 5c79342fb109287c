-- ===== src/Logs/View.antt =====
-- The component `DeploymentLogs` of frontend/components/deployment/DeploymentLogs.tsx: what the
-- user and the stream do to its state.
use llmplane.Common.{
  ℕ, Bool, true, false, not, ◌&&◌, List, [], ◌∷◌, ◌++◌, Option, none, some, Text, text,
  if◌then◌else◌, leb, ◌==◌,
}
use llmplane.Api.Json.{Json}
use llmplane.Api.Message.{decimal}
use llmplane.Logs.Frames.{read_chunk}

pub data ConnState : Type 0 where
  connecting streaming paused closed error : ConnState

-- The run of `start` whose controller has not been aborted: none, waiting for the response, reading
-- with a partial frame, or over. An aborted run changes nothing any more: its `fetch` or `read`
-- rejects, and the handler returns.
pub data Session : Type 0 where
  idle waiting over : Session
  reading : Text → Session

pub record LogView : Type 0 where
  pub lines : List Text
  pub state : ConnState
  pub follow : Bool
  pub error_text : Option Text
  pub session : Session

unfoldable pub initial : LogView
initial = record {
  lines = [];
  state = connecting;
  follow = true;
  error_text = none;
  session = idle;
}

-- `start`, up to its first wait; it aborts the run before it.
unfoldable pub begin : LogView → LogView
begin v = record v { state = connecting; error_text = none; session = waiting }

-- `stop`, on leaving the page or by the button.
unfoldable pub stop : LogView → LogView
stop v = record v { session = idle }

-- What happens: the buttons, the scroll bar (whether it is near the bottom), and the stream.
pub data Event : Type 0 where
  mount unmount click_pause click_follow click_clear : Event
  scroll : Bool → Event
  responds : ℕ → Text → Bool → Event
  -- A piece of the stream, as the decoder of Logs.Frames gives it.
  chunk : Text → Event
  ends : Event
  fails : Option Text → Event

unfoldable pub failure : ℕ → Text → Text
failure status status_text =
    if status == 404
    then text "This deployment has no container to stream from yet."
    else text "Log stream failed: " ++ decimal status ++ text " " ++ status_text

unfoldable pub failed : LogView → Text → LogView
failed v message = record v { state = error; error_text = some message; session = over }

-- The response's head: `has_body` is whether `res.body` is there.
unfoldable pub on_head : LogView → ℕ → Text → Bool → LogView
unfolding failed failure
on_head v status status_text has_body =
    if not (leb 200 status && leb status 299)
    then failed v (failure status status_text)
    else if not has_body
    then failed v (text "Log streaming is not supported in this browser.")
    else record v { state = streaming; session = reading [] }

-- `e instanceof Error ? e.message : …`.
unfoldable pub reason : Option Text → Text
reason (some message) = message
reason none = text "Log stream disconnected."

abbrev pub is_paused : ConnState → Bool
is_paused paused = true
is_paused _ = false

module _ (parse : Text → Option Json) where
  unfoldable pub stream_step : Session → LogView → Event → LogView
  unfolding on_head failed reason
  stream_step waiting v (responds status status_text has_body) =
      on_head v status status_text has_body
  stream_step waiting v (fails e) = failed v (reason e)
  stream_step (reading buffer) v (chunk c) =
      let (lines, rest) = read_chunk parse (v.lines, buffer) c in
      record v { lines = lines; session = reading rest }
  stream_step (reading buffer) v ends = record v { state = closed; session = over }
  stream_step (reading buffer) v (fails e) = failed v (reason e)
  stream_step session v e = v

  unfoldable pub step : LogView → Event → LogView
  unfolding begin stop stream_step
  step v mount = begin v
  step v unmount = stop v
  step v click_pause = if is_paused v.state then begin v else record (stop v) { state = paused }
  step v click_follow = record v { follow = not v.follow }
  step v click_clear = record v { lines = [] }
  step v (scroll at_bottom) = if not at_bottom && v.follow then record v { follow = false } else v
  step v e = stream_step v.session v e

  unfoldable pub run : LogView → List Event → LogView
  run v [] = v
  run v (e ∷ es) = run (step v e) es
