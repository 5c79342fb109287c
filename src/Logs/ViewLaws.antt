-- ===== src/Logs/ViewLaws.antt =====
-- What the log view shows, through pauses, failures and new streams.
use llmplane.Common.{
  ◌≤◌, ◌≡◌, refl, Bool, true, false, List, [], ◌∷◌, ◌++◌, Option, none, some, Text, length, arith,
}
use llmplane.Api.Json.{Json}
use llmplane.Logs.Frames.{read_chunk, split_frames, frames_lines}
use llmplane.Logs.FrameLaws.{add_lines-length}
use llmplane.Logs.View.{
  ConnState, connecting, streaming, closed, error, Session, idle, waiting, over, reading, LogView,
  initial, begin, stop, Event, mount, unmount, click_pause, click_follow, click_clear, scroll,
  responds, chunk, ends, fails, failed, on_head, stream_step, step, run,
}

abbrev is_given {ℓ} : {A : Type ℓ} → Option A → Bool
is_given none = false
is_given (some a) = true

-- The badge tells the truth about the stream that was not stopped: `connecting` while it waits for
-- the head, `streaming` while it reads, `closed` or `error` once it is over.
abbrev matches : Session → ConnState → Bool
matches idle state = true
matches waiting connecting = true
matches (reading buffer) streaming = true
matches over closed = true
matches over error = true
matches session state = false

abbrev is_error : ConnState → Bool
is_error error = true
is_error state = false

pub record IsValid (v : LogView) : Type 0 where
  pub few : length v.lines ≤ 2000
  pub truthful : matches v.session v.state ≡ true
  pub explained : is_error v.state ≡ true → is_given v.error_text ≡ true

module _ (parse : Text → Option Json) where
  chunk-IsValid :
      (v : LogView) (buffer c : Text)
      → v.session ≡ reading buffer
      → IsValid v
      → IsValid (stream_step parse (reading buffer) v (chunk c))
  unfolding stream_step read_chunk
  chunk-IsValid v buffer c e h =
      let (fs, rest) = split_frames (buffer ++ c) in
      record {
        few = add_lines-length v.lines (frames_lines parse fs) h.few;
        truthful = ground (arith, e, h.truthful);
        explained = h.explained;
      }

  stream-IsValid :
      (q : Session) (v : LogView) (c : Text)
      → v.session ≡ q
      → IsValid v
      → IsValid (stream_step parse q v (chunk c))
  unfolding stream_step
  stream-IsValid idle v c e h = h
  stream-IsValid waiting v c e h = h
  stream-IsValid over v c e h = h
  stream-IsValid (reading buffer) v c e h = chunk-IsValid v buffer c e h

  step-IsValid : (v : LogView) (e : Event) → IsValid v → IsValid (step parse v e)
  unfolding step begin stop stream_step on_head failed
  step-IsValid v mount h = ground arith
  step-IsValid v unmount h = ground arith
  step-IsValid v click_pause h = ground arith
  step-IsValid v click_follow h = ground arith
  step-IsValid v click_clear h = ground arith
  step-IsValid v (scroll b) h = ground arith
  step-IsValid v (responds s t b) h = ground arith
  step-IsValid v (chunk c) h = stream-IsValid v.session v c refl h
  step-IsValid v ends h = ground arith
  step-IsValid v (fails e) h = ground arith

  run-IsValid : (v : LogView) (es : List Event) → IsValid v → IsValid (run parse v es)
  unfolding run
  run-IsValid v [] h = h
  run-IsValid v (e ∷ es) h = run-IsValid (step parse v e) es (step-IsValid v e h)

  mounted-IsValid : IsValid (step parse initial mount)
  unfolding initial step begin
  mounted-IsValid = record { few = omega arith; truthful = refl; explained = ground arith }

  -- Once the page is mounted, whatever the user and the stream do: at most 2000 lines are shown; the
  -- badge is `connecting` while the stream waits for its head, `streaming` while it is read, and
  -- `closed` or `error` once it is over, if it was not stopped; and an error comes with its text.
  pub run-IsValid_view : (es : List Event) → IsValid (run parse (step parse initial mount) es)
  run-IsValid_view es = run-IsValid (step parse initial mount) es mounted-IsValid
