-- ===== src/Logs/Frames.antt =====
-- The parsing of the event stream in frontend/components/deployment/DeploymentLogs.tsx: frames,
-- data lines, and the cap on the lines that are kept. `JSON.parse` is a parameter.
use llmplane.Common.{
  ℕ, ◌-◌, ◌≡◌, ◌&&◌, List, [], ◌∷◌, ◌++◌, Option, none, some, Text, text, starts_with, trim,
  is_empty, drop, length, if◌then◌else◌, ltb, ◌==◌,
}
use llmplane.Api.Json.{Json, str, obj, get_field, or_else}

unfoldable pub max_lines : ℕ
max_lines = 2000

abbrev pub push_char : ℕ → List Text × Text → List Text × Text
push_char c ([], rest) = ([], c ∷ rest)
push_char c (f ∷ fs, rest) = ((c ∷ f) ∷ fs, rest)

abbrev pub end_frame : List Text × Text → List Text × Text
end_frame (fs, rest) = ([] ∷ fs, rest)

-- `buffer.split("\n\n")` and `frames.pop()`: the complete frames and the trailing partial one.
unfoldable pub split_frames : Text → List Text × Text
split_frames [] = ([], [])
split_frames (c ∷ []) = ([], c ∷ [])
split_frames (c ∷ d ∷ s) =
    let ended = end_frame (split_frames s) in
    let longer = push_char c (split_frames (d ∷ s)) in if c == 10 && d == 10 then ended else longer

abbrev push_line : ℕ → List Text → List Text
push_line c [] = (c ∷ []) ∷ []
push_line c (l ∷ ls) = (c ∷ l) ∷ ls

-- `frame.split("\n")`.
unfoldable pub split_lines : Text → List Text
split_lines [] = [] ∷ []
split_lines (c ∷ s) = if c == 10 then [] ∷ split_lines s else push_line c (split_lines s)

-- `v?.key`: a value that is not an object has no such member.
unfoldable pub member : Text → Option Json → Option Json
unfolding get_field
member key (some (obj fs)) = get_field key fs
member key other = none

-- `parsed?.data?.line ?? parsed?.line`, if it is a string.
unfoldable pub line_of : Json → List Text
unfolding member or_else
line_of parsed = string_of (
    or_else (member (text "line") (member (text "data") (some parsed)))
      (member (text "line") (some parsed)))
  where
    string_of : Option Json → List Text
    string_of (some (str s)) = s ∷ []
    string_of other = []

-- `next.length > MAX_LINES ? next.slice(next.length - MAX_LINES) : next`.
unfoldable pub capped : List Text → List Text
unfolding max_lines
capped next = if ltb max_lines (length next) then drop (length next - max_lines) next else next

-- The update of `setLines`, which is skipped if nothing came in.
unfoldable pub add_lines : List Text → List Text → List Text
unfolding capped
add_lines lines incoming = if is_empty incoming then lines else capped (lines ++ incoming)

module _ (parse : Text → Option Json) where
  -- A payload that is not JSON passes through as it is.
  unfoldable pub payload_lines : Text → List Text
  unfolding line_of
  payload_lines payload =
      if is_empty payload
      then []
      else elim (parse payload) [ none ↦ payload ∷ [] | some parsed ↦ line_of parsed ]

  unfoldable pub raw_lines : Text → List Text
  unfolding payload_lines starts_with trim
  raw_lines raw = if starts_with raw (text "data:") then payload_lines (trim (drop 5 raw)) else []

  unfoldable pub raws_lines : List Text → List Text
  unfolding raw_lines
  raws_lines [] = []
  raws_lines (raw ∷ raws) = raw_lines raw ++ raws_lines raws

  -- The lines of the complete frames, in order: `incoming`.
  unfoldable pub frames_lines : List Text → List Text
  unfolding raws_lines split_lines
  frames_lines [] = []
  frames_lines (f ∷ fs) = raws_lines (split_lines f) ++ frames_lines fs

  -- What a round of the reading loop does with the decoded text, on the lines shown and the buffer.
  unfoldable pub read_chunk : List Text × Text → Text → List Text × Text
  unfolding add_lines frames_lines split_frames
  read_chunk (lines, buffer) chunk =
      let (frames, rest) = split_frames (buffer ++ chunk) in
      (add_lines lines (frames_lines frames), rest)

-- `TextDecoder`: `decode` is `decoder.decode(value, { stream: true })`, on bytes and on what the decoder
-- keeps of a character whose bytes have not all come yet. So bytes may come in pieces.
pub record Decoder : Type 1 where
  pub State : Type 0
  pub decode : State → List ℕ → Text × State
  pub decode-append :
      (s : State) (b c : List ℕ)
      → decode s (b ++ c)
        ≡ ((decode s b).0 ++ (decode (decode s b).1 c).0, (decode (decode s b).1 c).1)

module _ (decoder : Decoder) (parse : Text → Option Json) where
  -- The state of the loop.
  pub record Reader : Type 0 where
    pub lines : List Text
    pub buffer : Text
    pub decoder_state : decoder.State

  -- One round of the loop, on the bytes that have come.
  unfoldable pub read_bytes : Reader → List ℕ → Reader
  unfolding read_chunk
  read_bytes r value =
      let (chunk, kept) = decoder.decode r.decoder_state value in
      let (lines, rest) = read_chunk parse (r.lines, r.buffer) chunk in
      record { lines = lines; buffer = rest; decoder_state = kept }

  unfoldable pub read_stream : Reader → List (List ℕ) → Reader
  unfolding read_bytes
  read_stream r [] = r
  read_stream r (value ∷ values) = read_stream (read_bytes r value) values
