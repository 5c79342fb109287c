-- ===== src/Logs/Examples.antt =====
-- The theorems of this component at a concrete stream, cut in the middle of a frame and of a character.
use llmplane.Common.{
  ℕ, ◌+◌, ◌*◌, ◌%◌, List, true, ◌≡◌, refl, sym, ap, ◌∙◌, ◌++◌, append_assoc, [], ◌∷◌, Option, none,
  some, Text, text, if◌then◌else◌, ltb, arith,
}
use llmplane.Api.Json.{Json}
use llmplane.Logs.Frames.{Decoder, Reader, read_bytes, read_stream}
use llmplane.Logs.View.{Event, initial, mount, responds, chunk, click_pause, step, run}
use llmplane.Logs.ViewLaws.{IsValid, run-IsValid_view}
use llmplane.Logs.FrameLaws.{concat_bytes, read_stream-concat}

abbrev no_json : Text → Option Json
no_json s = none

abbrev half : Text
half = text "data: he"

abbrev other_half : Text
other_half = text "llo" ++ 10 ∷ 10 ∷ []

-- UTF-8 of characters with one byte or two: the first of two is kept until the other comes.
abbrev feed : Option ℕ → ℕ → Text × Option ℕ
feed none b = if ltb b 128 then (b ∷ [], none) else ([], some b)
feed (some lead) b = ((lead % 32 * 64 + b % 64) ∷ [], none)

unfoldable decode_bytes : Option ℕ → List ℕ → Text × Option ℕ
decode_bytes s [] = ([], s)
decode_bytes s (b ∷ bs) =
    let (t, kept) = feed s b in let (more, last) = decode_bytes kept bs in (t ++ more, last)

decode_bytes-append :
    (s : Option ℕ) (b c : List ℕ)
    → decode_bytes s (b ++ c) ≡ (
      (decode_bytes s b).0 ++ (decode_bytes (decode_bytes s b).1 c).0,
      (decode_bytes (decode_bytes s b).1 c).1,
    )
unfolding decode_bytes
decode_bytes-append s [] c = refl
decode_bytes-append s (x ∷ b) c =
    let (t, kept) = feed s x in
    let (u, next) = decode_bytes kept b in
    let (v, last) = decode_bytes next c in
    ap (λ d. (t ++ d.0, d.1)) (decode_bytes-append kept b c)
    ∙ ap (λ w. (w, last)) (sym (append_assoc t u v))

abbrev two_byte_decoder : Decoder
two_byte_decoder = record {
  State = Option ℕ;
  decode = decode_bytes;
  decode-append = decode_bytes-append;
}

abbrev at_start : Reader two_byte_decoder no_json
at_start = record { lines = []; buffer = []; decoder_state = none }

-- "data: é", with the two bytes of the letter apart.
abbrev first_bytes : List ℕ
first_bytes = text "data: " ++ 195 ∷ []

abbrev last_bytes : List ℕ
last_bytes = 169 ∷ 10 ∷ 10 ∷ []

read_stream-concat_example :
    read_stream two_byte_decoder no_json at_start (first_bytes ∷ last_bytes ∷ [])
    ≡ read_bytes two_byte_decoder no_json at_start (first_bytes ++ concat_bytes (last_bytes ∷ []))
read_stream-concat_example =
    read_stream-concat two_byte_decoder no_json at_start first_bytes (last_bytes ∷ []) (omega arith)

abbrev watching : List Event
watching = responds 200 [] true ∷ chunk half ∷ click_pause ∷ click_pause ∷ []

run-IsValid_view_example : IsValid (run no_json (step no_json initial mount) watching)
run-IsValid_view_example = run-IsValid_view no_json watching
