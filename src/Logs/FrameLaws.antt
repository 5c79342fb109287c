-- ===== src/Logs/FrameLaws.antt =====
-- How the stream is cut into chunks does not matter to the lines that are shown.
use llmplane.Common.{
  ℕ, zero, suc, ◌+◌, ◌-◌, ◌≤◌, ◌≡◌, refl, sym, ap, ◌∙◌, inl, inr, Bool, true, false, ◌&&◌, List, [],
  ◌∷◌, ◌++◌, Option, Text, append_assoc, append-nil, length-append, length-drop, drop, length,
  if◌then◌else◌, ltb, ◌==◌, Bool-cases, arith,
}
use llmplane.Api.Json.{Json}
use llmplane.Logs.Frames.{
  max_lines, split_frames, push_char, end_frame, frames_lines, raws_lines, split_lines, capped,
  add_lines, read_chunk, Decoder, Reader, read_bytes, read_stream,
}

abbrev either : Bool → ℕ → List Text × Text → List Text × Text → List Text × Text
either b c ended longer = if b then end_frame ended else push_char c longer

either-none :
    (b : Bool) (c : ℕ) (u : Text) (e r : List Text × Text)
    → (r.0 ≡ [] → r.1 ≡ u)
    → (either b c e r).0 ≡ []
    → (either b c e r).1 ≡ c ∷ u
either-none true c u (fs, rest) r k h = ground (arith, h)
either-none false c u e ([], rest) k h = ap (λ v. c ∷ v) (k refl)
either-none false c u e (f ∷ fs, rest) k h = ground (arith, h)

-- Without a complete frame, everything read is the rest.
split_frames-none : (s : Text) → (split_frames s).0 ≡ [] → (split_frames s).1 ≡ s
unfolding split_frames
split_frames-none [] h = refl
split_frames-none (c ∷ []) h = refl
split_frames-none (c ∷ d ∷ s) h =
    either-none (c == 10 && d == 10) c (d ∷ s) (split_frames s) (split_frames (d ∷ s))
      (split_frames-none (d ∷ s)) h

abbrev resume : List Text × Text → Text → List Text × Text
resume (fs, rest) t = (fs ++ (split_frames (rest ++ t)).0, (split_frames (rest ++ t)).1)

either-resume :
    (b : Bool) (c : ℕ) (u t : Text) (e r e1 r1 : List Text × Text)
    → e1 ≡ resume e t
    → r1 ≡ resume r t
    → (r.0 ≡ [] → r.1 ≡ u)
    → split_frames (c ∷ u ++ t) ≡ either b c e1 r1
    → split_frames (c ∷ u ++ t) ≡ resume (either b c e r) t
either-resume true c u t (fs, rest) r e1 r1 he hr k h = h ∙ ap end_frame he
either-resume false c u t e ([], rest) e1 r1 he hr k h =
    ap (λ v. split_frames (c ∷ v ++ t)) (sym (k refl))
either-resume false c u t e (f ∷ fs, rest) e1 r1 he hr k h = h ∙ ap (push_char c) hr

-- Reading on from the rest gives what reading at once gives.
split_frames-append : (s t : Text) → split_frames (s ++ t) ≡ resume (split_frames s) t
unfolding split_frames
split_frames-append [] t = refl
split_frames-append (c ∷ []) t = refl
split_frames-append (c ∷ d ∷ s) t =
    either-resume (c == 10 && d == 10) c (d ∷ s) t (split_frames s) (split_frames (d ∷ s))
      (split_frames (s ++ t)) (split_frames (d ∷ s ++ t)) (split_frames-append s t)
      (split_frames-append (d ∷ s) t) (split_frames-none (d ∷ s)) refl

module _ (parse : Text → Option Json) where
  frames_lines-append :
      (fs gs : List Text)
      → frames_lines parse (fs ++ gs) ≡ frames_lines parse fs ++ frames_lines parse gs
  unfolding frames_lines
  frames_lines-append [] gs = refl
  frames_lines-append (f ∷ fs) gs =
      ap (λ xs. raws_lines parse (split_lines f) ++ xs) (frames_lines-append fs gs)
      ∙ sym (
          append_assoc (raws_lines parse (split_lines f)) (frames_lines parse fs)
            (frames_lines parse gs))

drop-append :
    {A : Type 0} (n : ℕ) (xs ys : List A) → n ≤ length xs → drop n xs ++ ys ≡ drop n (xs ++ ys)
drop-append zero xs ys h = refl
drop-append (suc n) [] ys h = ground arith
drop-append (suc n) (x ∷ xs) ys h = drop-append n xs ys (omega arith)

zero-plus : (m : ℕ) → m ≡ 0 + m
zero-plus m = omega arith

suc-plus : (n m : ℕ) → suc (n + m) ≡ suc n + m
suc-plus n m = omega arith

drop-nil : {A : Type 0} (n : ℕ) → drop {A = A} n [] ≡ []
drop-nil zero = refl
drop-nil (suc n) = refl

drop-drop : {A : Type 0} (m n : ℕ) (xs : List A) → drop m (drop n xs) ≡ drop (n + m) xs
drop-drop m zero xs = ap (λ k. drop k xs) (zero-plus m)
drop-drop m (suc n) [] = drop-nil m ∙ sym (drop-nil (suc n + m))
drop-drop m (suc n) (x ∷ xs) = drop-drop m n xs ∙ ap (λ k. drop k (x ∷ xs)) (suc-plus n m)

capped-drop : (xs : List Text) → capped xs ≡ drop (length xs - 2000) xs
unfolding capped max_lines
capped-drop xs = elim (Bool-cases (ltb 2000 (length xs))) [
  | inl e ↦ rw (e) refl
  | inr e ↦ rw (e) (ap (λ k. drop k xs) (small e))
]
  where
    small : ltb 2000 (length xs) ≡ false → 0 ≡ length xs - 2000
    small e = ground arith

dropped :
    (xs ys : List Text)
    → length xs - 2000 + (length (drop (length xs - 2000) (xs ++ ys)) - 2000)
      ≡ length (xs ++ ys) - 2000
dropped xs ys = omega (arith, length-drop (length xs - 2000) (xs ++ ys), length-append xs ys)

-- The lines that the cap drops first would be dropped later.
capped-capped : (xs ys : List Text) → capped (capped xs ++ ys) ≡ capped (xs ++ ys)
capped-capped xs ys =
    let n = length xs - 2000 in
    let k = length (drop n (xs ++ ys)) - 2000 in
    ap (λ v. capped (v ++ ys)) (capped-drop xs)
    ∙ ap capped (drop-append n xs ys (omega arith))
    ∙ capped-drop (drop n (xs ++ ys))
    ∙ drop-drop k n (xs ++ ys)
    ∙ ap (λ j. drop j (xs ++ ys)) (dropped xs ys)
    ∙ sym (capped-drop (xs ++ ys))

-- No more lines are kept than the cap allows.
capped-length : (xs : List Text) → length (capped xs) ≤ 2000
capped-length xs = omega (arith, ap length (capped-drop xs), length-drop (length xs - 2000) xs)

small : (xs : List Text) → length xs ≤ 2000 → 0 ≡ length xs - 2000
small xs h = omega (arith, h)

add_lines-capped : (xs ys : List Text) → length xs ≤ 2000 → add_lines xs ys ≡ capped (xs ++ ys)
unfolding add_lines
add_lines-capped xs [] h =
    ap (λ k. drop k xs) (small xs h) ∙ sym (capped-drop xs) ∙ ap capped (sym (append-nil xs))
add_lines-capped xs (y ∷ ys) h = refl

add_lines-append :
    (xs ys zs : List Text)
    → length xs ≤ 2000
    → add_lines (add_lines xs ys) zs ≡ add_lines xs (ys ++ zs)
add_lines-append xs ys zs h =
    ap (λ v. add_lines v zs) (add_lines-capped xs ys h)
    ∙ add_lines-capped (capped (xs ++ ys)) zs (capped-length (xs ++ ys))
    ∙ capped-capped (xs ++ ys) zs
    ∙ ap capped (append_assoc xs ys zs)
    ∙ sym (add_lines-capped xs (ys ++ zs) h)

pub add_lines-length : (xs ys : List Text) → length xs ≤ 2000 → length (add_lines xs ys) ≤ 2000
add_lines-length xs ys h = rw (add_lines-capped xs ys h) (capped-length (xs ++ ys))

abbrev pub concat_bytes : List (List ℕ) → List ℕ
concat_bytes [] = []
concat_bytes (b ∷ bs) = b ++ concat_bytes bs

module _ (parse : Text → Option Json) where
  abbrev absorb : List Text → List Text × Text → List Text × Text
  absorb lines (frames, rest) = (add_lines lines (frames_lines parse frames), rest)

  read_chunk-append :
      (lines : List Text) (buffer c d : Text)
      → length lines ≤ 2000
      → read_chunk parse (read_chunk parse (lines, buffer) c) d
        ≡ read_chunk parse (lines, buffer) (c ++ d)
  unfolding read_chunk
  read_chunk-append lines buffer c d h =
      let (fs, rest) = split_frames (buffer ++ c) in
      let (gs, last) = split_frames (rest ++ d) in
      ap (λ v. (v, last))
        (add_lines-append lines (frames_lines parse fs) (frames_lines parse gs) h
          ∙ ap (add_lines lines) (sym (frames_lines-append parse fs gs)))
      ∙ ap (absorb lines) (sym (split_frames-append (buffer ++ c) d))
      ∙ ap (λ v. absorb lines (split_frames v)) (append_assoc buffer c d)

module _ (decoder : Decoder) (parse : Text → Option Json) where
  read_bytes-append :
      (r : Reader decoder parse) (b c : List ℕ)
      → length r.lines ≤ 2000
      → read_bytes decoder parse (read_bytes decoder parse r b) c
        ≡ read_bytes decoder parse r (b ++ c)
  unfolding read_bytes
  read_bytes-append r b c h =
      let (first, kept) = decoder.decode r.decoder_state b in
      let (second, last) = decoder.decode kept c in
      ap (λ v. record { lines = v.0; buffer = v.1; decoder_state = last })
        (read_chunk-append parse r.lines r.buffer first second h)
      ∙ ap
          (λ d. record {
            lines = (read_chunk parse (r.lines, r.buffer) d.0).0;
            buffer = (read_chunk parse (r.lines, r.buffer) d.0).1;
            decoder_state = d.1;
          })
          (sym (decoder.decode-append r.decoder_state b c))

  read_bytes-length :
      (r : Reader decoder parse) (b : List ℕ)
      → length r.lines ≤ 2000
      → length (read_bytes decoder parse r b).lines ≤ 2000
  unfolding read_bytes read_chunk
  read_bytes-length r b h = add_lines-length r.lines _ h

  -- However the bytes of the stream are cut into pieces, in the middle of a frame or of a character too,
  -- the lines shown, the partial frame and the state of the decoder are those of one piece with all of
  -- them: if there is a first piece, and if no more lines are shown than the cap allows.
  pub read_stream-concat :
      (r : Reader decoder parse) (b : List ℕ) (bs : List (List ℕ))
      → length r.lines ≤ 2000
      → read_stream decoder parse r (b ∷ bs) ≡ read_bytes decoder parse r (b ++ concat_bytes bs)
  unfolding read_stream
  read_stream-concat r b [] h = ap (read_bytes decoder parse r) (sym (append-nil b))
  read_stream-concat r b (c ∷ bs) h =
      read_stream-concat (read_bytes decoder parse r b) c bs (read_bytes-length r b h)
      ∙ read_bytes-append r b (c ++ concat_bytes bs) h
