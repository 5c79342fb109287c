-- ===== src/Pages/Benchmarks.antt =====
-- The upload of a dataset: `handleFile` of frontend/app/(app)/benchmarks/page.tsx and
-- `useUploadBenchmarkDataset` of frontend/hooks/useBenchmarks.ts.
use llmplane.Common.{
  ℕ, ◌+◌, ◌≡◌, ◌↔◌, refl, Bool, true, false, ◌&&◌, ◌||◌, leb, List, [], ◌∷◌, ◌++◌, Option, none,
  some, Text, text, trim, is_empty, if◌then◌else◌, ◌==◌, arith,
}
use llmplane.Pages.Routing.{Answer, fulfilled, rejected}

-- The letters of the extensions, in either case.
abbrev lower : ℕ → ℕ
lower c = if leb 65 c && leb c 90 then c + 32 else c

unfoldable pub is_text_i : Text → Text → Bool
is_text_i [] [] = true
is_text_i [] (d ∷ p) = false
is_text_i (c ∷ s) [] = false
is_text_i (c ∷ s) (d ∷ p) = (lower c == d) && is_text_i s p

-- `s.replace(/\.(csv|json)$/i, "")`.
unfoldable pub without_extension : Text → Text
unfolding is_text_i
without_extension [] = []
without_extension (c ∷ s) =
    let rest = without_extension s in
    if is_text_i (c ∷ s) (text ".csv") || is_text_i (c ∷ s) (text ".json") then [] else c ∷ rest

unfoldable pub dataset_name : Text → Text
unfolding without_extension trim
dataset_name file_name =
    let name = trim (without_extension file_name) in if is_empty name then file_name else name

-- `pendingName`, and `upload.isPending`.
pub record UploadPage : Type 0 where
  pub pending_name : Option Text
  pub is_pending : Bool

pub record Created : Type 0 where
  pub name : Text
  pub row_count : ℕ
  pub columns_length : ℕ

-- The files that the input gives, which may be none, and the end of the upload.
pub data Event : Type 0 where
  picks : Option Text → Event
  ends : Answer Created → Event

abbrev message_or : Option Text → Text
message_or none = text "Unknown error."
message_or (some m) = m

module _ (locale show : ℕ → Text) where
  unfoldable pub upload_toast : Answer Created → Text × Text
  upload_toast (fulfilled d) = (
    text "Uploaded \"" ++ (d.name ++ text "\""),
    locale d.row_count ++ (text " rows · " ++ (show d.columns_length ++ text " columns")),
  )
  upload_toast (rejected m) = (text "Upload failed", message_or m)

  -- One event, and the name of the dataset that is uploaded. The button is disabled while an upload is
  -- under way.
  unfoldable pub step : UploadPage → Event → UploadPage × List Text × List (Text × Text)
  unfolding dataset_name upload_toast
  step p (picks none) = (p, [], [])
  step p (picks (some file_name)) = if p.is_pending then (p, [], []) else (
    record { pending_name = some (dataset_name file_name); is_pending = true },
    dataset_name file_name ∷ [],
    [],
  )
  step p (ends a) =
      if p.is_pending
      then (record { pending_name = none; is_pending = false }, [], upload_toast a ∷ [])
      else (p, [], [])

  unfoldable pub run : UploadPage → List Event → UploadPage
  unfolding step
  run p [] = p
  run p (e ∷ es) = run (step p e).0 es

  -- The label of the button, "Uploading …" with the name, never lacks it: there is a pending name exactly
  -- while an upload is under way.
  run-pending_name :
      (es : List Event)
      → ((run (record { pending_name = none; is_pending = false }) es).is_pending ≡ false)
        ↔ ((run (record { pending_name = none; is_pending = false }) es).pending_name ≡ none)
  unfolding run step
  run-pending_name es =
      kept (record { pending_name = none; is_pending = false }) es ((λ h. refl), (λ h. refl))
    where
      kept :
          (p : UploadPage) (es : List Event)
          → (p.is_pending ≡ false) ↔ (p.pending_name ≡ none)
          → ((run p es).is_pending ≡ false) ↔ ((run p es).pending_name ≡ none)
      kept p [] h = h
      kept p (e ∷ es) h = kept (step p e).0 es (stepped p e h)
        where
          stepped :
              (p : UploadPage) (e : Event)
              → (p.is_pending ≡ false) ↔ (p.pending_name ≡ none)
              → ((step p e).0.is_pending ≡ false) ↔ ((step p e).0.pending_name ≡ none)
          stepped p (picks none) h = h
          stepped p (picks (some f)) h = ground (arith, h)
          stepped p (ends a) h = ground (arith, h)

-- A file with a name gives a dataset with a name.
dataset_name_given :
    (file_name : Text) → is_empty file_name ≡ false → is_empty (dataset_name file_name) ≡ false
unfolding dataset_name
dataset_name_given f h = ground (arith, h)
