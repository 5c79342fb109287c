-- ===== src/Pages/Export.antt =====
-- The export of log entries on frontend/app/(app)/logs/page.tsx, with the entry of
-- frontend/hooks/useLogs.ts. `JSON.stringify` is a parameter, and so is the time stamp of the name.
use llmplane.Common.{
  List, [], ◌∷◌, ◌++◌, map, Option, none, some, Text, text, join, if◌then◌else◌, ◌==◌,
}
use llmplane.Api.Url.{or_empty}

-- The members of an entry that the export reads.
pub record LogEntry : Type 0 where
  pub timestamp : Option Text
  pub level : Option Text
  pub service : Option Text
  pub request_id : Option Text
  pub trace_id : Option Text
  pub provider : Option Text
  pub model : Option Text
  pub message : Option Text

unfoldable pub keys : List Text
keys =
    text "timestamp"
    ∷ text "level"
    ∷ text "service"
    ∷ text "request_id"
    ∷ text "trace_id"
    ∷ text "provider"
    ∷ text "model"
    ∷ text "message"
    ∷ []

-- `e[k] ?? ""`, for each key.
unfoldable pub cells : LogEntry → List Text
cells e = map or_empty (
    e.timestamp ∷ e.level ∷ e.service ∷ e.request_id ∷ e.trace_id ∷ e.provider ∷ e.model ∷ e.message
    ∷ [])

-- `s.replace(/"/g, '""')`.
unfoldable pub double_quotes : Text → Text
double_quotes [] = []
double_quotes (c ∷ s) =
    let rest = double_quotes s in if c == b'"' then b'"' ∷ b'"' ∷ rest else c ∷ rest

unfoldable pub quoted : Text → Text
unfolding double_quotes
quoted s = b'"' ∷ double_quotes s ++ b'"' ∷ []

unfoldable pub csv_line : LogEntry → Text
unfolding cells quoted join
csv_line e = join (text ",") (map quoted (cells e))

unfoldable pub csv_text : List LogEntry → Text
unfolding csv_line keys join
csv_text entries = join (b'\n' ∷ []) (join (text ",") keys ∷ map csv_line entries)

unfoldable pub or_dash : Option Text → Text
or_dash none = text "-"
or_dash (some s) = s

unfoldable pub txt_line : LogEntry → Text
unfolding or_dash
txt_line e =
    or_empty e.timestamp
    ++ text " "
    ++ or_empty e.level
    ++ text " ["
    ++ or_dash e.service
    ++ text "] "
    ++ or_empty e.message

unfoldable pub txt_text : List LogEntry → Text
unfolding txt_line join
txt_text entries = join (b'\n' ∷ []) (map txt_line entries)

unfoldable pub ndjson_text : (LogEntry → Text) → List LogEntry → Text
unfolding join
ndjson_text stringify entries = join (b'\n' ∷ []) (map stringify entries)

pub data Format : Type 0 where
  json csv txt ndjson : Format

-- A file, as `download` takes it: the ending of its name, its content and its type.
pub record File : Type 0 where
  pub ending : Text
  pub content : Text
  pub mime : Text

-- `exportAs`: `pretty` and `compact` are `JSON.stringify` on the list, with indentation, and on an
-- entry.
unfoldable pub export_as :
    (List LogEntry → Text) → (LogEntry → Text) → Format → List LogEntry → File
unfolding csv_text txt_text ndjson_text
export_as pretty compact json entries = record {
  ending = text "json";
  content = pretty entries;
  mime = text "application/json";
}
export_as pretty compact ndjson entries = record {
  ending = text "ndjson";
  content = ndjson_text compact entries;
  mime = text "application/x-ndjson";
}
export_as pretty compact csv entries = record {
  ending = text "csv";
  content = csv_text entries;
  mime = text "text/csv";
}
export_as pretty compact txt entries = record {
  ending = text "txt";
  content = txt_text entries;
  mime = text "text/plain";
}
