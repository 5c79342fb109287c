-- ===== src/Pages/ExportLaws.antt =====
-- A reader of comma-separated values gets back from the export what the entries hold, whatever quotes,
-- commas and line ends they contain.
use llmplane.Common.{
  ℕ, ◌≡◌, refl, sym, ap, ◌∙◌, Bool, true, false, ◌&&◌, List, [], ◌∷◌, ◌++◌, map, Text, text, join,
  append_assoc, append-nil, text_methods, is_empty, any, if◌then◌else◌, ◌==◌, arith,
}
use llmplane.Api.Url.{or_empty}
use llmplane.Logs.Frames.{split_lines}
use llmplane.Pages.Export.{
  LogEntry, keys, cells, double_quotes, quoted, csv_line, csv_text, ndjson_text,
}

-- RFC 4180, with the line feed as the end of a record: where a reader stands, and its last field, row
-- and rows.
pub data Mode : Type 0 where
  plain inside closing : Mode

pub record Reader : Type 0 where
  pub mode : Mode
  pub field : Text
  pub row : List Text
  pub rows : List (List Text)

abbrev ended : Reader → List Text
ended r = r.row ++ r.field ∷ []

abbrev end_field : Reader → Reader
end_field r = record r { mode = plain; field = []; row = ended r }

abbrev end_row : Reader → Reader
end_row r = record r { mode = plain; field = []; row = []; rows = r.rows ++ ended r ∷ [] }

abbrev push : ℕ → Mode → Reader → Reader
push c m r = record r { mode = m; field = r.field ++ c ∷ [] }

abbrev outside : ℕ → Reader → Reader
outside c r = if c == b',' then end_field r else if c == b'\n' then end_row r else push c plain r

step_in : Mode → Reader → ℕ → Reader
step_in plain r c =
    if c == b'"' && is_empty r.field then record r { mode = inside } else outside c r
step_in inside r c = if c == b'"' then record r { mode = closing } else push c inside r
step_in closing r c = if c == b'"' then push c inside r else outside c r

run : Reader → Text → Reader
unfolding step_in
run r [] = r
run r (c ∷ s) = run (step_in r.mode r c) s

abbrev fresh : List (List Text) → Reader
fresh rows = record { mode = plain; field = []; row = []; rows = rows }

pub read_csv : Text → List (List Text)
unfolding run
read_csv s = let r = run (fresh []) s in r.rows ++ ended r ∷ []

if-append :
    (b : Bool) (c : ℕ) (w rest : Text)
    → (if b then b'"' ∷ b'"' ∷ w else c ∷ w) ++ rest
      ≡ (if b then b'"' ∷ b'"' ∷ w ++ rest else c ∷ w ++ rest)
if-append true c w rest = refl
if-append false c w rest = refl

run-quote_byte :
    (r : Reader) (c : ℕ) (w : Text)
    → r.mode ≡ inside
    → run r (if c == b'"' then b'"' ∷ b'"' ∷ w else c ∷ w) ≡ run (push c inside r) w
unfolding run step_in
run-quote_byte r c w h = ground (arith, h)

run-double_quotes :
    (r : Reader) (v rest : Text)
    → r.mode ≡ inside
    → run r (double_quotes v ++ rest) ≡ run (record r { field = r.field ++ v }) rest
unfolding double_quotes
run-double_quotes r [] rest h =
    ap (λ f. run (record r { field = f }) rest) (sym (append-nil r.field))
run-double_quotes r (c ∷ v) rest h =
    ap (run r) (if-append (c == b'"') c (double_quotes v) rest)
    ∙ run-quote_byte r c (double_quotes v ++ rest) h
    ∙ run-double_quotes (push c inside r) v rest refl
    ∙ ap (λ f. run (record r { mode = inside; field = f }) rest) (append_assoc r.field (c ∷ []) v)
    ∙ ap (λ m. run (record r { mode = m; field = r.field ++ c ∷ v }) rest) (sym h)

abbrev reading : List (List Text) → List Text → Text → Mode → Reader
reading rows row field mode = record { mode = mode; field = field; row = row; rows = rows }

run-quoted :
    (rows : List (List Text)) (row : List Text) (v rest : Text)
    → run (reading rows row [] plain) (quoted v ++ rest) ≡ run (reading rows row v closing) rest
unfolding quoted run step_in
run-quoted rows row v rest =
    ap (run (reading rows row [] inside)) (append_assoc (double_quotes v) (b'"' ∷ []) rest)
    ∙ run-double_quotes (reading rows row [] inside) v (b'"' ∷ rest) refl

-- A row of quoted fields, with more text behind it.
run-row :
    (rows : List (List Text)) (row : List Text) (v : Text) (vs : List Text) (rest : Text)
    → (r : Reader) × (run
          (reading rows row [] plain)
          (join (text ",") (map quoted (v ∷ vs)) ++ rest)
        ≡ run r rest)
      × (r.mode ≡ closing)
      × (r.rows ≡ rows)
      × (ended r ≡ row ++ v ∷ vs)
unfolding join run step_in
run-row rows row v [] rest =
    (reading rows row v closing, run-quoted rows row v rest, refl, refl, refl)
run-row rows row v (w ∷ vs) rest =
    let (r, e, m, q, t) = run-row rows (row ++ v ∷ []) w vs rest in
    (
      r,
      ap (run (reading rows row [] plain)) (
            append_assoc (quoted v ++ text ",") (join (text ",") (map quoted (w ∷ vs))) rest
            ∙ append_assoc (quoted v) (text ",") (join (text ",") (map quoted (w ∷ vs)) ++ rest))
          ∙ run-quoted rows row v (b',' ∷ join (text ",") (map quoted (w ∷ vs)) ++ rest)
          ∙ e,
      m,
      q,
      t ∙ append_assoc row (v ∷ []) (w ∷ vs),
    )

abbrev finish : Reader → List (List Text)
finish r = r.rows ++ ended r ∷ []

end_row-fresh :
    (r : Reader) (rows : List (List Text)) (row : List Text) (s : Text)
    → r.mode ≡ closing
    → r.rows ≡ rows
    → ended r ≡ row
    → run r (b'\n' ∷ s) ≡ run (fresh (rows ++ row ∷ [])) s
unfolding run step_in
end_row-fresh r rows row s m q t =
    ap (λ x. run (step_in x r b'\n') s) m
    ∙ ap (λ a. run (fresh (a ++ ended r ∷ [])) s) q
    ∙ ap (λ b. run (fresh (rows ++ b ∷ [])) s) t

finish-last :
    (r : Reader) (rows : List (List Text)) (row : List Text)
    → r.rows ≡ rows
    → ended r ≡ row
    → finish (run r []) ≡ rows ++ row ∷ []
unfolding run
finish-last r rows row q t = ap (λ a. a ++ ended r ∷ []) q ∙ ap (λ b. rows ++ b ∷ []) t

abbrev csv_head : LogEntry → Text
csv_head e = or_empty e.timestamp

abbrev csv_tail : LogEntry → List Text
csv_tail e =
    map or_empty
      (e.level ∷ e.service ∷ e.request_id ∷ e.trace_id ∷ e.provider ∷ e.model ∷ e.message ∷ [])

run-lines :
    (rows : List (List Text)) (e : LogEntry) (es : List LogEntry)
    → finish (run (fresh rows) (join (b'\n' ∷ []) (map csv_line (e ∷ es))))
      ≡ rows ++ map cells (e ∷ es)
unfolding join csv_line cells
run-lines rows e [] =
    let (r, h, m, q, t) = run-row rows [] (csv_head e) (csv_tail e) [] in
    ap (λ s. finish (run (fresh rows) s)) (sym (append-nil (csv_line e)))
    ∙ ap finish h
    ∙ finish-last r rows (cells e) q t
run-lines rows e (f ∷ es) =
    let lines = join (b'\n' ∷ []) (map csv_line (f ∷ es)) in
    let (r, h, m, q, t) = run-row rows [] (csv_head e) (csv_tail e) (b'\n' ∷ lines) in
    ap (λ s. finish (run (fresh rows) s)) (append_assoc (csv_line e) (b'\n' ∷ []) lines)
    ∙ ap finish (h ∙ end_row-fresh r rows (cells e) lines m q t)
    ∙ run-lines (rows ++ cells e ∷ []) f es
    ∙ append_assoc rows (cells e ∷ []) (map cells (f ∷ es))

-- Reading the CSV export gives the names of the columns and then the cells of each entry, in order,
-- whatever quotes, commas and line ends the entries hold; a missing cell reads as empty.
pub read_csv-csv_text :
    (entries : List LogEntry) → read_csv (csv_text entries) ≡ keys ∷ map cells entries
unfolding read_csv csv_text keys run step_in text_methods
read_csv-csv_text [] = refl
read_csv-csv_text (e ∷ es) = run-lines (keys ∷ []) e es

abbrev has_line_feed : Text → Bool
has_line_feed s = any (λ c. c == b'\n') s

split_lines-line : (s : Text) → has_line_feed s ≡ false → split_lines s ≡ s ∷ []
unfolding split_lines
split_lines-line [] h = refl
split_lines-line (c ∷ s) h = ground (arith, split_lines-line s)

split_lines-append :
    (s t : Text) → has_line_feed s ≡ false → split_lines (s ++ b'\n' ∷ t) ≡ s ∷ split_lines t
unfolding split_lines
split_lines-append [] t h = refl
split_lines-append (c ∷ s) t h = ground (arith, split_lines-append s t)

-- Cutting the NDJSON export at its line ends gives the entries one by one, as `JSON.stringify` printed
-- them: if there is an entry, and if what it prints has no line feed.
pub split_lines-ndjson_text :
    (stringify : LogEntry → Text) (e : LogEntry) (es : List LogEntry)
    → ((d : LogEntry) → has_line_feed (stringify d) ≡ false)
    → split_lines (ndjson_text stringify (e ∷ es)) ≡ map stringify (e ∷ es)
unfolding ndjson_text join
split_lines-ndjson_text stringify e [] h = split_lines-line (stringify e) (h e)
split_lines-ndjson_text stringify e (f ∷ es) h =
    ap split_lines
      (append_assoc (stringify e) (b'\n' ∷ []) (join (b'\n' ∷ []) (map stringify (f ∷ es))))
    ∙ split_lines-append (stringify e) (join (b'\n' ∷ []) (map stringify (f ∷ es))) (h e)
    ∙ ap (λ ls. stringify e ∷ ls) (split_lines-ndjson_text stringify f es h)
