-- ===== src/Api/Url.antt =====
-- Base URLs: `resolveBaseUrl` and the startup guard of frontend/lib/api.ts, `resolveWsUrl` of
-- frontend/lib/constants.ts. An environment variable that is not set is `none`.
use llmplane.Common.{
  ℕ, zero, suc, ◌+◌, Bool, true, ◌&&◌, not, [], ◌∷◌, ◌++◌, Option, none, some, Text, text,
  starts_with, ends_with, trim, strip_slashes, if◌then◌else◌, is_empty, ltb, leb,
}

unfoldable pub api_v1_prefix : Text
api_v1_prefix = text "/api/v1"

unfoldable pub fallback_base : Text
unfolding api_v1_prefix
fallback_base = text "http://localhost:8000" ++ api_v1_prefix

-- `(raw ?? "")`.
abbrev pub or_empty : Option Text → Text
or_empty none = []
or_empty (some s) = s

-- `(raw ?? "").trim().replace(/\/+$/, "")`.
unfoldable pub trimmed_url : Option Text → Text
unfolding trim strip_slashes
trimmed_url raw = strip_slashes (trim (or_empty raw))

-- The rest of `resolveBaseUrl`, on the trimmed value.
unfoldable pub base_of_trimmed : Text → Text
unfolding api_v1_prefix fallback_base
base_of_trimmed trimmed =
    if is_empty trimmed
    then fallback_base
    else if ends_with trimmed api_v1_prefix
    then trimmed
    else trimmed ++ api_v1_prefix

unfoldable pub resolve_base_url : Option Text → Text
unfolding trimmed_url base_of_trimmed
resolve_base_url raw = base_of_trimmed (trimmed_url raw)

unfoldable pub ws_of_trimmed : Text → Text
ws_of_trimmed raw =
    if is_empty raw
    then text "ws://localhost:8000/ws"
    else if ends_with raw (text "/ws")
    then raw
    else raw ++ text "/ws"

unfoldable pub resolve_ws_url : Option Text → Text
unfolding trimmed_url ws_of_trimmed
resolve_ws_url raw = ws_of_trimmed (trimmed_url raw)

-- `base.match(/\/api\//g)?.length ?? 0`: the matches are found from the left and do not overlap.
-- The first argument counts the characters of the last match that are still to be passed.
unfoldable pub count_api_from : ℕ → Text → ℕ
unfolding starts_with
count_api_from skip [] = 0
count_api_from (suc skip) (c ∷ s) = count_api_from skip s
count_api_from zero (c ∷ s) =
    let hit = suc (count_api_from 4 s) in
    let miss = count_api_from 0 s in if starts_with (c ∷ s) (text "/api/") then hit else miss

unfoldable pub occurrences : Text → ℕ
unfolding count_api_from
occurrences base = count_api_from 0 base

-- The `i` flag of `/^https?:\/\//i`, which touches the letters of the scheme only.
unfoldable pub lower : ℕ → ℕ
lower c = if leb b'A' c && leb c b'Z' then c + 32 else c

unfoldable pub lower_text : Text → Text
unfolding lower
lower_text [] = []
lower_text (c ∷ s) = lower c ∷ lower_text s

unfoldable pub has_scheme : Text → Bool
unfolding starts_with lower_text
has_scheme base =
    if starts_with (lower_text base) (text "http://")
    then true
    else starts_with (lower_text base) (text "https://")

-- What the guard writes to the console.
pub data Warning : Type 0 where
  no_scheme repeated_prefix : Warning

unfoldable pub guard_base : Text → Option Warning
unfolding has_scheme occurrences
guard_base base =
    if not (has_scheme base)
    then some no_scheme
    else if ltb 1 (occurrences base)
    then some repeated_prefix
    else none
