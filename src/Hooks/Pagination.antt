-- ===== src/Hooks/Pagination.antt =====
-- `usePaginatedQuery` of frontend/hooks/usePaginatedQuery.ts: the cursor, the request of a page, and
-- what the component is given. `encode` stands for `URLSearchParams`' encoding of a value.
use llmplane.Common.{
  ℕ, Bool, true, false, List, [], ◌++◌, Option, none, some, Text, text, is_empty, if◌then◌else◌,
}

-- `PaginatedResponse`, as it comes: the hook reads `items` and `total` as if they may be missing.
pub record Page (A : Type 0) : Type 0 where
  pub items : Option (List A)
  pub next_cursor : Option Text
  pub total : Option ℕ

-- A cursor that JavaScript takes for true: neither null nor the empty string.
unfoldable pub truthy : Option Text → Option Text
truthy none = none
truthy (some c) = if is_empty c then none else some c

module _ (encode : Text → Text) (show : ℕ → Text) where
  -- `queryFn`'s path.
  unfoldable pub page_path : Text → ℕ → Option Text → Text
  unfolding truthy
  page_path endpoint page_size cursor =
      endpoint
      ++ (text "?"
          ++ (elim (truthy cursor) [ none ↦ [] | some c ↦ text "cursor=" ++ (encode c ++ text "&") ]
              ++ (text "limit=" ++ show page_size)))

-- `goToFirstPage`.
unfoldable pub go_to_first_page : Option Text → Option Text
go_to_first_page cursor = none

module _ {A : Type 0} where
  abbrev pub cursor_of : Option (Page A) → Option Text
  cursor_of none = none
  cursor_of (some p) = p.next_cursor

  -- `items`, `total` and `hasNextPage`, of the query's data.
  unfoldable pub items : Option (Page A) → List A
  items none = []
  items (some p) = elim p.items [ none ↦ [] | some xs ↦ xs ]

  unfoldable pub total : Option (Page A) → ℕ
  total none = 0
  total (some p) = elim p.total [ none ↦ 0 | some n ↦ n ]

  unfoldable pub has_next_page : Option (Page A) → Bool
  unfolding truthy
  has_next_page page = elim (truthy (cursor_of page)) [ none ↦ false | some c ↦ true ]

  -- `nextPage`, on the cursor.
  unfoldable pub next_page : Option (Page A) → Option Text → Option Text
  unfolding truthy
  next_page page cursor = elim (truthy (cursor_of page)) [ none ↦ cursor | some c ↦ some c ]
