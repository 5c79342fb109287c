-- ===== src/Auth/Middleware.antt =====
-- The test of frontend/middleware.ts. The middleware answers `NextResponse.next()` on both branches.
use llmplane.Common.{
  ◌≡◌, Bool, true, ◌||◌, List, [], ◌∷◌, Text, text, text_eq, starts_with, includes, any,
  text_methods, arith,
}

abbrev pub public_paths : List Text
public_paths = text "/" ∷ text "/api/" ∷ []

unfoldable pub is_let_through : Text → Bool
unfolding text_eq starts_with includes
is_let_through pathname =
    any (λ p. text_eq pathname p || starts_with pathname p) public_paths
    || (starts_with pathname (text "/_next")
        || (starts_with pathname (text "/favicon") || includes pathname (text ".")))

-- Each path that starts with a slash, as every one does, passes the test, by the first of the public paths.
is_let_through-slash : (rest : Text) → is_let_through (b'/' ∷ rest) ≡ true
unfolding is_let_through text_methods
is_let_through-slash rest = ground arith
