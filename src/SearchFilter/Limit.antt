-- ===== src/SearchFilter/Limit.antt =====
-- internal/searchfilter/policy/limit.go: the number of results.
use goncho.Prelude.{◌⊎◌, inl, ℕ, ◌≡◌, if◌then◌else◌, arith, refl}
use goncho.Prelude.Int.{◌≤ℤ◌, ℤ, pos, negsuc, not_positive, ltz}

abbrev default_search_limit : ℕ
default_search_limit = 10

abbrev max_search_limit : ℕ
max_search_limit = 100

unfoldable normalize_limit : ℤ → ℤ
normalize_limit limit =
    if not_positive limit
    then pos default_search_limit
    else if ltz (pos max_search_limit) limit
    then pos max_search_limit
    else limit

-- The limit stays a limit between 1 and 100 if it is one, is 10 if it was not positive, and 100 if it
-- was above 100.
normalize_limit_lem :
    (limit : ℤ)
    → ((limit ≤ℤ pos 0) × (normalize_limit limit ≡ pos 10))
      ⊎ ((pos 1 ≤ℤ limit) × (limit ≤ℤ pos 100) × (normalize_limit limit ≡ limit))
      ⊎ ((pos 101 ≤ℤ limit) × (normalize_limit limit ≡ pos 100))
unfolding normalize_limit
normalize_limit_lem (pos n) = ground arith
normalize_limit_lem (negsuc n) = inl (omega arith, refl)
