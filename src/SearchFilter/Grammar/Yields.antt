-- ===== src/SearchFilter/Grammar/Yields.antt =====
-- What a test says of every expression that the parser returns, through the parser's own combinators.
use goncho.Prelude.{◌≡◌, Bool, true, ◌&&◌, refl, arith}
use goncho.Prelude.Result.{Result, ok, err}
use goncho.SearchFilter.Contracts.{
  and_kind, Expression, Expressions, nil, cons, UnsupportedFilterError,
}
use goncho.SearchFilter.Grammar.{
  Parsed, all_expression, logical_expression, collapse_implicit_and, with_child, collapsed,
}

-- If there is a result, the test has the given value at it.
abbrev pub Yields : {A : Type 0} → Result UnsupportedFilterError A → (A → Bool) → Bool → Type 0
Yields {A} r test b = (a : A) → r ≡ ok a → test a ≡ b

pub err-Yields :
    {A : Type 0} (e : UnsupportedFilterError) (test : A → Bool) (b : Bool) → Yields (err e) test b
err-Yields e test b a h = cc

pub ok-Yields :
    {A : Type 0} (a : A) (test : A → Bool) (b : Bool) → test a ≡ b → Yields (ok a) test b
ok-Yields a test b e a' h = ground (arith, e)

-- A test on expressions, and the one on lists of them that asks it of each.
module _ (test : Expression → Bool) (tests : Expressions → Bool) (tests_nil : tests nil ≡ true)
    (tests_cons : (e : Expression) (es : Expressions)
      → tests (cons e es) ≡ (test e && tests es)) where
  pub with_child-Yields :
      (child : Parsed) (rest : Result UnsupportedFilterError Expressions) (b c : Bool)
      → Yields child test b
      → Yields rest tests c
      → Yields (with_child child rest) tests (b && c)
  with_child-Yields (err e) rest b c first others = err-Yields e tests (b && c)
  with_child-Yields (ok child) (err e) b c first others = err-Yields e tests (b && c)
  with_child-Yields (ok child) (ok children) b c first others =
      ok-Yields (cons child children) tests (b && c)
        (ground (arith, tests_cons child children, first child refl, others children refl))

  module _ (test_all : test all_expression ≡ true)
      (test_and : (es : Expressions) → test (logical_expression and_kind es) ≡ tests es) where
    pub collapse-Yields : (es : Expressions) → test (collapse_implicit_and es) ≡ tests es
    unfolding collapse_implicit_and
    collapse-Yields nil = ground (arith, test_all, tests_nil)
    collapse-Yields (cons child nil) = ground (arith, tests_cons child nil, tests_nil)
    collapse-Yields (cons child (cons next es)) = test_and (cons child (cons next es))

    pub collapsed-Yields :
        (r : Result UnsupportedFilterError Expressions) (b : Bool)
        → Yields r tests b
        → Yields (collapsed r) test b
    collapsed-Yields (err e) b h = err-Yields e test b
    collapsed-Yields (ok es) b h =
        ok-Yields (collapse_implicit_and es) test b (ground (arith, collapse-Yields es, h es refl))
