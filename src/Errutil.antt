-- ===== src/Errutil.antt =====
-- errutil/multierror.go: MultiError, a list of errors that is never nested.
pub mod Flat
use objstore.Prelude.{ℕ, zero, suc, ◌+◌, Option, none, some, ◌++◌, ltb, if◌then◌else◌, codes}
use objstore.Text.{Str}
use objstore.Text.Decimal.{decimal}
use objstore.Errors.{Error, multi, Errors, nil, cons}

-- `append(es, more...)`
unfoldable pub append : Errors → Errors → Errors
append nil more = more
append (cons e es) more = cons e (append es more)

-- MultiError.Add, on the list and the error that is added
unfoldable pub add : Errors → Option Error → Errors
unfolding append
add es none = es
add es (some (multi more)) = append es more
add es (some e) = append es (cons e nil)

-- MultiError.Err
unfoldable pub err : Errors → Option Error
err nil = none
err (cons e es) = some (multi (cons e es))

unfoldable pub count : Errors → ℕ
count nil = 0
count (cons e es) = suc (count es)

-- NonNilMultiError.Error; the parameter is the method Error of the other types of errors
unfoldable mutual
  unfolding count decimal

  pub error_text : (Error → Str) → Error → Str
  error_text message (multi es) =
      (if ltb 1 (count es) then decimal (count es) ++ codes " errors: " else codes "")
      ++ texts message zero es
  error_text message e = message e

  -- the loop of Error, from the index `i` on
  pub texts : (Error → Str) → ℕ → Errors → Str
  texts message i nil = codes ""
  texts message i (cons e es) =
      (if ltb 0 i then codes "; " else codes "") ++ error_text message e ++ texts message (i + 1) es
