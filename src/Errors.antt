-- ===== src/Errors.antt =====
-- Go's `error` values, and package github.com/pkg/errors as a parameter.
use objstore.Prelude.{String, ◌≡◌, ◌≢◌, Bool, true, false}
use objstore.Text.{Str}

mutual
  -- The error values of the repository. A message stands for the one place that makes it.
  pub data Error : Type 0 where
    -- errors.New
    new_error : String → Error
    -- errors.Errorf with one argument
    errorf : String → Str → Error
    -- errors.Wrap and errors.Wrapf around a cause
    wrapped : String → Error → Error
    -- io.EOF, context.Canceled, context.DeadlineExceeded, os.ErrNotExist
    eof canceled deadline_exceeded not_exist : Error
    -- errutil.NonNilMultiError
    multi : Errors → Error
    -- an error that code outside the repository returns
    foreign : String → Error

  pub data Errors : Type 0 where
    nil : Errors
    cons : Error → Errors → Errors

-- What package github.com/pkg/errors promises of `Is` and `Cause`: both look through `Wrap`, and
-- errors made by two calls of `New` differ.
pub record ErrorsPkg : Type 0 where
  pub is : Error → Error → Bool
  pub cause : Error → Error
  pub is_self : (e : Error) → is e e ≡ true
  pub is_wrapped : (m n : String) (e : Error) → is (wrapped m e) (new_error n) ≡ is e (new_error n)
  pub is_new : (m n : String) → m ≢ n → is (new_error m) (new_error n) ≡ false
  pub cause_wrapped : (m : String) (e : Error) → cause (wrapped m e) ≡ cause e
