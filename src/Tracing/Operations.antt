-- ===== src/Tracing/Operations.antt =====
-- What both tracing wrappers tell a span about an operation before they call the wrapped bucket.
use objstore.Prelude.{List, [], ◌∷◌, codes}
use objstore.Text.{Str}
use objstore.Go.{Outcome, returns, panics, Go}
use objstore.Bucket.Request.{Request, iter, get, get_range, has_object, attributes, upload, delete}
use objstore.Tracing.{Value, text, number}

-- the name of the span of a request, and what is logged before the wrapped bucket is called
unfoldable pub operation_name : {W : Type 0} → Request W → Str
operation_name (iter _ _ _) = codes "bucket_iter"
operation_name (get _) = codes "bucket_get"
operation_name (get_range _ _ _) = codes "bucket_getrange"
operation_name (has_object _) = codes "bucket_exists"
operation_name (attributes _) = codes "bucket_attributes"
operation_name (upload _ _) = codes "bucket_upload"
operation_name (delete _) = codes "bucket_delete"

unfoldable pub fields : {W : Type 0} → Request W → List (Str × Value)
fields (iter dir _ _) = (codes "dir", text dir) ∷ []
fields (get name) = (codes "name", text name) ∷ []
fields (get_range name off len) =
    (codes "name", text name) ∷ (codes "offset", number off) ∷ (codes "length", number len) ∷ []
fields (has_object name) = (codes "name", text name) ∷ []
fields (attributes name) = (codes "name", text name) ∷ []
fields (upload name _) = (codes "name", text name) ∷ []
fields (delete name) = (codes "name", text name) ∷ []

-- a result and what follows it
infixl 5 ◌then◌
abbrev pub ◌then◌ : {W A B : Type 0} → Outcome (A × W) → (A → Go W B) → Outcome (B × W)
◌then◌ x f = elim x [ returns (a, w) ↦ f a w | panics ↦ panics ]
