-- ===== src/Tracing/Finishes.antt =====
-- How often a span is finished, and the readers below a tracingReadCloser.
use objstore.Prelude.{
  ℕ, suc, ◌==◌, ◌≡◌, refl, Bool, true, false, Option, List, [], ◌∷◌, arith, if◌then◌else◌,
}
use objstore.Text.{Str}
use objstore.Errors.{Error}
use objstore.Go.{returns}
use objstore.ReadCloser.{ReadClosers, Use, reads, closes}
use objstore.Tracing.{Value, SpanEvent, started, logged, recorded, finished, SpanLog}

-- how often the span with the number `n` is finished
unfoldable pub finishes : ℕ → List SpanEvent → ℕ
finishes n [] = 0
finishes n (finished m ∷ l) = if m == n then suc (finishes n l) else finishes n l
finishes n (started _ _ ∷ l) = finishes n l
finishes n (logged _ _ ∷ l) = finishes n l
finishes n (recorded _ _ ∷ l) = finishes n l

-- whether one of the uses is a Close
unfoldable pub any_closes : List Use → Bool
any_closes [] = false
any_closes (closes ∷ us) = true
any_closes (reads _ ∷ us) = any_closes us

module _ {W : Type 0} {R : Type 0} (l : SpanLog W) (rcs : ReadClosers W R) where
  -- Read and Close of the reader below return, and call no span.
  pub record IsQuiet : Type 0 where
    pub read_quiet :
        (len : ℕ) (rc : R) (w : W)
        → (x : ℕ × Option Error × R) × (w' : W) × (rcs.read len rc w ≡ returns (x, w'))
          × (l.events w' ≡ l.events w)
    pub close_quiet :
        (rc : R) (w : W)
        → (x : Option Error × R) × (w' : W) × (rcs.close rc w ≡ returns (x, w'))
          × (l.events w' ≡ l.events w)

module _ {W : Type 0} (l : SpanLog W) where
  pub finishes-logged :
      (n m : ℕ) (kvs : List (Str × Value)) (w : W)
      → finishes n (l.events (l.emit (logged m kvs) w)) ≡ finishes n (l.events w)
  finishes-logged n m kvs w = rw l.events-emit (unfold finishes in refl)

  pub finishes-finished :
      (n : ℕ) (w : W)
      → finishes n (l.events (l.emit (finished n) w)) ≡ suc (finishes n (l.events w))
  finishes-finished n w = rw l.events-emit (unfold finishes in ground arith)

  pub finishes-recorded :
      (n m : ℕ) (e : Error) (w : W)
      → finishes n (l.events (l.emit (recorded m e) w)) ≡ finishes n (l.events w)
  finishes-recorded n m e w = rw l.events-emit (unfold finishes in refl)

  pub finishes-started :
      (n m : ℕ) (name : Str) (w : W)
      → finishes n (l.events (l.emit (started m name) w)) ≡ finishes n (l.events w)
  finishes-started n m name w = rw l.events-emit (unfold finishes in refl)
