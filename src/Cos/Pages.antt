-- ===== src/Cos/Pages.antt =====
-- listObjects of the COS bucket, and the loop of Iter over what it sends.
use objstore.Prelude.{ℕ, zero, suc, Bool, Option, none, some, List, [], ◌∷◌, if◌then◌else◌, take}
use objstore.Text.{Str, str_eq, dir_delim}
use objstore.Errors.{Error}
use objstore.Go.{returns, Go, Ctx, Fallible}
use objstore.Bucket.{Callback}
use objstore.Inmem.Iter.{unless_error}
use objstore.Cos.Sdk.{ListOptions, Page, Client}

-- objectInfo
pub record ObjectInfo : Type 0 where
  pub key : Str
  pub err : Option Error

abbrev pub key_of : Str → ObjectInfo
key_of key = record { key = key; err = none }

abbrev pub error_of : Error → ObjectInfo
error_of e = record { key = []; err = some e }

-- the keys of a page, its common prefixes last, in front of what follows
unfoldable pub send_keys : List Str → List ObjectInfo → List ObjectInfo
send_keys [] rest = rest
send_keys (key ∷ keys) rest = key_of key ∷ send_keys keys rest

-- a round of the loop, with the rounds that follow
abbrev pub send_page : Fallible Page → (Str → Option (List ObjectInfo)) → Option (List ObjectInfo)
send_page (page, some e) next = some (error_of e ∷ [])
send_page (page, none) next =
    let after = next page.next_marker in
    let rest = if page.is_truncated then after else some [] in
    elim rest [
      | none ↦ none
      | some objects ↦ some (send_keys page.contents (send_keys page.common_prefixes objects))
    ]

-- the loop of listObjects; `none` where `fuel` pages do not end it
unfoldable pub list_pages :
    (ListOptions → Fallible Page) → ℕ → Str → Str → Str → Option (List ObjectInfo)
unfolding send_keys
list_pages list zero prefix delimiter marker = none
list_pages list (suc fuel) prefix delimiter marker =
    send_page
      (list (record { prefix = prefix; max_keys = 1000; marker = marker; delimiter = delimiter }))
      (list_pages list fuel prefix delimiter)

-- the objects that are sent until the context is done, which ends the channel
abbrev pub until_done : Option ℕ → List ObjectInfo → List ObjectInfo
until_done none objects = objects
until_done (some n) objects = take n objects

abbrev pub option_map : {A B : Type 0} → (A → B) → Option A → Option B
option_map f none = none
option_map f (some a) = some (f a)

-- listObjects: what the channel receives
unfoldable pub list_objects :
    {W R : Type 0} → Client W R → ℕ → Ctx W → Str → Bool → Option (List ObjectInfo)
unfolding list_pages
list_objects client fuel ctx prefix recursive =
    option_map (until_done (client.sends_until_done ctx))
      (list_pages (client.list ctx) fuel prefix (if recursive then [] else dir_delim) [])

-- the loop of Iter
unfoldable pub visit : {W : Type 0} → Callback W → List ObjectInfo → Go W (Option Error)
unfolding unless_error str_eq
visit f [] w = returns (none, w)
visit f (object ∷ objects) w =
    let rest = visit f objects in
    elim object.err [
      | some e ↦ returns (some e, w)
      | none ↦ if str_eq object.key [] then rest w else unless_error (f object.key w) rest
    ]
