-- ===== src/Meta/Maps.antt =====
-- Labels and annotations, and what is kept in annotations: the external name, the times of
-- external creation, and whether reconciliation is paused. An object shares no map with the caller.
use crossplane_runtime.Base.{
  ℕ, ◌+◌, ◌≡◌, Bool, false, Option, none, some, List, [], ◌∷◌, Bytes, codes, equal, ltb, ◌==◌,
  if◌then◌else◌,
}
use crossplane_runtime.Meta.{Object, StringMap}

abbrev pub key_external_name : Bytes
key_external_name = codes "crossplane.io/external-name"

abbrev pub key_external_create_pending : Bytes
key_external_create_pending = codes "crossplane.io/external-create-pending"

abbrev pub key_external_create_succeeded : Bytes
key_external_create_succeeded = codes "crossplane.io/external-create-succeeded"

abbrev pub key_external_create_failed : Bytes
key_external_create_failed = codes "crossplane.io/external-create-failed"

abbrev pub key_reconciliation_paused : Bytes
key_reconciliation_paused = codes "crossplane.io/paused"

unfoldable pub lookup : StringMap → Bytes → Option Bytes
lookup [] k = none
lookup ((j, v) ∷ m) k = if equal j k then some v else lookup m k

unfoldable pub put : StringMap → Bytes → Bytes → StringMap
put [] k v = (k, v) ∷ []
put ((j, w) ∷ m) k v = if equal j k then (j, v) ∷ m else (j, w) ∷ put m k v

unfoldable pub erase : StringMap → Bytes → StringMap
erase [] k = []
erase ((j, v) ∷ m) k = if equal j k then erase m k else (j, v) ∷ erase m k

-- `for k, v := range m { l[k] = v }`, in an order in which the first entry of a key counts.
unfoldable pub put_all : StringMap → StringMap → StringMap
unfolding put
put_all l [] = l
put_all l ((k, v) ∷ m) = put (put_all l m) k v

unfoldable pub erase_all : StringMap → List Bytes → StringMap
unfolding erase
erase_all l [] = l
erase_all l (k ∷ ks) = erase_all (erase l k) ks

-- The map that adding leaves: the supplied one, where there was none.
abbrev pub added : Option StringMap → StringMap → StringMap
added none m = m
added (some l) m = put_all l m

abbrev pub removed : Option StringMap → List Bytes → Option StringMap
removed none ks = none
removed (some l) ks = some (erase_all l ks)

unfoldable pub add_labels : Object → StringMap → Object
unfolding put_all
add_labels o labels = record o { labels = some (added o.labels labels) }

unfoldable pub remove_labels : Object → List Bytes → Object
unfolding erase_all
remove_labels o labels = record o { labels = removed o.labels labels }

unfoldable pub add_annotations : Object → StringMap → Object
unfolding put_all
add_annotations o annotations = record o { annotations = some (added o.annotations annotations) }

unfoldable pub remove_annotations : Object → List Bytes → Object
unfolding erase_all
remove_annotations o annotations = record o { annotations = removed o.annotations annotations }

abbrev pub value_or {ℓ} : {A : Type ℓ} → A → Option A → A
value_or d none = d
value_or d (some v) = v

-- A key in a map that may be nil: a missing one reads as the empty text.
abbrev pub read : Option StringMap → Bytes → Bytes
read none k = []
read (some a) k = value_or [] (lookup a k)

-- `o.GetAnnotations()[k]`
unfoldable pub annotation : Object → Bytes → Bytes
unfolding lookup
annotation o k = read o.annotations k

unfoldable pub get_external_name : Object → Bytes
unfolding annotation
get_external_name o = annotation o key_external_name

unfoldable pub set_external_name : Object → Bytes → Object
unfolding add_annotations
set_external_name o name = add_annotations o ((key_external_name, name) ∷ [])

unfoldable pub is_paused : Object → Bool
unfolding annotation
is_paused o = equal (annotation o key_reconciliation_paused) (codes "true")

-- The package `time`, for times as numbers of nanoseconds, with 0 for the zero time, and a text for
-- each. What is read back of a time, `read_back`, is the time up to its fraction of a second, or the
-- zero time where RFC 3339 does not read its own text, as in years above 9999. No time is an empty
-- text.
pub record Rfc3339 : Type 0 where
  pub format : ℕ → Bytes
  pub parse : Bytes → Option ℕ
  pub read_back : ℕ → ℕ
  pub parse-format : (t : ℕ) → value_or 0 (parse (format t)) ≡ read_back t
  pub parse-empty : parse [] ≡ none

module _ (time : Rfc3339) where
  open time use {format, parse}

  -- What the three getters share: the zero time on an error.
  unfoldable pub get_time : Object → Bytes → ℕ
  unfolding annotation
  get_time o k = value_or 0 (parse (annotation o k))

  unfoldable pub get_external_create_pending : Object → ℕ
  unfolding get_time
  get_external_create_pending o = get_time o key_external_create_pending

  unfoldable pub set_external_create_pending : Object → ℕ → Object
  unfolding add_annotations
  set_external_create_pending o t = add_annotations o ((key_external_create_pending, format t) ∷ [])

  unfoldable pub get_external_create_succeeded : Object → ℕ
  unfolding get_time
  get_external_create_succeeded o = get_time o key_external_create_succeeded

  unfoldable pub set_external_create_succeeded : Object → ℕ → Object
  unfolding add_annotations
  set_external_create_succeeded o t =
      add_annotations o ((key_external_create_succeeded, format t) ∷ [])

  unfoldable pub get_external_create_failed : Object → ℕ
  unfolding get_time
  get_external_create_failed o = get_time o key_external_create_failed

  unfoldable pub set_external_create_failed : Object → ℕ → Object
  unfolding add_annotations
  set_external_create_failed o t = add_annotations o ((key_external_create_failed, format t) ∷ [])

  unfoldable pub external_create_incomplete : Object → Bool
  unfolding get_external_create_pending get_external_create_succeeded get_external_create_failed
  external_create_incomplete o =
      let pending = get_external_create_pending o in
      let succeeded = get_external_create_succeeded o in
      let failed = get_external_create_failed o in
      if pending == 0
      then false
      else ltb (if ltb succeeded failed then failed else succeeded) pending

  -- The current time is the first argument; `time.Since(t) < d` is written without a difference.
  unfoldable pub external_create_succeeded_during : ℕ → Object → ℕ → Bool
  unfolding get_external_create_succeeded
  external_create_succeeded_during now o d =
      let t = get_external_create_succeeded o in if t == 0 then false else ltb now (t + d)
