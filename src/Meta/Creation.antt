-- ===== src/Meta/Creation.antt =====
-- What annotations tell after they were set.
use crossplane_runtime.Base.{
  ℕ, ◌≡◌, refl, ◌∙◌, ap, ◌≤◌, false, not, ◌&&◌, Option, none, some, [], ◌∷◌, Bytes, equal,
  equal_iff, equal_refl, arith, ltb, ◌==◌, if◌then◌else◌,
}
use crossplane_runtime.Meta.{Object, StringMap}
use crossplane_runtime.Meta.Maps.{
  set_external_create_failed, lookup, put, put_all, added, read, value_or, add_annotations,
  annotation, get_external_name, set_external_name, key_external_name, key_external_create_pending,
  key_external_create_succeeded, key_external_create_failed, Rfc3339, get_time,
  get_external_create_pending, set_external_create_pending, get_external_create_succeeded,
  set_external_create_succeeded, get_external_create_failed, external_create_incomplete,
}

lookup-put :
    (m : StringMap) (k j v : Bytes)
    → lookup (put m k v) j ≡ (if equal k j then some v else lookup m j)
unfolding lookup put
lookup-put [] k j v = refl
lookup-put ((i, w) ∷ m) k j v =
    ground (arith, equal_iff k j, equal_iff i k, equal_iff i j, lookup-put m k j v)

abbrev or_else : Option Bytes → Option Bytes → Option Bytes
or_else none o = o
or_else (some v) o = some v

lookup-put_all :
    (l m : StringMap) (k : Bytes) → lookup (put_all l m) k ≡ or_else (lookup m k) (lookup l k)
unfolding put_all lookup
lookup-put_all l [] k = refl
lookup-put_all l ((j, v) ∷ m) k =
    lookup-put (put_all l m) j k v ∙ ground (arith, lookup-put_all l m k)

read-added :
    (a : Option StringMap) (m : StringMap) (k : Bytes)
    → read (some (added a m)) k ≡ value_or (read a k) (lookup m k)
read-added none m k = refl
read-added (some l) m k = rw (lookup-put_all l m k) (ground arith)

-- After `AddAnnotations` an annotation reads as what was supplied for its key, or as before.
pub annotation-add_annotations :
    (o : Object) (m : StringMap) (k : Bytes)
    → annotation (add_annotations o m) k ≡ value_or (annotation o k) (lookup m k)
unfolding annotation add_annotations
annotation-add_annotations o m k = read-added o.annotations m k

set_one :
    (o : Object) (k v j : Bytes)
    → annotation (add_annotations o ((k, v) ∷ [])) j ≡ (if equal k j then v else annotation o j)
set_one o k v j = annotation-add_annotations o ((k, v) ∷ []) j ∙ (unfold lookup in ground arith)

-- `GetExternalName` returns what `SetExternalName` set.
pub get_external_name-set_external_name :
    (o : Object) (name : Bytes) → get_external_name (set_external_name o name) ≡ name
unfolding get_external_name set_external_name
get_external_name-set_external_name o name =
    set_one o key_external_name name key_external_name ∙ rw (equal_refl key_external_name)

module _ (time : Rfc3339) where
  open time use {format, parse, read_back, parse-format}

  get_time-set :
      (o : Object) (k j : Bytes) (t : ℕ)
      → get_time time (add_annotations o ((k, format t) ∷ [])) j
        ≡ (if equal k j then read_back t else get_time time o j)
  unfolding get_time
  get_time-set o k j t =
      ap (λ v. value_or 0 (parse v)) (set_one o k (format t) j) ∙ ground (arith, parse-format t)

  -- After `SetExternalCreatePending` creation counts as incomplete exactly if the time, as it is
  -- read back, is not zero and is after those of the last success and of the last failure.
  pub external_create_incomplete-pending :
      (o : Object) (t : ℕ)
      → external_create_incomplete time (set_external_create_pending time o t) ≡ (
          not (read_back t == 0)
          && (ltb (get_external_create_succeeded time o) (read_back t)
              && ltb (get_external_create_failed time o) (read_back t)))
  unfolding external_create_incomplete set_external_create_pending get_external_create_pending
      get_external_create_succeeded get_external_create_failed equal
  external_create_incomplete-pending o t =
      rw (get_time-set o key_external_create_pending key_external_create_pending t) (
        rw (get_time-set o key_external_create_pending key_external_create_succeeded t) (
          rw (get_time-set o key_external_create_pending key_external_create_failed t)
            (ground arith)))

  -- Once success is recorded at a time that, as it is read back, is not before the pending time,
  -- creation is not incomplete.
  pub external_create_incomplete-succeeded :
      (o : Object) (t : ℕ)
      → get_external_create_pending time o ≤ read_back t
      → external_create_incomplete time (set_external_create_succeeded time o t) ≡ false
  unfolding external_create_incomplete set_external_create_succeeded get_external_create_pending
      get_external_create_succeeded get_external_create_failed equal
  external_create_incomplete-succeeded o t h =
      rw (get_time-set o key_external_create_succeeded key_external_create_pending t) (
        rw (get_time-set o key_external_create_succeeded key_external_create_succeeded t) (
          rw (get_time-set o key_external_create_succeeded key_external_create_failed t)
            (ground arith)))

  -- The annotation that `SetExternalCreatePending` leaves.
  pub annotation-set_external_create_pending :
      (o : Object) (t : ℕ)
      → annotation (set_external_create_pending time o t) key_external_create_pending ≡ format t
  unfolding set_external_create_pending
  annotation-set_external_create_pending o t =
      set_one o key_external_create_pending (format t) key_external_create_pending
      ∙ rw (equal_refl key_external_create_pending)

  -- The annotation that `SetExternalCreateSucceeded` leaves.
  pub annotation-set_external_create_succeeded :
      (o : Object) (t : ℕ)
      → annotation (set_external_create_succeeded time o t) key_external_create_succeeded ≡ format t
  unfolding set_external_create_succeeded
  annotation-set_external_create_succeeded o t =
      set_one o key_external_create_succeeded (format t) key_external_create_succeeded
      ∙ rw (equal_refl key_external_create_succeeded)

  -- The annotation that `SetExternalCreateFailed` leaves.
  pub annotation-set_external_create_failed :
      (o : Object) (t : ℕ)
      → annotation (set_external_create_failed time o t) key_external_create_failed ≡ format t
  unfolding set_external_create_failed
  annotation-set_external_create_failed o t =
      set_one o key_external_create_failed (format t) key_external_create_failed
      ∙ rw (equal_refl key_external_create_failed)
