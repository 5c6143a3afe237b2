-- ===== src/Fieldpath/Fields.antt =====
-- Operations on JSON objects.
use crossplane_runtime.Base.{
  ◌≡◌, refl, ap, inl, inr, Option, none, some, Bytes, equal, equal_iff, equal_refl, arith,
  if◌then◌else◌, Bool-cases, List, [], ◌∷◌,
}
use crossplane_runtime.Fieldpath.Value.{Value, Fields, end, entry}

unfoldable pub get : Fields → Bytes → Option Value
get end k = none
get (entry j v fs) k = if equal j k then some v else get fs k

-- `object[k] = v`
unfoldable pub set : Fields → Bytes → Value → Fields
set end k v = entry k v end
set (entry j w fs) k v = if equal j k then entry j v fs else entry j w (set fs k v)

-- `delete(object, k)`
unfoldable pub delete : Fields → Bytes → Fields
delete end k = end
delete (entry j v fs) k = if equal j k then delete fs k else entry j v (delete fs k)

-- The keys in the order in which a loop meets them.
unfoldable pub keys : Fields → List Bytes
keys end = []
keys (entry j v fs) = j ∷ keys fs

pub get-set :
    (fs : Fields) (k j : Bytes) (v : Value)
    → get (set fs k v) j ≡ (if equal k j then some v else get fs j)
unfolding get set
get-set end k j v = refl
get-set (entry i w fs) k j v =
    ground (arith, equal_iff k j, equal_iff i k, equal_iff i j, get-set fs k j v)

pub get-delete :
    (fs : Fields) (k j : Bytes) → get (delete fs k) j ≡ (if equal k j then none else get fs j)
unfolding get delete
get-delete end k j = ground arith
get-delete (entry i w fs) k j =
    ground (arith, equal_iff k j, equal_iff i k, equal_iff i j, get-delete fs k j)

pub set-get : (fs : Fields) (k : Bytes) {v : Value} → get fs k ≡ some v → set fs k v ≡ fs
unfolding get set
set-get end k h = cc
set-get (entry j w fs) k h = elim (Bool-cases (equal j k)) [
  | inl e ↦ rw e (let same = rw e at h in cc)
  | inr e ↦ rw e (ap (entry j w) (set-get fs k (rw e at h)))
]

pub get-set_self : (fs : Fields) (k : Bytes) (v : Value) → get (set fs k v) k ≡ some v
get-set_self fs k v = rw get-set (rw (equal_refl k))

pub get-delete_self : (fs : Fields) (k : Bytes) → get (delete fs k) k ≡ none
get-delete_self fs k = rw get-delete (rw (equal_refl k))
