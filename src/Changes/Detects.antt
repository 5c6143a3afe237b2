-- ===== src/Changes/Detects.antt =====
-- Which changes of annotations are detected.
use crossplane_runtime.Base.{
  suc, ◌≡◌, ◌≢◌, refl, sym, ◌∙◌, ap, inl, inr, Bool, true, false, not, Option, none, some, List, [],
  ◌∷◌, Bytes, equal, equal_iff, length, ◌==◌, ==_iff, arith, if◌then◌else◌, Bool-cases,
}
use crossplane_runtime.Meta.{Object, StringMap}
use crossplane_runtime.Meta.Maps.{lookup, erase, erase_all, read, value_or}
use crossplane_runtime.Changes.{copy_annotations, value_changed, maps_differ, annotation_changed}

-- Each key has one entry.
abbrev pub UniqueKeys : StringMap → Type 0
UniqueKeys [] = Unit
UniqueKeys ((k, v) ∷ m) = (lookup m k ≡ none) × UniqueKeys m

-- No key has the empty text.
abbrev pub NoEmptyValue : StringMap → Type 0
NoEmptyValue [] = Unit
NoEmptyValue ((k, v) ∷ m) = (v ≢ []) × NoEmptyValue m

lookup-erase :
    (m : StringMap) (k j : Bytes) → lookup (erase m k) j ≡ (if equal k j then none else lookup m j)
unfolding lookup erase
lookup-erase [] k j = ground arith
lookup-erase ((i, w) ∷ m) k j =
    ground (arith, equal_iff k j, equal_iff i k, equal_iff i j, lookup-erase m k j)

erase-absent : (m : StringMap) (k : Bytes) → lookup m k ≡ none → erase m k ≡ m
unfolding lookup erase
erase-absent [] k h = refl
erase-absent ((i, w) ∷ m) k h = elim (Bool-cases (equal i k)) [
  | inl t ↦ absurd (let bad = rw t at h in cc)
  | inr f ↦ rw f (ap (◌∷◌ (i, w)) (erase-absent m k (rw f at h)))
]

length-erase :
    (m : StringMap) (k v : Bytes)
    → UniqueKeys m
    → lookup m k ≡ some v
    → suc (length (erase m k)) ≡ length m
unfolding lookup erase
length-erase [] k v u h = absurd (let bad = h in cc)
length-erase ((i, w) ∷ m) k v u h = elim (Bool-cases (equal i k)) [
  | inl t ↦
      let same : i ≡ k = (equal_iff i k).0 t in
      rw t (ap (λ x. suc (length x)) (erase-absent m k (ap (lookup m) (sym same) ∙ u.0)))
  | inr f ↦ rw f (ap suc (length-erase m k v u.1 (rw f at h)))
]

erase-UniqueKeys : (m : StringMap) (k : Bytes) → UniqueKeys m → UniqueKeys (erase m k)
unfolding erase
erase-UniqueKeys [] k u = tt
erase-UniqueKeys ((i, w) ∷ m) k u = elim (Bool-cases (equal i k)) [
  | inl t ↦ rw t (erase-UniqueKeys m k u.1)
  | inr f ↦ rw f (lookup-erase m k i ∙ ground (arith, u.0), erase-UniqueKeys m k u.1)
]

erase-NoEmptyValue : (m : StringMap) (k : Bytes) → NoEmptyValue m → NoEmptyValue (erase m k)
unfolding erase
erase-NoEmptyValue [] k u = tt
erase-NoEmptyValue ((i, w) ∷ m) k u = elim (Bool-cases (equal i k)) [
  | inl t ↦ rw t (erase-NoEmptyValue m k u.1)
  | inr f ↦ rw f (u.0, erase-NoEmptyValue m k u.1)
]

both_pass : (b c : Bool) → (if not b then true else c) ≡ false → (b ≡ true) × (c ≡ false)
both_pass true c e = (refl, e)
both_pass false c e = absurd (let bad = e in cc)

value_changed-erase :
    (na oa : StringMap) (k : Bytes)
    → lookup na k ≡ none
    → value_changed na oa ≡ false
    → value_changed na (erase oa k) ≡ false
unfolding value_changed lookup
value_changed-erase [] oa k h e = refl
value_changed-erase ((j, v) ∷ na) oa k h e = elim (Bool-cases (equal j k)) [
  | inl t ↦ absurd (let bad = rw t at h in cc)
  | inr f ↦
      let (same, rest) = both_pass (equal (read (some oa) j) v) (value_changed na oa) e in
      let apart : equal k j ≡ false = ground (arith, equal_iff k j, equal_iff j k) in
      let kept : lookup (erase oa k) j ≡ lookup oa j = lookup-erase oa k j ∙ rw apart refl in
      rw (kept, same) (value_changed-erase na oa k (rw f at h) rest)
]

present : (o : Option Bytes) (v : Bytes) → v ≢ [] → value_or [] o ≡ v → o ≡ some v
present none v h e = absurd (h (sym e))
present (some w) v h e = ap some e

maps_differ-lookup :
    (na oa : StringMap) (k : Bytes)
    → UniqueKeys na
    → UniqueKeys oa
    → NoEmptyValue na
    → maps_differ na oa ≡ false
    → lookup na k ≡ lookup oa k
unfolding maps_differ lookup value_changed
maps_differ-lookup [] [] k un uo ne e = refl
maps_differ-lookup [] (x ∷ oa) k un uo ne e = absurd (let bad = e in ground arith)
maps_differ-lookup ((j, v) ∷ na) oa k un uo ne e =
    let (as_long, unchanged) = both_pass _ _ e in
    let (same, rest) = both_pass _ _ unchanged in
    let there : lookup oa j ≡ some v = present (lookup oa j) v ne.0 ((equal_iff _ v).0 same) in
    let shorter : (length na == length (erase oa j)) ≡ true =
      (==_iff (length na) (length (erase oa j))).1 (
        let full = (==_iff (suc (length na)) (length oa)).0 as_long in
        let less = length-erase oa j v uo there in omega arith) in
    let left : maps_differ na (erase oa j) ≡ false =
      rw shorter (value_changed-erase na oa j un.0 rest) in
    let others = maps_differ-lookup na (erase oa j) k un.1 (erase-UniqueKeys oa j uo) ne.1 left in
    elim (Bool-cases (equal j k)) [
      | inl t ↦ rw t (sym there ∙ ap (lookup oa) ((equal_iff j k).0 t))
      | inr f ↦ rw f (others ∙ lookup-erase oa j k ∙ rw f refl)
    ]

-- Whether the key is among these.
abbrev pub is_among : Bytes → List Bytes → Bool
is_among k [] = false
is_among k (j ∷ ks) = if equal j k then true else is_among k ks

lookup-erase_all :
    (ks : List Bytes) (m : StringMap) (k : Bytes)
    → is_among k ks ≡ false
    → lookup (erase_all m ks) k ≡ lookup m k
unfolding erase_all
lookup-erase_all [] m k h = refl
lookup-erase_all (j ∷ ks) m k h = elim (Bool-cases (equal j k)) [
  | inl t ↦ absurd (let bad = rw t at h in cc)
  | inr f ↦ lookup-erase_all ks (erase m j) k (rw f at h) ∙ lookup-erase m j k ∙ rw f refl
]

erase_all-UniqueKeys :
    (ks : List Bytes) (m : StringMap) → UniqueKeys m → UniqueKeys (erase_all m ks)
unfolding erase_all
erase_all-UniqueKeys [] m u = u
erase_all-UniqueKeys (j ∷ ks) m u = erase_all-UniqueKeys ks (erase m j) (erase-UniqueKeys m j u)

erase_all-NoEmptyValue :
    (ks : List Bytes) (m : StringMap) → NoEmptyValue m → NoEmptyValue (erase_all m ks)
unfolding erase_all
erase_all-NoEmptyValue [] m u = u
erase_all-NoEmptyValue (j ∷ ks) m u =
    erase_all-NoEmptyValue ks (erase m j) (erase-NoEmptyValue m j u)

-- When `Update` of an `AnnotationChangedPredicate` reports no change, for maps that have one entry for
-- each key, and new annotations that are not the empty text, then each annotation that is not ignored
-- is as before, or missing as before.
pub annotation_changed-Detects :
    (ignored : List Bytes) (old new : Object) (k : Bytes)
    → UniqueKeys (copy_annotations new.annotations)
    → UniqueKeys (copy_annotations old.annotations)
    → NoEmptyValue (copy_annotations new.annotations)
    → is_among k ignored ≡ false
    → annotation_changed ignored (record { object_old = some old; object_new = some new }) ≡ false
    → lookup (copy_annotations new.annotations) k ≡ lookup (copy_annotations old.annotations) k
unfolding annotation_changed
annotation_changed-Detects ignored old new k un uo ne h e =
    let na = copy_annotations new.annotations in
    let oa = copy_annotations old.annotations in
    sym (lookup-erase_all ignored na k h)
    ∙ maps_differ-lookup (erase_all na ignored) (erase_all oa ignored) k
        (erase_all-UniqueKeys ignored na un) (erase_all-UniqueKeys ignored oa uo)
        (erase_all-NoEmptyValue ignored na ne) e
    ∙ lookup-erase_all ignored oa k h
