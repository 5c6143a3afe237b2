-- ===== src/Reference/Sorted.antt =====
-- pkg/reference/reference.go: the map from values to references, and `sortMapByKeys`.
use crossplane_runtime.Base.{
  ◌≡◌, refl, ap, ◌∙◌, suc, Bool, true, false, ◌&&◌, ◌||◌, none, List, [], ◌∷◌, Bytes, equal,
  equal_iff, ltb, ◌==◌, arith, All, length, map, if◌then◌else◌, Bool-cases, inl, inr,
}
use crossplane_runtime.Reference.{Reference}

-- `map[string]xpv1.Reference`, with one entry for each key.
abbrev pub ValueMap : Type 0
ValueMap = List (Bytes × Reference)

-- `m[k] = r`
unfoldable pub put_value : ValueMap → Bytes → Reference → ValueMap
put_value [] k r = (k, r) ∷ []
put_value ((j, s) ∷ m) k r = if equal j k then (j, r) ∷ m else (j, s) ∷ put_value m k r

-- `m[k]`, which is the empty reference where there is none.
unfoldable pub at : ValueMap → Bytes → Reference
at [] k = record { name = []; policy = none }
at ((j, s) ∷ m) k = if equal j k then s else at m k

abbrev pub keys : ValueMap → List Bytes
keys [] = []
keys ((k, r) ∷ m) = k ∷ keys m

-- The order of strings.
unfoldable pub less : Bytes → Bytes → Bool
less x [] = false
less [] (y ∷ ys) = true
less (x ∷ xs) (y ∷ ys) = ltb x y || (x == y && less xs ys)

unfoldable pub insert : Bytes → List Bytes → List Bytes
insert k [] = k ∷ []
insert k (x ∷ xs) = let rest = insert k xs in if less k x then k ∷ x ∷ xs else x ∷ rest

-- `slices.Sorted`
unfoldable pub sorted : List Bytes → List Bytes
unfolding insert
sorted [] = []
sorted (k ∷ ks) = insert k (sorted ks)

unfoldable pub sort_map_by_keys : ValueMap → List Bytes × List Reference
unfolding sorted
sort_map_by_keys m = let ks = sorted (keys m) in (ks, map (at m) ks)

abbrev pub among : Bytes → List Bytes → Bool
among j [] = false
among j (k ∷ ks) = equal k j || among j ks

abbrev pub Unique : List Bytes → Type 0
Unique [] = Unit
Unique (k ∷ ks) = (among k ks ≡ false) × Unique ks

abbrev pub Ascending : List Bytes → Type 0
Ascending [] = Unit
Ascending (x ∷ xs) = All (λ y. less x y ≡ true) xs × Ascending xs

or_again : (a b : Bool) → (a || b) ≡ (a || (a || b))
or_again a b = ground arith

pub among-put_value :
    (m : ValueMap) (k : Bytes) (r : Reference) (j : Bytes)
    → among j (keys (put_value m k r)) ≡ (equal k j || among j (keys m))
unfolding put_value
among-put_value [] k r j = refl
among-put_value ((i, s) ∷ m) k r j = elim (Bool-cases (equal i k)) [
  | inl t ↦
      let same : i ≡ k = (equal_iff i k).0 t in
      rw (t, same) (or_again (equal k j) (among j (keys m)))
  | inr f ↦ rw f (ground (arith, among-put_value m k r j))
]

pub Unique-put_value :
    (m : ValueMap) (k : Bytes) (r : Reference) → Unique (keys m) → Unique (keys (put_value m k r))
unfolding put_value
Unique-put_value [] k r u = (refl, tt)
Unique-put_value ((i, s) ∷ m) k r u = elim (Bool-cases (equal i k)) [
  | inl t ↦ rw t u
  | inr f ↦ rw f (
    ground (arith, among-put_value m k r i, equal_iff i k, equal_iff k i, u.0),
    Unique-put_value m k r u.1,
  )
]

among-insert :
    (k : Bytes) (xs : List Bytes) (j : Bytes) → among j (insert k xs) ≡ (equal k j || among j xs)
unfolding insert
among-insert k [] j = refl
among-insert k (x ∷ xs) j = ground (arith, among-insert k xs j)

pub among-sorted : (ks : List Bytes) (j : Bytes) → among j (sorted ks) ≡ among j ks
unfolding sorted
among-sorted [] j = refl
among-sorted (k ∷ ks) j = ground (arith, among-insert k (sorted ks) j, among-sorted ks j)

pub less_trans : (x y z : Bytes) → less x y ≡ true → less y z ≡ true → less x z ≡ true
unfolding less
less_trans x [] z h i = absurd (let bad = h in cc)
less_trans x (b ∷ y) [] h i = absurd (let bad = i in cc)
less_trans [] (b ∷ y) (c ∷ z) h i = refl
less_trans (a ∷ x) (b ∷ y) (c ∷ z) h i = ground (arith, less_trans x y z)

pub less_total : (x y : Bytes) → less x y ≡ false → equal x y ≡ false → less y x ≡ true
unfolding less equal
less_total [] [] h e = absurd (let bad = e in cc)
less_total (a ∷ x) [] h e = refl
less_total [] (b ∷ y) h e = absurd (let bad = h in cc)
less_total (a ∷ x) (b ∷ y) h e = ground (arith, less_total x y)

All-insert :
    (x k : Bytes) (ys : List Bytes)
    → less x k ≡ true
    → All (λ y. less x y ≡ true) ys
    → All (λ y. less x y ≡ true) (insert k ys)
unfolding insert
All-insert x k [] h a = (h, tt)
All-insert x k (y ∷ ys) h a = elim (Bool-cases (less k y)) [
  | inl t ↦ rw t (h, a)
  | inr f ↦ rw f (a.0, All-insert x k ys h a.1)
]

All-trans :
    (k x : Bytes) (ys : List Bytes)
    → less k x ≡ true
    → All (λ y. less x y ≡ true) ys
    → All (λ y. less k y ≡ true) ys
All-trans k x [] h a = tt
All-trans k x (y ∷ ys) h a = (less_trans k x y h a.0, All-trans k x ys h a.1)

Ascending-insert :
    (k : Bytes) (xs : List Bytes) → among k xs ≡ false → Ascending xs → Ascending (insert k xs)
unfolding insert
Ascending-insert k [] new h = (tt, tt)
Ascending-insert k (x ∷ xs) new h = elim (Bool-cases (less k x)) [
  | inl t ↦ rw t ((t, All-trans k x xs t h.0), h)
  | inr f ↦
      let other : equal k x ≡ false = ground (arith, equal_iff k x, equal_iff x k) in
      rw f
        (All-insert x k xs (less_total k x f other) h.0, Ascending-insert k xs (ground arith) h.1)
]

pub Ascending-sorted : (ks : List Bytes) → Unique ks → Ascending (sorted ks)
unfolding sorted
Ascending-sorted [] u = tt
Ascending-sorted (k ∷ ks) u =
    Ascending-insert k (sorted ks) (among-sorted ks k ∙ u.0) (Ascending-sorted ks u.1)

pub length-map : (f : Bytes → Reference) (ks : List Bytes) → length (map f ks) ≡ length ks
length-map f [] = refl
length-map f (k ∷ ks) = ap suc (length-map f ks)
