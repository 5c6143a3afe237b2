-- ===== src/Names/Stable.antt =====
-- The listing of sorted names does not depend on their order.
use crossplane_runtime.Base.{
  ℕ, ◌≡◌, refl, ◌∙◌, ap, inl, inr, true, false, List, [], ◌∷◌, Bytes, equal_iff, if◌then◌else◌,
  Bool-cases, arith,
}
use mathlib.Core.List.{Permᴰ}
use mathlib.Core.List.Permᴰ.{nil, cons, swap, trans}
use crossplane_runtime.Names.{first_n_and_some_more, stable_n_and_some_more}
use crossplane_runtime.Reference.Sorted.{less, insert, sorted, less_trans, less_total}

less_asym : (x y : Bytes) → less x y ≡ true → less y x ≡ false
unfolding less
less_asym [] [] h = refl
less_asym (a ∷ x) [] h = absurd (let bad = h in cc)
less_asym [] (b ∷ y) h = refl
less_asym (a ∷ x) (b ∷ y) h = ground (arith, less_asym x y)

two_heads :
    (a b : Bytes) (l : List Bytes)
    → (if less a b then a ∷ b ∷ l else b ∷ a ∷ l) ≡ (if less b a then b ∷ a ∷ l else a ∷ b ∷ l)
two_heads a b l =
    ground (arith, less_asym a b, less_asym b a, less_total a b, less_total b a, equal_iff a b)

insert_comm : (a b : Bytes) (xs : List Bytes) → insert a (insert b xs) ≡ insert b (insert a xs)
unfolding insert
insert_comm a b [] = two_heads a b []
insert_comm a b (x ∷ xs) = elim (Bool-cases (less a x)) [
  | inl ta ↦ elim (Bool-cases (less b x)) [
    | inl tb ↦ rw (ta, tb, ta) (two_heads a b (x ∷ xs))
    | inr fb ↦
        let after : less b a ≡ false = ground (arith, less_trans b a x) in
        rw (ta, fb, ta, after) refl
  ]
  | inr fa ↦ elim (Bool-cases (less b x)) [
    | inl tb ↦
        let after : less a b ≡ false = ground (arith, less_trans a b x) in
        rw (fa, tb, after, fa) refl
    | inr fb ↦ rw (fa, fb, fa) (ap (◌∷◌ x) (insert_comm a b xs))
  ]
]

sorted-Perm : {xs ys : List Bytes} → Permᴰ xs ys → sorted xs ≡ sorted ys
unfolding sorted
sorted-Perm nil = refl
sorted-Perm (cons e p) = rw (e, sorted-Perm p) refl
sorted-Perm (swap {a' = c} {b' = d} {l = l} e f) = rw (e, f) (insert_comm d c (sorted l))
sorted-Perm (trans p q) = sorted-Perm p ∙ sorted-Perm q

-- `StableNAndSomeMore` gives the same text for the same names in any order.
pub stable_n_and_some_more-Perm :
    (n : ℕ) (xs ys : List Bytes)
    → Permᴰ xs ys
    → stable_n_and_some_more n xs ≡ stable_n_and_some_more n ys
unfolding stable_n_and_some_more
stable_n_and_some_more-Perm n xs ys p = ap (first_n_and_some_more n) (sorted-Perm p)
