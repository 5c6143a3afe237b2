-- ===== src/Meta/Removal.antt =====
-- Adding and removing finalizers.
use crossplane_runtime.Base.{
  ℕ, zero, suc, ◌+◌, ◌-◌, ◌≤◌, ◌≡◌, refl, sym, ◌∙◌, ap, subst, true, false, ◌||◌, inl, inr, some,
  List, [], ◌∷◌, ◌++◌, Bytes, equal, equal_iff, equal_refl, arith, length, drop, drop-drop, All,
  leb, Bool-cases,
}
use crossplane_runtime.Meta.{Object}
use crossplane_runtime.Meta.Finalizers.{
  finalizer_loop, finalizer_exists, add_finalizer, shifted, remove_round, remove_loop,
}

finalizer_loop-append :
    (f g : List Bytes) (x : Bytes)
    → finalizer_loop (f ++ g) x ≡ (finalizer_loop f x || finalizer_loop g x)
unfolding finalizer_loop
finalizer_loop-append [] g x = refl
finalizer_loop-append (e ∷ f) g x = ground (arith, finalizer_loop-append f g x)

-- After `AddFinalizer` exactly the finalizers that were there and the one that was added exist.
pub finalizer_exists-add_finalizer :
    (o : Object) (f g : Bytes)
    → finalizer_exists (add_finalizer o f) g ≡ (finalizer_exists o g || equal f g)
unfolding finalizer_exists add_finalizer
finalizer_exists-add_finalizer o f g = elim (Bool-cases (finalizer_loop o.finalizers f)) [
  | inl there ↦ rw there (ground (arith, equal_iff f g, there))
  | inr missing ↦
      rw missing
        (finalizer_loop-append o.finalizers (f ∷ []) g ∙ (unfold finalizer_loop in ground arith))
]

-- Each finalizer is there once.
abbrev pub UniqueFinalizers : List Bytes → Type 0
UniqueFinalizers [] = Unit
UniqueFinalizers (e ∷ f) = (finalizer_loop f e ≡ false) × UniqueFinalizers f

append-UniqueFinalizers :
    (f : List Bytes) (x : Bytes)
    → UniqueFinalizers f
    → finalizer_loop f x ≡ false
    → UniqueFinalizers (f ++ x ∷ [])
unfolding finalizer_loop
append-UniqueFinalizers [] x u h = (refl, tt)
append-UniqueFinalizers (e ∷ f) x u h = (
  finalizer_loop-append f (x ∷ []) e ∙ ground (arith, u.0, equal_iff e x, equal_iff x e),
  append-UniqueFinalizers f x u.1 (ground arith),
)

-- `AddFinalizer` keeps each finalizer there once.
pub add_finalizer-UniqueFinalizers :
    (o : Object) (f : Bytes)
    → UniqueFinalizers o.finalizers
    → UniqueFinalizers (add_finalizer o f).finalizers
unfolding add_finalizer
add_finalizer-UniqueFinalizers o f u = elim (Bool-cases (finalizer_loop o.finalizers f)) [
  | inl there ↦ rw there u
  | inr missing ↦ rw missing (append-UniqueFinalizers o.finalizers f u missing)
]

-- The finalizer is not among these.
abbrev pub Absent : Bytes → List Bytes → Type 0
Absent x f = All (λ e. equal e x ≡ false) f

pub loop-Absent : (f : List Bytes) (x : Bytes) → finalizer_loop f x ≡ false → Absent x f
unfolding finalizer_loop
loop-Absent [] x h = tt
loop-Absent (e ∷ f) x h = (ground arith, loop-Absent f x (ground arith))

pub drop-Absent : (x : Bytes) (n : ℕ) (f : List Bytes) → Absent x f → Absent x (drop n f)
drop-Absent x zero f h = h
drop-Absent x (suc n) [] h = tt
drop-Absent x (suc n) (e ∷ f) h = drop-Absent x n f h.1

round-Absent :
    (x : Bytes) (i n : ℕ) (array rest : List Bytes)
    → drop i array ≡ rest
    → Absent x rest
    → remove_round x i (array, n) ≡ some (array, n)
round-Absent x i n array [] e h = rw (e, remove_round)
round-Absent x i n array (y ∷ rest) e h = rw (e, remove_round) (rw h.0)

round-here :
    (x : Bytes) (i n : ℕ) (array post : List Bytes)
    → drop i array ≡ x ∷ post
    → i + 1 ≤ n
    → remove_round x i (array, n) ≡ some (shifted i array n, n - 1)
round-here x i n array post e h =
    rw (e, remove_round) (rw (equal_refl x) (let le : leb (i + 1) n ≡ true = ground arith in rw le))

-- A round that goes on.
loop-round :
    (rounds : ℕ) (x : Bytes) (i : ℕ) (s : List Bytes × ℕ) {t : List Bytes × ℕ}
    → remove_round x i s ≡ some t
    → remove_loop (suc rounds) x i s ≡ remove_loop rounds x (i + 1) t
unfolding remove_loop
loop-round rounds x i s e = rw (e, remove_loop)

-- The rounds change nothing once the finalizer is not in what is left of the array.
pub remove_loop-Absent :
    (rounds : ℕ) (x : Bytes) (i n : ℕ) (array : List Bytes)
    → Absent x (drop i array)
    → remove_loop rounds x i (array, n) ≡ some (array, n)
remove_loop-Absent zero x i n array h = unfold remove_loop in refl
remove_loop-Absent (suc rounds) x i n array h =
    loop-round rounds x i (array, n) (round-Absent x i n array (drop i array) refl h)
    ∙ remove_loop-Absent rounds x (i + 1) n array
        (subst (Absent x) (drop-drop i 1 array) (drop-Absent x 1 (drop i array) h))

-- The rounds up to the one that finds the finalizer, after some that did not.
pub remove_loop-find :
    (pre post : List Bytes) (x : Bytes) (i j n k : ℕ) (array : List Bytes)
    → drop i array ≡ pre ++ x ∷ post
    → Absent x pre
    → j ≡ i + length pre
    → j + 1 ≤ n
    → remove_loop (length pre + suc k) x i (array, n)
      ≡ remove_loop k x (j + 1) (shifted j array n, n - 1)
remove_loop-find [] post x i j n k array e h at le =
    let same : i ≡ j = omega arith in
    let one : zero + suc k ≡ suc k = omega arith in
    ap (λ r. remove_loop r x i (array, n)) one
    ∙ loop-round k x i (array, n) (round-here x i n array post e (omega arith))
    ∙ ap (λ m. remove_loop k x (m + 1) (shifted m array n, n - 1)) same
remove_loop-find (y ∷ pre) post x i j n k array e h at le =
    let one : suc (length pre) + suc k ≡ suc (length pre + suc k) = omega arith in
    ap (λ r. remove_loop r x i (array, n)) one
    ∙ loop-round (length pre + suc k) x i (array, n) (rw (e, remove_round) (rw h.0))
    ∙ remove_loop-find pre post x (i + 1) j n k array (sym (drop-drop i 1 array) ∙ ap (drop 1) e)
        h.1 (omega arith) le
