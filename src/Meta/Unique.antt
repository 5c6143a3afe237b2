-- ===== src/Meta/Unique.antt =====
-- `RemoveFinalizer` on finalizers that are there once.
use crossplane_runtime.Base.{
  ℕ, suc, ◌+◌, ◌-◌, ◌≡◌, refl, sym, ◌∙◌, ap, subst, true, false, inl, inr, some, List, [], ◌∷◌,
  ◌++◌, Bytes, equal, equal_iff, arith, length, take, drop, drop-drop, drop-append, take-append,
  length-append, append_assoc, All-append, if◌then◌else◌, Bool-cases,
}
use crossplane_runtime.Meta.{Object}
use crossplane_runtime.Meta.Finalizers.{finalizer_loop, shifted, remove_loop, remove_finalizer}
use crossplane_runtime.Meta.Removal.{
  UniqueFinalizers, Absent, loop-Absent, drop-Absent, remove_loop-Absent, remove_loop-find,
}

-- The finalizers but this one.
abbrev pub without : Bytes → List Bytes → List Bytes
without x [] = []
without x (e ∷ f) = if equal e x then without x f else e ∷ without x f

without-Absent : (x : Bytes) (f : List Bytes) → Absent x f → without x f ≡ f
without-Absent x [] h = refl
without-Absent x (e ∷ f) h = rw h.0 (ap (◌∷◌ e) (without-Absent x f h.1))

take-length : (f : List Bytes) → take (length f) f ≡ f
take-length [] = refl
take-length (e ∷ f) = ap (◌∷◌ e) (take-length f)

-- Where the finalizer stands.
record Split (x : Bytes) (f : List Bytes) : Type 0 where
  pre : List Bytes
  post : List Bytes
  whole : f ≡ pre ++ x ∷ post
  before : Absent x pre
  after : Absent x post
  left : without x f ≡ pre ++ post

finalizer_loop-Split :
    (x : Bytes) (f : List Bytes) → UniqueFinalizers f → finalizer_loop f x ≡ true → Split x f
unfolding finalizer_loop
finalizer_loop-Split x [] u h = cc
finalizer_loop-Split x (e ∷ f) u h = elim (Bool-cases (equal e x)) [
  | inl same ↦
      let its : e ≡ x = (equal_iff e x).0 same in
      let rest = loop-Absent f x (ap (finalizer_loop f) (sym its) ∙ u.0) in
      record {
        pre = [];
        post = f;
        whole = ap (λ y. y ∷ f) its;
        before = tt;
        after = rest;
        left = rw same (without-Absent x f rest);
      }
  | inr other ↦
      let s = finalizer_loop-Split x f u.1 (rw other at h) in
      record {
        pre = e ∷ s.pre;
        post = s.post;
        whole = ap (◌∷◌ e) s.whole;
        before = (other, s.before);
        after = s.after;
        left = rw other (ap (◌∷◌ e) s.left);
      }
]

-- What is behind the place in an array of which one element is left over.
leftover : (pre post : List Bytes) (x : Bytes) → List Bytes
leftover pre post x = drop (length (pre ++ x ∷ post) - 1) (pre ++ x ∷ post)

length-split :
    (pre post : List Bytes) (x : Bytes) → length (pre ++ x ∷ post) ≡ length pre + suc (length post)
length-split pre post x = length-append pre (x ∷ post)

drop-split :
    (pre post : List Bytes) (x : Bytes) (k : ℕ)
    → drop (length pre + k) (pre ++ x ∷ post) ≡ drop k (x ∷ post)
drop-split pre post x k =
    sym (drop-drop (length pre) k (pre ++ x ∷ post)) ∙ ap (drop k) (drop-append pre (x ∷ post))

shifted-split :
    (pre post : List Bytes) (x : Bytes)
    → shifted (length pre) (pre ++ x ∷ post) (length (pre ++ x ∷ post))
      ≡ pre ++ (post ++ drop (length (pre ++ x ∷ post) - 1) (pre ++ x ∷ post))
shifted-split pre post x =
    let left : length (pre ++ x ∷ post) - (length pre + 1) ≡ length post =
      omega (arith, length-split pre post x) in
    rw (take-append pre (x ∷ post)) (rw (drop-split pre post x 1) (rw left (rw (take-length post))))

tail-Absent :
    (pre post : List Bytes) (x : Bytes) (n : ℕ)
    → Absent x post
    → n ≡ length pre + length post
    → Absent x (drop 1 (post ++ drop n (pre ++ x ∷ post)))
tail-Absent pre [] x n h e =
    let there : n ≡ length pre + 0 = e in
    subst (λ m. Absent x (drop 1 (drop m (pre ++ x ∷ [])))) (sym there)
      (subst (λ l. Absent x (drop 1 l)) (sym (drop-split pre [] x 0)) tt)
tail-Absent pre (y ∷ post) x n h e =
    let there : n ≡ length pre + suc (length post) = e in
    All-append (λ z. equal z x ≡ false) post (drop n (pre ++ x ∷ y ∷ post)) h.1
      (subst (λ m. Absent x (drop m (pre ++ x ∷ y ∷ post))) (sym there)
        (subst (Absent x) (sym (drop-split pre (y ∷ post) x (suc (length post))))
          (drop-Absent x (length post) (y ∷ post) h)))

drop-behind : (pre r : List Bytes) → drop (length pre + 1) (pre ++ r) ≡ drop 1 r
drop-behind pre r = sym (drop-drop (length pre) 1 (pre ++ r)) ∙ ap (drop 1) (drop-append pre r)

remove_loop-split :
    (pre post : List Bytes) (x : Bytes)
    → Absent x pre
    → Absent x post
    → remove_loop (length (pre ++ x ∷ post)) x 0 (pre ++ x ∷ post, length (pre ++ x ∷ post))
      ≡ some (
        shifted (length pre) (pre ++ x ∷ post) (length (pre ++ x ∷ post)),
        length (pre ++ x ∷ post) - 1,
      )
remove_loop-split pre post x before after =
    let n = length (pre ++ x ∷ post) in
    let size : n ≡ length pre + suc (length post) = length-split pre post x in
    ap (λ r. remove_loop r x 0 (pre ++ x ∷ post, n)) size
    ∙ remove_loop-find pre post x 0 (length pre) n (length post) (pre ++ x ∷ post) refl before
        (omega arith) (omega arith)
    ∙ remove_loop-Absent (length post) x (length pre + 1) (n - 1)
        (shifted (length pre) (pre ++ x ∷ post) n)
        (subst (λ l. Absent x (drop (length pre + 1) l)) (sym (shifted-split pre post x))
          (subst (Absent x) (sym (drop-behind pre (post ++ drop (n - 1) (pre ++ x ∷ post))))
            (tail-Absent pre post x (n - 1) after (omega arith))))

take-shifted :
    (pre post : List Bytes) (x : Bytes)
    → take
        (length (pre ++ x ∷ post) - 1)
        (shifted (length pre) (pre ++ x ∷ post) (length (pre ++ x ∷ post)))
      ≡ pre ++ post
take-shifted pre post x =
    let n = length (pre ++ x ∷ post) in
    let rest = drop (n - 1) (pre ++ x ∷ post) in
    let size : n - 1 ≡ length (pre ++ post) =
      omega (arith, length-split pre post x, length-append pre post) in
    ap (take (n - 1)) (shifted-split pre post x ∙ sym (append_assoc pre post rest))
    ∙ ap (λ m. take m ((pre ++ post) ++ rest)) size
    ∙ take-append (pre ++ post) rest

-- What is left of the finalizers, and the length of `f`.
LeavesWithout : Bytes → List Bytes → Type 0
LeavesWithout x f =
    (r : List Bytes × ℕ) × (remove_loop (length f) x 0 (f, length f) ≡ some r)
    × (take r.1 r.0 ≡ without x f)

Split-LeavesWithout : (x : Bytes) (f : List Bytes) → Split x f → LeavesWithout x f
unfolding LeavesWithout
Split-LeavesWithout x f s =
    let w = s.pre ++ x ∷ s.post in
    let kept : take (length w - 1) (shifted (length s.pre) w (length w)) ≡ without x f =
      take-shifted s.pre s.post x ∙ sym s.left in
    (
      (shifted (length s.pre) w (length w), length w - 1),
      ap (λ g. remove_loop (length g) x 0 (g, length g)) s.whole
          ∙ remove_loop-split s.pre s.post x s.before s.after,
      kept,
    )

unique-LeavesWithout : (x : Bytes) (f : List Bytes) → UniqueFinalizers f → LeavesWithout x f
unfolding LeavesWithout
unique-LeavesWithout x f u = elim (Bool-cases (finalizer_loop f x)) [
  | inl there ↦ Split-LeavesWithout x f (finalizer_loop-Split x f u there)
  | inr missing ↦
      let absent = loop-Absent f x missing in
      (
        (f, length f),
        remove_loop-Absent (length f) x 0 (length f) f absent,
        take-length f ∙ sym (without-Absent x f absent),
      )
]

-- `RemoveFinalizer`, on an object that has each finalizer once, does not panic, and leaves all other
-- finalizers in their order.
pub remove_finalizer-without :
    (o : Object) (x : Bytes)
    → UniqueFinalizers o.finalizers
    → remove_finalizer o x ≡ some (record o { finalizers = without x o.finalizers })
unfolding remove_finalizer LeavesWithout
remove_finalizer-without o x u =
    let (r, e, left) = unique-LeavesWithout x o.finalizers u in
    rw (e, remove_finalizer) (ap (λ f. some (record o { finalizers = f })) left)
