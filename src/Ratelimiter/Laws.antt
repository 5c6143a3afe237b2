-- ===== src/Ratelimiter/Laws.antt =====
-- A request that was limited once passes the next time.
use crossplane_runtime.Base.{
  ◌≡◌, refl, ◌∙◌, ap, inl, inr, true, false, List, [], ◌∷◌, Bytes, equal, equal_refl, equal_iff,
  All, arith, if◌then◌else◌, Bool-cases,
}
use crossplane_runtime.Ratelimiter.{
  ℤ, pos, negsuc, is_zero, is_positive, requeue_after, of_inner, Reconciler, State, member, remove,
  item_of, recorded, when, reconcile, reconcile_all,
}

member-remove :
    (xs : List Bytes) (x y : Bytes) → equal x y ≡ false → member (remove xs x) y ≡ member xs y
unfolding member remove
member-remove [] x y h = refl
member-remove (z ∷ xs) x y h =
    ground (arith, equal_iff x y, equal_iff z x, equal_iff z y, member-remove xs x y h)

positive-not_zero : (d : ℤ) → is_positive d ≡ true → is_zero d ≡ false
positive-not_zero (pos n) h = ground arith
positive-not_zero (negsuc n) h = refl

module _ {W : Type 0} (r : Reconciler W) where
  abbrev IsLimited : Bytes → State W → Type 0
  IsLimited req s = member s.limited (item_of r req) ≡ true

  reconcile-limited :
      (req : Bytes) (s : State W) → (reconcile r req s).1.limited ≡ (when r req s).1.limited
  unfolding reconcile
  reconcile-limited req s = elim (Bool-cases (is_positive (when r req s).0)) [
    | inl t ↦ rw t refl
    | inr f ↦ rw f refl
  ]

  when-limited :
      (req : Bytes) (s : State W)
      → (when r req s).1.limited ≡ (
          if member s.limited (item_of r req)
          then remove s.limited (item_of r req)
          else recorded r (r.wait (item_of r req) s.world).0 (item_of r req) s.limited)
  unfolding when
  when-limited req s = elim (Bool-cases (member s.limited (item_of r req))) [
    | inl t ↦ rw t refl
    | inr f ↦ rw f refl
  ]

  recorded-IsLimited :
      (d : ℤ) (item other : Bytes) (xs : List Bytes)
      → member xs other ≡ true
      → member (recorded r d item xs) other ≡ true
  unfolding member
  recorded-IsLimited d item other xs h = elim (Bool-cases (is_zero d)) [
    | inl t ↦ rw t h
    | inr f ↦ rw f (rw h (ground arith))
  ]

  reconcile-IsLimited :
      (req other : Bytes) (s : State W)
      → equal (item_of r other) (item_of r req) ≡ false
      → IsLimited req s
      → IsLimited req (reconcile r other s).1
  reconcile-IsLimited req other s h l =
      ap (λ xs. member xs (item_of r req)) (reconcile-limited other s ∙ when-limited other s)
      ∙ (elim (Bool-cases (member s.limited (item_of r other))) [
        | inl t ↦ rw t (member-remove s.limited (item_of r other) (item_of r req) h ∙ l)
        | inr f ↦ rw f (
            recorded-IsLimited (r.wait (item_of r other) s.world).0 (item_of r other)
              (item_of r req) s.limited l)
      ])

  reconcile_all-IsLimited :
      (req : Bytes) (others : List Bytes) (s : State W)
      → All (λ q. equal (item_of r q) (item_of r req) ≡ false) others
      → IsLimited req s
      → IsLimited req (reconcile_all r others s)
  reconcile_all-IsLimited req [] s h l = l
  reconcile_all-IsLimited req (q ∷ others) s h l =
      reconcile_all-IsLimited req others (reconcile r q s).1 h.1 (reconcile-IsLimited req q s h.0 l)

  -- The request is limited: it is not among the limited items, and the limiter has it wait.
  abbrev pub MustWait : Bytes → State W → Type 0
  MustWait req s =
      (member s.limited (item_of r req) ≡ false)
      × (is_positive (r.wait (item_of r req) s.world).0 ≡ true)

  waits-IsLimited :
      (req : Bytes) (s : State W) → MustWait req s → IsLimited req (reconcile r req s).1
  unfolding member
  waits-IsLimited req s h =
      ap (λ xs. member xs (item_of r req)) (reconcile-limited req s ∙ when-limited req s)
      ∙ rw
          (
            h.0,
            positive-not_zero (r.wait (item_of r req) s.world).0 h.1,
            equal_refl (item_of r req),
          )
          refl

  waits-Result :
      (req : Bytes) (s : State W)
      → MustWait req s
      → (reconcile r req s).0 ≡ requeue_after (r.wait (item_of r req) s.world).0
  unfolding reconcile when
  waits-Result req s h = rw (h.0, h.1) refl

  passes :
      (req : Bytes) (s : State W)
      → IsLimited req s
      → reconcile r req s ≡ (
          let out = r.inner req (r.forget (item_of r req) s.world) in
          (
            of_inner out.0.0 out.0.1,
            record { limited = remove s.limited (item_of r req); world = out.1 },
          ))
  unfolding reconcile when
  passes req s l = rw l refl

  -- A request that the limiter has wait is put off for that time; and when it comes again, after any
  -- requests with other items, it passes: the limiter is told to forget its item, the inner reconciler
  -- gives the result, and the item leaves the limited ones.
  pub reconcile_all-Passes :
      (req : Bytes) (others : List Bytes) (s : State W)
      → MustWait req s
      → All (λ q. equal (item_of r q) (item_of r req) ≡ false) others
      → ((reconcile r req s).0 ≡ requeue_after (r.wait (item_of r req) s.world).0)
        × (let later = reconcile_all r (req ∷ others) s in
            let out = r.inner req (r.forget (item_of r req) later.world) in
            reconcile r req later ≡ (
              of_inner out.0.0 out.0.1,
              record { limited = remove later.limited (item_of r req); world = out.1 },
            ))
  reconcile_all-Passes req others s h apart = (
    waits-Result req s h,
    passes req (reconcile_all r (req ∷ others) s)
        (reconcile_all-IsLimited req others (reconcile r req s).1 apart (waits-IsLimited req s h)),
  )
