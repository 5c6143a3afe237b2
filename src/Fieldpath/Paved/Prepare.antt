-- ===== src/Fieldpath/Paved/Prepare.antt =====
-- What `prepareElement` and `prepareField` promise to the next round of a setter.
use crossplane_runtime.Base.{
  ℕ, ◌+◌, ◌-◌, ◌<◌, ◌≤◌, ◌≡◌, refl, sym, ◌∙◌, ap, subst, Option, none, some, ◌⊎◌, inl, inr, List,
  [], ◌∷◌, ◌++◌, arith, ltb, ltb→lt, ltb_false→le, if◌then◌else◌, Bool-cases, some_inj,
}
use crossplane_runtime.Fieldpath.Segment.{Segment, field, index, Segments}
use crossplane_runtime.Fieldpath.Value.{Value, null, array, object, Items, Fields, end}
use crossplane_runtime.Fieldpath.Items
use crossplane_runtime.Fieldpath.Fields
use crossplane_runtime.Fieldpath.Paved.{
  as_array, as_object, is_null, finished, fresh, grow, prepared_element, prepared_field, set_loop,
}

pub as_array-eq-some : (it : Value) {vs : Items} → as_array it ≡ some vs → it ≡ array vs
as_array-eq-some (array ws) h = ap array (some_inj h)
as_array-eq-some null h = cc
as_array-eq-some _ h = cc

pub as_object-eq-some : (it : Value) {fs : Fields} → as_object it ≡ some fs → it ≡ object fs
as_object-eq-some (object gs) h = ap object (some_inj h)
as_object-eq-some null h = cc
as_object-eq-some _ h = cc

-- The container has the place that the segment names, and nothing in it.
pub data Open : Value → Segment → Type 0 where
  open_index : (vs : Items) (i : ℕ) → Items.get vs i ≡ some null → Open (array vs) (index i)
  open_field : (fs : Fields) (k : List ℕ) → Fields.get fs k ≡ none → Open (object fs) (field k)

-- An array is long enough for the index.
abbrev pub Fits : Value → Segment → Type 0
Fits it (field k) = Unit
Fits it (index i) = (vs : Items) → as_array it ≡ some vs → i < Items.length vs

fresh-Open : (s : Segment) → Open (fresh s) s
fresh-Open (index i) = open_index (Items.make (i + 1)) i (Items.get-make (i + 1) i (omega arith))
fresh-Open (field k) = open_field end k (unfold Fields.get in refl)

pub Open-Fits : {it : Value} {s : Segment} → Open it s → Fits it s
Open-Fits (open_index vs i e) =
    λ ws h. subst (λ xs. i < Items.length xs) (some_inj h) (Items.get-lt vs i e)
Open-Fits (open_field fs k e) = tt

-- A place that was prepared is as it was, or open for the next segment; and it is long enough.
pub record Prepared (before after : Value) (next : Segment) : Type 0 where
  pub same_or_open : (after ≡ before) ⊎ Open after next
  pub fits : Fits after next

Prepared-self : (it : Value) (next : Segment) → Fits it next → Prepared it it next
Prepared-self it next h = record { same_or_open = inl refl; fits = h }

Prepared-Open :
    (before : Value) {after : Value} {next : Segment} → Open after next → Prepared before after next
Prepared-Open before h = record { same_or_open = inr h; fits = Open-Fits h }

extended-Open :
    (vs : Items) (i : ℕ)
    → Items.length vs ≤ i
    → Open (array (Items.append vs (Items.make (i - Items.length vs + 1)))) (index i)
extended-Open vs i h =
    let place : i ≡ Items.length vs + (i - Items.length vs) = omega arith in
    open_index _ i (
      ap (Items.get (Items.append vs (Items.make (i - Items.length vs + 1)))) place
      ∙ Items.get-append_right vs _ (i - Items.length vs)
      ∙ Items.get-make (i - Items.length vs + 1) (i - Items.length vs) (omega arith))

grow_index-Prepared :
    (it : Value) (i : ℕ) (o : Option Items)
    → as_array it ≡ o
    → Prepared it
        (elim o [
          | none ↦ it
          | some na ↦
              if ltb i (Items.length na)
              then it
              else array (Items.append na (Items.make (i - Items.length na + 1)))
        ])
        (index i)
grow_index-Prepared it i none e = Prepared-self it (index i) (λ vs h. let k = sym e ∙ h in cc)
grow_index-Prepared it i (some na) e = elim (Bool-cases (ltb i (Items.length na))) [
  | inl long ↦ rw long (
      Prepared-self it (index i)
        (λ vs h. subst (λ xs. i < Items.length xs) (some_inj (sym e ∙ h)) (ltb→lt _ _ long)))
  | inr short ↦ rw short (Prepared-Open it (extended-Open na i (ltb_false→le _ _ short)))
]

grow-Prepared : (it : Value) (next : Segment) → Prepared it (grow it next) next
unfolding grow
grow-Prepared it (field k) = Prepared-self it (field k) tt
grow-Prepared it (index i) = grow_index-Prepared it i (as_array it) refl

pub prepared_element-Prepared :
    (w : Value) (next : Segment) → Prepared w (prepared_element w next) next
unfolding prepared_element
prepared_element-Prepared w next = elim (Bool-cases (is_null w)) [
  | inl e ↦ rw e (Prepared-Open w (fresh-Open next))
  | inr e ↦ rw e (grow-Prepared w next)
]

prepared_element-null : (next : Segment) → Open (prepared_element null next) next
unfolding prepared_element
prepared_element-null next = fresh-Open next

-- Under a key: either a value that was there is prepared, or the new one is open.
pub prepared_field-some :
    (w : Value) (next : Segment) → Prepared w (prepared_field (some w) next) next
unfolding prepared_field
prepared_field-some w next = grow-Prepared w next

pub prepared_field-none : (next : Segment) → Open (prepared_field none next) next
unfolding prepared_field
prepared_field-none next = fresh-Open next

-- A setter goes all the way through an open place.
pub Open-finished :
    (rest passed : Segments) (v it : Value) (s : Segment)
    → Open it s
    → (set_loop passed it (s ∷ rest) v).1 ≡ finished
unfolding set_loop
Open-finished [] passed v it s (open_index vs i e) = rw (e, set_loop)
Open-finished [] passed v it s (open_field fs k e) = refl
Open-finished (next ∷ rest) passed v it s (open_index vs i e) =
    rw (e, set_loop)
      (Open-finished rest (passed ++ index i ∷ []) v (prepared_element null next) next
        (prepared_element-null next))
Open-finished (next ∷ rest) passed v it s (open_field fs k e) =
    rw (e, set_loop)
      (Open-finished rest (passed ++ field k ∷ []) v (prepared_field none next) next
        (prepared_field-none next))
