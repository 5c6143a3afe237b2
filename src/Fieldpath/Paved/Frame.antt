-- ===== src/Fieldpath/Paved/Frame.antt =====
-- The loop of a setter: what is found at paths which are neither the start of its own nor continue it.
use crossplane_runtime.Base.{
  ℕ, ◌≡◌, ◌≢◌, refl, sym, ◌∙◌, ap, subst, true, false, some, ◌⊎◌, inl, inr, List, [], ◌∷◌, ◌++◌,
  arith, ltb, ◌==◌, ==_iff, equal, equal_iff, Bool-cases, Option-cases,
}
use crossplane_runtime.Fieldpath.Segment.{Segment, field, index, Segments}
use crossplane_runtime.Fieldpath.Errors.{ok}
use crossplane_runtime.Fieldpath.Value.{Value, null, bool, array, object, Items, Fields}
use crossplane_runtime.Fieldpath.Items
use crossplane_runtime.Fieldpath.Fields
use crossplane_runtime.Fieldpath.Paved.{
  as_array, as_object, is_null, get_segment, get_loop, grow, prepared_element, prepared_field,
  set_loop,
}
use crossplane_runtime.Fieldpath.Paved.Prepare.{as_array-eq-some, as_object-eq-some}
use crossplane_runtime.Fieldpath.Paved.Set.{
  get_loop-index, get_loop-field, set_loop-no_array, set_loop-no_object,
}

-- The paths part at some segment.
abbrev pub Apart : Segments → Segments → Type 0
Apart [] t = ⊥
Apart (a ∷ s) [] = ⊥
Apart (a ∷ s) (b ∷ t) = (a ≢ b) ⊎ ((a ≡ b) × Apart s t)

pub get_array-cong :
    (q t : Segments) (vs ws : Items) (j : ℕ)
    → Items.get ws j ≡ Items.get vs j
    → get_loop q (array ws) (index j ∷ t) ≡ get_loop q (array vs) (index j ∷ t)
unfolding get_loop
get_array-cong q t vs ws j e = rw (e, get_segment)

pub get_object-cong :
    (q t : Segments) (fs gs : Fields) (k : List ℕ)
    → Fields.get gs k ≡ Fields.get fs k
    → get_loop q (object gs) (field k ∷ t) ≡ get_loop q (object fs) (field k ∷ t)
unfolding get_loop
get_object-cong q t fs gs k e = rw (e, get_segment)

pub get_index-some :
    (q t : Segments) (vs : Items) (j : ℕ) {w : Value}
    → get_loop q (array vs) (index j ∷ t) ≡ ok w
    → (v : Value) × (Items.get vs j ≡ some v)
unfolding get_loop
get_index-some q t vs j h = elim (Option-cases (Items.get vs j)) [
  | inl e ↦ let k = rw (e, get_segment) at h in cc
  | inr found ↦ found
]

pub get_array-field :
    (q t : Segments) (vs : Items) (k : List ℕ) {w : Value}
    → get_loop q (array vs) (field k ∷ t) ≡ ok w
    → ⊥
unfolding get_loop
get_array-field q t vs k h = cc

pub get_object-index :
    (q t : Segments) (fs : Fields) (i : ℕ) {w : Value}
    → get_loop q (object fs) (index i ∷ t) ≡ ok w
    → ⊥
unfolding get_loop
get_object-index q t fs i h = cc

get_null : (q t : Segments) (s : Segment) {w : Value} → get_loop q null (s ∷ t) ≡ ok w → ⊥
unfolding get_loop
get_null q t (index i) h = cc
get_null q t (field k) h = cc

is_null-eq : (v : Value) → is_null v ≡ true → v ≡ null
is_null-eq null h = refl
is_null-eq (bool b) h = cc
is_null-eq _ h = cc

append_keeps :
    (q t : Segments) (s : Segment) (vs ws : Items) {w : Value}
    → get_loop q (array vs) (s ∷ t) ≡ ok w
    → get_loop q (array (Items.append vs ws)) (s ∷ t) ≡ ok w
append_keeps q t (field k) vs ws h = absurd (get_array-field q t vs k h)
append_keeps q t (index j) vs ws h =
    let (v, e) = get_index-some q t vs j h in
    get_array-cong q t vs (Items.append vs ws) j
      (Items.get-append_left vs ws j (Items.get-lt vs j e))
    ∙ h

grow_keeps :
    (q t : Segments) (s next : Segment) (v : Value) {w : Value}
    → get_loop q v (s ∷ t) ≡ ok w
    → get_loop q (grow v next) (s ∷ t) ≡ ok w
unfolding grow
grow_keeps q t s (field k) v h = h
grow_keeps q t s (index i) v {w} h = elim (Option-cases (as_array v)) [
  | inl other ↦ rw (other, grow) h
  | inr (na, e) ↦ elim (Bool-cases (ltb i (Items.length na))) [
    | inl long ↦ rw (e, grow) (rw long h)
    | inr short ↦
        rw (e, grow)
          (rw short (
            append_keeps q t s na _
              (subst (λ x. get_loop q x (s ∷ t) ≡ ok w) (as_array-eq-some v e) h)))
  ]
]

prepared_element_keeps :
    (q t : Segments) (s next : Segment) (v : Value) {w : Value}
    → get_loop q v (s ∷ t) ≡ ok w
    → get_loop q (prepared_element v next) (s ∷ t) ≡ ok w
unfolding prepared_element
prepared_element_keeps q t s next v {w} h = elim (Bool-cases (is_null v)) [
  | inl e ↦ absurd (get_null q t s (subst (λ x. get_loop q x (s ∷ t) ≡ ok w) (is_null-eq v e) h))
  | inr e ↦ rw e (grow_keeps q t s next v h)
]

prepared_field_keeps :
    (q t : Segments) (s next : Segment) (v : Value) {w : Value}
    → get_loop q v (s ∷ t) ≡ ok w
    → get_loop q (prepared_field (some v) next) (s ∷ t) ≡ ok w
unfolding prepared_field
prepared_field_keeps q t s next v h = grow_keeps q t s next v h

-- What was found apart from `s` is found as before.
abbrev pub Keeps : Segments → Value → Value → Type 0
Keeps s before after =
    (q t : Segments) (w : Value)
    → Apart s t
    → get_loop q before t ≡ ok w
    → get_loop q after t ≡ ok w

pub Keeps-refl : (s : Segments) (it : Value) → Keeps s it it
Keeps-refl s it q t w apart h = h

same_index : (i j : ℕ) (s t : Segments) → i ≡ j → Apart (index i ∷ s) (index j ∷ t) → Apart s t
same_index i j s t e (inl ne) = absurd (ne (ap index e))
same_index i j s t e (inr (k, apart)) = apart

same_field : (i j : List ℕ) (s t : Segments) → i ≡ j → Apart (field i ∷ s) (field j ∷ t) → Apart s t
same_field i j s t e (inl ne) = absurd (ne (ap field e))
same_field i j s t e (inr (k, apart)) = apart

-- One place of a container is replaced.
pub Keeps-set_index :
    (rest : Segments) (vs : Items) (i : ℕ) (v c : Value)
    → Items.get vs i ≡ some v
    → Keeps rest v c
    → Keeps (index i ∷ rest) (array vs) (array (Items.set vs i c))
Keeps-set_index rest vs i v c e deeper q [] w apart h = elim apart [ ]
Keeps-set_index rest vs i v c e deeper q (field k ∷ t) w apart h =
    absurd (get_array-field q t vs k h)
Keeps-set_index rest vs i v c e deeper q (index j ∷ t) w apart h = elim (Bool-cases (i == j)) [
  | inl same ↦
      let p : i ≡ j = (==_iff i j).0 same in
      let place = get_loop-index q t vs j (ap (Items.get vs) (sym p) ∙ e) in
      get_loop-index q t (Items.set vs i c) j (
        ap (Items.get (Items.set vs i c)) (sym p) ∙ Items.get-set_self vs i c (Items.get-lt vs i e))
      ∙ deeper (q ++ index j ∷ []) t w (same_index i j rest t p apart) (sym place ∙ h)
  | inr other ↦
      get_array-cong q t vs (Items.set vs i c) j (Items.get-set_ne vs i j c (λ p. ground arith)) ∙ h
]

pub get_field-some :
    (q t : Segments) (fs : Fields) (k : List ℕ) {w : Value}
    → get_loop q (object fs) (field k ∷ t) ≡ ok w
    → (v : Value) × (Fields.get fs k ≡ some v)
unfolding get_loop
get_field-some q t fs k h = elim (Option-cases (Fields.get fs k)) [
  | inl e ↦ let k = rw (e, get_segment) at h in cc
  | inr found ↦ found
]

pub Keeps-set_field :
    (rest : Segments) (fs : Fields) (k : List ℕ) (c : Value)
    → ((v : Value) → Fields.get fs k ≡ some v → Keeps rest v c)
    → Keeps (field k ∷ rest) (object fs) (object (Fields.set fs k c))
Keeps-set_field rest fs k c deeper q [] w apart h = elim apart [ ]
Keeps-set_field rest fs k c deeper q (index j ∷ t) w apart h = absurd (get_object-index q t fs j h)
Keeps-set_field rest fs k c deeper q (field j ∷ t) w apart h = elim (Bool-cases (equal k j)) [
  | inl same ↦
      let (v, e) = get_field-some q t fs j h in
      let p : k ≡ j = (equal_iff k j).0 same in
      get_loop-field q t (Fields.set fs k c) j (Fields.get-set fs k j c ∙ rw same)
      ∙ deeper v (ap (Fields.get fs) p ∙ e) (q ++ field j ∷ []) t w (same_field k j rest t p apart)
          (sym (get_loop-field q t fs j e) ∙ h)
  | inr other ↦
      get_object-cong q t fs (Fields.set fs k c) j (Fields.get-set fs k j c ∙ rw other) ∙ h
]

-- A value, what preparing makes of it, and what a setter makes of that.
Keeps-prepared :
    (rest : Segments) (v p c : Value)
    → ((q t : Segments) (s : Segment) (w : Value)
        → get_loop q v (s ∷ t) ≡ ok w
        → get_loop q p (s ∷ t) ≡ ok w)
    → Keeps rest p c
    → Keeps rest v c
Keeps-prepared [] v p c prepare keep q t w apart h = elim apart [ ]
Keeps-prepared (a ∷ rest) v p c prepare keep q [] w apart h = elim apart [ ]
Keeps-prepared (a ∷ rest) v p c prepare keep q (s ∷ t) w apart h =
    keep q (s ∷ t) w apart (prepare q t s w h)

set_array-Keeps :
    (vs : Items) (i : ℕ) (rest passed : Segments) (v : Value)
    → ((passed : Segments) (it : Value) → Keeps rest it (set_loop passed it rest v).0)
    → Keeps (index i ∷ rest) (array vs) (set_loop passed (array vs) (index i ∷ rest) v).0
unfolding set_loop
set_array-Keeps vs i [] passed v deeper = elim (Option-cases (Items.get vs i)) [
  | inl e ↦ rw (e, set_loop) (Keeps-refl (index i ∷ []) (array vs))
  | inr (w, e) ↦ rw (e, set_loop) (Keeps-set_index [] vs i w v e (λ q t x apart h. elim apart [ ]))
]
set_array-Keeps vs i (next ∷ rest) passed v deeper = elim (Option-cases (Items.get vs i)) [
  | inl e ↦ rw (e, set_loop) (Keeps-refl (index i ∷ next ∷ rest) (array vs))
  | inr (w, e) ↦
      rw (e, set_loop)
        (Keeps-set_index (next ∷ rest) vs i w _ e (
          Keeps-prepared (next ∷ rest) w (prepared_element w next) _
            (λ q t s x h. prepared_element_keeps q t s next w h)
            (deeper (passed ++ index i ∷ []) (prepared_element w next))))
]

set_object-Keeps :
    (fs : Fields) (k : List ℕ) (rest passed : Segments) (v : Value)
    → ((passed : Segments) (it : Value) → Keeps rest it (set_loop passed it rest v).0)
    → Keeps (field k ∷ rest) (object fs) (set_loop passed (object fs) (field k ∷ rest) v).0
unfolding set_loop
set_object-Keeps fs k [] passed v deeper =
    Keeps-set_field [] fs k v (λ w e q t x apart h. elim apart [ ])
set_object-Keeps fs k (next ∷ rest) passed v deeper = Keeps-set_field (next ∷ rest) fs k _ (λ w e.
    Keeps-prepared (next ∷ rest) w (prepared_field (Fields.get fs k) next) _
      (λ q t s x h. rw e (prepared_field_keeps q t s next w h))
      (deeper (passed ++ field k ∷ []) (prepared_field (Fields.get fs k) next)))

-- The loop of a setter, on any value.
pub set_loop-Keeps : (s passed : Segments) (it v : Value) → Keeps s it (set_loop passed it s v).0
set_loop-Keeps [] passed it v = λ q t w apart h. absurd apart
set_loop-Keeps (index i ∷ rest) passed it v = elim (Option-cases (as_array it)) [
  | inl other ↦
      subst (λ r. Keeps (index i ∷ rest) it r.0) (sym (set_loop-no_array passed it i rest v other))
        (Keeps-refl (index i ∷ rest) it)
  | inr (vs, e) ↦
      subst (λ x. Keeps (index i ∷ rest) x (set_loop passed x (index i ∷ rest) v).0)
        (sym (as_array-eq-some it e))
        (set_array-Keeps vs i rest passed v (λ p x. set_loop-Keeps rest p x v))
]
set_loop-Keeps (field k ∷ rest) passed it v = elim (Option-cases (as_object it)) [
  | inl other ↦
      subst (λ r. Keeps (field k ∷ rest) it r.0) (sym (set_loop-no_object passed it k rest v other))
        (Keeps-refl (field k ∷ rest) it)
  | inr (fs, e) ↦
      subst (λ x. Keeps (field k ∷ rest) x (set_loop passed x (field k ∷ rest) v).0)
        (sym (as_object-eq-some it e))
        (set_object-Keeps fs k rest passed v (λ p x. set_loop-Keeps rest p x v))
]

field_inj : {k j : List ℕ} → field k ≡ field j → k ≡ j
field_inj h = cc

pub field_ne : (k j : List ℕ) → equal k j ≡ false → field k ≢ field j
field_ne k j h e = let same = (equal_iff k j).1 (field_inj e) in let bad = sym same ∙ h in cc
