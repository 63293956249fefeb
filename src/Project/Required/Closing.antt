-- ===== src/Project/Required/Closing.antt =====
-- The loop of `required_flow_ids` of project_contract.py: what it adds, and that it ends.
use tugling.Prelude.{
  ℕ, zero, suc, ◌+◌, ◌≤◌, ◌<◌, ◌↔◌, ◌⊎◌, String, true, false, List, [], ◌∷◌, ◌≡◌, refl, subst,
  arith, length, elem, eq_iff, eq_refl, Bool-cases, inl, inr, unseen, unseen-cons_lt, if◌then◌else◌,
  str_eq, Bool, sym, ◌∙◌, if_true, if_false, ◌≢◌,
}
use tugling.Project.Flows.{ok, raise, missing_flow}
use tugling.Project.Required.{push_each, close}

-- A name that is needed: it is one of the first names, or a needed name depends on it.
pub data IsNeeded (deps : String → List String) (first : List String) : String → Type 0 where
  named : {x : String} → elem x first ≡ true → IsNeeded deps first x
  depended : {x d : String} → IsNeeded deps first x → elem d (deps x) ≡ true → IsNeeded deps first d

push_each-split :
    (x d : String) (ds required : List String)
    → (elem x ds ≡ true) ⊎ (elem x (if elem d required then required else d ∷ required) ≡ true)
    → (elem x (d ∷ ds) ≡ true) ⊎ (elem x required ≡ true)
push_each-split x d ds required (inl h) = inl (ground arith)
push_each-split x d ds required (inr h) = ground arith

push_each-join :
    (x d : String) (ds required : List String)
    → (elem x (d ∷ ds) ≡ true) ⊎ (elem x required ≡ true)
    → (elem x ds ≡ true) ⊎ (elem x (if elem d required then required else d ∷ required) ≡ true)
push_each-join x d ds required h = elim (Bool-cases (elem x ds)) [
  | inl later ↦ inl later
  | inr not_later ↦ inr (ground (arith, eq_iff x d))
]

push_each-elem :
    (ds required pending : List String) (x : String)
    → (elem x (push_each ds required pending).0 ≡ true)
      ↔ ((elem x ds ≡ true) ⊎ (elem x required ≡ true))
unfolding push_each
push_each-elem [] required pending x = (λ h. inr h, λ h. ground arith)
push_each-elem (d ∷ ds) required pending x =
    let known = elem d required in
    let ih =
      push_each-elem ds (if known then required else d ∷ required)
        (if known then pending else d ∷ pending) x in
    (λ h. push_each-split x d ds required (ih.0 h), λ h. ih.1 (push_each-join x d ds required h))

push_each-pending :
    (ds required pending : List String) (x : String)
    → elem x pending ≡ true
    → elem x (push_each ds required pending).1 ≡ true
unfolding push_each
push_each-pending [] required pending x h = h
push_each-pending (d ∷ ds) required pending x h = ground (
  arith,
  push_each-pending ds required pending x,
  push_each-pending ds (d ∷ required) (d ∷ pending) x,
)

-- What is new in the set is pending too.
push_each-new :
    (ds required pending : List String) (x : String)
    → elem x (push_each ds required pending).0 ≡ true
    → elem x required ≡ false
    → elem x (push_each ds required pending).1 ≡ true
unfolding push_each
push_each-new [] required pending x h n = cc
push_each-new (d ∷ ds) required pending x h n = ground (
  arith,
  push_each-new ds required pending x,
  push_each-new ds (d ∷ required) (d ∷ pending) x,
  push_each-pending ds (d ∷ required) (d ∷ pending) x,
)

-- A push makes `unseen` smaller by what it makes `pending` longer.
push_each_measure :
    (ids ds required pending : List String)
    → ((d : String) → elem d ds ≡ true → elem d ids ≡ true)
    → unseen (push_each ds required pending).0 ids + length (push_each ds required pending).1
      ≤ unseen required ids + length pending
unfolding push_each
push_each_measure ids [] required pending known = omega arith
push_each_measure ids (d ∷ ds) required pending known =
    let head = known d (ground (arith, eq_refl d)) in
    let tail : (e : String) → elem e ds ≡ true → elem e ids ≡ true =
      λ e m. known e (ground arith) in
    ground (
      arith,
      push_each_measure ids ds required pending tail,
      push_each_measure ids ds (d ∷ required) (d ∷ pending) tail,
      unseen-cons_lt d required ids head,
    )

module _ (deps : String → List String) (first : List String) where
  -- Of the loop: what it has is needed, and what is not pending has its dependencies.
  pub record IsClosing (required pending : List String) : Type 0 where
    starts : (x : String) → elem x first ≡ true → elem x required ≡ true
    pub needed : (x : String) → elem x required ≡ true → IsNeeded deps first x
    within : (x : String) → elem x pending ≡ true → elem x required ≡ true
    closed :
        (x d : String)
        → elem x required ≡ true
        → elem x pending ≡ false
        → elem d (deps x) ≡ true
        → elem d required ≡ true

  push_each-within :
      (ds required pending : List String) (x : String)
      → ((y : String) → elem y pending ≡ true → elem y required ≡ true)
      → elem x (push_each ds required pending).1 ≡ true
      → elem x (push_each ds required pending).0 ≡ true
  unfolding push_each
  push_each-within [] required pending x w h = w x h
  push_each-within (d ∷ ds) required pending x w h = elim (Bool-cases (elem d required)) [
    | inl known ↦ ground (arith, push_each-within ds required pending x w)
    | inr fresh ↦
        let w' : (y : String) → elem y (d ∷ pending) ≡ true → elem y (d ∷ required) ≡ true =
          λ y m. ground (arith, w y) in
        ground (arith, push_each-within ds (d ∷ required) (d ∷ pending) x w')
  ]

  step-closed :
      (required pending : List String) (x : String)
      → IsClosing required (x ∷ pending)
      → (y d : String) → elem y (push_each (deps x) required pending).0 ≡ true
      → elem y (push_each (deps x) required pending).1 ≡ false
      → elem d (deps y) ≡ true
      → elem d (push_each (deps x) required pending).0 ≡ true
  step-closed required pending x inv y d h n dep =
      let iff = λ (z : String). push_each-elem (deps x) required pending z in
      elim (Bool-cases (str_eq y x)) [
        | inl same ↦ (iff d).1 (inl (subst (λ z. elem d (deps z) ≡ true) ((eq_iff y x).0 same) dep))
        | inr other ↦ elim (Bool-cases (elem y required)) [
          | inl old ↦
              let out : elem y pending ≡ false =
                ground (arith, push_each-pending (deps x) required pending y) in
              (iff d).1 (inr (inv.closed y d old (ground arith) dep))
          | inr new ↦ let pushed = push_each-new (deps x) required pending y h new in absurd (cc)
        ]
      ]

  step-IsClosing :
      (required pending : List String) (x : String)
      → IsClosing required (x ∷ pending)
      → IsClosing (push_each (deps x) required pending).0 (push_each (deps x) required pending).1
  step-IsClosing required pending x inv =
      let new = push_each (deps x) required pending in
      let here = inv.within x (ground (arith, eq_refl x)) in
      let iff = λ (y : String). push_each-elem (deps x) required pending y in
      record {
        starts = λ y h. (iff y).1 (inr (inv.starts y h));
        needed = λ y h. elim ((iff y).0 h) [
          | inl dep ↦ depended (inv.needed x here) dep
          | inr old ↦ inv.needed y old
        ];
        within = λ y h.
            push_each-within (deps x) required pending y (λ z m. inv.within z (ground arith)) h;
        closed = λ y d h n dep. step-closed required pending x inv y d h n dep;
      }

  pub close-IsClosing :
      (fuel : ℕ) (known : String → Bool) (required pending r : List String)
      → IsClosing required pending
      → close fuel known deps required pending ≡ ok r
      → IsClosing r []
  unfolding close
  close-IsClosing zero known required [] r inv h =
      let e : required ≡ r = cc in subst (λ l. IsClosing l []) e inv
  close-IsClosing zero known required (x ∷ pending) r inv h = absurd (cc)
  close-IsClosing (suc fuel) known required [] r inv h =
      let e : required ≡ r = cc in subst (λ l. IsClosing l []) e inv
  close-IsClosing (suc fuel) known required (x ∷ pending) r inv h =
      let new = push_each (deps x) required pending in
      elim (Bool-cases (known x)) [
        | inl here ↦
            close-IsClosing fuel known new.0 new.1 r (step-IsClosing required pending x inv)
              (sym (if_true (known x) _ _ here) ∙ h)
        | inr missing ↦ absurd (let k = sym (if_false (known x) _ _ missing) ∙ h in cc)
      ]

  -- A name is in the result exactly when it is needed.
  pub IsNeeded→elem :
      (r : List String) (x : String) → IsClosing r [] → IsNeeded deps first x → elem x r ≡ true
  IsNeeded→elem r x inv (named h) = inv.starts x h
  IsNeeded→elem r x inv (depended {x = y} n h) = inv.closed y x (IsNeeded→elem r y inv n) refl h

  pub close_start : IsClosing first first
  close_start = record {
    starts = λ x h. h;
    needed = λ x h. named h;
    within = λ x h. h;
    closed = λ x d h n dep. absurd (cc);
  }

-- The fuel suffices: each round takes one name from `pending`. The loop ends, or finds a name that
-- is not known.
pub close_outcome :
    (deps : String → List String) (ids : List String) (known : String → Bool)
    → ((x d : String) → elem d (deps x) ≡ true → elem d ids ≡ true)
    → (fuel : ℕ) (required pending : List String) → unseen required ids + length pending < fuel
    → ((r : List String) × (close fuel known deps required pending ≡ ok r))
      ⊎ (close fuel known deps required pending ≡ raise missing_flow)
unfolding close
close_outcome deps ids known links zero required pending lt = absurd (omega arith)
close_outcome deps ids known links (suc fuel) required [] lt = inl (required, refl)
close_outcome deps ids known links (suc fuel) required (x ∷ pending) lt =
    let new = push_each (deps x) required pending in
    let m = push_each_measure ids (deps x) required pending (links x) in
    elim (Bool-cases (known x)) [
      | inl here ↦ elim (close_outcome deps ids known links fuel new.0 new.1 (omega arith)) [
        | inl (r, p) ↦ inl (r, if_true (known x) _ _ here ∙ p)
        | inr p ↦ inr (if_true (known x) _ _ here ∙ p)
      ]
      | inr missing ↦ inr (if_false (known x) _ _ missing)
    ]

push_each-known :
    (known : String → Bool) (ds required pending : List String)
    → ((x : String) → elem x ds ≡ true → known x ≡ true)
    → ((x : String) → elem x pending ≡ true → known x ≡ true)
    → (x : String) → elem x (push_each ds required pending).1 ≡ true
    → known x ≡ true
unfolding push_each
push_each-known known [] required pending here waits x h = waits x h
push_each-known known (d ∷ ds) required pending here waits x h =
    let later : (y : String) → elem y ds ≡ true → known y ≡ true = λ y m. here y (ground arith) in
    elim (Bool-cases (elem d required)) [
      | inl old ↦ ground (arith, push_each-known known ds required pending later waits x)
      | inr new ↦
          let found = here d (ground (arith, eq_refl d)) in
          let waits' : (y : String) → elem y (d ∷ pending) ≡ true → known y ≡ true = λ y m.
            elim (Bool-cases (str_eq y d)) [
              | inl same ↦ subst (λ z. known z ≡ true) (sym ((eq_iff y d).0 same)) found
              | inr other ↦ waits y (ground arith)
            ] in
          ground (arith, push_each-known known ds (d ∷ required) (d ∷ pending) later waits' x)
    ]

-- Where the waiting names and all dependencies are known, no name is found missing.
pub close-ne-missing :
    (deps : String → List String) (known : String → Bool)
    → ((x d : String) → elem d (deps x) ≡ true → known d ≡ true)
    → (fuel : ℕ) (required pending : List String)
    → ((x : String) → elem x pending ≡ true → known x ≡ true)
    → close fuel known deps required pending ≢ raise missing_flow
unfolding close
close-ne-missing deps known links zero required [] waits h = absurd (cc)
close-ne-missing deps known links zero required (x ∷ pending) waits h = absurd (cc)
close-ne-missing deps known links (suc fuel) required [] waits h = absurd (cc)
close-ne-missing deps known links (suc fuel) required (x ∷ pending) waits h =
    let here = waits x (ground (arith, eq_refl x)) in
    let new = push_each (deps x) required pending in
    close-ne-missing deps known links fuel new.0 new.1
      (push_each-known known (deps x) required pending (links x) (λ y m. waits y (ground arith)))
      (sym (if_true (known x) _ _ here) ∙ h)
