-- ===== src/Project/Cycles/Sound.antt =====
-- The search of project_contract.py that rejects cyclic dependencies: what acceptance means.
use tugling.Prelude.{
  ℕ, zero, suc, ◌<◌, ◌≤◌, String, true, List, [], ◌∷◌, ◌≡◌, refl, subst, sym, arith, length, all,
  elem, eq_iff, eq_refl, Bool-cases, inl, inr, if◌then◌else◌,
}
use tugling.Project.Flows.{Result, ok, ◌>>=◌, >>=-eq-ok}
use tugling.Project.Cycles.{visit, visit_each, visit_all}

-- One dependency step or more.
pub data Chain (deps : String → List String) : String → String → Type 0 where
  one : {x d : String} → elem d (deps x) ≡ true → Chain deps x d
  more : {x d y : String} → elem d (deps x) ≡ true → Chain deps d y → Chain deps x y

-- Every name stands before the names that it depends on.
abbrev pub IsOrdered : (String → List String) → List String → Type 0
IsOrdered deps [] = Unit
IsOrdered deps (x ∷ rest) = (all (λ d. elem d rest) (deps x) ≡ true) × IsOrdered deps rest

pub elem-of_all :
    (d : String) (rest ds : List String)
    → all (λ e. elem e rest) ds ≡ true
    → elem d ds ≡ true
    → elem d rest ≡ true
elem-of_all d rest [] h m = cc
elem-of_all d rest (e ∷ ds) h m = ground (arith, eq_iff d e, elem-of_all d rest ds)

module _ (deps : String → List String) where
  -- What a successful visit adds to the set of visited names.
  record Grows (v v' : List String) : Type 0 where
    ordered : IsOrdered deps v'
    kept : (x : String) → elem x v ≡ true → elem x v' ≡ true

  abbrev Visits : (List String → String → Result (List String)) → Type 0
  Visits go =
      (v : List String) (x : String) (v' : List String)
      → IsOrdered deps v
      → go v x ≡ ok v'
      → Grows v v' × (elem x v' ≡ true)

  visit_each-Grows :
      (go : List String → String → Result (List String))
      → Visits go
      → (ds v v' : List String) → IsOrdered deps v
      → visit_each go v ds ≡ ok v'
      → Grows v v' × (all (λ d. elem d v') ds ≡ true)
  unfolding visit_each
  visit_each-Grows go step [] v v' o h =
      let e : v ≡ v' = cc in
      (
        record {
          ordered = subst (IsOrdered deps) e o;
          kept = λ x m. subst (λ w. elem x w ≡ true) e m;
        },
        refl,
      )
  visit_each-Grows go step (d ∷ ds) v v' o h =
      let (v₁, p, q) = >>=-eq-ok (go v d) (λ w. visit_each go w ds) h in
      let (g₁, m₁) = step v d v₁ o p in
      let (g₂, m₂) = visit_each-Grows go step ds v₁ v' g₁.ordered q in
      (
        record { ordered = g₂.ordered; kept = λ x m. g₂.kept x (g₁.kept x m) },
        ground (arith, g₂.kept d m₁),
      )

  visit-Grows : (fuel : ℕ) (visiting : List String) → Visits (visit fuel deps visiting)
  unfolding visit
  visit-Grows zero visiting v x v' o h = cc
  visit-Grows (suc fuel) visiting v x v' o h = elim (Bool-cases (elem x visiting)) [
    | inl again ↦ absurd (ground arith)
    | inr fresh ↦ elim (Bool-cases (elem x v)) [
      | inl old ↦
          let e : v ≡ v' = ground arith in
          (
            record {
              ordered = subst (IsOrdered deps) e o;
              kept = λ y m. subst (λ w. elem y w ≡ true) e m;
            },
            subst (λ w. elem x w ≡ true) e old,
          )
      | inr new ↦
          let go = visit fuel deps (x ∷ visiting) in
          let k : (visit_each go v (deps x) >>= λ w. ok (x ∷ w)) ≡ ok v' = ground arith in
          let (v₁, p, q) = >>=-eq-ok (visit_each go v (deps x)) (λ w. ok (x ∷ w)) k in
          let (g, m) = visit_each-Grows go (visit-Grows fuel (x ∷ visiting)) (deps x) v v₁ o p in
          let e : x ∷ v₁ ≡ v' = cc in
          (
            record {
              ordered = subst (IsOrdered deps) e (m, g.ordered);
              kept = λ y n. subst (λ w. elem y w ≡ true) e (ground (arith, g.kept y n));
            },
            subst (λ w. elem x w ≡ true) e (ground (arith, eq_refl x)),
          )
    ]
  ]

  -- The place of a name, counted from the end of the list.
  pub rank : String → List String → ℕ
  rank x [] = 0
  rank x (y ∷ rest) = let r = rank x rest in if elem x rest then r else suc (length rest)

  rank-le-length : (x : String) (l : List String) → rank x l ≤ length l
  unfolding rank
  rank-le-length x [] = omega arith
  rank-le-length x (y ∷ rest) = ground (arith, rank-le-length x rest)

  -- In an ordered list a dependency has the smaller rank.
  pub rank-lt :
      (l : List String) (x d : String)
      → IsOrdered deps l
      → elem x l ≡ true
      → elem d (deps x) ≡ true
      → (elem d l ≡ true) × (rank d l < rank x l)
  unfolding rank
  rank-lt [] x d o m h = absurd (cc)
  rank-lt (y ∷ rest) x d o m h = elim (Bool-cases (elem x rest)) [
    | inl later ↦ let ih = rank-lt rest x d o.1 later h in ground (arith, ih)
    | inr here ↦
        let e : y ≡ x = ground (arith, eq_iff x y) in
        let k = elem-of_all d rest (deps y) o.0 (subst (λ z. elem d (deps z) ≡ true) (sym e) h) in
        ground (arith, k, rank-le-length d rest)
  ]

  Chain-rank-lt :
      (l : List String) (x y : String)
      → IsOrdered deps l
      → elem x l ≡ true
      → Chain deps x y
      → (elem y l ≡ true) × (rank y l < rank x l)
  Chain-rank-lt l x y o m (one h) = rank-lt l x y o m h
  Chain-rank-lt l x y o m (more {d = d} h c) =
      let (m₁, lt₁) = rank-lt l x d o m h in
      let (m₂, lt₂) = Chain-rank-lt l d y o m₁ c in (m₂, omega arith)

  pub visit_all-IsOrdered :
      (fuel : ℕ) (ids v : List String)
      → visit_all fuel deps ids ≡ ok v
      → IsOrdered deps v × (all (λ x. elem x v) ids ≡ true)
  unfolding visit_all
  visit_all-IsOrdered fuel ids v h =
      let (g, m) = visit_each-Grows (visit fuel deps []) (visit-Grows fuel []) ids [] v tt h in
      (g.ordered, m)

  -- Where the search accepts, no listed name depends on itself through any number of steps.
  pub visit_all-acyclic :
      (fuel : ℕ) (ids v : List String) (x : String)
      → visit_all fuel deps ids ≡ ok v
      → elem x ids ≡ true
      → ¬ Chain deps x x
  visit_all-acyclic fuel ids v x h m c =
      let (o, included) = visit_all-IsOrdered fuel ids v h in
      let (_, lt) = Chain-rank-lt v x x o (elem-of_all x v ids included m) c in omega arith
