-- ===== src/Project/Cycles/Complete.antt =====
-- The search of project_contract.py that rejects cyclic dependencies: what a refusal means.
use tugling.Prelude.{
  ℕ, zero, suc, ◌<◌, String, true, List, [], ◌∷◌, ◌≡◌, sym, subst, arith, length, elem, eq_iff,
  eq_refl, Bool-cases, inl, inr, str_eq, unseen, unseen-cons_lt, unseen-le-length,
}
use tugling.Project.Flows.{ContractError, Result, ok, raise, cycle, ◌>>=◌, >>=-eq-err}
use tugling.Project.Cycles.{visit, visit_each, visit_all}
use tugling.Project.Cycles.Sound.{Chain, one, more}

visit_each-eq-err :
    (go : List String → String → Result (List String)) (ds v : List String) (e : ContractError)
    → visit_each go v ds ≡ raise e
    → (d : String) × (w : List String) × (elem d ds ≡ true) × (go w d ≡ raise e)
unfolding visit_each
visit_each-eq-err go [] v e h = absurd (cc)
visit_each-eq-err go (d ∷ ds) v e h = elim (>>=-eq-err (go v d) (λ w. visit_each go w ds) h) [
  | inl now ↦ (d, v, ground (arith, eq_refl d), now)
  | inr (w, p, q) ↦ let (d', w', m, r) = visit_each-eq-err go ds w e q in (d', w', ground arith, r)
]

module _ (deps : String → List String) where
  Chain-snoc : {x y d : String} → Chain deps x y → elem d (deps y) ≡ true → Chain deps x d
  Chain-snoc (one h) k = more h (one k)
  Chain-snoc (more h c) k = more h (Chain-snoc c k)

  abbrev Cyclic : ContractError → Type 0
  Cyclic e = (e ≡ cycle) × ((x : String) × Chain deps x x)

  module _ (ids : List String)
      (closed : (x d : String)
        → elem x ids ≡ true
        → elem d (deps x) ≡ true
        → elem d ids ≡ true) where
    visit-Cyclic :
        (fuel : ℕ) (visiting v : List String) (x : String) (e : ContractError)
        → unseen visiting ids < fuel
        → elem x ids ≡ true
        → ((y : String) → elem y visiting ≡ true → Chain deps y x)
        → visit fuel deps visiting v x ≡ raise e
        → Cyclic e
    unfolding visit
    visit-Cyclic zero visiting v x e lt m path h = absurd (omega arith)
    visit-Cyclic (suc fuel) visiting v x e lt m path h = elim (Bool-cases (elem x visiting)) [
      | inl again ↦ (ground arith, (x, path x again))
      | inr fresh ↦
          let go = visit fuel deps (x ∷ visiting) in
          let k : (visit_each go v (deps x) >>= λ w. ok (x ∷ w)) ≡ raise e = ground arith in
          elim (>>=-eq-err (visit_each go v (deps x)) (λ w. ok (x ∷ w)) k) [
            | inr (w, p, q) ↦ absurd (cc)
            | inl failed ↦
                let (d, w, n, r) = visit_each-eq-err go (deps x) v e failed in
                let less = unseen-cons_lt x visiting ids m fresh in
                visit-Cyclic fuel (x ∷ visiting) w d e (omega arith) (closed x d m n)
                  (λ y k. elim (Bool-cases (str_eq y x)) [
                    | inl same ↦ subst (λ z. Chain deps z d) (sym ((eq_iff y x).0 same)) (one n)
                    | inr other ↦ Chain-snoc (path y (ground arith)) n
                  ])
                  r
          ]
    ]

    -- Where the dependencies of the listed names are listed and the fuel is above their number, the
    -- search can fail only with the error of a cycle, and then a name depends on itself through one
    -- step or more.
    pub visit_all-Cyclic :
        (fuel : ℕ) (e : ContractError)
        → length ids < fuel
        → visit_all fuel deps ids ≡ raise e
        → Cyclic e
    unfolding visit_all
    visit_all-Cyclic fuel e lt h =
        let (d, w, m, r) = visit_each-eq-err (visit fuel deps []) ids [] e h in
        let bound = unseen-le-length [] ids in
        visit-Cyclic fuel [] w d e (omega arith) m (λ y k. absurd (cc)) r
