-- ===== src/Project/Required/Closure.antt =====
-- What `required_flow_ids` of project_contract.py computes: a least closed set, in map order.
use tugling.Prelude.{
  suc, ◌+◌, ◌⊎◌, inl, inr, ◌↔◌, String, Bool, true, false, List, [], ◌∷◌, ◌≡◌, refl, subst, sym,
  arith, length, elem, keep, eq_iff, unseen-le-length, ◌&&◌, ◌∙◌, and-eq-true, length-map,
}
use tugling.Project.Flows.{Flow, ok, raise, missing_flow, >>=-eq-ok}
use tugling.Project.Required.{flow_ids, depends_on, close, required_from}
use tugling.Project.Required.Closing.{
  IsNeeded, named, depended, close-IsClosing, IsNeeded→elem, close_start, close_outcome,
  close-ne-missing,
}

elem-keep :
    (r xs : List String) (x : String) → elem x (keep (λ y. elem y r) xs) ≡ (elem x xs && elem x r)
elem-keep r [] x = refl
elem-keep r (y ∷ xs) x = ground (arith, eq_iff x y, elem-keep r xs x)

-- Where the computation of the required flows from some first names returns, a name is among the
-- result if and only if it is a flow's id and is needed: it is a first name, or a needed one
-- depends on it.
pub required_from-exact :
    (flows : List Flow) (first ids : List String) (x : String)
    → required_from flows first ≡ ok ids
    → (elem x ids ≡ true) ↔ ((elem x (flow_ids flows) ≡ true) × IsNeeded (depends_on flows) first x)
unfolding required_from
required_from-exact flows first ids x h =
    let deps = depends_on flows in
    let known = λ (y : String). elem y (flow_ids flows) in
    let (r, p, q) =
      >>=-eq-ok (close (suc (length flows + length first)) known deps first first)
        (λ required. ok (keep (λ y. elem y required) (flow_ids flows))) h in
    let inv = close-IsClosing deps first _ known first first r (close_start deps first) p in
    let e : keep (λ y. elem y r) (flow_ids flows) ≡ ids = cc in
    let k =
      subst (λ l. elem x l ≡ (elem x (flow_ids flows) && elem x r)) e
        (elem-keep r (flow_ids flows) x) in
    (
      λ m.
          let both = and-eq-true (elem x (flow_ids flows)) (elem x r) (sym k ∙ m) in
          (both.0, inv.needed x both.1),
      λ (m, n). let there = IsNeeded→elem deps first r x inv n in ground arith,
    )

-- Where every dependency names a flow, the computation returns or finds a first name that no flow
-- has.
pub required_from_outcome :
    (flows : List Flow) (first : List String)
    → ((x d : String) → elem d (depends_on flows x) ≡ true → elem d (flow_ids flows) ≡ true)
    → ((ids : List String) × (required_from flows first ≡ ok ids))
      ⊎ (required_from flows first ≡ raise missing_flow)
unfolding required_from
required_from_outcome flows first links =
    let m = unseen-le-length first (flow_ids flows) in
    elim (close_outcome (depends_on flows) (flow_ids flows) (λ x. elem x (flow_ids flows)) links
      (suc (length flows + length first)) first first
      (omega (arith, m, length-map flows (λ f. f.id)))) [
        | inl (r, p) ↦ inl (keep (λ x. elem x r) (flow_ids flows), rw p)
        | inr p ↦ inr (rw p)
      ]

-- Where the first names are also flows, the computation returns.
pub required_from_total :
    (flows : List Flow) (first : List String)
    → ((x d : String) → elem d (depends_on flows x) ≡ true → elem d (flow_ids flows) ≡ true)
    → ((x : String) → elem x first ≡ true → elem x (flow_ids flows) ≡ true)
    → (ids : List String) × (required_from flows first ≡ ok ids)
unfolding required_from
required_from_total flows first links here =
    let m = unseen-le-length first (flow_ids flows) in
    let known = λ (x : String). elem x (flow_ids flows) in
    let fuel = suc (length flows + length first) in
    elim (close_outcome (depends_on flows) (flow_ids flows) known links fuel first first
      (omega (arith, m, length-map flows (λ f. f.id)))) [
        | inl (r, p) ↦ (keep (λ x. elem x r) (flow_ids flows), rw p)
        | inr p ↦ absurd (close-ne-missing (depends_on flows) known links fuel first first here p)
      ]

IsNeeded-first :
    (deps : String → List String) (a b : List String) (x : String)
    → ((y : String) → elem y a ≡ true → elem y b ≡ true)
    → IsNeeded deps a x
    → IsNeeded deps b x
IsNeeded-first deps a b x sub (named h) = named (sub x h)
IsNeeded-first deps a b x sub (depended {x = y} n h) = depended (IsNeeded-first deps a b y sub n) h

Bool_ext : (a b : Bool) → (a ≡ true → b ≡ true) → (b ≡ true → a ≡ true) → a ≡ b
Bool_ext true b f g = sym (f refl)
Bool_ext false true f g = g refl
Bool_ext false false f g = refl

keep_congr :
    (p q : String → Bool) (xs : List String) → ((x : String) → p x ≡ q x) → keep p xs ≡ keep q xs
keep_congr p q [] h = refl
keep_congr p q (x ∷ xs) h = ground (arith, h x, keep_congr p q xs h)

-- The result does not depend on the order, or the repetitions, of the first names: the iteration
-- order of a Python set cannot change it.
pub required_from_order :
    (flows : List Flow) (a b ids ids' : List String)
    → ((x : String) → (elem x a ≡ true) ↔ (elem x b ≡ true))
    → required_from flows a ≡ ok ids
    → required_from flows b ≡ ok ids'
    → ids ≡ ids'
unfolding required_from
required_from_order flows a b ids ids' same h h' =
    let deps = depends_on flows in
    let all_ids = flow_ids flows in
    let known = λ (y : String). elem y all_ids in
    let run = λ (l : List String). close (suc (length flows + length l)) known deps l l in
    let out = λ (r : List String). keep (λ y. elem y r) all_ids in
    let (r, p, q) = >>=-eq-ok (run a) (λ r. ok (out r)) h in
    let (r', p', q') = >>=-eq-ok (run b) (λ r. ok (out r)) h' in
    let inv = close-IsClosing deps a _ known a a r (close_start deps a) p in
    let inv' = close-IsClosing deps b _ known b b r' (close_start deps b) p' in
    let eq : (x : String) → elem x r ≡ elem x r' = λ x.
      Bool_ext (elem x r) (elem x r')
        (λ m.
          IsNeeded→elem deps b r' x inv'
            (IsNeeded-first deps a b x (λ y. (same y).0) (inv.needed x m)))
        (λ m.
          IsNeeded→elem deps a r x inv
            (IsNeeded-first deps b a x (λ y. (same y).1) (inv'.needed x m))) in
    let e = keep_congr (λ y. elem y r) (λ y. elem y r') all_ids eq in cc
