-- ===== src/Rules/Depth/Descents.antt =====
-- calculateInheritanceDepth of class_max_inheritance_depth.go gives the number of classes on the longest
-- descent.
use merm.Prelude.{
  ℕ, zero, suc, ◌≤◌, ◌≡◌, ◌⊎◌, ◌↔◌, inl, inr, refl, sym, ◌∙◌, subst, String, true, false, Option,
  some, List, [], ◌∷◌, arith, Bool-cases, eq_iff, contains, ltb, Any, if◌then◌else◌,
}
use merm.Model.{Edge}
use merm.Rules.State.Search.{HasEdge}
use merm.Rules.Cycles.Invariant.{fresh, fresh_less}
use merm.Rules.Depth.{children, deepest_child, calculate_inheritance_depth}

-- `n` classes, of which the first is `x`, each the child of the one in front, all different and none
-- visited.
pub data Descent (edges : List Edge) : List String → String → ℕ → Type 0 where
  stop : {v : List String} {x : String} → contains x v ≡ false → Descent edges v x 1
  down :
      {v : List String} {x y : String} {n : ℕ}
      → contains x v ≡ false
      → HasEdge edges y x
      → Descent edges (x ∷ v) y n
      → Descent edges v x (suc n)

-- The longest descent from a class, or 0 for a visited one.
pub record Longest (edges : List Edge) (v : List String) (x : String) (n : ℕ) : Type 0 where
  pub reached : ((contains x v ≡ true) × (n ≡ 0)) ⊎ Descent edges v x n
  pub least : (k : ℕ) → Descent edges v x k → k ≤ n

children_iff :
    (edges : List Edge) (x y : String) → Any (λ c. c ≡ y) (children edges x) ↔ HasEdge edges y x
unfolding children
children_iff [] x y = ground arith
children_iff (e ∷ edges) x y = ground (arith, eq_iff e.to x, children_iff edges x y)

-- What the loop over some children finds.
record Deepest (edges : List Edge) (v cs : List String) (most : ℕ) (r : Option ℕ) : Type 0 where
  n : ℕ
  returns : r ≡ some n
  above : most ≤ n
  from : (n ≡ most) ⊎ ((y : String) × Any (λ c. c ≡ y) cs × Descent edges v y n)
  least : (y : String) (k : ℕ) → Any (λ c. c ≡ y) cs → Descent edges v y k → k ≤ n

visited_none :
    {edges : List Edge} {v : List String} {x : String} {k : ℕ}
    → Descent edges v x k
    → contains x v ≡ false
visited_none (Descent.stop e) = e
visited_none (Descent.down e h d) = e

module _ (edges : List Edge) (v : List String) (depth : String → Option ℕ) where
  -- the call on a child
  abbrev Calls : List String → Type 0
  Calls cs = (y : String) → Any (λ c. c ≡ y) cs → (m : ℕ) × (depth y ≡ some m) × Longest edges v y m

  deepest_child-Deepest :
      (cs : List String) (most : ℕ)
      → Calls cs
      → Deepest edges v cs most (deepest_child depth cs most)
  unfolding deepest_child
  deepest_child-Deepest [] most calls = record {
    n = most;
    returns = refl;
    above = omega arith;
    from = inl refl;
    least = λ y k h d. absurd h;
  }
  deepest_child-Deepest (c ∷ cs) most calls =
      let (m, e, l) = calls c (inl refl) in
      let most' = if ltb most m then m else most in
      let r = deepest_child-Deepest cs most' (λ y h. calls y (inr h)) in
      let reached : (most' ≡ most) ⊎ Descent edges v c most' = elim (Bool-cases (ltb most m)) [
        | inr low ↦ inl (ground (arith, low))
        | inl high ↦ elim l.reached [
          | inl (there, none') ↦ absurd (ground (arith, high, none'))
          | inr d ↦ rw high (inr d)
        ]
      ] in
      record {
        n = r.n;
        returns = rw (e, deepest_child) r.returns;
        above = (let a = r.above in ground (arith, a));
        from = elim r.from [
          | inr (y, h, d) ↦ inr (y, inr h, d)
          | inl same ↦ elim reached [
            | inl kept ↦ inl (same ∙ kept)
            | inr d ↦ inr (c, inl refl, subst (Descent edges v c) (sym same) d)
          ]
        ];
        least = λ y k h d. elim h [
          | inr later ↦ r.least y k later d
          | inl here ↦
              (let b = l.least k (subst (λ z. Descent edges v z k) (sym here) d) in
                let a = r.above in ground (arith, a, b))
        ];
      }

-- all classes on the extensions are among some names
abbrev pub Named : List Edge → List String → Type 0
Named edges names = (x y : String) → HasEdge edges y x → contains y names ≡ true

Longest-visited :
    (edges : List Edge) (v : List String) (x : String) → contains x v ≡ true → Longest edges v x 0
Longest-visited edges v x there = record {
  reached = inl (there, refl);
  least = λ k d. (let new = visited_none d in absurd (ground (arith, there, new)));
}

Longest-suc :
    (edges : List Edge) (v : List String) (x : String) (r : Option ℕ)
    → contains x v ≡ false
    → (t : Deepest edges (x ∷ v) (children edges x) 0 r) → Longest edges v x (suc t.n)
Longest-suc edges v x r new t = record {
  reached = inr (elim t.from [
    | inl none' ↦ subst (λ k. Descent edges v x (suc k)) (sym none') (Descent.stop new)
    | inr (y, h, d) ↦ Descent.down new ((children_iff edges x y).0 h) d
  ]);
  least = bound;
}
  where
    bound : (k : ℕ) → Descent edges v x k → k ≤ suc t.n
    bound k (Descent.stop e) = omega arith
    bound k (Descent.down {y} {n} e h d) =
        (let b = t.least y n ((children_iff edges x y).1 h) d in omega (arith, b))

pub calculate_inheritance_depth-Longest :
    (fuel : ℕ) (edges : List Edge) (names : List String) (x : String) (v : List String)
    → Named edges names
    → contains x names ≡ true
    → suc (fresh v names) ≤ fuel
    → (n : ℕ) × (calculate_inheritance_depth fuel edges x v ≡ some n) × Longest edges v x n
unfolding calculate_inheritance_depth
calculate_inheritance_depth-Longest zero edges names x v named known f = absurd (omega arith)
calculate_inheritance_depth-Longest (suc fuel) edges names x v named known f =
    elim (Bool-cases (contains x v)) [
      | inl there ↦
          (0, rw (there, calculate_inheritance_depth) refl, Longest-visited edges v x there)
      | inr new ↦
          let less = fresh_less x v names new known in
          let t =
            deepest_child-Deepest edges (x ∷ v)
              (λ c. calculate_inheritance_depth fuel edges c (x ∷ v)) (children edges x) 0
              (λ y h.
                calculate_inheritance_depth-Longest fuel edges names y (x ∷ v) named
                  (named x y ((children_iff edges x y).0 h)) (omega (arith, less, f))) in
          (
            suc t.n,
            rw (new, t.returns, calculate_inheritance_depth) refl,
            Longest-suc edges v x _ new t,
          )
    ]
