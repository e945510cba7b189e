-- ===== src/Rules/Depth/Reports.antt =====
-- The findings of class_max_inheritance_depth.go.
use merm.Prelude.{
  ℕ, suc, ◌≡◌, ◌↔◌, inl, inr, refl, sym, ap, ◌∙◌, subst, String, true, false, Option, some, List,
  [], ◌∷◌, ◌++◌, arith, Bool-cases, String-cases, str_eq_refl, str_eq, eq_iff, contains, ltb_ℤ, ℤ,
  pos, All, Any, map, length, ◌==◌,
}
use merm.Model.{Issue, Edge, Diagram}
use merm.Rules.Config.{Config}
use merm.Rules.Keys.{
  distinct, count, limit_of, contains-append, contains-keep, contains-distinct, count-contains,
}
use merm.Rules.State.Search.{HasEdge}
use merm.Rules.Cycles.Invariant.{fresh-le}
use merm.Rules.Chains.Complete.{contains-All}
use merm.Rules.Depth.{
  extensions, class_ids, base_classes, depth_issue, depth_issues, class_max_inheritance_depth,
}
use merm.Rules.Depth.Descents.{Longest, Named, calculate_inheritance_depth-Longest}

-- a class that extends none
abbrev pub IsBase : Diagram → String → Type 0
IsBase d root =
    (contains root (class_ids d) ≡ true)
    × (contains root (map (λ e. e.from) (extensions d)) ≡ false)

edge_from_named :
    (es : List Edge) (x y : String) → HasEdge es y x → contains y (map (λ e. e.from) es) ≡ true
unfolding contains
edge_from_named [] x y h = absurd h
edge_from_named (e ∷ es) x y (inl h) = ground (arith, h.0, eq_iff e.from y)
edge_from_named (e ∷ es) x y (inr h) = ground (arith, edge_from_named es x y h)

contains-count : (k : String) (xs : List String) → contains k xs ≡ true → count k xs ≡ 0 → ⊥
unfolding contains count
contains-count k [] h z = absurd (ground arith)
contains-count k (x ∷ xs) h z = elim (Bool-cases (str_eq x k)) [
  | inl here ↦ absurd (ground (arith, here, z))
  | inr further ↦ contains-count k xs (ground (arith, h, further)) (ground (arith, z, further))
]

Any-contains :
    (P : String → Type 0) (xs : List String)
    → Any P xs ↔ ((x : String) × (contains x xs ≡ true) × P x)
unfolding contains
Any-contains P [] = (λ h. absurd h, λ (x, h, p). absurd (ground arith))
Any-contains P (y ∷ xs) =
    let rest = Any-contains P xs in
    (
      λ h. elim h [
        | inl p ↦ (y, ground (arith, str_eq_refl y), p)
        | inr later ↦ (let (x, c, p) = rest.0 later in (x, ground (arith, c), p))
      ],
      λ (x, c, p). elim (String-cases y x) [
        | inl same ↦ inl (subst P (sym same) p)
        | inr ne ↦ inr (rest.1 (x, ground (arith, c, eq_iff y x), p))
      ],
    )

-- the depth of a class is one number
Longest-same :
    {edges : List Edge} {x : String} (m n : ℕ) → Longest edges [] x m → Longest edges [] x n → m ≡ n
unfolding contains
Longest-same m n a b = elim a.reached [
  | inl (there, z) ↦ absurd (ground arith)
  | inr d ↦ elim b.reached [
    | inl (there, z) ↦ absurd (ground arith)
    | inr e ↦ (let p = b.least m d in let q = a.least n e in omega (arith, p, q))
  ]
]

module _ (quote : String → String) (print : ℤ → String) (d : Diagram) (cfg : Config) where
  classes-Named : Named (extensions d) (class_ids d)
  classes-Named x y h =
      let nodes = map (λ n. n.id) d.nodes in
      let froms = map (λ e. e.from) (extensions d) in
      let tos = map (λ e. e.to) (extensions d) in
      ground (
        arith,
        edge_from_named (extensions d) x y h,
        contains-append y nodes (froms ++ tos),
        contains-append y froms tos,
      )

  -- a finding on a class that is too deep
  abbrev pub Deep : Issue → String → Type 0
  Deep i root =
      (n : ℕ) × Longest (extensions d) [] root n
      × (ltb_ℤ (limit_of "max-inheritance-depth" cfg (pos 5)) (pos n) ≡ true)
      × (depth_issue quote print d cfg root n ≡ i)

  Found : List String → Option (List Issue) → Type 0
  Found roots r =
      (issues : List Issue) × (r ≡ some issues)
      × ((i : Issue) → Any (λ j. j ≡ i) issues ↔ Any (Deep i) roots)

  depth_issues-Found :
      (roots : List String)
      → All (λ r. contains r (class_ids d) ≡ true) roots
      → Found roots (depth_issues quote print d cfg roots)
  unfolding depth_issues Found
  depth_issues-Found [] a = ([], refl, λ i. (λ h. h, λ h. h))
  depth_issues-Found (root ∷ roots) a =
      let (issues, e, iff) = depth_issues-Found roots a.1 in
      let (n, r, l) =
        calculate_inheritance_depth-Longest (suc (length (class_ids d))) (extensions d)
          (class_ids d) root [] classes-Named a.0 (omega (arith, fresh-le [] (class_ids d))) in
      elim (Bool-cases (ltb_ℤ (limit_of "max-inheritance-depth" cfg (pos 5)) (pos n))) [
        | inl deep ↦ (
          depth_issue quote print d cfg root n ∷ issues,
          rw (r, e, deep, depth_issues) refl,
          λ i. (
            λ h. elim h [
              | inl here ↦ inl (n, l, ground (arith, deep), here)
              | inr later ↦ inr ((iff i).0 later)
            ],
            λ h. elim h [
              | inl (m, l', low, same) ↦
                  inl (ap (depth_issue quote print d cfg root) (Longest-same n m l l') ∙ same)
              | inr later ↦ inr ((iff i).1 later)
            ],
          ),
        )
        | inr flat ↦ (
          issues,
          rw (r, e, flat, depth_issues) refl,
          λ i. (
            λ h. inr ((iff i).0 h),
            λ h. elim h [
              | inl (m, l', low, same) ↦ absurd (ground (arith, Longest-same n m l l', low, flat))
              | inr later ↦ (iff i).1 later
            ],
          ),
        )
      ]

  module _ (order : List String → List String)
      (visits_all : (k : String) (xs : List String) → contains k (order xs) ≡ contains k xs) where
    base_classes_iff :
        (root : String) → (contains root (base_classes order d) ≡ true) ↔ IsBase d root
    unfolding base_classes
    base_classes_iff root =
        let froms = map (λ e. e.from) (extensions d) in
        ground (
          arith,
          contains-keep (λ id. count id froms == 0) root (order (distinct (class_ids d))),
          visits_all root (distinct (class_ids d)),
          contains-distinct root (class_ids d),
          count-contains root froms,
          contains-count root froms,
        )

    -- ClassMaxInheritanceDepth.Run ends and reports exactly the classes without a base class from which the
    -- longest descent along extensions has more classes than the limit, with the number of those
    -- classes, whatever the order in which Go iterates over the map of the degrees, and whatever int makes of a
    -- limit that no int can hold.
    pub class_max_inheritance_depth_iff :
        (issues : List Issue) × (class_max_inheritance_depth quote print order d cfg ≡ some issues)
        × ((i : Issue) → Any (λ j. j ≡ i) issues ↔ ((root : String) × IsBase d root × Deep i root))
    unfolding class_max_inheritance_depth Found
    class_max_inheritance_depth_iff =
        let roots = base_classes order d in
        let (issues, e, iff) = depth_issues-Found roots (
          contains-All (extensions d) (λ r. contains r (class_ids d) ≡ true) roots
            (λ k c. ((base_classes_iff k).0 c).0)) in
        (
          issues,
          e,
          λ i. (
            λ h.
                (let (root, c, deep) = (Any-contains (Deep i) roots).0 ((iff i).0 h) in
                  (root, (base_classes_iff root).0 c, deep)),
            λ (root, base, deep).
                (iff i).1
                  ((Any-contains (Deep i) roots).1 (root, (base_classes_iff root).1 base, deep)),
          ),
        )
