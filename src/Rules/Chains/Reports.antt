-- ===== src/Rules/Chains/Reports.antt =====
-- The findings of er_no_circular_chain.go and class_no_circular_inheritance.go.
use Prim.Native.String
use merm.Prelude.{
  ◌≡◌, ◌⊎◌, ◌↔◌, inl, inr, refl, ap, String, true, false, Option, some, List, [], ◌∷◌, arith, map,
  contains, keep, length, All,
}
use merm.Model.{Issue, Edge, Diagram}
use merm.Rules.Config.{Config}
use merm.Rules.Keys.{distinct, contains-distinct, contains-append}
use merm.Rules.State.Search.{HasEdge}
use merm.Rules.Cycles.{join}
use merm.Rules.Cycles.Walks.{Walk, IsCycle, Ends, Ends-no_cycle}
use merm.Rules.Chains.{
  Chain, between_entities, is_extension, visit_nodes, unvisited, ends_of, cycles_along, chain_issue,
  chain_issues, er_no_circular_chain, class_no_circular_inheritance,
}
use merm.Rules.Chains.Invariant.{any_found, IsClean}
use merm.Rules.Chains.Complete.{edge_start, contains-All, Visits, visit_nodes-Visits}

-- A finding that shows a cycle along some edges.
pub record ShowsChain (text : String) (edges : List Edge) (i : Issue) : Type 0 where
  pub ids : List String
  pub cycle : IsCycle edges ids
  pub message : i.message ≡ String.◌++◌ text (join " -> " ids)

walk_start : {edges : List Edge} {x z : String} → Walk edges x z → (y : String) × HasEdge edges x y
walk_start (Walk.edge {y} e) = (y, e)
walk_start (Walk.step {y} e w) = (y, e)

any_found-nil : (xs : List (List String)) → (any_found xs ≡ true) ⊎ (xs ≡ [])
any_found-nil [] = inr refl
any_found-nil (x ∷ xs) = inl refl

module _ (order : List String → List String)
    (visits_all : (k : String) (xs : List String) → contains k (order xs) ≡ contains k xs) where
  module _ (edges : List Edge) where
    abbrev roots : List String
    roots = order (distinct (map (λ e. e.from) edges))

    visited_all :
        Visits edges roots unvisited (visit_nodes (length (ends_of edges)) edges roots unvisited)
    unfolding contains
    visited_all =
        let froms = map (λ e. e.from) edges in
        visit_nodes-Visits edges (length (ends_of edges)) roots unvisited
          (contains-All edges (λ n. contains n (ends_of edges) ≡ true) roots
            (λ k h. ground (
              arith,
              h,
              visits_all k (distinct froms),
              contains-distinct k froms,
              contains-append k froms (map (λ e. e.to) edges),
            )))
          (omega arith) tt
          (inr (record { on = λ k. refl; seen = λ k. inl refl; done = λ k. inl refl }))

    no_walk :
        (t : Chain) (x : String)
        → t.cycles ≡ []
        → (any_found t.cycles ≡ true) ⊎ IsClean edges [] t
        → ((k : String) → (contains k roots ≡ false) ⊎ (contains k t.visited ≡ true))
        → ¬ Walk edges x x
    unfolding contains
    no_walk t x e (inl found) seen w = absurd (ground (arith, e, found))
    no_walk t x e (inr clean) seen w =
        let froms = map (λ e. e.from) edges in
        let (y, first) = walk_start w in
        let root : contains x roots ≡ true = ground (
          arith,
          edge_start edges edges x y first,
          visits_all x (distinct froms),
          contains-distinct x froms,
        ) in
        let ending : Ends edges x = ground (arith, clean.done x, seen x, root) in
        Ends-no_cycle ending w

    cycle_walk :
        (cycles : List (List String))
        → All (IsCycle edges) cycles
        → any_found cycles ≡ true
        → (x : String) × Walk edges x x
    cycle_walk [] a h = absurd (ground arith)
    cycle_walk (ids ∷ cycles) a h = (a.0.node, a.0.edge)

    cycles_along_iff :
        (cycles : List (List String)) × (cycles_along order edges ≡ some cycles)
        × All (IsCycle edges) cycles
        × ((cycles ≡ []) ↔ ((x : String) → ¬ Walk edges x x))
    unfolding cycles_along
    cycles_along_iff =
        let v = visited_all in
        (
          v.out.cycles,
          rw (v.returns, cycles_along) refl,
          v.cyclic,
          (
            λ e x w. no_walk v.out x e v.clean v.seen w,
            λ none'. elim (any_found-nil v.out.cycles) [
              | inl found ↦
                  let (x, w) = cycle_walk v.out.cycles v.cyclic found in absurd (none' x w)
              | inr e ↦ e
            ],
          ),
        )

  -- what a rule on such cycles reports
  abbrev pub Reports : String → List Edge → Option (List Issue) → Type 0
  Reports text edges run =
      (issues : List Issue) × (run ≡ some issues)
      × All (ShowsChain text edges) issues
      × ((issues ≡ []) ↔ ((x : String) → ¬ Walk edges x x))

  issues-All :
      (rule_id text : String) (cfg : Config) (edges : List Edge) (cycles : List (List String))
      → All (IsCycle edges) cycles
      → All (ShowsChain text edges) (map (chain_issue rule_id text cfg) cycles)
  unfolding chain_issue
  issues-All rule_id text cfg edges [] a = tt
  issues-All rule_id text cfg edges (ids ∷ cycles) a = (
    record { ids = ids; cycle = a.0; message = refl },
    issues-All rule_id text cfg edges cycles a.1,
  )

  map_nil :
      (rule_id text : String) (cfg : Config) (cycles : List (List String))
      → map (chain_issue rule_id text cfg) cycles ≡ []
      → cycles ≡ []
  map_nil rule_id text cfg [] e = refl
  map_nil rule_id text cfg (ids ∷ cycles) e = absurd (ground arith)

  chain_issues-Reports :
      (rule_id text : String) (cfg : Config) (edges : List Edge)
      → Reports text edges (chain_issues rule_id text cfg (cycles_along order edges))
  unfolding chain_issues
  chain_issues-Reports rule_id text cfg edges =
      let (cycles, found, genuine, (only, if')) = cycles_along_iff edges in
      (
        map (chain_issue rule_id text cfg) cycles,
        rw (found, chain_issues) refl,
        issues-All rule_id text cfg edges cycles genuine,
        (
          λ e. only (map_nil rule_id text cfg cycles e),
          λ none'. ap (map (chain_issue rule_id text cfg)) (if' none'),
        ),
      )

  -- Both rules end, whatever the order in which Go iterates over the map of the edges. Each finding names
  -- the nodes of a cycle, along edges between two different entities, or along extensions, and there is
  -- no finding exactly if no walk along these edges comes back to where it began.
  pub circular_iff :
      (d : Diagram) (cfg : Config)
      → Reports "circular entity relationship chain detected: "
          (keep between_entities d.edges)
          (er_no_circular_chain order d cfg)
        × Reports "circular inheritance detected: "
            (keep is_extension d.edges)
            (class_no_circular_inheritance order d cfg)
  unfolding er_no_circular_chain class_no_circular_inheritance
  circular_iff d cfg = (
    chain_issues-Reports "no-circular-chain" "circular entity relationship chain detected: " cfg
        (keep between_entities d.edges),
    chain_issues-Reports "no-circular-inheritance" "circular inheritance detected: " cfg
        (keep is_extension d.edges),
  )
