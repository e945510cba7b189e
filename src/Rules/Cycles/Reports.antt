-- ===== src/Rules/Cycles/Reports.antt =====
-- internal/rules/no_cycles.go: what the rule reports.
use merm.Prelude.{
  ◌≡◌, ◌↔◌, ◌⊎◌, inl, inr, refl, String, true, false, not, ◌||◌, List, [], ◌∷◌, ◌++◌, some, arith,
  map, eq_iff, contains, keep, All,
}
use merm.Model.{Issue, Edge, Diagram}
use merm.Rules.Config.{Config}
use merm.Rules.Keys.{distinct, contains-append, contains-distinct}
use merm.Rules.State.Search.{HasEdge}
use merm.Rules.Cycles.{Search, is_skipped, names, start, no_cycles}
use merm.Rules.Cycles.Walks.{Walk, Ends, Ends-no_cycle}
use merm.Rules.Cycles.Invariant.{is_empty, followed, Shows, IsSound, Within}
use merm.Rules.Cycles.Complete.{visit_roots_lem}

edge_from :
    (cfg : Config) (x y : String) (edges : List Edge)
    → HasEdge (keep (λ f. not (is_skipped cfg f)) edges) x y
    → contains x (map (λ e. e.from) edges) ≡ true
unfolding keep contains
edge_from cfg x y [] h = absurd h
edge_from cfg x y (e ∷ edges) h = ground (arith, eq_iff e.from x, edge_from cfg x y edges)

-- the first edge of a walk
walk_edge : {edges : List Edge} {x z : String} → Walk edges x z → (y : String) × HasEdge edges x y
walk_edge (Walk.edge {y} e) = (y, e)
walk_edge (Walk.step {y} e w) = (y, e)

module _ (d : Diagram) (cfg : Config) where
  start-IsSound : IsSound d cfg start
  unfolding contains
  start-IsSound = record {
    on = λ k. refl;
    path = tt;
    seen = λ k. inl refl;
    genuine = tt;
    quiet = inr refl;
    done = λ k. inr (inl refl);
  }

  -- a finding shows a walk that comes back
  some_cycle :
      (issues : List Issue)
      → All (Shows d cfg) issues
      → is_empty issues ≡ false
      → (x : String) × Walk (followed d cfg) x x
  some_cycle [] a h = absurd (ground arith)
  some_cycle (i ∷ issues) a h = (a.0.cycle.node, a.0.cycle.edge)

  empty-nil : (issues : List Issue) → (is_empty issues ≡ false) ⊎ (issues ≡ [])
  empty-nil [] = inr refl
  empty-nil (i ∷ issues) = inl refl

  module _ (order : List String → List String)
      (visits_all : (k : String) (xs : List String) → contains k (order xs) ≡ contains k xs) where
    abbrev roots : List String
    roots = map (λ n. n.id) d.nodes ++ order (distinct (map (λ e. e.from) d.edges))

    contains-roots :
        (k : String)
        → contains k roots
          ≡ (contains k (map (λ n. n.id) d.nodes) || contains k (map (λ e. e.from) d.edges))
    contains-roots k =
        let froms = map (λ e. e.from) d.edges in
        ground (
          arith,
          contains-append k (map (λ n. n.id) d.nodes) (order (distinct froms)),
          visits_all k (distinct froms),
          contains-distinct k froms,
        )

    roots-names : (k : String) → (contains k roots ≡ false) ⊎ (contains k (names d) ≡ true)
    roots-names k =
        let nodes = map (λ n. n.id) d.nodes in
        let froms = map (λ e. e.from) d.edges in
        let tos = map (λ e. e.to) d.edges in
        ground (
          arith,
          contains-roots k,
          contains-append k nodes (froms ++ tos),
          contains-append k froms tos,
        )

    -- without a finding no walk comes back
    no_walk :
        (s : Search) (x : String)
        → IsSound d cfg s
        → s.stack ≡ []
        → s.issues ≡ []
        → Within roots s.visited
        → ¬ Walk (followed d cfg) x x
    unfolding contains
    no_walk s x v st e seen w =
        let (y, first) = walk_edge w in
        let root : contains x roots ≡ true =
          ground (arith, contains-roots x, edge_from cfg x y d.edges first) in
        let ending : Ends (followed d cfg) x = ground (arith, v.done x, st, e, seen x, root) in
        Ends-no_cycle ending w

-- The rule ends. Each finding shows a directed cycle of the edges that it follows, which are all or
-- those that are no self-loops if these are allowed, and there is no finding exactly if no walk along
-- these edges comes back to where it began, whatever the order in which Go iterates over the map of the
-- edges.
pub no_cycles_iff :
    (order : List String → List String) (d : Diagram) (cfg : Config)
    → ((k : String) (xs : List String) → contains k (order xs) ≡ contains k xs)
    → (issues : List Issue) × (no_cycles order d cfg ≡ some issues)
      × All (Shows d cfg) issues
      × ((issues ≡ []) ↔ ((x : String) → ¬ Walk (followed d cfg) x x))
unfolding no_cycles
no_cycles_iff order d cfg h =
    let (r, seen) =
      visit_roots_lem d cfg (roots d cfg order h) start refl (roots-names d cfg order h)
        (start-IsSound d cfg) in
    (
      r.out.issues,
      rw (r.returns, no_cycles) refl,
      r.sound.genuine,
      (
        λ e x. no_walk d cfg order h r.out x r.sound r.goes.stack e seen,
        λ none'. elim (empty-nil d cfg r.out.issues) [
          | inl made ↦
              let (x, w) = some_cycle d cfg r.out.issues r.sound.genuine made in absurd (none' x w)
          | inr e ↦ e
        ],
      ),
    )
