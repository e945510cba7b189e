-- ===== src/Rules/Sequence/Actors.antt =====
-- internal/rules: which actors sequence_no_undefined_actors.go and sequence_no_duplicate_actors.go
-- report.
use merm.Prelude.{
  ◌≡◌, ◌≢◌, ◌↔◌, ◌⊎◌, ◌<◌, String, Bool, true, false, not, ◌&&◌, List, [], ◌∷◌, arith, str_eq,
  eq_iff, contains, keep, ltb, Any,
}
use merm.Model.{Issue, Node, Edge, Diagram}
use merm.Rules.Config.{Config}
use merm.Rules.Keys.{
  distinct, count, contains-append, contains-keep, contains-distinct, Any-ids, count_over_iff,
}
use merm.Rules.Sequence.{
  ids, undefined_refs, undefined_issue, sequence_no_undefined_actors, duplicate_actor_issue,
  sequence_no_duplicate_actors,
}

-- An actor that a message names and no node defines.
pub IsUndefined : Diagram → String → Type 0
IsUndefined d k =
    (k ≢ "") × (contains k (ids d.nodes) ≡ false) × Any (λ e. (e.from ≡ k) ⊎ (e.to ≡ k)) d.edges

undefined_refs_iff :
    (nodes : List Node) (edges : List Edge) (k : String)
    → (contains k (undefined_refs nodes edges) ≡ true)
      ↔ ((k ≢ "") × (contains k (ids nodes) ≡ false) × Any (λ e. (e.from ≡ k) ⊎ (e.to ≡ k)) edges)
unfolding undefined_refs contains
undefined_refs_iff nodes [] k = ground arith
undefined_refs_iff nodes (e ∷ edges) k =
    let test : String → Bool =
      (λ actor. not (str_eq actor "") && not (contains actor (ids nodes))) in
    ground (
      arith,
      contains-append k (keep test (e.from ∷ e.to ∷ [])) (undefined_refs nodes edges),
      contains-keep test k (e.from ∷ e.to ∷ []),
      eq_iff e.from k,
      eq_iff e.to k,
      eq_iff k "",
      undefined_refs_iff nodes edges k,
    )

-- The findings are exactly those on the named actors that messages refer to and no participant
-- defines, whatever the order in which Go iterates over the map of the references.
pub sequence_no_undefined_actors_iff :
    (order : List String → List String) (d : Diagram) (cfg : Config) (i : Issue)
    → ((k : String) (xs : List String) → contains k (order xs) ≡ contains k xs)
    → Any (λ j. j ≡ i) (sequence_no_undefined_actors order d cfg)
      ↔ ((id : String) × IsUndefined d id × (undefined_issue d cfg id ≡ i))
unfolding sequence_no_undefined_actors IsUndefined
sequence_no_undefined_actors_iff order d cfg i h =
    let refs = undefined_refs d.nodes d.edges in
    Any-ids (undefined_issue d cfg) i (order (distinct refs)) (λ k.
      ground (
        arith,
        h k (distinct refs),
        contains-distinct k refs,
        undefined_refs_iff d.nodes d.edges k,
      ))

-- The findings are exactly those on the ids that more than one participant has, whatever the order in
-- which Go iterates over the map of the counts.
pub sequence_no_duplicate_actors_iff :
    (order : List String → List String) (d : Diagram) (cfg : Config) (i : Issue)
    → ((k : String) (xs : List String) → contains k (order xs) ≡ contains k xs)
    → Any (λ j. j ≡ i) (sequence_no_duplicate_actors order d cfg)
      ↔ ((id : String) × (1 < count id (ids d.nodes)) × (duplicate_actor_issue d cfg id ≡ i))
unfolding sequence_no_duplicate_actors
sequence_no_duplicate_actors_iff order d cfg i h =
    Any-ids (duplicate_actor_issue d cfg) i
      (keep (λ id. ltb 1 (count id (ids d.nodes))) (order (distinct (ids d.nodes))))
      (count_over_iff order (ids d.nodes) 1 h)
