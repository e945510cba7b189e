-- ===== src/Api/AnalysisCache.antt =====
-- internal/api/analysis_cache.go: the cache of the results of analyses. A result is stored as the bytes
-- of its JSON text; the JSON package is the parameter `Json`. The clock's reading is an argument of
-- each operation (`Set` reads it twice), the mutex makes an operation one step. `order` lists the
-- elements from the front, `entries` holds the keys of the map; an element is named by its key. The
-- cache is not nil.
pub mod View
pub mod Prune
pub mod Trim
pub mod Valid
pub mod Sets
pub mod Runs
mod Tests
use merm.Prelude.{
  ℕ, zero, suc, ◌+◌, String, Bool, true, false, not, ◌||◌, Option, none, some, List, [], ◌∷◌, ltb,
  if◌then◌else◌, str_eq, contains, delete, length, ℤ, pos, pos_part, ◌+ℤ◌, ◌-ℤ◌, ltb_ℤ, leb_ℤ,
}

-- `encoding/json` for results of type `R` and texts of type `B`, with the number of bytes of a text, and
-- that of a key
pub record Json (R B : Type 0) : Type 0 where
  pub marshal : R → Option B
  pub unmarshal : B → Option R
  pub size : B → ℕ
  pub key_size : String → ℕ

-- `analysisCacheEntry`
pub record AnalysisCacheEntry (B : Type 0) : Type 0 where
  pub key : String
  pub value : B
  pub expires_at : ℕ

pub record AnalysisResultCache (B : Type 0) : Type 0 where
  pub max_entries : ℤ
  pub max_bytes : ℤ
  pub ttl : ℤ
  pub bytes : ℤ
  pub entries : List String
  pub order : List (AnalysisCacheEntry B)

unfoldable pub new_analysis_result_cache : {B : Type 0} → ℤ → ℤ → ℤ → AnalysisResultCache B
new_analysis_result_cache max_entries ttl max_bytes = record {
  max_entries = max_entries;
  max_bytes = max_bytes;
  ttl = ttl;
  bytes = pos 0;
  entries = [];
  order = [];
}

module _ {B : Type 0} where
  -- the element of the list that holds a key
  unfoldable pub element_of : String → List (AnalysisCacheEntry B) → Option (AnalysisCacheEntry B)
  element_of k [] = none
  element_of k (e ∷ l) =
      let rest = element_of k l in elim (str_eq e.key k) [ true ↦ some e | false ↦ rest ]

  -- `order.Remove`
  unfoldable pub without : String → List (AnalysisCacheEntry B) → List (AnalysisCacheEntry B)
  without k [] = []
  without k (e ∷ l) =
      let rest = without k l in elim (str_eq e.key k) [ true ↦ l | false ↦ e ∷ rest ]

  -- `order.Back`
  unfoldable pub oldest : List (AnalysisCacheEntry B) → Option (AnalysisCacheEntry B)
  oldest [] = none
  oldest (e ∷ l) = let rest = oldest l in elim rest [ none ↦ some e | some last ↦ some last ]

  -- `c.entries[key]`
  unfoldable pub cached : AnalysisResultCache B → String → Option (AnalysisCacheEntry B)
  cached c k = if contains k c.entries then element_of k c.order else none

  -- the condition of the loop of `Set`
  abbrev pub is_over : AnalysisResultCache B → Bool
  is_over c = ltb_ℤ c.max_entries (pos (length c.order)) || ltb_ℤ c.max_bytes c.bytes

  abbrev pub is_off : AnalysisResultCache B → Bool
  is_off c = leb_ℤ c.max_entries (pos 0) || leb_ℤ c.ttl (pos 0) || leb_ℤ c.max_bytes (pos 0)

module _ {R B : Type 0} (json : Json R B) where
  abbrev pub weight : AnalysisCacheEntry B → ℕ
  weight e = json.key_size e.key + json.size e.value

  -- `removeLocked`
  unfoldable pub remove_locked :
      AnalysisCacheEntry B → AnalysisResultCache B → AnalysisResultCache B
  remove_locked e c = record c {
    entries = delete e.key c.entries;
    bytes = c.bytes -ℤ pos (weight e);
    order = without e.key c.order;
  }

  -- the loop of `pruneLocked` on the part of the list from an element on, which goes from the back to it
  unfoldable pub prune_loop :
      ℕ → List (AnalysisCacheEntry B) → AnalysisResultCache B → AnalysisResultCache B × ℕ
  prune_loop now [] c = (c, 0)
  prune_loop now (e ∷ l) c =
      let (c', removed) = prune_loop now l c in
      if ltb now e.expires_at then (c', removed) else (remove_locked e c', suc removed)

  -- `pruneLocked`
  unfoldable pub prune_locked : ℕ → AnalysisResultCache B → AnalysisResultCache B × ℕ
  prune_locked now c = prune_loop now c.order c

  -- `Get` behind `pruneLocked`
  unfoldable pub get_pruned :
      String → AnalysisResultCache B → ℕ → AnalysisResultCache B × Option R × ℕ
  get_pruned key c removed = elim (cached c key) [
    | none ↦ (c, none, removed)
    | some e ↦
        let c' = record c { order = e ∷ without key c.order } in
        elim (json.unmarshal e.value) [
          | none ↦ (remove_locked e c', none, suc removed)
          | some result ↦ (c', some result, removed)
        ]
  ]

  -- `Get`: the result on a hit, and the number of entries removed
  unfoldable pub get : ℕ → String → AnalysisResultCache B → AnalysisResultCache B × Option R × ℕ
  get now key c = let (c', removed) = prune_locked now c in get_pruned key c' removed

  -- the loop of `Set` that removes from the back, on fuel
  unfoldable pub trim : ℕ → AnalysisResultCache B → ℕ → AnalysisResultCache B × ℕ
  trim zero c removed = (c, removed)
  trim (suc fuel) c removed = elim (is_over c) [
    | false ↦ (c, removed)
    | true ↦ elim (oldest c.order) [
      | none ↦ (c, removed)
      | some e ↦ trim fuel (remove_locked e c) (suc removed)
    ]
  ]

  -- `Set`: the entry of the key leaves
  unfoldable pub drop_key : String → AnalysisResultCache B → AnalysisResultCache B
  drop_key key c = elim (cached c key) [ none ↦ c | some old ↦ remove_locked old c ]

  -- `Set`: an entry at the front
  unfoldable pub push_front : AnalysisCacheEntry B → AnalysisResultCache B → AnalysisResultCache B
  push_front e c = record c {
    entries = e.key ∷ c.entries;
    order = e ∷ c.order;
    bytes = c.bytes +ℤ pos (weight e);
  }

  -- `Set` of an entry that is not oversized, behind `pruneLocked`; the loop has fuel for each element
  unfoldable pub set_pruned :
      AnalysisCacheEntry B → AnalysisResultCache B → ℕ → AnalysisResultCache B × ℕ
  set_pruned e c removed =
      let d = push_front e (drop_key e.key c) in trim (length d.order) d removed

  -- `Set`, with the clock's reading in `pruneLocked` and the later one; the number of entries removed
  unfoldable pub set : ℕ → ℕ → String → R → AnalysisResultCache B → AnalysisResultCache B × ℕ
  set now later key result c = if is_off c then (c, 0) else (elim (json.marshal result) [
    | none ↦ (c, 0)
    | some value ↦
        let e : AnalysisCacheEntry B = record {
          key = key;
          value = value;
          expires_at = later + pos_part c.ttl;
        } in
        let (c', removed) = prune_locked now c in
        if ltb_ℤ c.max_bytes (pos (weight e)) then (c, 0) else set_pruned e c' removed
  ])
