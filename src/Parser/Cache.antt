-- ===== src/Parser/Cache.antt =====
-- internal/parser/cache.go: `lruTTLCache`, a size-, weight- and time-bounded LRU cache with a lazy
-- expiration heap. The clock's reading is an argument of each operation (`c.now()` is read once
-- in each), an instant is a number of nanoseconds. A `*list.Element` is named by the key of the
-- entry that it holds, which no code changes: `entries` is the key set of the Go map, and
-- following its pointer is a search of `order`. `expiry` lists the heap's records with the
-- earliest first, which is the order in which `container/heap` hands them out.
pub mod Entries
pub mod Heap
pub mod Invariant
pub mod Evict
pub mod Fit
pub mod Trim
pub mod Front
pub mod Refine
pub mod Store
pub mod Reads
pub mod Bounds
pub mod Runs
mod Tests
use merm.Prelude.{
  ℕ, zero, suc, ◌+◌, ◌%◌, ◌^◌, String, Bool, true, false, ◌&&◌, ◌||◌, not, Option, none, some, List,
  [], ◌∷◌, ltb, ◌==◌, if◌then◌else◌, str_eq, contains, delete, length, ℤ, pos, pos_part, ◌+ℤ◌, ◌-ℤ◌,
  ltb_ℤ, leb_ℤ,
}

pub record Entry (T : Type 0) : Type 0 where
  pub key : String
  pub value : T
  pub expires_at : ℕ
  pub generation : ℕ
  pub weight : ℕ

pub record ExpirationRecord : Type 0 where
  pub key : String
  pub expires_at : ℕ
  pub generation : ℕ

pub record Cache (T : Type 0) : Type 0 where
  pub ttl : ℤ
  pub max_size : ℤ
  pub max_bytes : ℤ
  pub bytes : ℤ
  pub entries : List String
  pub order : List (Entry T)
  pub expiry : List ExpirationRecord

unfoldable pub new : {T : Type 0} → ℤ → ℤ → ℤ → Cache T
new max_size ttl max_bytes = record {
  ttl = ttl;
  max_size = max_size;
  max_bytes = max_bytes;
  bytes = pos 0;
  entries = [];
  order = [];
  expiry = [];
}

-- `heap.Push`
unfoldable pub push : ExpirationRecord → List ExpirationRecord → List ExpirationRecord
push r [] = r ∷ []
push r (s ∷ h) =
    let rest = push r h in if ltb r.expires_at s.expires_at then r ∷ s ∷ h else s ∷ rest

module _ {T : Type 0} where
  -- the element of `order` that holds a key
  unfoldable pub find : String → List (Entry T) → Option (Entry T)
  find k [] = none
  find k (e ∷ l) = let rest = find k l in elim (str_eq e.key k) [ true ↦ some e | false ↦ rest ]

  -- `order.Remove`
  unfoldable pub remove : String → List (Entry T) → List (Entry T)
  remove k [] = []
  remove k (e ∷ l) = let rest = remove k l in elim (str_eq e.key k) [ true ↦ l | false ↦ e ∷ rest ]

  -- `order.Back`
  unfoldable pub back : List (Entry T) → Option (Entry T)
  back [] = none
  back (e ∷ l) = let rest = back l in elim rest [ none ↦ some e | some last ↦ some last ]

  -- `c.entries[key]`, followed to its element
  unfoldable pub element : Cache T → String → Option (Entry T)
  element c k = if contains k c.entries then find k c.order else none

  abbrev pub is_disabled : Cache T → Bool
  is_disabled c = leb_ℤ c.max_size (pos 0) || leb_ℤ c.ttl (pos 0)

  -- `removeElementLocked`
  unfoldable pub remove_element : Entry T → Cache T → Cache T
  remove_element e c = record c {
    entries = delete e.key c.entries;
    bytes = c.bytes -ℤ pos e.weight;
    order = remove e.key c.order;
  }

  -- the record belongs to an earlier version of the entry
  abbrev pub is_stale : Entry T → ExpirationRecord → Bool
  is_stale e r = not (e.generation == r.generation) || not (e.expires_at == r.expires_at)

  -- one round of `evictExpiredLocked`, on the record that left the heap
  unfoldable pub evict_record : ExpirationRecord → Cache T → ℕ → Cache T × ℕ
  evict_record r c evicted = elim (element c r.key) [
    | none ↦ (c, evicted)
    | some e ↦ if is_stale e r then (c, evicted) else (remove_element e c, suc evicted)
  ]

  -- its loop, over the records in the heap's order
  unfoldable pub evict_loop : ℕ → List ExpirationRecord → Cache T → ℕ → Cache T × ℕ
  evict_loop now [] c evicted = (record c { expiry = [] }, evicted)
  evict_loop now (r ∷ h) c evicted =
      let (c', n) = evict_record r c evicted in
      let rest = evict_loop now h c' n in
      elim (ltb now r.expires_at) [ true ↦ (record c { expiry = r ∷ h }, evicted) | false ↦ rest ]

  -- `evictExpiredLocked`
  unfoldable pub evict_expired : ℕ → Cache T → Cache T × ℕ
  evict_expired now c = evict_loop now c.expiry c 0

  -- `Get` on the cache without its expired entries
  unfoldable pub get_live : ℕ → String → Cache T → ℕ → Cache T × Option T × ℕ
  get_live now key c evicted = elim (element c key) [
    | none ↦ (c, none, evicted)
    | some e ↦
        if ltb now e.expires_at
        then (record c { order = e ∷ remove key c.order }, some e.value, evicted)
        else (remove_element e c, none, suc evicted)
  ]

  -- `Get`: the value on a hit, and the number of entries removed
  unfoldable pub get : ℕ → String → Cache T → Cache T × Option T × ℕ
  get now key c =
      let (c', evicted) = evict_expired now c in
      if is_disabled c then (c, none, 0) else get_live now key c' evicted

  abbrev pub is_oversized : Cache T → ℕ → Bool
  is_oversized c weight = ltb_ℤ (pos 0) c.max_bytes && ltb_ℤ c.max_bytes (pos weight)

  abbrev pub record_of : Entry T → ExpirationRecord
  record_of e = record { key = e.key; expires_at = e.expires_at; generation = e.generation }

  -- the branch of `SetWeighted` for a key that is cached
  unfoldable pub update_entry : ℕ → Entry T → T → ℕ → Cache T → ℕ → Cache T × ℕ
  update_entry now e value weight c removed =
      let e' = record e {
        value = value;
        weight = weight;
        expires_at = now + pos_part c.ttl;
        generation = (e.generation + 1) % 2 ^ 64;
      } in
      if is_oversized c weight then (remove_element e c, suc removed) else (
        record c {
          bytes = c.bytes -ℤ pos e.weight +ℤ pos weight;
          order = e' ∷ remove e.key c.order;
          expiry = push (record_of e') c.expiry;
        },
        removed,
      )

  -- the condition of the loop that evicts from the back
  abbrev pub is_over : Cache T → Bool
  is_over c =
      ltb_ℤ c.max_size (pos (length c.order))
      || (ltb_ℤ (pos 0) c.max_bytes && ltb_ℤ c.max_bytes c.bytes)

  -- one round of that loop; `none` is its `break`
  unfoldable pub drop_back : Cache T → Option (Cache T)
  drop_back c = elim (back c.order) [ none ↦ none | some e ↦ some (remove_element e c) ]

  -- the loop, with as much fuel as there are elements
  unfoldable pub trim : ℕ → Cache T → ℕ → Cache T × ℕ
  trim zero c removed = (c, removed)
  trim (suc fuel) c removed = elim (is_over c) [
    | false ↦ (c, removed)
    | true ↦ elim (drop_back c) [ none ↦ (c, removed) | some c' ↦ trim fuel c' (suc removed) ]
  ]

  -- the branch of `SetWeighted` for a key that is not cached
  unfoldable pub insert_entry : ℕ → String → T → ℕ → Cache T → ℕ → Cache T × ℕ
  insert_entry now key value weight c removed =
      let e : Entry T = record {
        key = key;
        value = value;
        expires_at = now + pos_part c.ttl;
        generation = 1;
        weight = weight;
      } in
      let c' = record c {
        entries = key ∷ c.entries;
        bytes = c.bytes +ℤ pos weight;
        order = e ∷ c.order;
        expiry = push (record_of e) c.expiry;
      } in
      if is_oversized c weight then (c, removed) else trim (length c'.order) c' removed

  -- `SetWeighted` on the cache without its expired entries
  unfoldable pub set_live : ℕ → String → T → ℕ → Cache T → ℕ → Cache T × ℕ
  set_live now key value weight c removed = elim (element c key) [
    | none ↦ insert_entry now key value weight c removed
    | some e ↦ update_entry now e value weight c removed
  ]

  -- `SetWeighted`: a negative weight counts as zero
  unfoldable pub set_weighted : ℕ → String → T → ℤ → Cache T → Cache T × ℕ
  set_weighted now key value weight c =
      let (c', removed) = evict_expired now c in
      if is_disabled c then (c, 0) else set_live now key value (pos_part weight) c' removed

  -- `Set`
  unfoldable pub set : ℕ → String → T → Cache T → Cache T × ℕ
  set now key value c = set_weighted now key value (pos 1) c

  -- `Delete`
  unfoldable pub delete_key : String → Cache T → Cache T
  delete_key key c = elim (element c key) [ none ↦ c | some e ↦ remove_element e c ]
