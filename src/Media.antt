-- ===== src/Media.antt =====
-- internal/media/store.go: the cache of attachment descriptors of a session. A Go list's element is
-- told apart by a number, and the map has that number for each identifier. The descriptor that
-- `attachment` builds of a message is an argument. Times and durations are nanoseconds.
pub mod Invariant
pub mod Lists
pub mod Fifo
pub mod Texts
pub mod Messages
pub mod Safety
mod Tests
use wppconnect_server_go.Prelude.{
  ℕ, ◌+◌, ◌*◌, String, len, Bool, true, false, ◌||◌, Option, none, some, List, [], ◌∷◌, ◌++◌, ltb,
  ◌==◌, str_eq, if◌then◌else◌, length, lookup, insert, remove,
}

abbrev pub cache_entries : ℕ
cache_entries = 1024

-- 24 hours
abbrev pub cache_ttl : ℕ
cache_ttl = 24 * 3600 * 1000000000

pub record Entry (A : Type 0) : Type 0 where
  pub element : ℕ
  pub id : String
  pub descriptor : A
  pub expires : ℕ

-- `next` is the number of the next element that is pushed.
pub record Store (A : Type 0) : Type 0 where
  pub items : List (String × ℕ)
  pub order : List (Entry A)
  pub next : ℕ

module _ {A : Type 0} where
  abbrev pub new_store : Store A
  new_store = record { items = []; order = []; next = 0 }

  -- `order.Remove(e)`
  abbrev pub remove_element : ℕ → List (Entry A) → List (Entry A)
  remove_element n [] = []
  remove_element n (e ∷ es) =
      let rest = remove_element n es in if e.element == n then es else e ∷ rest

  -- The entry that an element of the list holds.
  abbrev pub value_of : ℕ → List (Entry A) → Option (Entry A)
  value_of n [] = none
  value_of n (e ∷ es) = let rest = value_of n es in if e.element == n then some e else rest

  abbrev pub remove_old : Option ℕ → List (Entry A) → List (Entry A)
  remove_old none es = es
  remove_old (some n) es = remove_element n es

  -- The loop that drops the oldest entries from both.
  unfoldable pub evict : List (String × ℕ) → List (Entry A) → List (String × ℕ) × List (Entry A)
  evict items [] = (items, [])
  evict items (e ∷ es) =
      let rest = evict (remove e.id items) es in
      if ltb cache_entries (length (e ∷ es)) then rest else (items, e ∷ es)

  abbrev pub push : ℕ → String → A → Store A → Store A
  push now id a s =
      let e : Entry A = record {
        element = s.next;
        id = id;
        descriptor = a;
        expires = now + cache_ttl;
      } in
      let kept =
        evict (insert id s.next s.items) (remove_old (lookup id s.items) s.order ++ e ∷ []) in
      record { items = kept.0; order = kept.1; next = s.next + 1 }

  unfoldable pub remember : ℕ → String → Option A → Store A → Bool × Store A
  remember now id none s = (false, s)
  remember now id (some a) s =
      if str_eq id "" || ltb 256 (len id) then (false, s) else (true, push now id a s)

  abbrev pub look : ℕ → Option (Entry A) → Store A → Option A × Store A
  look now none s = (none, s)
  look now (some e) s = if ltb now e.expires then (some e.descriptor, s) else (
    none,
    record s { items = remove e.id s.items; order = remove_element e.element s.order },
  )

  unfoldable pub get : ℕ → String → Store A → Option A × Store A
  get now id s = elim (lookup id s.items) [
    | none ↦ (none, s)
    | some n ↦ look now (value_of n s.order) s
  ]
