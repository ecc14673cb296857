-- ===== src/Cache.antt =====
-- src/raft_log/state_machine/payload_cache.rs: the payloads held in memory, in log id order, and
-- the boundary up to which they may be evicted. `size` is a `usize`: it wraps at 2 ^ 64.
pub mod Loops
pub mod Exact
pub mod Truncate
pub mod Insert
use raft_log.Prelude.{
  ℕ, zero, suc, ◌+◌, ◌-◌, ◌%◌, Option, none, some, Bool, true, false, ◌&&◌, ◌||◌, [], ◌∷◌, ltb,
  length, if◌then◌else◌,
}
use raft_log.Prelude.Ord.{lt, le}
use raft_log.Types.{Types, ids, u64_mod}
use raft_log.BTreeMap
use raft_log.BTreeMap.{BTreeMap}

pub record PayloadCache (T : Types) : Type 0 where
  pub max_items : ℕ
  pub capacity : ℕ
  pub size : ℕ
  pub cache : BTreeMap T.LogId T.LogPayload
  pub last_evictable : Option T.LogId

abbrev pub Payloads : Types → Type 0
Payloads T = BTreeMap T.LogId T.LogPayload

-- `usize` addition and subtraction.
abbrev pub add_usize : ℕ → ℕ → ℕ
add_usize a b = (a + b) % u64_mod

abbrev pub sub_usize : ℕ → ℕ → ℕ
sub_usize a b = (a + u64_mod - b) % u64_mod

module _ {T : Types} where
  unfoldable pub new : ℕ → ℕ → PayloadCache T
  new max_items capacity = record {
    max_items = max_items;
    capacity = capacity;
    size = 0;
    cache = [];
    last_evictable = none;
  }

  unfoldable pub set_last_evictable : PayloadCache T → Option T.LogId → PayloadCache T
  set_last_evictable c log_id = record c { last_evictable = log_id }

  unfoldable pub item_count : PayloadCache T → ℕ
  item_count c = length c.cache

  unfoldable pub need_evict : PayloadCache T → Bool
  need_evict c = ltb c.max_items (length c.cache) || ltb c.capacity c.size

  -- `Some(log_id) <= self.last_evictable.as_ref()`
  unfoldable pub evictable : PayloadCache T → T.LogId → Bool
  evictable c log_id = le (ids T) (some log_id) c.last_evictable

  -- `evict_first` on a cache whose entries are `(log_id, payload) ∷ rest`.
  unfoldable pub evict_first : PayloadCache T → T.LogPayload → Payloads T → PayloadCache T
  evict_first c payload rest = record c {
    cache = rest;
    size = sub_usize c.size (T.payload_size payload);
  }

  -- The loop of `try_evict` takes entries from the front, so it is a recursion on the entries:
  -- `evict_while c m` is the loop at the cache `record c { cache = m }`.
  unfoldable pub evict_while : PayloadCache T → Payloads T → PayloadCache T
  evict_while c [] = record c { cache = [] }
  evict_while c ((id, payload) ∷ rest) =
      let here = record c { cache = (id, payload) ∷ rest } in
      let next = evict_while (evict_first c payload rest) rest in
      if need_evict here && evictable here id then next else here

  unfoldable pub try_evict : PayloadCache T → PayloadCache T
  unfolding evict_while need_evict evictable evict_first
  try_evict c = evict_while c c.cache

  unfoldable pub insert : PayloadCache T → T.LogId → T.LogPayload → PayloadCache T
  insert c key value = try_evict (record c {
    cache = BTreeMap.insert T.log_id_ord key value c.cache;
    size = add_usize c.size (T.payload_size value);
  })

  -- The loop of `drain_evictable`, as a recursion on the entries.
  unfoldable pub drain_while : PayloadCache T → Payloads T → PayloadCache T
  drain_while c [] = record c { cache = [] }
  drain_while c ((id, payload) ∷ rest) =
      let here = record c { cache = (id, payload) ∷ rest } in
      let next = drain_while (evict_first c payload rest) rest in
      if evictable here id then next else here

  unfoldable pub drain_evictable : PayloadCache T → PayloadCache T
  unfolding drain_while evictable evict_first
  drain_evictable c = drain_while c c.cache

  unfoldable pub get : PayloadCache T → T.LogId → Option T.LogPayload
  get c key = BTreeMap.get T.log_id_ord key c.cache

  -- The loop of `purge_upto`: what is popped in vain is inserted again.
  unfoldable pub purge_while : PayloadCache T → T.LogId → Payloads T → PayloadCache T
  purge_while c key [] = record c { cache = [] }
  purge_while c key ((id, payload) ∷ rest) =
      let next = purge_while (evict_first c payload rest) key rest in
      if le T.log_id_ord id key && evictable c id
      then next
      else record c { cache = BTreeMap.insert T.log_id_ord id payload rest }

  unfoldable pub purge_upto : PayloadCache T → T.LogId → PayloadCache T
  unfolding purge_while evictable evict_first
  purge_upto c key = purge_while c key c.cache

  -- The loop of `truncate_after`, which takes entries from the back. Each round but the last makes
  -- the cache shorter by one, so the number of entries is fuel enough.
  unfoldable pub truncate_while : ℕ → PayloadCache T → T.LogId → PayloadCache T
  truncate_while zero c key = c
  truncate_while (suc fuel) c key = elim (BTreeMap.pop_last c.cache) [
    | none ↦ c
    | some ((id, payload), rest) ↦ elim (lt T.log_id_ord key id) [
      | true ↦
          truncate_while fuel
            (record c { cache = rest; size = sub_usize c.size (T.payload_size payload) }) key
      | false ↦ record c { cache = BTreeMap.insert T.log_id_ord id payload rest }
    ]
  ]

  unfoldable pub truncate_after : PayloadCache T → T.LogId → PayloadCache T
  unfolding truncate_while
  truncate_after c key = truncate_while (length c.cache) c key

  unfoldable pub clear : PayloadCache T → PayloadCache T
  clear c = record c { cache = []; size = 0 }
