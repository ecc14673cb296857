-- ===== src/Cache/Loops.antt =====
-- What the loops of the cache drop: entries from the front that may be evicted, and no others.
use raft_log.Prelude.{
  ℕ, ◌+◌, ◌%◌, ◌≡◌, refl, ◌⊎◌, inl, inr, none, Bool, true, ◌&&◌, [], ◌∷◌, arith, Bool-cases,
}
use raft_log.Prelude.Ord.{Ord, le}
use raft_log.Types.{Types, u64_mod}
use raft_log.BTreeMap
use raft_log.BTreeMap.{BTreeMap}
use raft_log.BTreeMap.Sorted.{IsSorted}
use raft_log.BTreeMap.Laws.{get-above, insert-first}
use raft_log.Cache.{
  PayloadCache, Payloads, need_evict, evictable, evict_first, evict_while, try_evict, drain_while,
  drain_evictable, purge_while, purge_upto,
}

module _ {K V : Type 0} (o : Ord K) where
  -- Every lookup finds the same in `m'` as in `m`, except keys of which `q` holds, which may be gone.
  abbrev pub Drops : (K → Bool) → BTreeMap K V → BTreeMap K V → Type 0
  Drops q m m' =
      (j : K)
      → (BTreeMap.get o j m' ≡ BTreeMap.get o j m) ⊎ ((BTreeMap.get o j m' ≡ none) × (q j ≡ true))

  pub Drops-first :
      (q : K → Bool) (k : K) (v : V) (m m' : BTreeMap K V)
      → IsSorted o ((k, v) ∷ m)
      → q k ≡ true
      → Drops q m m'
      → Drops q ((k, v) ∷ m) m'
  unfolding BTreeMap.get
  Drops-first q k v m m' s h d j = ground (arith, d j, o.eq_of_cmp j k, get-above o k m s.0)

-- The payload bytes that the entries hold.
unfoldable pub total : (T : Types) → Payloads T → ℕ
total T [] = 0
total T (e ∷ m) = T.payload_size e.1 + total T m

module _ {T : Types} where
  -- `d` is `c` at the entries `m`, after some of those of which `q` holds were popped.
  pub record Popped (q : T.LogId → Bool) (m : Payloads T) (c d : PayloadCache T) : Type 0 where
    pub drops : Drops T.log_id_ord q m d.cache
    pub sorted : IsSorted T.log_id_ord d.cache
    pub sized : c.size ≡ total T m % u64_mod → d.size ≡ total T d.cache % u64_mod
    pub boundary : d.last_evictable ≡ c.last_evictable
    pub items : d.max_items ≡ c.max_items
    pub bytes : d.capacity ≡ c.capacity

  Popped-stop :
      (q : T.LogId → Bool) (m : Payloads T) (c : PayloadCache T)
      → IsSorted T.log_id_ord m
      → Popped q m c (record c { cache = m })
  Popped-stop q m c s = record {
    drops = λ j. inl refl;
    sorted = s;
    sized = λ h. h;
    boundary = refl;
    items = refl;
    bytes = refl;
  }

  Popped-next :
      (q : T.LogId → Bool) (id : T.LogId) (p : T.LogPayload) (rest : Payloads T)
      (c d : PayloadCache T)
      → IsSorted T.log_id_ord ((id, p) ∷ rest)
      → q id ≡ true
      → Popped q rest (evict_first c p rest) d
      → Popped q ((id, p) ∷ rest) c d
  unfolding evict_first total
  Popped-next q id p rest c d s h k = record {
    drops = Drops-first T.log_id_ord q id p rest d.cache s h k.drops;
    sorted = k.sorted;
    sized = λ e. k.sized (omega (arith, T.payload_size_u64 p));
    boundary = k.boundary;
    items = k.items;
    bytes = k.bytes;
  }

  evict_while-Popped :
      (c : PayloadCache T) (m : Payloads T)
      → IsSorted T.log_id_ord m
      → Popped (evictable c) m c (evict_while c m)
  unfolding evict_while evict_first evictable
  evict_while-Popped c [] s = Popped-stop (evictable c) [] c s
  evict_while-Popped c ((id, p) ∷ rest) s =
      let here = record c { cache = (id, p) ∷ rest } in
      elim (Bool-cases (need_evict here && evictable here id)) [
        | inl h ↦ rw h (
            Popped-next (evictable c) id p rest c _ s (ground arith)
              (evict_while-Popped (evict_first c p rest) rest s.1))
        | inr h ↦ rw h (Popped-stop (evictable c) _ c s)
      ]

  drain_while-Popped :
      (c : PayloadCache T) (m : Payloads T)
      → IsSorted T.log_id_ord m
      → Popped (evictable c) m c (drain_while c m)
  unfolding drain_while evict_first evictable
  drain_while-Popped c [] s = Popped-stop (evictable c) [] c s
  drain_while-Popped c ((id, p) ∷ rest) s = elim (Bool-cases (evictable c id)) [
    | inl h ↦ rw h (
        Popped-next (evictable c) id p rest c _ s h
          (drain_while-Popped (evict_first c p rest) rest s.1))
    | inr h ↦ rw h (Popped-stop (evictable c) _ c s)
  ]

  -- What `purge_upto` may drop: the evictable entries up to the key.
  abbrev pub purgeable : PayloadCache T → T.LogId → T.LogId → Bool
  purgeable c key id = le T.log_id_ord id key && evictable c id

  purge_while-Popped :
      (c : PayloadCache T) (key : T.LogId) (m : Payloads T)
      → IsSorted T.log_id_ord m
      → Popped (purgeable c key) m c (purge_while c key m)
  unfolding purge_while evict_first evictable
  purge_while-Popped c key [] s = Popped-stop (purgeable c key) [] c s
  purge_while-Popped c key ((id, p) ∷ rest) s = elim (Bool-cases (purgeable c key id)) [
    | inl h ↦ rw h (
        Popped-next (purgeable c key) id p rest c _ s h
          (purge_while-Popped (evict_first c p rest) key rest s.1))
    | inr h ↦ rw (h, insert-first T.log_id_ord id p rest s.0) (Popped-stop (purgeable c key) _ c s)
  ]

  -- `try_evict` drops evictable entries only.
  pub try_evict-Popped :
      (c : PayloadCache T)
      → IsSorted T.log_id_ord c.cache
      → Popped (evictable c) c.cache c (try_evict c)
  unfolding try_evict
  try_evict-Popped c s = evict_while-Popped c c.cache s

  pub drain_evictable-Popped :
      (c : PayloadCache T)
      → IsSorted T.log_id_ord c.cache
      → Popped (evictable c) c.cache c (drain_evictable c)
  unfolding drain_evictable
  drain_evictable-Popped c s = drain_while-Popped c c.cache s

  pub purge_upto-Popped :
      (c : PayloadCache T) (key : T.LogId)
      → IsSorted T.log_id_ord c.cache
      → Popped (purgeable c key) c.cache c (purge_upto c key)
  unfolding purge_upto
  purge_upto-Popped c key s = purge_while-Popped c key c.cache s
