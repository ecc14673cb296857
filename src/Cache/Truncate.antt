-- ===== src/Cache/Truncate.antt =====
-- `truncate_after`: the loop from the back, whose fuel is enough, and what it leaves.
use raft_log.Prelude.{
  ℕ, zero, suc, ◌+◌, ◌%◌, ◌≡◌, refl, ap, inl, inr, none, some, true, false, [], ◌∷◌, ◌++◌, All,
  arith, All-imp, subst, Bool-cases, length, length-append, if◌then◌else◌, sym, ◌≤◌,
}
use raft_log.Prelude.Ord.{Ord, lt, lt_trans, equal, equal-eq, le-not-lt, le-lt_trans}
use raft_log.Types.{Types, u64_mod}
use raft_log.BTreeMap
use raft_log.BTreeMap.{BTreeMap, last_key_value, without_last}
use raft_log.BTreeMap.Sorted.{IsSorted, AllAbove}
use raft_log.BTreeMap.Laws.{AllBelow, get-below, get-insert, insert-last, pop_last-cons}
use raft_log.Cache.{PayloadCache, Payloads, truncate_while, truncate_after, sub_usize}
use raft_log.Cache.Loops.{total}

module _ {K V : Type 0} (o : Ord K) where
  -- A sorted list that ends with `e`: what is before it is sorted and below it.
  pub IsSorted-append :
      (m : BTreeMap K V) (e : K × V) → IsSorted o (m ++ e ∷ []) → IsSorted o m × AllBelow o e.0 m
  IsSorted-append [] e s = (tt, tt)
  IsSorted-append (d ∷ m) e s =
      let (sorted, below) = IsSorted-append m e s.1 in
      let parts = above m s.0 in ((parts.0, sorted), (parts.1, below))
    where
      above :
          (m : BTreeMap K V)
          → All (λ x. lt o d.0 x.0 ≡ true) (m ++ e ∷ [])
          → AllAbove o d.0 m × (lt o d.0 e.0 ≡ true)
      above [] a = (tt, a.0)
      above (x ∷ m) a = let (rest, last) = above m a.1 in ((a.0, rest), last)

  pub get-append :
      (j : K) (m : BTreeMap K V) (e : K × V)
      → AllBelow o e.0 m
      → BTreeMap.get o j (m ++ e ∷ []) ≡ (if equal o j e.0 then some e.1 else BTreeMap.get o j m)
  get-append j m e b = rw (← insert-last o e.0 e.1 m b) (get-insert o j e.0 e.1 m)

  get_beyond :
      (k j : K) (m : BTreeMap K V) (e : K × V)
      → AllBelow o e.0 m
      → lt o k e.0 ≡ false
      → lt o k j ≡ true
      → BTreeMap.get o j (m ++ e ∷ []) ≡ none
  get_beyond k j m e b h l =
      let up : lt o e.0 j ≡ true = ground (arith, le-not-lt o e.0 k, le-lt_trans o e.0 k j) in
      let behind = get-below o j m (All-imp (λ x y. lt_trans o x.0 e.0 j y up) m b) in
      ground (arith, get-append j m e b, equal-eq o j e.0, behind)

  -- Keeping everything up to `k` is keeping everything, if the last key is not above `k`.
  pub keep_upto :
      (k : K) (m : BTreeMap K V) (e : K × V)
      → IsSorted o (m ++ e ∷ [])
      → lt o k e.0 ≡ false
      → (j : K)
      → BTreeMap.get o j (m ++ e ∷ []) ≡ (if lt o k j then none else BTreeMap.get o j (m ++ e ∷ []))
  keep_upto k m e s h j = ground (arith, get_beyond k j m e (IsSorted-append m e s).1 h)

pub total-append :
    (T : Types) (m : Payloads T) (e : T.LogId × T.LogPayload)
    → total T (m ++ e ∷ []) ≡ total T m + T.payload_size e.1
unfolding total
total-append T [] e = omega arith
total-append T (d ∷ m) e = omega (arith, total-append T m e)

module _ {T : Types} where
  -- What the loop leaves when it starts from `m`.
  pub record Truncated (key : T.LogId) (m : Payloads T) (c d : PayloadCache T) : Type 0 where
    pub found :
        (j : T.LogId)
        → BTreeMap.get T.log_id_ord j d.cache
          ≡ (if lt T.log_id_ord key j then none else BTreeMap.get T.log_id_ord j m)
    pub sorted : IsSorted T.log_id_ord d.cache
    pub sized : c.size ≡ total T m % u64_mod → d.size ≡ total T d.cache % u64_mod
    pub boundary : d.last_evictable ≡ c.last_evictable
    pub items : d.max_items ≡ c.max_items
    pub bytes : d.capacity ≡ c.capacity

  Truncated-next :
      (key : T.LogId) (m : Payloads T) (e : T.LogId × T.LogPayload) (c d : PayloadCache T)
      → IsSorted T.log_id_ord (m ++ e ∷ [])
      → lt T.log_id_ord key e.0 ≡ true
      → Truncated key m (record c { cache = m; size = sub_usize c.size (T.payload_size e.1) }) d
      → Truncated key (m ++ e ∷ []) c d
  Truncated-next key m e c d s h k = record {
    found = λ j. ground (
      arith,
      k.found j,
      get-append T.log_id_ord j m e (IsSorted-append T.log_id_ord m e s).1,
      equal-eq T.log_id_ord j e.0,
    );
    sorted = k.sorted;
    sized = λ z. k.sized (omega (arith, T.payload_size_u64 e.1, total-append T m e));
    boundary = k.boundary;
    items = k.items;
    bytes = k.bytes;
  }

  Truncated-stop :
      (key : T.LogId) (m : Payloads T) (e : T.LogId × T.LogPayload) (c : PayloadCache T)
      → IsSorted T.log_id_ord (m ++ e ∷ [])
      → lt T.log_id_ord key e.0 ≡ false
      → Truncated key (m ++ e ∷ []) c (record c { cache = BTreeMap.insert T.log_id_ord e.0 e.1 m })
  Truncated-stop key m e c s h =
      rw (insert-last T.log_id_ord e.0 e.1 m (IsSorted-append T.log_id_ord m e s).1) (record {
        found = keep_upto T.log_id_ord key m e s h;
        sorted = s;
        sized = λ z. z;
        boundary = refl;
        items = refl;
        bytes = refl;
      })

  Truncated-nil :
      (key : T.LogId) (c : PayloadCache T) → Truncated key [] c (record c { cache = [] })
  unfolding BTreeMap.get
  Truncated-nil key c = record {
    found = λ j. ground arith;
    sorted = tt;
    sized = λ z. z;
    boundary = refl;
    items = refl;
    bytes = refl;
  }

  Truncated-eq :
      (key : T.LogId) {m m' : Payloads T} (c d : PayloadCache T)
      → m ≡ m'
      → Truncated key m' c d
      → Truncated key m c d
  Truncated-eq key c d e = subst (λ x. Truncated key x c d) (sym e)

  truncate_while_step :
      (fuel : ℕ) (c : PayloadCache T) (key : T.LogId) (e : T.LogId × T.LogPayload) (w : Payloads T)
      → BTreeMap.pop_last c.cache ≡ some (e, w)
      → truncate_while (suc fuel) c key ≡ (
          if lt T.log_id_ord key e.0
          then truncate_while fuel
              (record c { cache = w; size = sub_usize c.size (T.payload_size e.1) })
              key
          else record c { cache = BTreeMap.insert T.log_id_ord e.0 e.1 w })
  unfolding truncate_while
  truncate_while_step fuel c key e w h = ground arith

  truncate_while-Truncated :
      (fuel : ℕ) (c : PayloadCache T) (key : T.LogId) (m : Payloads T)
      → IsSorted T.log_id_ord m
      → length m ≤ fuel
      → Truncated key m c (truncate_while fuel (record c { cache = m }) key)
  truncate_while-Truncated zero c key [] s h = unfold truncate_while in Truncated-nil key c
  truncate_while-Truncated zero c key (d ∷ m) s h = absurd (omega arith)
  truncate_while-Truncated (suc fuel) c key [] s h =
      unfold truncate_while BTreeMap.pop_last last_key_value in Truncated-nil key c
  truncate_while-Truncated (suc fuel) c key (d ∷ m) s h =
      let (e, popped, split) = pop_last-cons d m in
      let w = without_last (d ∷ m) in
      let s' = subst (IsSorted T.log_id_ord) split s in
      let short : length w ≤ fuel = omega (arith, ap length split, length-append {0} w (e ∷ [])) in
      let gone : PayloadCache T = record c {
        cache = w;
        size = sub_usize c.size (T.payload_size e.1);
      } in
      rw (truncate_while_step fuel (record c { cache = d ∷ m }) key e w popped)
        (elim (Bool-cases (lt T.log_id_ord key e.0)) [
          | inl above ↦ rw above (
              Truncated-eq key c _ split (
                Truncated-next key w e c _ s' above (
                  truncate_while-Truncated fuel gone key w (IsSorted-append T.log_id_ord w e s').0
                    short)))
          | inr stays ↦ rw stays (Truncated-eq key c _ split (Truncated-stop key w e c s' stays))
        ])

  -- On a cache whose entries are sorted, `truncate_after` removes exactly the entries above the
  -- key, keeps the others sorted, keeps the size equal to the sum of the payloads' sizes modulo
  -- 2^64 if it was, and leaves the boundary and the limits alone. The number of entries is fuel
  -- enough.
  pub truncate_after-Truncated :
      (c : PayloadCache T) (key : T.LogId)
      → IsSorted T.log_id_ord c.cache
      → Truncated key c.cache c (truncate_after c key)
  unfolding truncate_after
  truncate_after-Truncated c key s =
      truncate_while-Truncated (length c.cache) c key c.cache s (omega arith)
