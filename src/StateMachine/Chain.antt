-- ===== src/StateMachine/Chain.antt =====
-- The shape of the log map: consecutive indexes, each the index of its log id, and increasing log
-- ids. What `split_off` and an append do to such a map.
use raft_log.Prelude.{
  ℕ, ◌+◌, ◌≤◌, ◌<◌, ◌≡◌, refl, ap, sym, subst, some, true, [], ◌∷◌, ◌++◌, All, All-imp, arith, keep,
  ◌==◌, if◌then◌else◌,
}
use mathlib.Core.Option.{some-injective}
use raft_log.Prelude.Ord.{lt, le, lt_trans, le_self, le_of_lt, lt-le_trans, u64_ord, lt_u64, le_u64}
use native.Mathlib.Decide.{dec_lt}
use raft_log.Types.{Types}
use raft_log.BTreeMap
use raft_log.BTreeMap.{last_key_value, split_below, split_off}
use raft_log.BTreeMap.Laws.{get-above, keep-All, keep_none}
use raft_log.StateMachine.{LogData, Log}

module _ (T : Types) where
  abbrev pub Linked : ℕ × LogData T → Log T → Type 0
  Linked e [] = Unit
  Linked e (f ∷ m) = (f.0 ≡ e.0 + 1) × (lt T.log_id_ord e.1.log_id f.1.log_id ≡ true)

  abbrev pub IsChain : Log T → Type 0
  IsChain [] = Unit
  IsChain (e ∷ m) = (e.0 ≡ T.log_index e.1.log_id) × Linked e m × IsChain m

  -- `e` comes before `f`, by index and by log id.
  abbrev pub Before : ℕ × LogData T → ℕ × LogData T → Type 0
  Before e f = (e.0 < f.0) × (lt T.log_id_ord e.1.log_id f.1.log_id ≡ true)

  pub chain-Before : (e : ℕ × LogData T) (m : Log T) → Linked e m → IsChain m → All (Before e) m
  chain-Before e [] l c = tt
  chain-Before e (f ∷ m) l c = (
    (omega arith, l.1),
    All-imp (λ g b. (omega arith, lt_trans T.log_id_ord e.1.log_id f.1.log_id g.1.log_id l.1 b.1)) m
        (chain-Before f m c.1 c.2),
  )

  -- No entry is behind the last one.
  abbrev pub Upto : ℕ × LogData T → ℕ × LogData T → Type 0
  Upto l e = (e.0 ≤ l.0) × (le T.log_id_ord e.1.log_id l.1.log_id ≡ true)

  pub chain-Upto_last :
      (m : Log T) (l : ℕ × LogData T) → IsChain m → last_key_value m ≡ some l → All (Upto l) m
  unfolding last_key_value
  chain-Upto_last [] l c h = tt
  chain-Upto_last (e ∷ []) l c h =
      let same : e ≡ l = some-injective e l h in
      rw (← same) ((omega arith, le_self T.log_id_ord e.1.log_id), tt)
  chain-Upto_last (e ∷ f ∷ m) l c h =
      let rest = chain-Upto_last (f ∷ m) l c.2 h in
      (
        (
          omega arith,
          le_of_lt T.log_id_ord e.1.log_id l.1.log_id
              (lt-le_trans T.log_id_ord e.1.log_id f.1.log_id l.1.log_id c.1.1 rest.0.1),
        ),
        rest,
      )

  -- An entry that follows the last one extends the chain.
  pub IsChain-snoc :
      (m : Log T) (l f : ℕ × LogData T)
      → IsChain m
      → last_key_value m ≡ some l
      → f.0 ≡ T.log_index f.1.log_id
      → Linked l (f ∷ [])
      → IsChain (m ++ f ∷ [])
  unfolding last_key_value
  IsChain-snoc [] l f c h k n = (k, tt, tt)
  IsChain-snoc (e ∷ []) l f c h k n =
      let same : e ≡ l = some-injective e l h in
      (c.0, subst (λ x. Linked x (f ∷ [])) (sym same) n, (k, tt, tt))
  IsChain-snoc (e ∷ e' ∷ m) l f c h k n = (c.0, c.1, IsChain-snoc (e' ∷ m) l f c.2 h k n)

  above_keys :
      (k : ℕ) (e : ℕ × LogData T) (m : Log T)
      → k ≤ e.0
      → All (Before e) m
      → All (λ f. lt u64_ord k f.0 ≡ true) m
  above_keys k e m h = All-imp (λ f b. (lt_u64 k f.0).1 (omega arith)) m

  pub split_off_whole :
      (k : ℕ) (e : ℕ × LogData T) (m : Log T)
      → k ≤ e.0
      → All (Before e) m
      → split_off u64_ord k (e ∷ m) ≡ e ∷ m
  unfolding split_off
  split_off_whole k e m h b =
      keep-All _ (e ∷ m) ((le_u64 k e.0).1 h, All-imp (λ f b'. (le_u64 k f.0).1 (omega arith)) m b)

  pub split_below_none :
      (k : ℕ) (e : ℕ × LogData T) (m : Log T)
      → k ≤ e.0
      → All (Before e) m
      → split_below u64_ord k (e ∷ m) ≡ []
  unfolding split_below
  split_below_none k e m h b =
      keep_none (λ x. lt u64_ord x.0 k) (e ∷ m)
        (ground (arith, lt_u64 e.0 k), All-imp (λ f b'. ground (arith, lt_u64 f.0 k)) m b)

  split_below_after :
      (k : ℕ) (e : ℕ × LogData T) (m : Log T)
      → k ≤ e.0 + 1
      → All (Before e) m
      → split_below u64_ord k m ≡ []
  unfolding split_below
  split_below_after k e m h b =
      keep_none (λ x. lt u64_ord x.0 k) m (All-imp (λ f b'. ground (arith, lt_u64 f.0 k)) m b)

  pub split_below_step :
      (k : ℕ) (e : ℕ × LogData T) (m : Log T)
      → e.0 < k
      → split_below u64_ord k (e ∷ m) ≡ e ∷ split_below u64_ord k m
  unfolding split_below keep
  split_below_step k e m h = rw ((lt_u64 e.0 k).1 h)

  pub split_off_step :
      (k : ℕ) (e : ℕ × LogData T) (m : Log T)
      → e.0 < k
      → split_off u64_ord k (e ∷ m) ≡ split_off u64_ord k m
  unfolding split_off keep
  split_off_step k e m h = ground (arith, le_u64 k e.0)

  split_below_nil : (k : ℕ) → split_below {V = LogData T} u64_ord k [] ≡ []
  unfolding split_below keep
  split_below_nil k = refl

  split_off_nil : (k : ℕ) → split_off {V = LogData T} u64_ord k [] ≡ []
  unfolding split_off keep
  split_off_nil k = refl

  pub get_step :
      (i : ℕ) (e : ℕ × LogData T) (m : Log T)
      → BTreeMap.get u64_ord i (e ∷ m) ≡ (if e.0 == i then some e.1 else BTreeMap.get u64_ord i m)
  unfolding BTreeMap.get u64_ord
  get_step i e m = ground arith

  Linked-below :
      (k : ℕ) (e : ℕ × LogData T) (m : Log T)
      → Linked e m
      → IsChain m
      → Linked e (split_below u64_ord k m)
  Linked-below k e [] l c = rw (split_below_nil k) l
  Linked-below k e (f ∷ m) l c = elim (dec_lt f.0 k) [
    | yes h ↦ rw (split_below_step k f m h) l
    | no h ↦ rw (split_below_none k f m (omega arith) (chain-Before f m c.1 c.2)) tt
  ]

  pub split_below-IsChain : (k : ℕ) (m : Log T) → IsChain m → IsChain (split_below u64_ord k m)
  split_below-IsChain k [] c = rw (split_below_nil k) c
  split_below-IsChain k (e ∷ m) c = elim (dec_lt e.0 k) [
    | yes h ↦
        rw (split_below_step k e m h) (c.0, Linked-below k e m c.1 c.2, split_below-IsChain k m c.2)
    | no h ↦ rw (split_below_none k e m (omega arith) (chain-Before e m c.1 c.2)) tt
  ]

  pub split_off-IsChain : (k : ℕ) (m : Log T) → IsChain m → IsChain (split_off u64_ord k m)
  split_off-IsChain k [] c = rw (split_off_nil k) c
  split_off-IsChain k (e ∷ m) c = elim (dec_lt e.0 k) [
    | yes h ↦ rw (split_off_step k e m h) (split_off-IsChain k m c.2)
    | no h ↦ rw (split_off_whole k e m (omega arith) (chain-Before e m c.1 c.2)) c
  ]

  last-cons :
      (e l : ℕ × LogData T) (m : Log T)
      → last_key_value m ≡ some l
      → last_key_value (e ∷ m) ≡ some l
  unfolding last_key_value
  last-cons e l [] h = absurd (ground arith)
  last-cons e l (f ∷ m) h = h

  -- What is left from `k` on ends where the map ends.
  pub last-split_off :
      (k : ℕ) (m : Log T) (l : ℕ × LogData T)
      → IsChain m
      → last_key_value (split_off u64_ord k m) ≡ some l
      → last_key_value m ≡ some l
  last-split_off k [] l c h = rw (split_off_nil k) at h
  last-split_off k (e ∷ m) l c h = elim (dec_lt e.0 k) [
    | yes b ↦ last-cons e l m (last-split_off k m l c.2 (rw (split_off_step k e m b) at h))
    | no b ↦ rw (split_off_whole k e m (omega arith) (chain-Before e m c.1 c.2)) at h
  ]

  -- What is below the index after an entry's ends with that entry.
  pub last-split_below :
      (i : ℕ) (m : Log T) (d : LogData T)
      → IsChain m
      → BTreeMap.get u64_ord i m ≡ some d
      → last_key_value (split_below u64_ord (i + 1) m) ≡ some (i, d)
  last-split_below i [] d c h = absurd (unfold BTreeMap.get in cc h)
  last-split_below i (e ∷ m) d c h = elim (dec_lt e.0 i) [
    | yes b ↦ rw (split_below_step (i + 1) e m (omega arith)) (
        last-cons e (i, d) (split_below u64_ord (i + 1) m)
          (last-split_below i m d c.2 (ground (arith, get_step i e m))))
    | no b ↦
        let behind = chain-Before e m c.1 c.2 in
        let missing = get-above u64_ord i m (above_keys i e m (omega arith) behind) in
        let same : (e.0 ≡ i) × (e.1 ≡ d) = ground (arith, get_step i e m, missing) in
        rw
          (
            split_below_step (i + 1) e m (omega arith),
            split_below_after (i + 1) e m (omega arith) behind,
          )
          (unfold last_key_value in ap some (λ j. (same.0 j, same.1 j)))
  ]
