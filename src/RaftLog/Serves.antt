-- ===== src/RaftLog/Serves.antt =====
-- Each request does to the entries that the store shows what its documentation says.
use mathlib.Core.List.{append-nil, append_assoc}
use raft_log.Prelude.{
  ℕ, zero, suc, ◌≤◌, ◌<◌, ◌≡◌, ◌≢◌, ◌⊎◌, ◌∙◌, inl, inr, refl, sym, ap, subst, Option, none, some,
  true, [], ◌∷◌, ◌++◌, keep, All, All-imp, Outcome, ok, err, panic, arith, Outcome-cases,
  Bool-cases, ltb, ◌==◌, resume, map_err, return, ◌>>=◌, All2-right,
}
use raft_log.Prelude.Ord.{lt}
use raft_log.Types.{Types, ids, ChunkId, Segment, next_log_index, InRange}
use raft_log.Errors.{IoError, RaftLogStateError, invalid_input}
use raft_log.BTreeMap.Laws.{keep-All}
use raft_log.State.{RaftLogAction, RaftLogRecord, action, checkpoint}
use raft_log.Cache
use raft_log.Cache.{PayloadCache, evictable, set_last_evictable, drain_evictable}
use raft_log.Cache.Loops.{purge_upto-Popped}
use raft_log.Cache.Insert.{insert-Popped}
use raft_log.Cache.Truncate.{truncate_after-Truncated}
use raft_log.StateMachine.{RaftLogStateMachine, absorb}
use raft_log.StateMachine.Inv.{next-in_range}
use raft_log.StateMachine.Inv.Truncate.{Keepable, entry_facts}
use raft_log.StateMachine.Inv.Purge.{Purgeable}
use raft_log.StateMachine.Keeps.{SmInv, apply_accepted}
use raft_log.Contents.{Entries, effect, below, from_on}
use raft_log.Wal.{Wal}
use raft_log.Wal.Laws.{Chunked}
use raft_log.RaftLog.{
  RaftLog, append_and_apply, buffer_removable_chunks, append, get_log_id, truncate_before, truncate,
  purge,
}
use raft_log.RaftLog.Write.{append_and_apply_cases}
use raft_log.RaftLog.Safe.{get_log_id-ok}
use raft_log.RaftLog.Refines.{Good, Ends, Ends-ok, Ends-any, append_and_apply-Good, buffer-Good}

module _ {T : Types} where
  pub boundary-absorb :
      (sm : RaftLogStateMachine T) (rec : RaftLogRecord T) (chunk : ChunkId) (segment : Segment)
      → SmInv sm
      → (absorb sm rec chunk segment).payload_cache.last_evictable ≡ sm.payload_cache.last_evictable
  unfolding absorb Cache.clear
  boundary-absorb sm (action (RaftLogAction.append id p)) chunk segment v =
      (insert-Popped sm.payload_cache id p v.cache.sorted).boundary
  boundary-absorb sm (action (RaftLogAction.truncate_after none)) chunk segment v = refl
  boundary-absorb sm (action (RaftLogAction.truncate_after (some id))) chunk segment v =
      (truncate_after-Truncated sm.payload_cache id v.cache.sorted).boundary
  boundary-absorb sm (action (RaftLogAction.purge_upto id)) chunk segment v =
      (purge_upto-Popped sm.payload_cache id v.cache.sorted).boundary
  boundary-absorb sm (action (RaftLogAction.save_vote vote)) chunk segment v = refl
  boundary-absorb sm (action (RaftLogAction.commit id)) chunk segment v = refl
  boundary-absorb sm (checkpoint state) chunk segment v = refl

module _ {T : Types} {W : Wal T} where
  -- Records do not move the eviction boundary.
  pub boundary-append_and_apply :
      (rec : RaftLogRecord T) (rl : RaftLog T W)
      → SmInv rl.state_machine
      → (append_and_apply rec rl).0.state_machine.payload_cache.last_evictable
        ≡ rl.state_machine.payload_cache.last_evictable
  boundary-append_and_apply rec rl v =
      append_and_apply_cases
        (λ sm. sm.payload_cache.last_evictable ≡ rl.state_machine.payload_cache.last_evictable) rec
        rl refl
        (λ chunk segment h.
          rw (apply_accepted rl.state_machine rec chunk segment h)
            (boundary-absorb rl.state_machine rec chunk segment v))

module _ {T : Types} {W : Wal T} (k : Chunked W) where
  -- The store shows the entries, keeps its invariant, and removes no chunk that an entry lies in.
  abbrev pub Holds : RaftLog T W → Entries T → Type 0
  Holds rl es = Good k rl.wal rl.state_machine rl.removed_chunks es

  -- A batch: the entries `done` are appended, and they are all of it if the call returns.
  pub record Appended {A : Type 0} (entries es : Entries T) (rl : RaftLog T W)
      (outcome : Outcome (IoError T) A) : Type 0 where
    pub done : Entries T
    pub rest : Entries T
    pub split : entries ≡ done ++ rest
    pub holds : Holds rl (es ++ done)
    pub all : (a : A) → outcome ≡ ok a → rest ≡ []

  append_cons :
      (e : T.LogId × T.LogPayload) (entries : Entries T) (rl : RaftLog T W) (segment : Segment)
      → (append_and_apply (action (RaftLogAction.append e.0 e.1)) rl).1 ≡ ok segment
      → append entries (append_and_apply (action (RaftLogAction.append e.0 e.1)) rl).0
        ≡ append (e ∷ entries) rl
  unfolding append
  append_cons e entries rl segment h = ground (arith, h)

  append_ended :
      (e : T.LogId × T.LogPayload) (entries : Entries T) (rl : RaftLog T W)
      → ((s : Segment) → (append_and_apply (action (RaftLogAction.append e.0 e.1)) rl).1 ≢ ok s)
      → ((append (e ∷ entries) rl).0
          ≡ (append_and_apply (action (RaftLogAction.append e.0 e.1)) rl).0)
        × ((s : Segment) → (append (e ∷ entries) rl).1 ≢ ok s)
  unfolding append
  append_ended e entries rl h =
      elim (Outcome-cases (append_and_apply (action (RaftLogAction.append e.0 e.1)) rl).1) [
        | inl (s, n) ↦ absurd (h s n)
        | inr (inl (x, n)) ↦ (ground (arith, n), λ s q. ground (arith, n, q))
        | inr (inr n) ↦ (ground (arith, n), λ s q. ground (arith, n, q))
      ]

  Appended-more :
      (e : T.LogId × T.LogPayload) (entries es : Entries T)
      (p : RaftLog T W × Outcome (IoError T) Segment)
      → Appended entries (es ++ e ∷ []) p.0 p.1
      → Appended (e ∷ entries) es p.0 p.1
  Appended-more e entries es p a = record {
    done = e ∷ a.done;
    rest = a.rest;
    split = ap (◌∷◌ e) a.split;
    holds = subst (Holds p.0) (append_assoc es (e ∷ []) a.done) a.holds;
    all = a.all;
  }

  Appended-ended :
      (e : T.LogId × T.LogPayload) (entries es : Entries T) (rl : RaftLog T W)
      (r : Outcome (IoError T) Segment)
      → Holds rl es ⊎ Holds rl (es ++ e ∷ [])
      → ((s : Segment) → r ≢ ok s)
      → Appended (e ∷ entries) es rl r
  Appended-ended e entries es rl r (inl g) h = record {
    done = [];
    rest = e ∷ entries;
    split = refl;
    holds = rw (append-nil es) g;
    all = λ a q. absurd (h a q);
  }
  Appended-ended e entries es rl r (inr g) h = record {
    done = e ∷ [];
    rest = entries;
    split = refl;
    holds = g;
    all = λ a q. absurd (h a q);
  }

  -- If the WAL satisfies the laws `Chunked` on its chunks, a store shows a list of entries, and the
  -- log ids of a batch are below the largest index and above the eviction boundary, then after
  -- `append` of the batch the store shows the list with the first entries of the batch added at its
  -- end, and with all of them if the call returns.
  pub append-Appended :
      (entries : Entries T) (rl : RaftLog T W) (es : Entries T)
      → All (λ e. InRange T e.0) entries
      → All
          (λ e. lt (ids T) rl.state_machine.payload_cache.last_evictable (some e.0) ≡ true)
          entries
      → Holds rl es
      → Appended entries es (append entries rl).0 (append entries rl).1
  append-Appended [] rl es r f g =
      unfold append in
      record { done = []; rest = []; split = refl; holds = rw (append-nil es) g; all = λ a h. refl }
  append-Appended (e ∷ entries) rl es r f g =
      let rec : RaftLogRecord T = action (RaftLogAction.append e.0 e.1) in
      let written = append_and_apply-Good k rec rl es r.0 f.0 g in
      let rl' = (append_and_apply rec rl).0 in
      elim (Outcome-cases (append_and_apply rec rl).1) [
        | inl (s, h) ↦
            let g' : Holds rl' (es ++ e ∷ []) =
              unfold effect in
              Ends-ok k es (effect T rec es) (append_and_apply rec rl) s h written in
            let f' =
              subst (λ b. All (λ e. lt (ids T) b (some e.0) ≡ true) entries)
                (sym (boundary-append_and_apply rec rl g.sound)) f.1 in
            let ih = append-Appended entries rl' (es ++ e ∷ []) r.1 f' g' in
            Appended-more e entries es (append (e ∷ entries) rl) (
              subst (λ p. Appended entries (es ++ e ∷ []) p.0 p.1) (append_cons e entries rl s h)
                ih)
        | inr n ↦
            let stopped : (s : Segment) → (append_and_apply rec rl).1 ≢ ok s =
              λ s q. ground (arith, n, q) in
            let (same, ended) = append_ended e entries rl stopped in
            let g' : Holds rl' es ⊎ Holds rl' (es ++ e ∷ []) =
              unfold effect in Ends-any k es (effect T rec es) (append_and_apply rec rl) written in
            Appended-ended e entries es (append (e ∷ entries) rl).0 (append (e ∷ entries) rl).1
              (subst (λ r. Holds r es ⊎ Holds r (es ++ e ∷ [])) (sym same) g') ended
      ]

  truncated_to :
      (upto : Option T.LogId) (index : ℕ) (rl : RaftLog T W) (es : Entries T)
      → next_log_index T upto ≡ index
      → Keepable rl.state_machine.log rl.state_machine.log_state.purged upto
      → Holds rl es
      → Ends k es
          (below T index es)
          (append_and_apply (action (RaftLogAction.truncate_after upto)) rl)
  truncated_to upto index rl es same keep g =
      subst
        (λ i.
          Ends k es (below T i es)
            (append_and_apply (action (RaftLogAction.truncate_after upto)) rl))
        same
        (unfold effect in
          append_and_apply-Good k (action (RaftLogAction.truncate_after upto)) rl es keep tt g)

  truncate_found-Ends :
      (r : Outcome (RaftLogStateError T) T.LogId) (index : ℕ) (rl : RaftLog T W) (es : Entries T)
      → ((id : T.LogId)
          → r ≡ ok id
          → (next_log_index T (some id) ≡ index)
            × Keepable rl.state_machine.log rl.state_machine.log_state.purged (some id))
      → Holds rl es
      → Ends k es (below T index es) (
          resume
            (map_err invalid_input r)
            (λ id. append_and_apply (action (RaftLogAction.truncate_after (some id))))
            rl)
  truncate_found-Ends (ok id) index rl es f g =
      let (same, keepable) = f id refl in truncated_to (some id) index rl es same keepable g
  truncate_found-Ends (err e) index rl es f g = inl g
  truncate_found-Ends panic index rl es f g = inl g

  truncate_before-Ends :
      (index : ℕ) (rl : RaftLog T W) (es : Entries T)
      → Holds rl es
      → Ends k es (below T index es) (truncate_before index rl)
  unfolding truncate_before
  truncate_before-Ends zero rl es g = inl g
  truncate_before-Ends (suc i) rl es g =
      truncate_found-Ends (get_log_id rl i) (suc i) rl es
        (λ id h.
          let (d, found, same) = get_log_id-ok rl i id h in
          let (_, at, range, _) =
            entry_facts rl.state_machine.log rl.state_machine.log_state i d g.sound.log found in
          (
            ap (next_log_index T) same ∙ omega (arith, next-in_range T d.log_id range, at),
            inr (i, d, found, same),
          ))
        g

  -- If the WAL satisfies the laws `Chunked` on its chunks and a store shows a list of entries, then
  -- after `truncate(index)` the store shows the entries with an index below `index` if the call
  -- returns, and these or all the entries if it fails.
  pub truncate-Ends :
      (index : ℕ) (rl : RaftLog T W) (es : Entries T)
      → Holds rl es
      → Ends k es (below T index es) (truncate index rl)
  unfolding truncate
  truncate-Ends index rl es g =
      let purged = rl.state_machine.log_state.purged in
      elim (Bool-cases (index == next_log_index T purged)) [
        | inl h ↦ rw h (truncated_to purged index rl es (ground (arith, h)) (inl refl) g)
        | inr h ↦ rw h (truncate_before-Ends index rl es g)
      ]

  purged_on-Ends :
      (rec : RaftLogRecord T) (rl : RaftLog T W) (es target : Entries T)
      → Ends k es target (append_and_apply rec rl)
      → Ends k es target
          ((append_and_apply rec >>= λ res rl'. return res (buffer_removable_chunks rl')) rl)
  purged_on-Ends rec rl es target h =
      let p = append_and_apply rec rl in
      elim (Outcome-cases p.1) [
        | inl (s, n) ↦ ground (arith, n, buffer-Good k p.0 target (Ends-ok k es target p s n h))
        | inr (inl (e, n)) ↦ ground (arith, n, Ends-any k es target p h)
        | inr (inr n) ↦ ground (arith, n, Ends-any k es target p h)
      ]

  -- A purge below the purge point has no entry to take away.
  nothing_to_purge :
      (upto : T.LogId) (rl : RaftLog T W) (es : Entries T)
      → InRange T upto
      → T.log_index upto < next_log_index T rl.state_machine.log_state.purged
      → Holds rl es
      → from_on T (next_log_index T (some upto)) es ≡ es
  nothing_to_purge upto rl es r h g = keep-All _ es (
      All2-right (λ e. next_log_index T rl.state_machine.log_state.purged ≤ e.0) _
        (λ e a b s. ground (arith, s.index, next-in_range T upto r, h, b)) rl.state_machine.log es
        (All-imp (λ e a. a.1) rl.state_machine.log g.sound.log.above) g.shown)

  -- If the WAL satisfies the laws `Chunked` on its chunks, a store shows a list of entries, and the
  -- purge point agrees with the order of the log's entries, then after `purge(upto)` the store
  -- shows the entries with an index above that of `upto` if the call returns, and these or all the
  -- entries if it fails. The chunks that it takes off the WAL hold none of the entries that stay.
  pub purge-Ends :
      (upto : T.LogId) (rl : RaftLog T W) (es : Entries T)
      → Purgeable rl.state_machine.log rl.state_machine.log_state upto
      → Holds rl es
      → Ends k es (from_on T (next_log_index T (some upto)) es) (purge upto rl)
  unfolding purge
  purge-Ends upto rl es p g =
      let purged = rl.state_machine.log_state.purged in
      let rec : RaftLogRecord T = action (RaftLogAction.purge_upto upto) in
      let target = from_on T (next_log_index T (some upto)) es in
      let rl' = (append_and_apply rec rl).0 in
      elim (Bool-cases (ltb (T.log_index upto) (next_log_index T purged))) [
        | inl h ↦ rw h (rw (nothing_to_purge upto rl es p.range (ground (arith, h)) g) g)
        | inr h ↦ rw h (
            purged_on-Ends rec rl es target
              (unfold effect in append_and_apply-Good k rec rl es p tt g))
      ]
