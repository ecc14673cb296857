-- ===== src/RaftLog/Mirror.antt =====
-- Beside the store that serves requests runs a second one: a new state machine to which the
-- records of the WAL are applied. It holds every payload in its cache.
use raft_log.Prelude.{◌≡◌, ◌∙◌, refl, sym, ap, subst, none, List, [], ◌∷◌, ◌++◌, ok, panic}
use raft_log.Prelude.Ord.{lt-none-some}
use raft_log.Types.{Types}
use raft_log.Config.{Config}
use raft_log.State
use raft_log.State.{RaftLogState, RaftLogAction, RaftLogRecord, action, checkpoint}
use raft_log.StateMachine
use raft_log.StateMachine.{RaftLogStateMachine, check, apply}
use raft_log.StateMachine.Keeps.{SmInv, apply_accepted, apply-SmInv, changed}
use raft_log.Contents.{Entries, Load, AllShown, effect}
use raft_log.Contents.Effects.{IsFresh, effect-Shown}
use raft_log.Wal.{Wal}
use raft_log.RaftLog.Open.{Stored, replay, apply_record}
use raft_log.RaftLog.Reduced.{replay-append}
use raft_log.RaftLog.Serves.{boundary-absorb}
use raft_log.RaftLog.Recorded.{Traced, Written, Written-equal, replayed}
use raft_log.RaftLog.FairSteps.{Proper, Proper-Admissible}

module _ {T : Types} where
  -- No record can be loaded.
  abbrev pub nowhere : Load T
  nowhere c s = panic

  -- A sound state machine that shows the entries from its cache alone.
  pub record Cached (a : RaftLogStateMachine T) (es : Entries T) : Type 0 where
    pub sound : SmInv a
    pub lone : a.payload_cache.last_evictable ≡ none
    pub shown : AllShown T nowhere a.payload_cache a.log es

  Proper-cached :
      (sm : RaftLogStateMachine T) (c : _) (rec : RaftLogRecord T)
      → Proper sm rec
      → Proper (record sm { payload_cache = c }) rec
  Proper-cached sm c (action (RaftLogAction.append id p)) h = h
  Proper-cached sm c (action (RaftLogAction.truncate_after upto)) h = h
  Proper-cached sm c (action (RaftLogAction.purge_upto id)) h = h
  Proper-cached sm c (action (RaftLogAction.save_vote vote)) h = h
  Proper-cached sm c (action (RaftLogAction.commit id)) h = h
  Proper-cached sm c (checkpoint state) h = h

  pub Proper-same :
      (a sm : RaftLogStateMachine T) (rec : RaftLogRecord T)
      → sm.log ≡ a.log
      → sm.log_state ≡ a.log_state
      → Proper sm rec
      → Proper a rec
  Proper-same a sm rec l s p =
      subst (λ (x : RaftLogStateMachine T). Proper x rec)
        (λ i. record { log = l i; payload_cache = a.payload_cache; log_state = s i })
        (Proper-cached sm a.payload_cache rec p)

  check-same :
      (a sm : RaftLogStateMachine T) (rec : RaftLogRecord T)
      → sm.log_state ≡ a.log_state
      → check sm rec ≡ check a rec
  unfolding check
  check-same a sm rec s = ap (λ st. State.check st rec) s

  always-IsFresh :
      (a : RaftLogStateMachine T) (rec : RaftLogRecord T)
      → a.payload_cache.last_evictable ≡ none
      → IsFresh a.payload_cache rec
  always-IsFresh a (action (RaftLogAction.append id p)) n = rw n (lt-none-some T.log_id_ord id)
  always-IsFresh a (action (RaftLogAction.truncate_after upto)) n = tt
  always-IsFresh a (action (RaftLogAction.purge_upto id)) n = tt
  always-IsFresh a (action (RaftLogAction.save_vote vote)) n = tt
  always-IsFresh a (action (RaftLogAction.commit id)) n = tt
  always-IsFresh a (checkpoint state) n = tt

  pub Cached-changed :
      (a : RaftLogStateMachine T) (r : Stored T) (es : Entries T)
      → Proper a r.rec
      → check a r.rec ≡ ok tt
      → Cached a es
      → Cached (changed a r.rec r.chunk_id r.segment) (effect T r.rec es)
  Cached-changed a r es p h m =
      let adm = Proper-Admissible a r.rec m.sound p in
      record {
        sound =
            subst (λ x. SmInv x.0) (apply_accepted a r.rec r.chunk_id r.segment h)
              (apply-SmInv a r.rec r.chunk_id r.segment m.sound adm h);
        lone = boundary-absorb a r.rec r.chunk_id r.segment m.sound ∙ m.lone;
        shown =
            effect-Shown nowhere a r.rec es r.chunk_id r.segment m.sound adm
              (always-IsFresh a r.rec m.lone) h m.shown;
      }

module _ {T : Types} {W : Wal T} (k : Traced W) (config : Config W.WalConfig) where
  abbrev pub Mirrors : List (Stored T) → Entries T → Type 0
  Mirrors rs es = Cached (replayed k config rs) es

  pub Mirrors-snoc :
      (rs : List (Stored T)) (sm : RaftLogStateMachine T) (r : Stored T) (es : Entries T)
      → Proper sm r.rec
      → check sm r.rec ≡ ok tt
      → Written k config rs sm
      → Mirrors rs es
      → Mirrors (rs ++ r ∷ []) (effect T r.rec es)
  Mirrors-snoc rs sm r es p h v m =
      let a = replayed k config rs in
      let (accepted, log, state) = Written-equal k config rs sm v in
      let passed : check a r.rec ≡ ok tt = sym (check-same a sm r.rec state) ∙ h in
      let run = replay-append rs (r ∷ []) (StateMachine.new config) accepted in
      let last : (replay apply_record (r ∷ []) a).0 ≡ changed a r.rec r.chunk_id r.segment =
        rw (apply_accepted a r.rec r.chunk_id r.segment passed) refl in
      subst (λ x. Cached x (effect T r.rec es)) (sym (ap (λ x. x.0) run ∙ last))
        (Cached-changed a r es (Proper-same a sm r.rec log state p) passed m)
