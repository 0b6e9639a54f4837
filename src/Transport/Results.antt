-- ===== src/Transport/Results.antt =====
-- What a client gets who sends a transfer again under the same idempotency key.
use high_load_ledger.Prelude.{
  inr, inl, Bool-cases, ==_self, ℕ, true, false, ◌≡◌, refl, ap, sym, subst, ◌∙◌, none, some, List,
  [], ◌∷◌, ◌==◌,
}
use high_load_ledger.Entity.{Uuid, uuid_nil}
use high_load_ledger.Result.{ok}
use high_load_ledger.World.{Fault, tick, Env, World, fine}
use high_load_ledger.Wire.{
  panicked, Code, Reply, aborted, failed, replied, IsFaithful, Bytes, UuidLib,
}
use high_load_ledger.Transport.Status.{
  changing, delete_idempotency, update_idempotency_status, ticked, Server, in_process,
  check_or_lock, put_status, without, completed_status, parse_completed, status_of, same_text,
}
use high_load_ledger.Transport.Interceptor.{
  write_first, run_update, complete, released, handled, settle_reply, guarded, Handling, intercept,
  decide, handle_duplicate,
}

parse_completed-completed_status :
    (lib : UuidLib) (id : Uuid)
    → IsFaithful lib
    → parse_completed lib (completed_status lib id) ≡ some id
unfolding parse_completed completed_status
parse_completed-completed_status lib id f = f.of_string id

not_in_process :
    (lib : UuidLib) (id : Uuid) → same_text (completed_status lib id) in_process ≡ false
unfolding same_text completed_status
not_in_process lib id = refl

-- A duplicate of a completed transfer is answered with the transfer's id.
handle_duplicate-completed :
    (lib : UuidLib) (id : Uuid)
    → IsFaithful lib
    → handle_duplicate lib (completed_status lib id) ≡ replied (lib.bytes id)
unfolding handle_duplicate
handle_duplicate-completed lib id f =
    rw (not_in_process lib id, parse_completed-completed_status lib id f) refl

status_of-put :
    (key : Uuid) (st : Bytes) (l : List (Uuid × Bytes))
    → status_of key (put_status key st l) ≡ some st
unfolding status_of
status_of-put key st l = rw (==_self key) refl

status_of-without : (key : Uuid) (l : List (Uuid × Bytes)) → status_of key (without key l) ≡ none
unfolding status_of without
status_of-without key [] = refl
status_of-without key ((k, s) ∷ l) = elim (Bool-cases (k == key)) [
  | inl e ↦ rw e (status_of-without key l)
  | inr e ↦ rw (e, e) (status_of-without key l)
]

-- A change that Redis answers is made.
changed :
    (f : List (Uuid × Bytes) → List (Uuid × Bytes)) (fault : Fault) (s : Server)
    → fault ≡ fine
    → (changing f fault s).1.statuses ≡ f s.statuses
changed f fault s e = subst (λ x. (changing f x s).1.statuses ≡ f s.statuses) (sym e) refl

module _ (env : Env) (lib : UuidLib) (key : Uuid) (key_bytes : Bytes)
    (reliable : (n : ℕ) → env.fault n ≡ fine) (present : (key == uuid_nil) ≡ false)
    (read : lib.from_bytes key_bytes ≡ some key) where
  check_or_lock-taken :
      (s : Server) (st : Bytes)
      → status_of key s.statuses ≡ some st
      → check_or_lock env key s ≡ (ok (false, st), ticked env s)
  unfolding check_or_lock tick
  check_or_lock-taken s st h = rw (reliable s.world.clock, h) refl

  check_or_lock-free :
      (s : Server)
      → status_of key s.statuses ≡ none
      → check_or_lock env key s ≡ (
        ok (true, in_process),
        record (ticked env s) { statuses = put_status key in_process s.statuses },
      )
  unfolding check_or_lock tick
  check_or_lock-free s h = rw (reliable s.world.clock, h) refl

  intercept-guarded :
      (handler : Handling) (s : Server)
      → intercept env lib true key_bytes handler s
        ≡ decide env lib key handler (check_or_lock env key s)
  unfolding intercept guarded
  intercept-guarded handler s = rw (read, present) refl

  -- When Redis answers every call, and the key of the request is well formed and not nil: while
  -- the first request under the key is in process, a second one is refused with Aborted, and its
  -- handler does not run: nothing changes but the clock.
  pub intercept_in_progress :
      (handler : Handling) (s : Server)
      → status_of key s.statuses ≡ some in_process
      → intercept env lib true key_bytes handler s ≡ (failed aborted, ticked env s)
  unfolding handle_duplicate same_text decide
  intercept_in_progress handler s h =
      intercept-guarded handler s
      ∙ ap (decide env lib key handler) (check_or_lock-taken s in_process h)

  -- When Redis answers every call, and the key of the request is well formed and not nil: if its
  -- transfer is completed, a request gets the id of that transfer, provided the ids' two forms
  -- are read back, and its handler does not run: nothing changes but the clock.
  pub intercept_replays :
      (handler : Handling) (s : Server) (id : Uuid)
      → IsFaithful lib
      → status_of key s.statuses ≡ some (completed_status lib id)
      → intercept env lib true key_bytes handler s ≡ (replied (lib.bytes id), ticked env s)
  unfolding decide
  intercept_replays handler s id f h =
      intercept-guarded handler s
      ∙ ap (decide env lib key handler) (check_or_lock-taken s (completed_status lib id) h)
      ∙ ap (λ r. (r, ticked env s)) (handle_duplicate-completed lib id f)

  -- The state in which the handler runs, when the key was free.
  abbrev locked : Server → Server
  locked s = record (ticked env s) { statuses = put_status key in_process s.statuses }

  first_call :
      (handler : Handling) (s : Server)
      → status_of key s.statuses ≡ none
      → intercept env lib true key_bytes handler s
        ≡ settle_reply env lib key (handled handler (locked s))
  unfolding decide
  first_call handler s h =
      intercept-guarded handler s ∙ ap (decide env lib key handler) (check_or_lock-free s h)

  -- The state after the first call: the update waits.
  abbrev after_first : Uuid → World → Server → Server
  after_first id w s = record (locked s) {
    world = w;
    pending = (key, completed_status lib id) ∷ s.pending;
  }

  settled :
      (id : Uuid) (w : World) (s : Server)
      → IsFaithful lib
      → settle_reply env lib key (replied (lib.bytes id), record (locked s) { world = w })
        ≡ (replied (lib.bytes id), after_first id w s)
  unfolding settle_reply complete
  settled id w s f = rw (f.of_bytes id) refl

  handled_eq :
      (handler : Handling) (s : Server) (r : Reply Bytes) (w : World)
      → handler s.world ≡ (r, w)
      → handled handler s ≡ (r, record s { world = w })
  handled_eq handler s r w h = ap (λ o. (o.0, record s { world = o.1 })) h

  updated :
      (s : Server) (st : Bytes) (rest : List (Uuid × Bytes))
      → s.pending ≡ (key, st) ∷ rest
      → status_of key (run_update env s).statuses ≡ some st
  unfolding run_update write_first update_idempotency_status tick
  updated s st rest h =
      ap (λ l. status_of key (write_first env l s).statuses) h
      ∙ ap (status_of key) (
          changed (put_status key st) _ (ticked env (record s { pending = rest }))
            (reliable s.world.clock))
      ∙ status_of-put key st s.statuses

  freed : (s : Server) → status_of key (released env key s).statuses ≡ none
  unfolding released delete_idempotency tick
  freed s =
      ap (status_of key) (changed (without key) _ (ticked env s) (reliable s.world.clock))
      ∙ status_of-without key s.statuses

  -- When Redis answers every call, and the key of the request is well formed and not nil: if the
  -- key was free, no update was waiting, and the handler of the first request returned an id,
  -- that id is the reply. Until the final status is written, a second request is refused with
  -- Aborted, and after that it gets the same id, provided the ids' two forms are read back; in
  -- neither case does the second handler run.
  pub intercept_once :
      (first second : Handling) (s : Server) (id : Uuid) (w : World)
      → IsFaithful lib
      → status_of key s.statuses ≡ none
      → s.pending ≡ []
      → first (ticked env s).world ≡ (replied (lib.bytes id), w)
      → let s1 = (intercept env lib true key_bytes first s).1 in
        ((intercept env lib true key_bytes first s).0 ≡ replied (lib.bytes id))
        × (intercept env lib true key_bytes second s1 ≡ (failed aborted, ticked env s1))
        × (intercept env lib true key_bytes second (run_update env s1)
            ≡ (replied (lib.bytes id), ticked env (run_update env s1)))
  intercept_once first second s id w f h p run =
      let call =
        first_call first s h
        ∙ ap (settle_reply env lib key) (handled_eq first (locked s) (replied (lib.bytes id)) w run)
        ∙ settled id w s f in
      let s1 = after_first id w s in
      (
        ap (λ o. o.0) call,
        subst (λ o. intercept env lib true key_bytes second o.1 ≡ (failed aborted, ticked env o.1))
            (sym call) (intercept_in_progress second s1 (status_of-put key in_process s.statuses)),
        subst
            (λ o.
              intercept env lib true key_bytes second (run_update env o.1)
              ≡ (replied (lib.bytes id), ticked env (run_update env o.1)))
            (sym call)
            (intercept_replays second (run_update env s1) id f (
              updated s1 (completed_status lib id) []
                (ap (λ l. (key, completed_status lib id) ∷ l) p))),
      )

  -- When Redis answers every call, and the key of the request is well formed and not nil: if the
  -- key was free and the handler failed, the client gets the handler's code and the key is free
  -- again, so that a retry reaches the handler.
  pub intercept_releases :
      (handler : Handling) (s : Server) (c : Code) (w : World)
      → status_of key s.statuses ≡ none
      → handler (ticked env s).world ≡ (failed c, w)
      → ((intercept env lib true key_bytes handler s).0 ≡ failed c)
        × (status_of key (intercept env lib true key_bytes handler s).1.statuses ≡ none)
  unfolding settle_reply
  intercept_releases handler s c w h run =
      let call =
        first_call handler s h
        ∙ ap (settle_reply env lib key) (handled_eq handler (locked s) (failed c) w run) in
      (
        ap (λ o. o.0) call,
        ap (λ o. status_of key o.1.statuses) call ∙ freed (record (locked s) { world = w }),
      )

  after_panic :
      (handler : Handling) (s : Server) (w : World)
      → status_of key s.statuses ≡ none
      → handler (ticked env s).world ≡ (panicked, w)
      → status_of key (intercept env lib true key_bytes handler s).1.statuses ≡ none
  unfolding settle_reply
  after_panic handler s w h run =
      ap (λ o. status_of key o.1.statuses)
        (first_call handler s h
          ∙ ap (settle_reply env lib key) (handled_eq handler (locked s) panicked w run))
      ∙ freed (record (locked s) { world = w })

  -- When Redis answers every call, and the key of the request is well formed and not nil: if the
  -- key was free and the handler of the first request panicked, a second request under the key
  -- reaches its handler, and gets the id that this handler returns, provided the ids' two forms are
  -- read back. The panic leaves no lock.
  pub intercept_recovers :
      (first second : Handling) (s : Server) (id : Uuid) (w u : World)
      → IsFaithful lib
      → status_of key s.statuses ≡ none
      → first (ticked env s).world ≡ (panicked, w)
      → second (ticked env (intercept env lib true key_bytes first s).1).world
        ≡ (replied (lib.bytes id), u)
      → (intercept env lib true key_bytes second (intercept env lib true key_bytes first s).1).0
        ≡ replied (lib.bytes id)
  intercept_recovers first second s id w u f h panics runs =
      let s1 = (intercept env lib true key_bytes first s).1 in
      ap (λ o. o.0)
        (first_call second s1 (after_panic first s w h panics)
          ∙ ap (settle_reply env lib key)
              (handled_eq second (locked s1) (replied (lib.bytes id)) u runs)
          ∙ settled id u s1 f)
