-- ===== src/Runtime/Server/Sessions.antt =====
-- pkg/runtime/server.go: an application that is replaced while it works.
use stark8s.Prelude.{
  if_true, if_false, String, Bool, true, false, not, ◌&&◌, ◌||◌, Option, none, some, [], ◌∷◌, ◌++◌,
  ◌==◌, ==-refl, ==-ne, string_eq, ◌≡◌, ◌≢◌, refl, ap, ◌∙◌, arith,
}
use stark8s.Runtime.Server.{
  Reply, Call, Server, Answer, signal, connect, set_ready, next, complete, offer, answers, send,
}

-- The server after a new session has connected and is ready.
abbrev pub replaced_by : String → Server → Server
replaced_by sid s = (set_ready sid (connect (some sid) s).0).0

-- A session may connect when none has failed, and under checkpoints when there was none before.
abbrev pub Connects : Server → Type 0
Connects s = (s.fatal ≡ false) × ((s.checkpointed && not (s.session == "")) ≡ false)

-- The server once the new session is ready.
abbrev ready_for : String → Server → Server
ready_for sid s =
    signal (record (signal (record s { session = sid; ready = false })) { ready = true })

own_session : (sid q : String) → sid ≢ "" → q ≡ sid → (q == "" || not (q == sid)) ≡ false
own_session sid q n e = rw (e, ==-ne sid "" n, ==-refl sid) refl

other_session : (sid q : String) → q ≢ sid → (q == "" || not (q == sid)) ≡ true
other_session sid q n = rw (==-ne q sid n) (either (q == ""))
  where
    either : (b : Bool) → (b || true) ≡ true
    either b = ground arith

replaced_by-ready :
    (sid : String) (s : Server) → Connects s → sid ≢ "" → replaced_by sid s ≡ ready_for sid s
unfolding connect set_ready
replaced_by-ready sid s c n =
    ap (λ (q : Server × Answer). (set_ready sid q.0).0)
      (if_false s.fatal _ _ c.0 ∙ if_false (s.checkpointed && not (s.session == "")) _ _ c.1)
    ∙ ap (λ (q : Server × Answer). q.0)
        (if_false (sid == "" || not (sid == sid)) _ _ (own_session sid sid n refl))

answers_own :
    (c : Call) (r : Reply) (o : Option Call)
    → o ≡ some c
    → r.invocation_id ≡ c.inv.id
    → not (answers o r) ≡ false
answers_own c r o e h = rw (e, h, ==-refl c.inv.id) refl

-- An application session that replaces another while a call is unfinished is offered the same
-- invocation as soon as it is ready, the replies of the replaced session are refused and change
-- nothing, and the reply of the new one is the reply to the call, which is then finished.
pub replaced_by-redelivers :
    (sid : String) (s : Server) (c : Call) (old reply : Reply)
    → Connects s
    → sid ≢ ""
    → s.current ≡ some c
    → old.session_id ≢ sid
    → reply.session_id ≡ sid
    → reply.invocation_id ≡ c.inv.id
    → let s' = replaced_by sid s in
      (next sid s' ≡ (s', Answer.invocation c.inv))
      × (complete old s' ≡ (s', Answer.stale_session))
      × ((complete reply s').0.replies ≡ s.replies ++ (c.number, reply) ∷ [])
      × ((complete reply s').0.current ≡ none)
unfolding next complete
replaced_by-redelivers sid s c old reply k n cur other mine named =
    let own = own_session sid reply.session_id n mine in
    let answered = answers_own c reply s.current cur named in
    rw (replaced_by-ready sid s k n) (
      if_false s.fatal _ _ k.0
          ∙ if_false (sid == "" || not (sid == sid)) _ _ (own_session sid sid n refl)
          ∙ ap (λ o. (ready_for sid s, offer true o)) cur,
      if_true (old.session_id == "" || not (old.session_id == sid)) _ _
          (other_session sid old.session_id other),
      ap (λ (q : Server × Answer). q.0.replies)
            (if_false (reply.session_id == "" || not (reply.session_id == sid)) _ _ own
              ∙ if_false (not (answers s.current reply)) _ _ answered)
          ∙ ap (λ o. send o reply s.replies) cur,
      ap (λ (q : Server × Answer). q.0.current)
          (if_false (reply.session_id == "" || not (reply.session_id == sid)) _ _ own
            ∙ if_false (not (answers s.current reply)) _ _ answered),
    )
