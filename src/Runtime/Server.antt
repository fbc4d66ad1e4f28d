-- ===== src/Runtime/Server.antt =====
-- pkg/runtime/protocol.go and server.go: the server that owns one application session and at most one
-- invocation.
pub mod Replies
pub mod Sessions
use stark8s.Prelude.{
  ℕ, suc, ◌+◌, ℤ, String, Bool, true, false, not, ◌&&◌, ◌||◌, Option, none, some, List, [], ◌∷◌,
  ◌++◌, is_some, nat_beq, ◌==◌, if◌then◌else◌, string_eq,
}

pub data Kind : Type 0 where
  source on_record epoch_end drain tick snapshot restore : Kind

-- `record_value` and `payload` are JSON texts.
pub record RecordForm : Type 0 where
  pub channel : String
  pub key : String
  pub record_value : String
  pub epoch : ℤ

pub record Invocation : Type 0 where
  pub id : String
  pub kind : Kind
  pub input : Option RecordForm
  pub epoch : ℤ
  pub max_epochs : ℤ
  pub payload : String

pub record Output : Type 0 where
  pub channel : String
  pub key : String
  pub output_value : String

pub record Reply : Type 0 where
  pub session_id : String
  pub invocation_id : String
  pub outputs : List Output
  pub state : String
  pub error : String

-- A `*call` with its number: two calls are the same when their numbers are.
pub record Call : Type 0 where
  pub number : ℕ
  pub inv : Invocation

-- `replies` are the sends to the reply channels of calls, by their numbers, in order; `failures` counts
-- the sends to the channel of failures, `wake` the times that `changed` was closed and replaced.
-- `checkpointed` is set before the server is used, and by `ConfigureCheckpointing`.
pub record Server : Type 0 where
  pub session : String
  pub ready : Bool
  pub current : Option Call
  pub checkpointed : Bool
  pub fatal : Bool
  pub failures : ℕ
  pub replies : List (ℕ × Reply)
  pub calls : ℕ
  pub wake : ℕ

abbrev pub new_server : Server
new_server = record {
  session = "";
  ready = false;
  current = none;
  checkpointed = false;
  fatal = false;
  failures = 0;
  replies = [];
  calls = 0;
  wake = 0;
}

-- What a request is answered with. `waits` is a request that goes on when `changed` is closed.
pub data Answer : Type 0 where
  done waits internal_error unavailable session_replaced : Answer
  stale_session stale_invocation already_active : Answer
  connected : String → Answer
  invocation : Invocation → Answer

abbrev pub signal : Server → Server
signal s = record s { wake = suc s.wake }

unfoldable pub configure_checkpointing : Bool → Server → Server
configure_checkpointing enabled s = record s { checkpointed = enabled }

-- The reply with the error of a replaced session.
abbrev pub replaced_reply : Reply
replaced_reply = record {
  session_id = "";
  invocation_id = "";
  outputs = [];
  state = "";
  error =
      "checkpointed application session was replaced; restart the worker to restore committed state";
}

abbrev pub send : Option Call → Reply → List (ℕ × Reply) → List (ℕ × Reply)
send none r replies = replies
send (some c) r replies = replies ++ (c.number, r) ∷ []

abbrev pub fail_session : Server → Server
fail_session s = signal (record s {
  fatal = true;
  current = none;
  replies = send s.current replaced_reply s.replies;
  failures = suc s.failures;
})

-- `connect` with the identity that was drawn; `none` is an error of the random source.
unfoldable pub connect : Option String → Server → Server × Answer
connect none s = (s, Answer.internal_error)
connect (some sid) s =
    if s.fatal
    then (s, Answer.unavailable)
    else if s.checkpointed && not (s.session == "")
    then (fail_session s, Answer.session_replaced)
    else (signal (record s { session = sid; ready = false }), Answer.connected sid)

abbrev pub is_stale : String → Server → Bool
is_stale sid s = sid == "" || not (sid == s.session)

unfoldable pub set_ready : String → Server → Server × Answer
set_ready sid s =
    if is_stale sid s
    then (s, Answer.stale_session)
    else (signal (record s { ready = true }), Answer.done)

abbrev pub offer : Bool → Option Call → Answer
offer true (some c) = Answer.invocation c.inv
offer _ _ = Answer.waits

-- One round of the loop of `next`.
unfoldable pub next : String → Server → Server × Answer
next sid s =
    if s.fatal
    then (s, Answer.unavailable)
    else if is_stale sid s
    then (s, Answer.stale_session)
    else (s, offer s.ready s.current)

abbrev pub answers : Option Call → Reply → Bool
answers none r = false
answers (some c) r = r.invocation_id == c.inv.id

unfoldable pub complete : Reply → Server → Server × Answer
complete r s =
    if is_stale r.session_id s
    then (s, Answer.stale_session)
    else if not (answers s.current r)
    then (s, Answer.stale_invocation)
    else (signal (record s { current = none; replies = send s.current r s.replies }), Answer.done)

-- One round of `WaitReady`.
unfoldable pub wait_ready : Server → Answer
wait_ready s = if s.fatal then Answer.unavailable else if s.ready then Answer.done else Answer.waits

-- `Invoke` once the server was ready: the call is made current, with the identity that was drawn.
unfoldable pub begin_call : Option String → Invocation → Server → Server × Answer
begin_call none inv s = (s, Answer.internal_error)
begin_call (some id) inv s =
    if is_some s.current then (record s { calls = suc s.calls }, Answer.already_active) else (
      signal (record s {
        current = some (record { number = s.calls; inv = record inv { id = id } });
        calls = suc s.calls;
      }),
      Answer.done,
    )

abbrev pub is_call : Option Call → ℕ → Bool
is_call none n = false
is_call (some c) n = nat_beq c.number n

-- `Invoke` when its context is done: the call is given up if it still is current.
unfoldable pub cancel_call : ℕ → Server → Server
cancel_call n s = if is_call s.current n then signal (record s { current = none }) else s

-- The requests and the calls of the worker, in the order in which they take the lock.
pub data Event : Type 0 where
  configures : Bool → Event
  connects : Option String → Event
  readies : String → Event
  polls : String → Event
  replies : Reply → Event
  begins : Option String → Invocation → Event
  cancels : ℕ → Event

unfoldable pub happen : Event → Server → Server
unfolding configure_checkpointing connect set_ready next complete begin_call cancel_call
happen (Event.configures enabled) s = configure_checkpointing enabled s
happen (Event.connects sid) s = (connect sid s).0
happen (Event.readies sid) s = (set_ready sid s).0
happen (Event.polls sid) s = (next sid s).0
happen (Event.replies r) s = (complete r s).0
happen (Event.begins id inv) s = (begin_call id inv s).0
happen (Event.cancels n) s = cancel_call n s

unfoldable pub run : List Event → Server → Server
unfolding happen
run [] s = s
run (e ∷ es) s = run es (happen e s)
