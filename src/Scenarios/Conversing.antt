-- ===== src/Scenarios/Conversing.antt =====
-- Tests and witnesses on a server of the local protocol: pkg/runtime.
use stark8s.Prelude.{
  pos, String, true, none, some, List, [], ◌∷◌, ◌≡◌, refl, ne_of_==, string_eq, if◌then◌else◌,
}
use stark8s.Runtime.Server.{
  Kind, Invocation, Reply, Server, new_server, Answer, next, complete, connect, set_ready, Event,
  happen, run,
}
use stark8s.Runtime.Server.Replies.{IsOnce, run-IsOnce}
use stark8s.Runtime.Server.Sessions.{replaced_by, replaced_by-redelivers}

abbrev drain_call : Invocation
drain_call = record {
  id = "";
  kind = Kind.drain;
  input = none;
  epoch = pos 0;
  max_epochs = pos 0;
  payload = "";
}

abbrev reply_of : String → Reply
reply_of session = record {
  session_id = session;
  invocation_id = "i";
  outputs = [];
  state = "";
  error = "";
}

-- A checkpointed session takes a call, answers it twice and is replaced.
abbrev conversation : List Event
conversation =
    Event.configures true
    ∷ Event.connects (some "s")
    ∷ Event.readies "s"
    ∷ Event.begins (some "i") drain_call
    ∷ Event.polls "s"
    ∷ Event.replies (reply_of "s")
    ∷ Event.replies (reply_of "s")
    ∷ Event.connects (some "t")
    ∷ Event.connects (some "u")
    ∷ []

talked : (run conversation new_server).failures ≡ 1
unfolding run happen connect set_ready complete next
talked = refl

run-IsOnce_example :
    IsOnce (run conversation new_server).replies
    × ((run conversation new_server).failures
        ≡ (if (run conversation new_server).fatal then 1 else 0))
run-IsOnce_example = run-IsOnce conversation

abbrev busy : Server
busy = record new_server {
  session = "s";
  ready = true;
  current = some (record { number = 0; inv = record drain_call { id = "i" } });
  calls = 1;
}

replaced_by-redelivers_example :
    let s' = replaced_by "t" busy in
    (next "t" s' ≡ (s', Answer.invocation (record drain_call { id = "i" })))
    × (complete (reply_of "s") s' ≡ (s', Answer.stale_session))
    × ((complete (reply_of "t") s').0.replies ≡ (0, reply_of "t") ∷ [])
    × ((complete (reply_of "t") s').0.current ≡ none)
replaced_by-redelivers_example =
    replaced_by-redelivers "t" busy (record { number = 0; inv = record drain_call { id = "i" } })
      (reply_of "s") (reply_of "t") (refl, refl) (ne_of_== "t" "" refl) refl (ne_of_== "s" "t" refl)
      refl refl
