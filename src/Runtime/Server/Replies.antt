-- ===== src/Runtime/Server/Replies.antt =====
-- pkg/runtime/server.go: no call gets two replies and no failure is reported twice, so that no send to
-- a channel of one place has to wait.
use stark8s.Prelude.{
  ℕ, suc, ◌<◌, String, Bool, true, false, not, ◌&&◌, Option, none, some, List, [], ◌∷◌, ◌++◌,
  is_some, ◌==◌, if◌then◌else◌, string_eq, ◌≡◌, ◌≢◌, refl, sym, ap, subst, inl, inr, Bool-cases,
  All, All-append, arith,
}
use stark8s.Runtime.Server.{
  Invocation, Reply, Call, Server, new_server, replaced_reply, send, configure_checkpointing,
  connect, is_stale, set_ready, next, complete, begin_call, cancel_call, is_call, answers, Event,
  happen, run,
}

-- Each number is at most once among the replies.
abbrev pub IsOnce : List (ℕ × Reply) → Type 0
IsOnce [] = Unit
IsOnce ((n, r) ∷ rs) = All (λ p. p.0 ≢ n) rs × IsOnce rs

IsOnce-append :
    (rs : List (ℕ × Reply)) (n : ℕ) (r : Reply)
    → IsOnce rs
    → All (λ p. p.0 ≢ n) rs
    → IsOnce (rs ++ (n, r) ∷ [])
IsOnce-append [] n r h k = (tt, tt)
IsOnce-append ((m, q) ∷ rs) n r h k = (
  All-append (λ p. p.0 ≢ m) rs ((n, r) ∷ []) h.0 ((λ e. k.0 (sym e)), tt),
  IsOnce-append rs n r h.1 k.1,
)

-- The call that is current has had no reply.
abbrev Open : ℕ → List (ℕ × Reply) → Option Call → Type 0
Open calls rs none = Unit
Open calls rs (some c) = (c.number < calls) × All (λ p. p.0 ≢ c.number) rs

abbrev Failed : Bool → ℕ → Type 0
Failed fatal n = n ≡ (if fatal then 1 else 0)

record IsQuiet (s : Server) : Type 0 where
  once : IsOnce s.replies
  numbered : All (λ p. p.0 < s.calls) s.replies
  unanswered : Open s.calls s.replies s.current
  failed_once : Failed s.fatal s.failures

send-IsOnce :
    (calls : ℕ) (rs : List (ℕ × Reply)) (c : Option Call) (r : Reply)
    → Open calls rs c
    → IsOnce rs
    → IsOnce (send c r rs)
send-IsOnce calls rs none r h k = k
send-IsOnce calls rs (some c) r h k = IsOnce-append rs c.number r k h.1

send-numbered :
    (calls : ℕ) (rs : List (ℕ × Reply)) (c : Option Call) (r : Reply)
    → Open calls rs c
    → All (λ p. p.0 < calls) rs
    → All (λ p. p.0 < calls) (send c r rs)
send-numbered calls rs none r h k = k
send-numbered calls rs (some c) r h k =
    All-append (λ p. p.0 < calls) rs ((c.number, r) ∷ []) k (h.0, tt)

All-weaker : (n : ℕ) (rs : List (ℕ × Reply)) → All (λ p. p.0 < n) rs → All (λ p. p.0 < suc n) rs
All-weaker n [] h = tt
All-weaker n ((m, r) ∷ rs) h = (omega (arith, h.0), All-weaker n rs h.1)

All-fresh : (n : ℕ) (rs : List (ℕ × Reply)) → All (λ p. p.0 < n) rs → All (λ p. p.0 ≢ n) rs
All-fresh n [] h = tt
All-fresh n ((m, r) ∷ rs) h = ((λ e. absurd (omega (arith, h.0, e))), All-fresh n rs h.1)

Open-weaker : (n : ℕ) (rs : List (ℕ × Reply)) (c : Option Call) → Open n rs c → Open (suc n) rs c
Open-weaker n rs none h = h
Open-weaker n rs (some c) h = (omega (arith, h.0), h.1)

if-IsQuiet :
    {A : Type 0} (b : Bool) (p q : Server × A)
    → (b ≡ true → IsQuiet p.0)
    → (b ≡ false → IsQuiet q.0)
    → IsQuiet (if b then p else q).0
if-IsQuiet true p q h k = h refl
if-IsQuiet false p q h k = k refl

connect-IsQuiet : (sid : Option String) (s : Server) → IsQuiet s → IsQuiet (connect sid s).0
unfolding connect
connect-IsQuiet none s q = q
connect-IsQuiet (some sid) s q =
    if-IsQuiet s.fatal _ _ (λ t. q)
      (λ f.
        if-IsQuiet (s.checkpointed && not (s.session == "")) _ _
          (λ t. record {
            once = send-IsOnce s.calls s.replies s.current replaced_reply q.unanswered q.once;
            numbered =
                send-numbered s.calls s.replies s.current replaced_reply q.unanswered q.numbered;
            unanswered = tt;
            failed_once = ap suc (subst (λ b. Failed b s.failures) f q.failed_once);
          })
          (λ g. record {
            once = q.once;
            numbered = q.numbered;
            unanswered = q.unanswered;
            failed_once = q.failed_once;
          }))

complete-IsQuiet : (r : Reply) (s : Server) → IsQuiet s → IsQuiet (complete r s).0
unfolding complete
complete-IsQuiet r s q =
    if-IsQuiet (is_stale r.session_id s) _ _ (λ t. q)
      (λ f.
        if-IsQuiet (not (answers s.current r)) _ _ (λ t. q)
          (λ g. record {
            once = send-IsOnce s.calls s.replies s.current r q.unanswered q.once;
            numbered = send-numbered s.calls s.replies s.current r q.unanswered q.numbered;
            unanswered = tt;
            failed_once = q.failed_once;
          }))

begin_call-IsQuiet :
    (id : Option String) (inv : Invocation) (s : Server)
    → IsQuiet s
    → IsQuiet (begin_call id inv s).0
unfolding begin_call
begin_call-IsQuiet none inv s q = q
begin_call-IsQuiet (some id) inv s q =
    if-IsQuiet (is_some s.current) _ _
      (λ t. record {
        once = q.once;
        numbered = All-weaker s.calls s.replies q.numbered;
        unanswered = Open-weaker s.calls s.replies s.current q.unanswered;
        failed_once = q.failed_once;
      })
      (λ f. record {
        once = q.once;
        numbered = All-weaker s.calls s.replies q.numbered;
        unanswered = (omega arith, All-fresh s.calls s.replies q.numbered);
        failed_once = q.failed_once;
      })

cancel_call-IsQuiet : (n : ℕ) (s : Server) → IsQuiet s → IsQuiet (cancel_call n s)
unfolding cancel_call
cancel_call-IsQuiet n s q = elim (Bool-cases (is_call s.current n)) [
  | inl t ↦ rw t (record {
    once = q.once;
    numbered = q.numbered;
    unanswered = tt;
    failed_once = q.failed_once;
  })
  | inr f ↦ rw f q
]

set_ready-IsQuiet : (sid : String) (s : Server) → IsQuiet s → IsQuiet (set_ready sid s).0
unfolding set_ready
set_ready-IsQuiet sid s q =
    if-IsQuiet (is_stale sid s) _ _ (λ t. q)
      (λ f. record {
        once = q.once;
        numbered = q.numbered;
        unanswered = q.unanswered;
        failed_once = q.failed_once;
      })

next-IsQuiet : (sid : String) (s : Server) → IsQuiet s → IsQuiet (next sid s).0
unfolding next
next-IsQuiet sid s q =
    if-IsQuiet s.fatal _ _ (λ t. q) (λ f. if-IsQuiet (is_stale sid s) _ _ (λ t. q) (λ g. q))

happen-IsQuiet : (e : Event) (s : Server) → IsQuiet s → IsQuiet (happen e s)
unfolding happen configure_checkpointing
happen-IsQuiet (Event.configures enabled) s q = record {
  once = q.once;
  numbered = q.numbered;
  unanswered = q.unanswered;
  failed_once = q.failed_once;
}
happen-IsQuiet (Event.connects sid) s q = connect-IsQuiet sid s q
happen-IsQuiet (Event.readies sid) s q = set_ready-IsQuiet sid s q
happen-IsQuiet (Event.polls sid) s q = next-IsQuiet sid s q
happen-IsQuiet (Event.replies r) s q = complete-IsQuiet r s q
happen-IsQuiet (Event.begins id inv) s q = begin_call-IsQuiet id inv s q
happen-IsQuiet (Event.cancels n) s q = cancel_call-IsQuiet n s q

run-IsQuiet : (es : List Event) (s : Server) → IsQuiet s → IsQuiet (run es s)
unfolding run
run-IsQuiet [] s q = q
run-IsQuiet (e ∷ es) s q = run-IsQuiet es (happen e s) (happen-IsQuiet e s q)

-- Whatever requests, replies, calls and cancellations reach a new server and in whatever order, no call
-- is sent a second reply and at most one failure is reported, exactly one once a checkpointed session
-- has been replaced. A send to a channel with one place thus never waits, not even under the lock.
pub run-IsOnce :
    (es : List Event)
    → let s = run es new_server in IsOnce s.replies × (s.failures ≡ (if s.fatal then 1 else 0))
run-IsOnce es =
    let q =
      run-IsQuiet es new_server
        (record { once = tt; numbered = tt; unanswered = tt; failed_once = refl }) in
    (q.once, q.failed_once)
