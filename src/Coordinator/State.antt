-- ===== src/Coordinator/State.antt =====
-- The types of pkg/coordinator/coordinator.go, and the monad of its handlers.
pub mod Commits
use stark8s.Prelude.{
  ℕ, ℤ, String, Bool, true, false, Option, none, some, List, [], ◌∷◌, Map, nat_beq, if◌then◌else◌,
}
use stark8s.Graph.{ChannelSpec}
use stark8s.Coordinator.Api.{Error, Record, TaskId}

pub record Pod : Type 0 where
  pub name : String
  pub op : String
  pub addr : String
  pub slots : ℤ
  pub last_seen : ℕ
  pub done : Bool
  pub incarnation : String
  pub cohort_slot : ℕ

pub record Operation : Type 0 where
  pub pods : Map String Pod
  pub epoch_done : Map String ℤ
  pub owner : Map String String
  pub pinned : List String
  pub replicas : ℤ
  pub retired : Map String (List String)
  pub next_cohort_slot : ℕ
  pub free_cohort_slots : List ℕ
  pub completed : Bool

-- `records` and `bytes` are int64 bit patterns; `data` is `none` where the source has nil.
pub record Segment : Type 0 where
  pub id : String
  pub holder : String
  pub producer : String
  pub op : String
  pub channel : String
  pub part : ℤ
  pub epoch : ℤ
  pub records : ℕ
  pub bytes : ℕ
  pub durable : Bool
  pub task : TaskId
  pub append_id : String
  pub offset : ℕ
  pub delivered : List String
  pub acked : List String
  pub retry_after : Map String ℕ
  pub lost : Bool
  pub released : Bool
  pub retention_deleted : Bool
  pub reported : Bool
  pub payload : Option (List Record)

pub record SubscriptionDelivery : Type 0 where
  pub offset : ℕ
  pub append_id : String
  pub owner : String

pub record Subscription : Type 0 where
  pub name : String
  pub operation : String
  pub positions : List ℕ
  pub inflight : Map ℤ SubscriptionDelivery

-- The `*segment` pointers of a channel are numbers below `fresh`, and `heap` holds what they point
-- to: the same segment is shared by the queues, the log, the history and the indexes.
pub record Channel : Type 0 where
  pub spec : ChannelSpec
  pub sealed : Bool
  pub produced : ℕ
  pub overflowed : ℕ
  pub lost : ℕ
  pub acknowledged : ℕ
  pub latest_delivery_failure : String
  pub epoch : ℤ
  pub finite_epochs : Bool
  pub max_epochs : ℤ
  pub production_closed : List ℤ
  pub rr : ℕ
  pub queues : List (List ℕ)
  pub log : List ℕ
  pub cursor : Map String ℕ
  pub inflight : Map String ℕ
  pub held : List ℕ
  pub epoch_done : Map String ℤ
  pub records : List Record
  pub history : List (List ℕ)
  pub history_base : List ℕ
  pub append_ids : Map String ℕ
  pub subscriptions : Map String Subscription
  pub index : Map String ℕ
  pub heap : ℕ → Segment
  pub fresh : ℕ

-- The answers that the object store gives to the calls to come: `commits` to `Writer.Commit`,
-- `puts` to `Writer.PutImmutable`; `true` is success, and so is every answer after the last.
pub record Durable : Type 0 where
  pub commits : List Bool
  pub puts : List Bool

-- `now` is the clock, which stands still while a handler holds the lock. `wake` counts how often
-- the wake channel was closed and replaced.
pub record Coordinator : Type 0 where
  pub channels : Map String Channel
  pub ops : Map String Operation
  pub self_addr : String
  pub next_id : ℕ
  pub now : ℕ
  pub wake : ℕ
  pub durable : Option Durable
  pub tombstone_keys : List String
  pub failed : Option Error

pub data Result {ℓ} (A : Type ℓ) : Type ℓ where
  ok : A → Result A
  err : Error → Result A

-- A handler keeps what it has written when it returns an error.
abbrev pub M : Type 0 → Type 0
M A = Coordinator → Coordinator × Result A

abbrev pub and_then : {A B : Type 0} → Coordinator × Result A → (A → M B) → Coordinator × Result B
and_then (co, ok a) f = f a co
and_then (co, err e) f = (co, err e)

infixl 5 ◌>>=◌ ◌>>◌
abbrev pub ◌>>=◌ : {A B : Type 0} → M A → (A → M B) → M B
◌>>=◌ m f co = and_then (m co) f

abbrev pub ◌>>◌ : {B : Type 0} → M (Unit {0}) → M B → M B
m >> k = m >>= λ _. k

abbrev pub return : {A : Type 0} → A → M A
return a co = (co, ok a)

abbrev pub fail : {A : Type 0} → Error → M A
fail e co = (co, err e)

abbrev pub get_state : M Coordinator
get_state co = (co, ok co)

abbrev pub modify : (Coordinator → Coordinator) → M (Unit {0})
modify f co = (f co, ok tt)

-- `if bad { return errf(...) }`
abbrev pub refuse_if : Bool → Error → M (Unit {0})
refuse_if true e = fail e
refuse_if false e = return tt

abbrev pub require : {A : Type 0} → Option A → Error → M A
require none e = fail e
require (some a) e = return a

-- The segment store of a channel.
abbrev pub write_cell : (ℕ → Segment) → ℕ → Segment → ℕ → Segment
write_cell heap p s q = if nat_beq p q then s else heap q

abbrev pub update_segment : Channel → ℕ → (Segment → Segment) → Channel
update_segment c p f = record c { heap = write_cell c.heap p (f (c.heap p)) }

-- `commitLocked`: a failure of the store is remembered, and every later commit returns it.
abbrev next_answer : List Bool → Bool × List Bool
next_answer [] = (true, [])
next_answer (b ∷ bs) = (b, bs)

abbrev commit_answer : Coordinator → Durable → Bool × List Bool → Coordinator × Result (Unit {0})
commit_answer co d (true, rest) =
    (record co { durable = some (record d { commits = rest }) }, ok tt)
commit_answer co d (false, rest) = (
  record co { durable = some (record d { commits = rest }); failed = some Error.commit_failed },
  err Error.commit_failed,
)

commit_durable : Option Durable → Coordinator → Coordinator × Result (Unit {0})
commit_durable none co = (co, ok tt)
commit_durable (some d) co = commit_answer co d (next_answer d.commits)

commit_checked : Option Error → Coordinator → Coordinator × Result (Unit {0})
unfolding commit_durable
commit_checked (some e) co = (co, err e)
commit_checked none co = commit_durable co.durable co

unfoldable pub commit_locked : M (Unit {0})
unfolding commit_checked
commit_locked co = commit_checked co.failed co

-- `requireDurableWriterLocked`
unfoldable pub require_durable_writer : M (Unit {0})
require_durable_writer co = elim co.failed [ none ↦ (co, ok tt) | some e ↦ (co, err e) ]
