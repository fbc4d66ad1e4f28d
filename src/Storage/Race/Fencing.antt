-- ===== src/Storage/Race/Fencing.antt =====
-- pkg/storage/checkpoint.go: what a checkpoint and its clients know of each other while calls interleave.
use stark8s.Prelude.{
  ℕ, ◌≤◌, ◌<◌, String, Option, none, some, List, ◌≡◌, ◌≢◌, ◌⊎◌, inl, inr, refl, sym, arith,
  string_eq, nat_eq,
}
use stark8s.Storage.Objects.Laws.{Matches}
use stark8s.Storage.Checkpoint.{Checkpoint, Writer, no_checkpoint, committed, reread}
use stark8s.Storage.Race.{Client}

abbrev pub gen_of : Option Checkpoint → ℕ
gen_of none = 0
gen_of (some c) = c.generation

-- A checkpoint that was once the current one: if its generation still is current, so is all of it.
abbrev pub Seen : Option Checkpoint → Checkpoint → Type 0
Seen current c =
    (c.generation ≤ gen_of current) × (c.generation ≡ gen_of current → current ≡ some c)

Seen-later :
    (current current' : Option Checkpoint) (c : Checkpoint)
    → Seen current c
    → gen_of current < gen_of current'
    → Seen current' c
Seen-later current current' c s h = (omega (arith, s.0), λ e. absurd (omega (arith, s.0)))

-- `encode` and `decode` are the JSON of checkpoints; the hash of a file is never empty and tells
-- checkpoints of different generations apart.
pub record IsCoded {Bytes : Type 0} (encode : Checkpoint → Bytes)
    (decode : Bytes → Option Checkpoint) (version : Bytes → String) : Type 0 where
  pub decode-encode : (c : Checkpoint) → decode (encode c) ≡ some (reread c)
  pub tells_generations :
      (a b : Checkpoint) → version (encode a) ≡ version (encode b) → a.generation ≡ b.generation
  pub is_nonempty : (c : Checkpoint) → version (encode c) ≢ ""

abbrev pub encoded : {Bytes : Type 0} → (Checkpoint → Bytes) → Option Checkpoint → Option Bytes
encoded encode none = none
encoded encode (some c) = some (encode c)

module _ {Bytes : Type 0} (encode : Checkpoint → Bytes) (version : Bytes → String) where
  abbrev pub Owns : Option Checkpoint → Writer → Type 0
  Owns current w =
      (w.version ≡ version (encode w.value)) × (w.value.writer ≡ w.id) × Seen current w.value

  -- What a client that claims has read.
  abbrev pub Found : Option Checkpoint → String × Checkpoint → Type 0
  Found current (old, previous) =
      ((old ≡ "") × (previous ≡ no_checkpoint))
      ⊎ ((c : Checkpoint) × (old ≡ version (encode c)) × (previous ≡ reread c) × Seen current c)

  abbrev pub Next : Writer → Checkpoint → Type 0
  Next w next =
      (state : String) × (tombstones : List String) × (next
        ≡ committed state tombstones (reread w.value))

  abbrev pub Knows : String → Option Checkpoint → Client → Type 0
  Knows key current Client.idle = Unit
  Knows key current (Client.claiming id found) = Found current found
  Knows key current (Client.owner w) = (w.key ≡ key) × Owns current w
  Knows key current (Client.committing w next) = (w.key ≡ key) × Owns current w × Next w next

module _ {Bytes : Type 0} {encode : Checkpoint → Bytes} {decode : Bytes → Option Checkpoint}
    {version : Bytes → String} (coded : IsCoded encode decode version) where
  pub Matches-Seen :
      (current : Option Checkpoint) (c : Checkpoint)
      → Matches version (version (encode c)) (encoded encode current)
      → Seen current c
      → current ≡ some c
  Matches-Seen none c m s = absurd (coded.is_nonempty c m)
  Matches-Seen (some d) c m s = s.1 (coded.tells_generations c d m)

  pub Matches-empty :
      (current : Option Checkpoint) → Matches version "" (encoded encode current) → current ≡ none
  Matches-empty none m = refl
  Matches-empty (some c) m = absurd (coded.is_nonempty c (sym m))

  pub Knows-later :
      (key : String) (current current' : Option Checkpoint) (c : Client)
      → gen_of current < gen_of current'
      → Knows encode version key current c
      → Knows encode version key current' c
  Knows-later key current current' Client.idle h k = k
  Knows-later key current current' (Client.claiming id (old, previous)) h (inl k) = inl k
  Knows-later key current current' (Client.claiming id (old, previous)) h (inr (c, e, p, s)) =
      inr (c, e, p, Seen-later current current' c s h)
  Knows-later key current current' (Client.owner w) h (a, (b, c, s)) =
      (a, (b, c, Seen-later current current' w.value s h))
  Knows-later key current current' (Client.committing w next) h (a, (b, c, s), n) =
      (a, (b, c, Seen-later current current' w.value s h), n)
