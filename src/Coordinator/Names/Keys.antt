-- ===== src/Coordinator/Names/Keys.antt =====
-- The map keys of pkg/coordinator/coordinator.go can be read back: delivery keys and owner keys.
use Prim.Native.Char.{code}
use Prim.Native.String.{String, ◌++◌}
use Prim.Native.String.append
use stark8s.Prelude.{
  ℕ, zero, suc, ◌+◌, ◌-◌, ◌*◌, ◌/◌, ◌%◌, ◌<◌, ltb, ◌≡◌, refl, sym, ap, ◌∙◌, ◌≢◌, arith, Bool-cases,
  inl, inr,
}
use stark8s.Coordinator.Names.{
  digit, decimal_from, decimal, delivery_key, delivery_pod, external_id,
}

-- The text holds no character with this number.
abbrev pub Avoids : ℕ → String → Type 0
Avoids n String.[] = Unit {0}
Avoids n (String.◌∷◌ c s) = (code c ≢ n) × Avoids n s

-- The pod is read back from a delivery key, whatever the incarnation, if its name holds no NUL.
delivery_pod-delivery_key :
    (pod_name incarnation : String)
    → Avoids 0 pod_name
    → delivery_pod (delivery_key pod_name incarnation) ≡ pod_name
unfolding delivery_pod delivery_key
delivery_pod-delivery_key String.[] incarnation h = rw (append.nil)
delivery_pod-delivery_key (String.◌∷◌ c s) incarnation h =
    rw append.cons (ground (arith, delivery_pod-delivery_key s incarnation h.1))

-- The number that a text of digits stands for, after `acc`.
read : ℕ → String → ℕ
read acc String.[] = acc
read acc (String.◌∷◌ c s) = read (acc * 10 + (code c - 48)) s

read-append : (acc : ℕ) (s t : String) → read acc (s ++ t) ≡ read (read acc s) t
unfolding read
read-append acc String.[] t = rw append.nil
read-append acc (String.◌∷◌ c s) t = rw append.cons (read-append (acc * 10 + (code c - 48)) s t)

read-digit : (acc d : ℕ) → d < 10 → read acc (digit d) ≡ acc * 10 + d
unfolding read
read-digit acc zero h = refl
read-digit acc (suc zero) h = refl
read-digit acc (suc (suc zero)) h = refl
read-digit acc (suc (suc (suc zero))) h = refl
read-digit acc (suc (suc (suc (suc zero)))) h = refl
read-digit acc (suc (suc (suc (suc (suc zero))))) h = refl
read-digit acc (suc (suc (suc (suc (suc (suc zero)))))) h = refl
read-digit acc (suc (suc (suc (suc (suc (suc (suc zero))))))) h = refl
read-digit acc (suc (suc (suc (suc (suc (suc (suc (suc zero)))))))) h = refl
read-digit acc (suc (suc (suc (suc (suc (suc (suc (suc (suc zero))))))))) h = refl
read-digit acc (suc (suc (suc (suc (suc (suc (suc (suc (suc (suc d)))))))))) h =
    absurd (omega arith)

read-decimal_from : (fuel n : ℕ) → n < fuel → read 0 (decimal_from fuel n) ≡ n
unfolding decimal_from
read-decimal_from zero n h = absurd (omega arith)
read-decimal_from (suc fuel) n h = elim (Bool-cases (ltb n 10)) [
  | inl small ↦ rw small (read-digit 0 n (ground arith) ∙ omega arith)
  | inr large ↦
      rw
        (
          large,
          read-append 0 (decimal_from fuel (n / 10)) (digit (n % 10)),
          read-decimal_from fuel (n / 10) (ground arith),
        )
        (read-digit (n / 10) (n % 10) (omega arith) ∙ omega arith)
]

-- Decimal numerals are distinct.
decimal-injective : (n m : ℕ) → decimal n ≡ decimal m → n ≡ m
unfolding decimal
decimal-injective n m e =
    sym (read-decimal_from (suc n) n (omega arith))
    ∙ ap (read 0) e
    ∙ read-decimal_from (suc m) m (omega arith)

abbrev rest_of : String → String
rest_of String.[] = ""
rest_of (String.◌∷◌ c s) = s

append-cancel : (p s t : String) → p ++ s ≡ p ++ t → s ≡ t
append-cancel String.[] s t h = rw (append.nil, append.nil) at h
append-cancel (String.◌∷◌ c p) s t h =
    append-cancel p s t (ap rest_of (rw (append.cons, append.cons) at h))

-- The segments that the coordinator makes from a counter have different ids.
external_id-injective : (n m : ℕ) → external_id n ≡ external_id m → n ≡ m
unfolding external_id
external_id-injective n m e = decimal-injective n m (append-cancel "ext-" (decimal n) (decimal m) e)
