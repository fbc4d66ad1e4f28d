-- ===== src/Storage/Paths/Inside.antt =====
-- `Local.path` of pkg/storage/local.go: no key leads out of the directory of the store.
use Prim.Native.String.{String, ◌++◌}
use Prim.Native.String.append
use stark8s.Prelude.{
  ℕ, zero, suc, Bool, true, false, Option, none, some, List, [], ◌∷◌, ◌==◌, ◌||◌, if◌then◌else◌,
  ◌≡◌, ◌≢◌, ◌⊎◌, inl, inr, refl, sym, ap, ◌∙◌, Bool-cases, arith, All, length, string_eq, eq_of_==,
}
use stark8s.Storage.Paths.{
  split_path, clean_up, clean_part, clean_parts, reverse_onto, join, is_abs, print_path,
  starts_above, check_path, local_path,
}

-- A walk from the directory of the store: how deep below it each part leads, and `none` above it.
abbrev pub up_from : ℕ → Option ℕ
up_from zero = none
up_from (suc n) = some n

abbrev pub walk_part : Option ℕ → String → Option ℕ
walk_part none part = none
walk_part (some n) part =
    if part == "" || part == "." then some n else if part == ".." then up_from n else some (suc n)

abbrev pub walk : Option ℕ → List String → Option ℕ
walk depth [] = depth
walk depth (part ∷ parts) = walk (walk_part depth part) parts

-- The last of the parts, which is the first of the path, leads up.
abbrev Sunk : List String → Type 0
Sunk [] = ⊥
Sunk (p ∷ []) = p ≡ ".."
Sunk (p ∷ q ∷ ps) = Sunk (q ∷ ps)

abbrev Named : List String → Type 0
Named = All (λ p. p ≢ "..")

clean_up-Sunk : (ps : List String) → Sunk ps → Sunk (clean_up false ps)
clean_up-Sunk [] s = refl
clean_up-Sunk (p ∷ []) s = rw s refl
clean_up-Sunk (p ∷ q ∷ ps) s = elim (Bool-cases (p == "..")) [ inl t ↦ rw t s | inr t ↦ rw t s ]

Sunk-cons : (p : String) (ps : List String) → Sunk ps → Sunk (p ∷ ps)
Sunk-cons p [] s = absurd s
Sunk-cons p (q ∷ ps) s = s

clean_part-Sunk : (ps : List String) (part : String) → Sunk ps → Sunk (clean_part false ps part)
clean_part-Sunk ps part s = elim (Bool-cases (part == "" || part == ".")) [
  | inl t ↦ rw t s
  | inr t ↦ elim (Bool-cases (part == "..")) [
    | inl u ↦ rw (t, u) (clean_up-Sunk ps s)
    | inr u ↦ rw (t, u) (Sunk-cons part ps s)
  ]
]

clean_parts-Sunk : (ps parts : List String) → Sunk ps → Sunk (clean_parts false ps parts)
unfolding clean_parts
clean_parts-Sunk ps [] s = s
clean_parts-Sunk ps (part ∷ parts) s =
    clean_parts-Sunk (clean_part false ps part) parts (clean_part-Sunk ps part s)

false_ne_true : false ≡ true → ⊥
false_ne_true p = cc

-- One part: the path goes on below the directory, with as many names as it is deep, or it has left it.
clean_part-walk :
    (ps : List String) (part : String)
    → Named ps
    → ((walk_part (some (length ps)) part ≡ some (length (clean_part false ps part)))
        × Named (clean_part false ps part))
      ⊎ Sunk (clean_part false ps part)
clean_part-walk ps part n = elim (Bool-cases (part == "" || part == ".")) [
  | inl t ↦ rw t (inl (refl, n))
  | inr t ↦ elim (Bool-cases (part == "..")) [
    | inl u ↦ rw (t, u) (up ps n)
    | inr u ↦
        rw (t, u) (inl (refl, (λ e. absurd (false_ne_true (sym u ∙ ap (λ q. q == "..") e)), n)))
  ]
]
  where
    up :
        (ps : List String)
        → Named ps
        → ((up_from (length ps) ≡ some (length (clean_up false ps))) × Named (clean_up false ps))
          ⊎ Sunk (clean_up false ps)
    up [] n = inr refl
    up (p ∷ ps) n = elim (Bool-cases (p == "..")) [
      | inl t ↦ absurd (n.0 (eq_of_== p ".." t))
      | inr t ↦ rw t (inl (refl, n.1))
    ]

clean_parts-walk :
    (ps parts : List String)
    → Named ps
    → ((walk (some (length ps)) parts ≡ some (length (clean_parts false ps parts)))
        × Named (clean_parts false ps parts))
      ⊎ Sunk (clean_parts false ps parts)
unfolding clean_parts
clean_parts-walk ps [] n = inl (refl, n)
clean_parts-walk ps (part ∷ parts) n = elim (clean_part-walk ps part n) [
  | inl (w, m) ↦ rw w (clean_parts-walk (clean_part false ps part) parts m)
  | inr s ↦ inr (clean_parts-Sunk (clean_part false ps part) parts s)
]

reverse_onto-Sunk :
    (ps acc : List String) → Sunk ps → (rest : List String) × (reverse_onto ps acc ≡ ".." ∷ rest)
reverse_onto-Sunk [] acc s = absurd s
reverse_onto-Sunk (p ∷ []) acc s = (acc, rw s refl)
reverse_onto-Sunk (p ∷ q ∷ ps) acc s = reverse_onto-Sunk (q ∷ ps) (p ∷ acc) s

reverse_onto-Named : (ps acc : List String) → Named ps → Named acc → Named (reverse_onto ps acc)
reverse_onto-Named [] acc n m = m
reverse_onto-Named (p ∷ ps) acc n m = reverse_onto-Named ps (p ∷ acc) n.1 (n.0, m)

none_ne_some : {q : String} → none ≡ some q → ⊥
none_ne_some q = cc

some-inj : {p q : String} → some q ≡ some p → p ≡ q
some-inj h = cc

last_true : (a b c : Bool) → c ≡ true → a || b || c ≡ true
last_true a b c h = ground arith

refused :
    (key path : String)
    → is_abs path || path == ".." || starts_above path ≡ true
    → check_path key path ≡ none
refused key path h = elim (Bool-cases (key == "")) [ inl t ↦ rw t refl | inr t ↦ rw (t, h) refl ]

accepted : (key path p : String) → check_path key path ≡ some p → p ≡ path
accepted key path p h =
    elim (Bool-cases (key == "" || is_abs path || path == ".." || starts_above path)) [
      | inl t ↦ absurd (none_ne_some (rw t at h))
      | inr t ↦ some-inj (rw t at h)
    ]

check_path-above :
    (key : String) (rest : List String) → check_path key (print_path false (".." ∷ rest)) ≡ none
unfolding join
check_path-above key [] = refused key ".." refl
check_path-above key (q ∷ ps) =
    let path = ".." ++ "/" ++ join (q ∷ ps) in
    refused key path (
      last_true (is_abs path) (path == "..") (starts_above path)
        (rw (append.cons, append.cons, append.nil, append.cons) refl))

check_path-rooted : (key p : String) → check_path key ("/" ++ p) ≡ none
check_path-rooted key p = refused key ("/" ++ p) (rw append.cons refl)

-- The parts of the cleaned path of a key.
abbrev cleaned : String → List String
cleaned key = reverse_onto (clean_parts false [] (split_path key)) []

-- A key that the local store accepts is relative, a walk along its parts never leads above the
-- directory of the store, and its file is the path of parts none of which leads up.
pub local_path-Inside :
    (key p : String)
    → local_path key ≡ some p
    → (is_abs key ≡ false)
      × ((depth : ℕ) × (walk (some 0) (split_path key) ≡ some depth))
      × (p ≡ print_path false (cleaned key))
      × All (λ part. part ≢ "..") (cleaned key)
unfolding local_path
local_path-Inside key p h = elim (Bool-cases (is_abs key)) [
  | inl t ↦ absurd (
      none_ne_some (
        sym (check_path-rooted key (join (reverse_onto (clean_parts true [] (split_path key)) [])))
        ∙ rw t at h))
  | inr t ↦ elim (clean_parts-walk [] (split_path key) tt) [
    | inl (w, n) ↦ (
      t,
      (length (clean_parts false [] (split_path key)), w),
      accepted key (print_path false (cleaned key)) p (rw t at h),
      reverse_onto-Named (clean_parts false [] (split_path key)) [] n tt,
    )
    | inr s ↦
        let r = reverse_onto-Sunk (clean_parts false [] (split_path key)) [] s in
        let above : check_path key (print_path false (cleaned key)) ≡ none =
          rw r.1 (check_path-above key r.0) in
        absurd (none_ne_some (sym above ∙ rw t at h))
  ]
]
