-- ===== src/Coordinator/Metrics/Progress.antt =====
-- The readers of retained records (pkg/coordinator/coordinator.go).
use stark8s.Prelude.{
  ℕ, ℤ, pos, ◌≤◌, String, List, [], ◌∷◌, ◌++◌, length, length-append, drop, string_eq, ◌≡◌, refl,
  ap, ◌∙◌, arith,
}
use stark8s.Coordinator.Api.{Record}
use stark8s.Coordinator.State.{Channel}
use stark8s.Coordinator.Metrics.{look, selected, clamp_offset}

drop-length : (xs ys : List Record) → drop (length xs) (xs ++ ys) ≡ ys
drop-length [] ys = refl
drop-length (x ∷ xs) ys = drop-length xs ys

clamp_offset-end : (c : Channel) (n : ℕ) → n ≤ length c.records → clamp_offset c (pos n) ≡ n
clamp_offset-end c n h = ground arith

-- A reader that resumes from the offset it was given sees exactly the matching records that were
-- added since: none is missed, and none comes twice.
pub look-resume :
    (key : String) (after : ℤ) (c c' : Channel) (new : List Record)
    → c'.records ≡ c.records ++ new
    → (look key (pos (look key after c).next) c').found ≡ selected key new
unfolding look
look-resume key after c c' new e = ap (selected key) (
    ap (λ n. drop n c'.records)
      (clamp_offset-end c' (length c.records)
        (omega (arith, ap length e, length-append c.records new)))
    ∙ ap (drop (length c.records)) e
    ∙ drop-length c.records new)
