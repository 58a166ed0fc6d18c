-- ===== src/Prelude/Strings/Bytes.antt =====
-- Tests of ASCII bytes, on the characters of a text and on its UTF-8 bytes.
use Prim.Native.Nat.{ℕ, ◌+◌, ◌/◌, ◌%◌, ◌≤◌}
use Prim.Native.String.{String}
use mathlib.Core.Path.{◌≡◌, refl}
use mathlib.Core.Logic.{inl, inr}
use mathlib.Core.Bool.{Bool, true, false, not}
use mathlib.Core.List.{List, [], ◌∷◌}
use native.Mathlib.Omega.{arith}
use package.codex_shuttle.Prelude.Tests.{ltb, ltb-false→le, Bool-cases}
use package.codex_shuttle.Prelude.Lists.{any, any-append, all}
use package.codex_shuttle.Prelude.Text.{bytes, utf8}
use package.codex_shuttle.Prelude.Strings.{codes}

module _ (p : ℕ → Bool) (ascii : (b : ℕ) → 128 ≤ b → p b ≡ false) where
  any-utf8 : (c : ℕ) → any p (utf8 c) ≡ p c
  unfolding utf8
  any-utf8 c = elim (Bool-cases (ltb c 128)) [
    | inl small ↦ rw small (ground arith)
    | inr large ↦
        rw (large, ascii c (ltb-false→le c 128 large))
          (elim (Bool-cases (ltb c 2048)) [
            | inl two ↦
                rw (two, ascii (192 + c / 64) (omega arith), ascii (128 + c % 64) (omega arith))
                  refl
            | inr more ↦ rw more (elim (Bool-cases (ltb c 65536)) [
              | inl three ↦
                  rw
                    (
                      three,
                      ascii (224 + c / 4096) (omega arith),
                      ascii (128 + c / 64 % 64) (omega arith),
                      ascii (128 + c % 64) (omega arith),
                    )
                    refl
              | inr four ↦
                  rw
                    (
                      four,
                      ascii (240 + c / 262144) (omega arith),
                      ascii (128 + c / 4096 % 64) (omega arith),
                      ascii (128 + c / 64 % 64) (omega arith),
                      ascii (128 + c % 64) (omega arith),
                    )
                    refl
            ])
          ])
  ]

  -- `value.bytes().any(p)`
  pub any-bytes : (s : String) → any p (bytes s) ≡ any p (codes s)
  unfolding bytes codes
  any-bytes String.[] = refl
  any-bytes (String.◌∷◌ c s) = rw (any-append, any-utf8, any-bytes s) refl

all-any : (p : ℕ → Bool) (bs : List ℕ) → all p bs ≡ not (any (λ b. not (p b)) bs)
all-any p [] = refl
all-any p (b ∷ bs) = ground (arith, all-any p bs)

-- `value.bytes().all(p)`
pub all-bytes :
    (p : ℕ → Bool)
    → ((b : ℕ) → 128 ≤ b → p b ≡ true)
    → (s : String) → all p (bytes s) ≡ all p (codes s)
all-bytes p ascii s =
    rw
      (
        all-any p (bytes s),
        all-any p (codes s),
        any-bytes (λ b. not (p b)) (λ b h. rw (ascii b h) refl) s,
      )
      refl
