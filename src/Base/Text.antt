-- ===== src/Base/Text.antt =====
-- The parts of Go's `strings` and `unicode` packages that the services call, on texts as
-- sequences of code points (ill-formed UTF-8 is not modelled).
use Prim.Native.Nat.{ℕ}
use Prim.Native.Char.{Char, code}
use Prim.Native.String.{String}
use mathlib.Core.Path.{◌≡◌, refl}
use mathlib.Core.Bool.{Bool, true, false, ◌&&◌, ◌||◌}
use native.Mathlib.Omega.{arith}
use rvpay_go.Base.Tests.{leb, ◌==◌, if◌then◌else◌, Bool-cases}
use mathlib.Core.Logic.{inl, inr}

-- `unicode.IsSpace`.
pub is_space : ℕ → Bool
is_space c =
    (leb 9 c && leb c 13)
    || c == 0x20
    || c == 0x85
    || c == 0xa0
    || c == 0x1680
    || (leb 0x2000 c && leb c 0x200a)
    || c == 0x2028
    || c == 0x2029
    || c == 0x202f
    || c == 0x205f
    || c == 0x3000

-- `s == ""`.
abbrev pub is_empty : String → Bool
is_empty String.[] = true
is_empty (String.◌∷◌ _ _) = false

trim_left : String → String
trim_left String.[] = String.[]
trim_left (String.◌∷◌ c s) = if is_space (code c) then trim_left s else String.◌∷◌ c s

trim_right : String → String
trim_right String.[] = String.[]
trim_right (String.◌∷◌ c s) =
    let rest = trim_right s in
    if is_empty rest && is_space (code c) then String.[] else String.◌∷◌ c rest

-- `strings.TrimSpace`.
unfoldable pub trim_space : String → String
unfolding trim_left trim_right is_space
trim_space s = trim_right (trim_left s)

-- `strings.Map`, and so `strings.ToUpper` once `unicode.ToUpper` is given.
unfoldable pub map_runes : (Char → Char) → String → String
map_runes f String.[] = String.[]
map_runes f (String.◌∷◌ c s) = String.◌∷◌ (f c) (map_runes f s)

trim_right_idem : (s : String) → trim_right (trim_right s) ≡ trim_right s
unfolding trim_right
trim_right_idem String.[] = refl
trim_right_idem (String.◌∷◌ c s) =
    elim (Bool-cases (is_empty (trim_right s) && is_space (code c))) [
      | inl e ↦ rw e refl
      | inr e ↦ rw e (rw (trim_right_idem s) (rw e refl))
    ]

-- The first character that is kept, seen from the left.
abbrev starts_blank : String → Bool
starts_blank String.[] = false
starts_blank (String.◌∷◌ c _) = is_space (code c)

starts_blank-trim_left : (s : String) → starts_blank (trim_left s) ≡ false
unfolding trim_left
starts_blank-trim_left String.[] = refl
starts_blank-trim_left (String.◌∷◌ c s) = ground (arith, starts_blank-trim_left s)

trim_left-id : (s : String) → starts_blank s ≡ false → trim_left s ≡ s
unfolding trim_left
trim_left-id String.[] h = refl
trim_left-id (String.◌∷◌ c s) h = rw h refl

starts_blank-trim_right :
    (s : String) → starts_blank s ≡ false → starts_blank (trim_right s) ≡ false
unfolding trim_right
starts_blank-trim_right String.[] h = refl
starts_blank-trim_right (String.◌∷◌ c s) h = ground arith

-- Trimming a trimmed text changes nothing.
pub trim_space_idem : (s : String) → trim_space (trim_space s) ≡ trim_space s
unfolding trim_space
trim_space_idem s =
    rw
      (trim_left-id (trim_right (trim_left s))
        (starts_blank-trim_right (trim_left s) (starts_blank-trim_left s)))
      (trim_right_idem (trim_left s))
