-- ===== src/Policy/Text.antt =====
-- Texts as lists of code units, with the string methods that the policy package calls.
use Prim.Native.Char.{code}
use gram_coding_agent.Base.{
  ℕ, String, Bool, true, false, ◌&&◌, ◌||◌, List, [], ◌∷◌, if◌then◌else◌, nat_beq, any, leb, ◌≡◌,
  ◌↔◌, arith, Eq, refl,
}
use mathlib.Core.List.{reverse}

abbrev pub Text : Type 0
Text = List ℕ

-- the code units of a literal, which are its characters where it is ASCII
abbrev pub codes : String → Text
codes String.[] = []
codes (String.◌∷◌ c s) = code c ∷ codes s

unfoldable pub same : Text → Text → Bool
same [] [] = true
same (a ∷ s) (b ∷ t) = nat_beq a b && same s t
same _ _ = false

unfoldable pub starts_with : Text → Text → Bool
starts_with s [] = true
starts_with [] (b ∷ t) = false
starts_with (a ∷ s) (b ∷ t) = nat_beq a b && starts_with s t

unfoldable pub ends_with : Text → Text → Bool
unfolding starts_with
ends_with s t = starts_with (reverse s) (reverse t)

unfoldable pub includes_char : Text → ℕ → Bool
includes_char s c = any (λ x. nat_beq x c) s

-- `['a', 'b', …].includes(s)`
unfoldable pub is_one_of : Text → List String → Bool
unfolding same
is_one_of s [] = false
is_one_of s (w ∷ ws) = same s (codes w) || is_one_of s ws

unfoldable pub is : Text → String → Bool
unfolding same
is s w = same s (codes w)

unfoldable pub has_prefix : Text → String → Bool
unfolding starts_with
has_prefix s w = starts_with s (codes w)

abbrev pub is_empty : Text → Bool
is_empty [] = true
is_empty (_ ∷ _) = false

-- The white space of `trim` and of `\s`: the ASCII blanks, no-break space, byte order mark, line and
-- paragraph separators, and the space separators of Unicode.
unfoldable pub is_space : ℕ → Bool
is_space c =
    (leb 9 c && leb c 13)
    || nat_beq c 32
    || nat_beq c 160
    || nat_beq c 5760
    || (leb 8192 c && leb c 8202)
    || nat_beq c 8232
    || nat_beq c 8233
    || nat_beq c 8239
    || nat_beq c 8287
    || nat_beq c 12288
    || nat_beq c 65279

unfoldable pub trim_start : Text → Text
unfolding is_space
trim_start [] = []
trim_start (c ∷ s) = if is_space c then trim_start s else c ∷ s

unfoldable pub trim : Text → Text
unfolding trim_start
trim s = reverse (trim_start (reverse (trim_start s)))

pub same_iff : (s t : Text) → (same s t ≡ true) ↔ (s ≡ t)
unfolding same
same_iff [] [] = (λ _. refl, λ _. refl)
same_iff [] (b ∷ t) = ground arith
same_iff (a ∷ s) [] = ground arith
same_iff (a ∷ s) (b ∷ t) = ground (arith, same_iff s t)

instance abbrev pub text_eq : Eq Text
text_eq = record { beq = same; beq_iff = same_iff }
