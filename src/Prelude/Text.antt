-- ===== src/Prelude/Text.antt =====
-- Texts: their code points, their bytes, and what `strings.TrimSpace` calls white space.
use Prim.Native.Char.{Char, code}
use Prim.Native.Nat.{ℕ}
use Prim.Native.String.{String}
use mathlib.Core.Bool.{Bool, true, ◌&&◌, ◌||◌}
use mathlib.Core.List.{List, [], ◌∷◌}
use wechatcopilot.Prelude.Tests.{if◌then◌else◌, leb, nat_beq}

-- Its code points in order; the native `String` has constructors of its own.
abbrev pub codes : String → List ℕ
codes (String.◌∷◌ c rest) = code c ∷ codes rest
codes String.[] = []

-- Unicode's property White_Space.
unfoldable pub is_space : ℕ → Bool
is_space c =
    (leb 9 c && leb c 13)
    || nat_beq c 32
    || nat_beq c 0x85
    || nat_beq c 0xa0
    || nat_beq c 0x1680
    || (leb 0x2000 c && leb c 0x200a)
    || nat_beq c 0x2028
    || nat_beq c 0x2029
    || nat_beq c 0x202f
    || nat_beq c 0x205f
    || nat_beq c 0x3000

all_space : List ℕ → Bool
all_space [] = true
all_space (c ∷ cs) = is_space c && all_space cs

-- `strings.TrimSpace(s) == ""`
unfoldable pub is_blank : String → Bool
unfolding is_space all_space
is_blank s = all_space (codes s)

trim_left : String → String
unfolding is_space
trim_left (String.◌∷◌ c rest) =
    let s = trim_left rest in if is_space (code c) then s else String.◌∷◌ c rest
trim_left String.[] = String.[]

put_left : Char → String → String
unfolding is_space
put_left c String.[] = if is_space (code c) then String.[] else String.◌∷◌ c String.[]
put_left c (String.◌∷◌ d rest) = String.◌∷◌ c (String.◌∷◌ d rest)

trim_right : String → String
unfolding put_left
trim_right (String.◌∷◌ c rest) = put_left c (trim_right rest)
trim_right String.[] = String.[]

-- `strings.TrimSpace`
unfoldable pub trim_space : String → String
unfolding trim_left trim_right
trim_space s = trim_right (trim_left s)
