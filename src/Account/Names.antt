-- ===== src/Account/Names.antt =====
-- The two patterns of internal/account/store.go, walked over the code points of a text.
use wechatcopilot.Prelude.{
  ℕ, String, Bool, true, false, ◌&&◌, ◌||◌, List, [], ◌∷◌, leb, nat_beq, codes, length, ◌≡◌, refl,
}

abbrev Class : Type 0
Class = ℕ → Bool

abbrev lower : Class
lower c = leb b'a' c && leb c b'z'

abbrev digit : Class
digit c = leb b'0' c && leb c b'9'

abbrev hex : Class
hex c = digit c || (leb b'a' c && leb c b'f')

abbrev dash : Class
dash c = nat_beq c b'-'

abbrev alias_tail : Class
alias_tail c = lower c || digit c || dash c

all_in : Class → List ℕ → Bool
all_in p [] = true
all_in p (c ∷ cs) = p c && all_in p cs

-- `^[a-z][a-z0-9-]{0,47}$`
alias_codes : List ℕ → Bool
unfolding all_in
alias_codes [] = false
alias_codes (c ∷ cs) = lower c && all_in alias_tail cs && leb (length cs) 47

unfoldable pub matches_alias : String → Bool
unfolding alias_codes
matches_alias alias = alias_codes (codes alias)

repeat : Class → ℕ → List Class → List Class
repeat p ℕ.zero rest = rest
repeat p (ℕ.suc n) rest = p ∷ repeat p n rest

-- `^[0-9a-f]{8}-[0-9a-f]{4}-4[0-9a-f]{3}-[89ab][0-9a-f]{3}-[0-9a-f]{12}$`
id_classes : List Class
unfolding repeat
id_classes = repeat hex 8 (
    dash
    ∷ repeat hex 4 (
        dash
        ∷ (λ c. nat_beq c b'4')
        ∷ repeat hex 3 (
            dash
            ∷ (λ c. nat_beq c b'8' || nat_beq c b'9' || nat_beq c b'a' || nat_beq c b'b')
            ∷ repeat hex 3 (dash ∷ repeat hex 12 []))))

match_classes : List Class → List ℕ → Bool
match_classes [] [] = true
match_classes [] (c ∷ cs) = false
match_classes (p ∷ ps) [] = false
match_classes (p ∷ ps) (c ∷ cs) = p c && match_classes ps cs

-- `IsID`
unfoldable pub is_id : String → Bool
unfolding id_classes match_classes
is_id value = match_classes id_classes (codes value)

is_id_example : is_id "0a1b2c3d-4e5f-4a6b-8c7d-0123456789ab" ≡ true
unfolding is_id
is_id_example = refl

alias_example : matches_alias "work-2" ≡ true
unfolding matches_alias
alias_example = refl

-- A text may match both patterns.
both_example : matches_alias "aa1b2c3d-4e5f-4a6b-8c7d-0123456789ab" ≡ true
unfolding matches_alias
both_example = refl
