-- ===== src/Wecom/Fold.antt =====
-- The comparison of labels in internal/driver/wecom/driver.go, on the code points of a text.
use wechatcopilot.Prelude.{
  ℕ, ◌-◌, String, Bool, true, false, ◌&&◌, ◌||◌, Option, none, some, List, [], ◌∷◌, ◌++◌, map,
  nat_beq, leb, if◌then◌else◌, codes, is_space,
}

-- The tables of the library `unicode` that the code uses.
pub record Unicode : Type 0 where
  pub is_cc : ℕ → Bool
  pub is_cf : ℕ → Bool
  pub is_cs : ℕ → Bool
  pub is_han : ℕ → Bool
  pub to_lower : ℕ → ℕ

abbrev between : ℕ → ℕ → ℕ → Bool
between a b c = leb a c && leb c b

-- `defaultIgnorableRune`
unfoldable pub default_ignorable_rune : Unicode → ℕ → Bool
default_ignorable_rune u c =
    u.is_cc c
    || u.is_cf c
    || u.is_cs c
    || nat_beq c 0x034f
    || between 0x115f 0x1160 c
    || between 0x17b4 0x17b5 c
    || between 0x180b 0x180f c
    || nat_beq c 0x3164
    || between 0xfe00 0xfe0f c
    || nat_beq c 0xffa0
    || between 0xfff0 0xfff8 c
    || between 0xe0100 0xe01ef c

-- A letter of full width becomes the one of ASCII.
abbrev narrowed : ℕ → ℕ
narrowed c = if between 0xff01 0xff5e c then c - 0xfee0 else c

abbrev folded_rune : Unicode → ℕ → ℕ
folded_rune u c = if nat_beq (narrowed c) 0x3000 then 32 else u.to_lower (narrowed c)

fold_runes : Unicode → List ℕ → List ℕ
unfolding default_ignorable_rune
fold_runes u [] = []
fold_runes u (c ∷ cs) =
    let rest = fold_runes u cs in
    if default_ignorable_rune u c then rest else folded_rune u c ∷ rest

put_word : List ℕ → List (List ℕ) → List (List ℕ)
put_word [] words = words
put_word (c ∷ cs) words = (c ∷ cs) ∷ words

-- The word that has begun, and those behind it.
split_words : List ℕ → List ℕ × List (List ℕ)
unfolding is_space put_word
split_words [] = ([], [])
split_words (c ∷ cs) =
    let (word, words) = split_words cs in
    if is_space c then ([], put_word word words) else (c ∷ word, words)

-- `strings.Fields`
unfoldable pub fields : List ℕ → List (List ℕ)
unfolding split_words put_word
fields cs = let (word, words) = split_words cs in put_word word words

-- `strings.Join(words, " ")`
unfoldable pub join_words : List (List ℕ) → List ℕ
join_words [] = []
join_words (w ∷ []) = w
join_words (w ∷ v ∷ rest) = w ++ 32 ∷ join_words (v ∷ rest)

is_han_at : Unicode → Option ℕ → Bool
is_han_at u none = false
is_han_at u (some c) = u.is_han c

abbrev first_rune : List ℕ → Option ℕ
first_rune [] = none
first_rune (c ∷ cs) = some c

-- A space between two Han characters is dropped.
close_gaps : Unicode → Option ℕ → List ℕ → List ℕ
unfolding is_han_at
close_gaps u previous [] = []
close_gaps u previous (c ∷ cs) =
    let rest = close_gaps u (some c) cs in
    if nat_beq c 32 && is_han_at u previous && is_han_at u (first_rune cs) then rest else c ∷ rest

-- `semanticFold`
unfoldable pub semantic_fold : Unicode → List ℕ → List ℕ
unfolding fold_runes fields join_words close_gaps
semantic_fold u cs = close_gaps u none (join_words (fields (fold_runes u cs)))

-- `==` on texts
unfoldable pub codes_beq : List ℕ → List ℕ → Bool
codes_beq [] [] = true
codes_beq [] (d ∷ ds) = false
codes_beq (c ∷ cs) [] = false
codes_beq (c ∷ cs) (d ∷ ds) = nat_beq c d && codes_beq cs ds

is_prefix : List ℕ → List ℕ → Bool
is_prefix [] ds = true
is_prefix (c ∷ cs) [] = false
is_prefix (c ∷ cs) (d ∷ ds) = nat_beq c d && is_prefix cs ds

-- `strings.HasPrefix(text, prefix)`
unfoldable pub has_prefix : List ℕ → List ℕ → Bool
unfolding is_prefix
has_prefix text prefix = is_prefix prefix text

-- `strings.Contains(text, sub)`
unfoldable pub contains_text : List ℕ → List ℕ → Bool
unfolding is_prefix
contains_text [] sub = is_prefix sub []
contains_text (c ∷ cs) sub = is_prefix sub (c ∷ cs) || contains_text cs sub

any_equal : Unicode → List ℕ → List String → Bool
unfolding codes_beq semantic_fold
any_equal u folded [] = false
any_equal u folded (c ∷ rest) =
    codes_beq folded (semantic_fold u (codes c)) || any_equal u folded rest

-- `matchesAny`
unfoldable pub matches_any : Unicode → List ℕ → List String → Bool
unfolding any_equal
matches_any u value candidates = any_equal u (semantic_fold u value) candidates

any_contained : Unicode → List ℕ → List String → Bool
unfolding contains_text semantic_fold
any_contained u folded [] = false
any_contained u folded (c ∷ rest) =
    contains_text folded (semantic_fold u (codes c)) || any_contained u folded rest

-- `containsAny`
unfoldable pub contains_any : Unicode → List ℕ → List String → Bool
unfolding any_contained
contains_any u value candidates = any_contained u (semantic_fold u value) candidates

-- `strings.ToLower`
abbrev pub lowered : Unicode → List ℕ → List ℕ
lowered u cs = map u.to_lower cs
