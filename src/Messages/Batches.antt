-- ===== src/Messages/Batches.antt =====
-- Two batches, one after the other, leave in the index what the joined batch does.
use wechatcopilot.Prelude.{
  ℕ, suc, Bool, true, false, ◌&&◌, ◌||◌, List, [], ◌∷◌, ◌++◌, map, ◌≡◌, refl, sym, ap, subst, ◌∙◌,
  inl, inr, Bool-cases, All-map, All-append, AllPairs, there, In-cons, In-head, arith,
}
use mathlib.Core.List.{append_assoc, map-append}
use wechatcopilot.Messages.{Message, Index, collides, is_indexed, is_same}
use wechatcopilot.Messages.Recorded.{
  shows_gap, Marked, Requested, IsNumbered, words_of, IsRecorded, Marked-later, Marked-trans,
}

-- A message that is indexed stays so under further rows.
is_indexed-append :
    (m : Message) (rows more : List Message)
    → is_indexed m rows ≡ true
    → is_indexed m (rows ++ more) ≡ true
unfolding is_indexed
is_indexed-append m [] more h = cc
is_indexed-append m (r ∷ rows) more h = elim (Bool-cases (collides m r)) [
  | inl c ↦ rw c refl
  | inr c ↦ rw c (is_indexed-append m rows more (rw c at h))
]

shows_gap-append :
    (m : Message) (rows more : List Message)
    → shows_gap m rows ≡ true
    → shows_gap m (rows ++ more) ≡ true
unfolding shows_gap
shows_gap-append m [] more h = cc
shows_gap-append m (r ∷ rows) more h = elim (Bool-cases (is_same m r && r.gap_before)) [
  | inl c ↦ rw c refl
  | inr c ↦ rw c (shows_gap-append m rows more (rw c at h))
]

module _ (ms : List Message) where
  collides-Marked : (m a b : Message) → Marked ms a b → collides m b ≡ collides m a
  unfolding collides
  collides-Marked m a b h = ap (collides m) h.same

  is_same-Marked : (m a b : Message) → Marked ms a b → is_same m b ≡ is_same m a
  unfolding is_same
  is_same-Marked m a b h = ap (is_same m) h.same

  pub is_indexed-Marked :
      (m : Message) (xs ys : List Message)
      → AllPairs (Marked ms) xs ys
      → is_indexed m ys ≡ is_indexed m xs
  unfolding is_indexed
  is_indexed-Marked m [] [] h = refl
  is_indexed-Marked m [] (y ∷ ys) h = absurd h
  is_indexed-Marked m (x ∷ xs) [] h = absurd h
  is_indexed-Marked m (x ∷ xs) (y ∷ ys) h =
      rw (collides-Marked m x y h.0, is_indexed-Marked m xs ys h.1) refl

  shows_gap-Marked :
      (m : Message) (xs ys : List Message)
      → AllPairs (Marked ms) xs ys
      → shows_gap m xs ≡ true
      → shows_gap m ys ≡ true
  unfolding shows_gap
  shows_gap-Marked m [] [] h g = g
  shows_gap-Marked m [] (y ∷ ys) h g = absurd h
  shows_gap-Marked m (x ∷ xs) [] h g = absurd h
  shows_gap-Marked m (x ∷ xs) (y ∷ ys) h g = elim (Bool-cases (is_same m x && x.gap_before)) [
    | inl c ↦ first x.gap_before (is_same-Marked m x y h.0) h.0.kept c
    | inr c ↦ later (shows_gap-Marked m xs ys h.1 (rw c at g))
  ]
    where
      first :
          (g : Bool)
          → is_same m y ≡ is_same m x
          → (g ≡ true → y.gap_before ≡ true)
          → (is_same m x && g) ≡ true
          → (is_same m y && y.gap_before || shows_gap m ys) ≡ true
      first true e k c = ground (arith, e, k refl)
      first false e k c = ground arith

      later : shows_gap m ys ≡ true → (is_same m y && y.gap_before || shows_gap m ys) ≡ true
      later e = ground (arith, e)

AllPairs-then :
    (m : Message) (ms : List Message) (xs ys zs ws : List Message)
    → AllPairs (Marked (m ∷ [])) xs ys
    → AllPairs (Marked ms) (ys ++ zs) ws
    → AllPairs (Marked (m ∷ ms)) (xs ++ zs) ws
AllPairs-then m ms [] [] [] [] h k = tt
AllPairs-then m ms [] [] [] (w ∷ ws) h k = absurd k
AllPairs-then m ms [] [] (z ∷ zs) [] h k = absurd k
AllPairs-then m ms [] [] (z ∷ zs) (w ∷ ws) h k =
    (Marked-later m ms z w k.0, AllPairs-then m ms [] [] zs ws tt k.1)
AllPairs-then m ms [] (y ∷ ys) zs ws h k = absurd h
AllPairs-then m ms (x ∷ xs) [] zs ws h k = absurd h
AllPairs-then m ms (x ∷ xs) (y ∷ ys) zs [] h k = absurd k
AllPairs-then m ms (x ∷ xs) (y ∷ ys) zs (w ∷ ws) h k =
    (Marked-trans m ms x y w h.0 k.0, AllPairs-then m ms xs ys zs ws h.1 k.1)

IsNumbered-append :
    (a b c : ℕ) (xs ys : List Message)
    → IsNumbered a xs b
    → IsNumbered b ys c
    → IsNumbered a (xs ++ ys) c
IsNumbered-append a b c [] ys h k = subst (λ n. IsNumbered n ys c) h k
IsNumbered-append a b c (x ∷ xs) ys h k = (h.0, IsNumbered-append (suc a) b c xs ys h.1 k)

Requested-later :
    (m : Message) (ms : List Message) (r : Message) → Requested ms r → Requested (m ∷ ms) r
Requested-later m ms r h = record { message = h.message; listed = there h.listed; row = h.row }

Requested-first :
    (m : Message) (ms : List Message) (r : Message) → Requested (m ∷ []) r → Requested (m ∷ ms) r
Requested-first m ms r h = record {
  message = h.message;
  listed = elim (In-cons h.listed) [ inl e ↦ In-head e | inr i ↦ elim i [ ] ];
  row = h.row;
}

-- What is not in the index after the first batch was not in it before.
fresh-before :
    (m : Message) (x y : Index) (new : List Message) (r : Message)
    → IsRecorded (m ∷ []) x y new
    → is_indexed r y.messages ≡ false
    → is_indexed r x.messages ≡ false
fresh-before m x y new r h f = elim (Bool-cases (is_indexed r x.messages)) [
  | inr c ↦ c
  | inl c ↦
      let e = is_indexed-append r x.messages new c in
      let g = is_indexed-Marked (m ∷ []) r (x.messages ++ new) y.messages h.rows in
      c ∙ sym e ∙ sym g ∙ f
]

-- The index after both batches, when the first is one message.
pub IsRecorded-then :
    (m : Message) (ms : List Message) (x y n : Index) (new more : List Message)
    → IsRecorded (m ∷ []) x y new
    → IsRecorded ms y n more
    → IsRecorded (m ∷ ms) x n (new ++ more)
IsRecorded-then m ms x y n new more h k = record {
  named = (h.named.0, k.named);
  known = (
    is_indexed-Marked ms m (y.messages ++ more) n.messages k.rows
        ∙ is_indexed-append m y.messages more h.known.0,
    k.known,
  );
  gaps = (
    λ g.
        shows_gap-Marked ms m (y.messages ++ more) n.messages k.rows
          (shows_gap-append m y.messages more (h.gaps.0 g)),
    k.gaps,
  );
  rows =
      subst (λ (l : List Message). AllPairs (Marked (m ∷ ms)) l n.messages)
        (append_assoc x.messages new more)
        (AllPairs-then m ms (x.messages ++ new) y.messages more n.messages h.rows k.rows);
  fresh =
      All-append (λ r. is_indexed r x.messages ≡ false) new more h.fresh
        (All-map (λ r. is_indexed r y.messages ≡ false) (λ r. is_indexed r x.messages ≡ false) more
          (λ r. fresh-before m x y new r h) k.fresh);
  requested =
      All-append (Requested (m ∷ ms)) new more
        (All-map (Requested (m ∷ [])) (Requested (m ∷ ms)) new (Requested-first m ms) h.requested)
        (All-map (Requested ms) (Requested (m ∷ ms)) more (Requested-later m ms) k.requested);
  numbered =
      IsNumbered-append x.last_sequence y.last_sequence n.last_sequence new more h.numbered
        k.numbered;
  words =
      k.words
      ∙ ap (λ l. l ++ map words_of more) h.words
      ∙ append_assoc x.words (map words_of new) (map words_of more)
      ∙ ap (λ l. x.words ++ l) (sym (map-append words_of new more));
  conversations = k.conversations ∙ h.conversations;
}
