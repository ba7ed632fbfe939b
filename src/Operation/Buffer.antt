-- ===== src/Operation/Buffer.antt =====
-- controller/internal/operation/operation.go: `Subscribe` and `publish`, for one subscriber. The publisher holds the
-- lock, so it sends one update at a time; the subscriber may receive at any moment in between.
use dc_net_lab.Prelude.{
  ℕ, ◌≤◌, ◌<◌, List, [], ◌∷◌, ◌++◌, Option, none, some, ◌≡◌, refl, ◌≢◌, sym, ap, subst, ◌∙◌, arith,
  Bool, true, false, ltb, if◌then◌else◌, length, length-append, drop, length-drop, append-snoc,
  Bool-cases, inl, inr, ltb→lt,
}
use mathlib.Core.List.{Sublistᴰ, append-nil, append_assoc}
use mathlib.Core.List.Sublistᴰ.{slnil, cons, cons-cons}

abbrev pub capacity : ℕ
capacity = 8

-- `sending` is the update that the publisher is about to send, and `dropping` tells that it has found the buffer full and
-- is about to make room. `published` and `delivered` are all updates sent to and
-- received by this subscriber, the oldest first.
pub record Subscriber (A : Type 0) : Type 0 where
  pub buffer : List A
  pub sending : Option A
  pub dropping : Bool
  pub published : List A
  pub delivered : List A

module _ {A : Type 0} where
  unfoldable pub subscribe : Subscriber A
  subscribe = record {
    buffer = [];
    sending = none;
    dropping = false;
    published = [];
    delivered = [];
  }

  -- The outer `select` of `publish`: the send, or its `default` branch where the buffer is full.
  unfoldable pub try_send : Subscriber A → A → Subscriber A
  try_send s a =
      if ltb (length s.buffer) capacity
      then record s { buffer = s.buffer ++ (a ∷ []); sending = none }
      else record s { dropping = true }

  -- The inner `select`: it takes the oldest update out, or nothing where the subscriber has emptied the buffer.
  unfoldable pub drop_oldest : Subscriber A → Subscriber A
  drop_oldest s = record s { buffer = drop 1 s.buffer; dropping = false }

  pub data Step : Subscriber A → Subscriber A → Type 0 where
    publishes :
        {s : Subscriber A} (a : A)
        → s.sending ≡ none
        → Step s (record s { sending = some a; published = s.published ++ (a ∷ []) })
    tries :
        {s : Subscriber A} (a : A) → s.sending ≡ some a → s.dropping ≡ false → Step s (try_send s a)
    drops :
        {s : Subscriber A} (a : A) → s.sending ≡ some a → s.dropping ≡ true → Step s (drop_oldest s)
    receives :
        {s : Subscriber A} (a : A) (rest : List A)
        → s.buffer ≡ a ∷ rest
        → Step s (record s { buffer = rest; delivered = s.delivered ++ (a ∷ []) })

  pub data Reach : Subscriber A → Type 0 where
    here : Reach subscribe
    then_ : {s t : Subscriber A} → Reach s → Step s t → Reach t

  abbrev pub to_list : Option A → List A
  to_list none = []
  to_list (some a) = a ∷ []

  -- what the subscriber has, gets from the buffer, and will get next
  abbrev pub seen : Subscriber A → List A
  seen s = s.delivered ++ (s.buffer ++ to_list s.sending)

  abbrev pub last : List A → Option A
  last [] = none
  last (x ∷ []) = some x
  last (x ∷ y ∷ xs) = last (y ∷ xs)

  last-snoc : (xs : List A) (x : A) → last (xs ++ (x ∷ [])) ≡ some x
  last-snoc [] x = refl
  last-snoc (y ∷ []) x = refl
  last-snoc (y ∷ z ∷ xs) x = last-snoc (z ∷ xs) x

  sublist-snoc : (x : A) {l p : List A} → Sublistᴰ l p → Sublistᴰ (l ++ (x ∷ [])) (p ++ (x ∷ []))
  sublist-snoc x slnil = cons-cons refl slnil
  sublist-snoc x (cons h) = cons (sublist-snoc x h)
  sublist-snoc x (cons-cons e h) = cons-cons e (sublist-snoc x h)

  sublist_without :
      (p d : List A) (x : A) (b : List A) → Sublistᴰ (d ++ (x ∷ b)) p → Sublistᴰ (d ++ b) p
  sublist_without (z ∷ p) [] x b (cons h) = cons (sublist_without p [] x b h)
  sublist_without (z ∷ p) [] x b (cons-cons e h) = cons h
  sublist_without (z ∷ p) (y ∷ d) x b (cons h) = cons (sublist_without p (y ∷ d) x b h)
  sublist_without (z ∷ p) (y ∷ d) x b (cons-cons e h) = cons-cons e (sublist_without p d x b h)
  sublist_without [] [] x b h = elim h [ ]
  sublist_without [] (y ∷ d) x b h = elim h [ ]

  -- What the subscriber sees is part of what was published, in the same order, with the newest update as its last;
  -- and the buffer holds what it can hold.
  pub record IsFaithful (s : Subscriber A) : Type 0 where
    pub in_order : Sublistᴰ (seen s) s.published
    pub newest : last (seen s) ≡ last s.published
    pub room : length s.buffer ≤ capacity

  sublist-drop :
      (d b p : List A) (a : A)
      → Sublistᴰ (d ++ (b ++ (a ∷ []))) p
      → Sublistᴰ (d ++ (drop 1 b ++ (a ∷ []))) p
  sublist-drop d [] p a h = h
  sublist-drop d (x ∷ b) p a h = sublist_without p d x (b ++ (a ∷ [])) h

  last-end : (d b : List A) (a : A) → last (d ++ (b ++ (a ∷ []))) ≡ some a
  last-end d b a = ap last (sym (append_assoc d b (a ∷ []))) ∙ last-snoc (d ++ b) a

  full : (s : Subscriber A) (a : A) → s.sending ≡ some a → IsFaithful s → IsFaithful (drop_oldest s)
  unfolding drop_oldest
  full s a e f =
      let P : Option A → Type 0 =
        λ o. Sublistᴰ (s.delivered ++ (s.buffer ++ to_list o)) s.published in
      let Q : Option A → Type 0 =
        λ o. Sublistᴰ (s.delivered ++ (drop 1 s.buffer ++ to_list o)) s.published in
      let ended : (b : List A) → last (s.delivered ++ (b ++ to_list s.sending)) ≡ some a =
        λ b. ap (λ o. last (s.delivered ++ (b ++ to_list o))) e ∙ last-end s.delivered b a in
      record {
        in_order =
            subst Q (sym e)
              (sublist-drop s.delivered s.buffer s.published a (subst P e f.in_order));
        newest = ended (drop 1 s.buffer) ∙ sym (ended s.buffer) ∙ f.newest;
        room = omega (arith, f.room, length-drop 1 s.buffer);
      }

  -- a try leaves what the subscriber sees
  try-IsFaithful :
      (s : Subscriber A) (a : A) → s.sending ≡ some a → IsFaithful s → IsFaithful (try_send s a)
  unfolding try_send
  try-IsFaithful s a e f = elim (Bool-cases (ltb (length s.buffer) capacity)) [
    | inl r ↦
        let same : s.delivered ++ ((s.buffer ++ (a ∷ [])) ++ []) ≡ seen s =
          ap (λ t. s.delivered ++ t)
            (append-nil (s.buffer ++ (a ∷ [])) ∙ ap (λ o. s.buffer ++ to_list o) (sym e)) in
        rw (try_send, r)
          (record {
            in_order = subst (λ l. Sublistᴰ l s.published) (sym same) f.in_order;
            newest = ap last same ∙ f.newest;
            room = omega (arith, length-append s.buffer (a ∷ []), ltb→lt _ _ r);
          })
    | inr r ↦ rw (try_send, r) (record { in_order = f.in_order; newest = f.newest; room = f.room })
  ]

  Step-IsFaithful : {s t : Subscriber A} → Step s t → IsFaithful s → IsFaithful t
  Step-IsFaithful {s} (publishes a e) f =
      let same : s.delivered ++ (s.buffer ++ (a ∷ [])) ≡ seen s ++ (a ∷ []) = sym (
        ap (λ o. (s.delivered ++ (s.buffer ++ to_list o)) ++ (a ∷ [])) e
        ∙ append_assoc s.delivered (s.buffer ++ []) (a ∷ [])
        ∙ ap (λ t. s.delivered ++ t) (append_assoc s.buffer [] (a ∷ []))) in
      record {
        in_order =
            subst (λ l. Sublistᴰ l (s.published ++ (a ∷ []))) (sym same)
              (sublist-snoc a f.in_order);
        newest = ap last same ∙ last-snoc (seen s) a ∙ sym (last-snoc s.published a);
        room = f.room;
      }
  Step-IsFaithful {s} (tries a e d) f = try-IsFaithful s a e f
  Step-IsFaithful {s} (drops a e d) f = full s a e f
  Step-IsFaithful {s} (receives a rest e) f =
      let same : (s.delivered ++ (a ∷ [])) ++ (rest ++ to_list s.sending) ≡ seen s =
        append-snoc s.delivered a (rest ++ to_list s.sending)
        ∙ ap (λ b. s.delivered ++ (b ++ to_list s.sending)) (sym e) in
      record {
        in_order = subst (λ l. Sublistᴰ l s.published) (sym same) f.in_order;
        newest = ap last same ∙ f.newest;
        room = omega (arith, f.room, ap length e);
      }

  -- However the publisher and the subscriber take turns, between the failed send and the drop as well: what the subscriber has received and will still receive
  -- is part of what was published, in the same order, and the newest update of all is the last of it; and no more
  -- than eight updates wait.
  pub Reach-IsFaithful : (s : Subscriber A) → Reach s → IsFaithful s
  unfolding subscribe
  Reach-IsFaithful s here = record { in_order = slnil; newest = refl; room = omega arith }
  Reach-IsFaithful s (then_ {s = t} r st) = Step-IsFaithful st (Reach-IsFaithful t r)

  -- any number of receives
  pub data Receives (s : Subscriber A) : Subscriber A → Type 0 where
    none_yet : Receives s s
    one_more :
        {t : Subscriber A} (a : A) (rest : List A)
        → Receives s t
        → t.buffer ≡ a ∷ rest
        → Receives s (record t { buffer = rest; delivered = t.delivered ++ (a ∷ []) })

  Receives-length : {s t : Subscriber A} → Receives s t → length t.buffer ≤ length s.buffer
  Receives-length none_yet = omega arith
  Receives-length (one_more a rest r e) = omega (arith, Receives-length r, ap length e)

  try-sends :
      (s : Subscriber A) (a : A) → length s.buffer < capacity → (try_send s a).sending ≡ none
  unfolding try_send
  try-sends s a h = ground (arith, h)

  drop_oldest-length :
      (s : Subscriber A) → length s.buffer ≤ capacity → length (drop_oldest s).buffer < capacity
  unfolding drop_oldest
  drop_oldest-length s h = omega (arith, h, length-drop 1 s.buffer)

  try-length :
      (s : Subscriber A) (a : A)
      → (try_send s a).sending ≢ none
      → length s.buffer ≤ capacity
      → length (try_send s a).buffer ≤ capacity
  unfolding try_send
  try-length s a n h = elim (Bool-cases (ltb (length s.buffer) capacity)) [
    | inl r ↦ absurd (n (try-sends s a (ltb→lt _ _ r)))
    | inr r ↦ rw (try_send, r) h
  ]

  -- The loop of `publish` ends after two turns at most: if the outer `select` has found the buffer full in a state that is
  -- reached, then after the inner one has dropped what it finds, the outer one sends, whatever the subscriber receives
  -- between each two of these.
  pub try_send-ends :
      (s t u : Subscriber A) (a : A)
      → Reach s
      → (try_send s a).sending ≢ none
      → Receives (try_send s a) t
      → Receives (drop_oldest t) u
      → (try_send u a).sending ≡ none
  try_send-ends s t u a r n rs rs' =
      let first = try-length s a n (Reach-IsFaithful s r).room in
      let shorter : length t.buffer ≤ capacity = omega (arith, Receives-length rs, first) in
      try-sends u a (omega (arith, Receives-length rs', drop_oldest-length t shorter))
