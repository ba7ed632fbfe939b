-- ===== src/Bgp/Framing.antt =====
-- controller/internal/capture/bgp.go: `decodeBGP` on messages that a BGP speaker has put into one segment.
use dc_net_lab.Prelude.{
  ℕ, zero, suc, ◌+◌, ◌-◌, ◌/◌, ◌%◌, ◌≤◌, ◌≡◌, refl, ap, ◌∙◌, List, [], ◌∷◌, ◌++◌, Bool, true, false,
  some, length, length-append, take, drop, arith, ltb, not, ◌||◌, ge→ltb,
}
use dc_net_lab.GoText.{Text}
use dc_net_lab.Bgp.{Message, u16, name_of, append_fields}
use dc_net_lab.Bgp.Messages.{
  decode_on, decode_bgp, split_header, length_type, whole_message, type_names, header_len,
  valid_marker, decode_message, header_fields,
}

abbrev pub marker : List ℕ
marker =
    255 ∷ 255 ∷ 255 ∷ 255 ∷ 255 ∷ 255 ∷ 255 ∷ 255 ∷ 255 ∷ 255 ∷ 255 ∷ 255 ∷ 255 ∷ 255 ∷ 255 ∷ 255
    ∷ []

-- A message as it is sent: the type's number and name, and the body.
pub record Sent : Type 0 where
  pub typ : ℕ
  pub name : Text
  pub body : List ℕ

abbrev pub size : Sent → ℕ
size m = 19 + length m.body

abbrev pub IsSendable : Sent → Type 0
IsSendable m = (name_of type_names m.typ ≡ some m.name) × (size m ≤ 4096)

-- one message, with what follows it in the segment
abbrev pub sent_before : Sent → List ℕ → List ℕ
sent_before m rest = marker ++ ((size m / 256) ∷ (size m % 256) ∷ m.typ ∷ (m.body ++ rest))

abbrev pub segment_of : List Sent → List ℕ
segment_of [] = []
segment_of (m ∷ ms) = sent_before m (segment_of ms)

-- the messages at their offsets, each with its own bytes only
pub shown_at : ℕ → List Sent → List Message
shown_at pos [] = []
shown_at pos (m ∷ ms) = whole_message pos (size m) m.name m.body ∷ shown_at (pos + size m) ms

abbrev pub AllSendable : List Sent → Type 0
AllSendable [] = Unit
AllSendable (m ∷ ms) = IsSendable m × AllSendable ms

take-append : (n : ℕ) (xs ys : List ℕ) → n ≡ length xs → take n (xs ++ ys) ≡ take n xs
take-append zero [] ys h = refl
take-append zero (x ∷ xs) ys h = refl
take-append (suc n) [] ys h = absurd (omega arith)
take-append (suc n) (x ∷ xs) ys h = ap (λ t. x ∷ t) (take-append n xs ys (omega arith))

drop-append_all : (n : ℕ) (xs ys : List ℕ) → n ≡ length xs → drop n (xs ++ ys) ≡ ys
drop-append_all zero [] ys h = refl
drop-append_all zero (x ∷ xs) ys h = absurd (omega arith)
drop-append_all (suc n) [] ys h = absurd (omega arith)
drop-append_all (suc n) (x ∷ xs) ys h = drop-append_all n xs ys (omega arith)

whole_message-rest :
    (pos : ℕ) (m : Sent) (rest : List ℕ)
    → whole_message pos (size m) m.name (m.body ++ rest) ≡ whole_message pos (size m) m.name m.body
unfolding whole_message
whole_message-rest pos m rest =
    ap
      (λ b.
        (let d = decode_message m.name b (pos + header_len) in
          record d {
            fields = append_fields (header_fields pos (size m) m.name) d.fields;
            offset = pos;
            length = size m;
          }))
      (take-append (size m - header_len) m.body rest (omega arith))

split_header-sent :
    (m : Sent) (rest : List ℕ)
    → split_header (sent_before m rest) ≡ some (size m, m.typ, m.body ++ rest)
unfolding split_header length_type
split_header-sent m rest =
    let e : u16 (size m / 256) (size m % 256) ≡ size m = omega arith in
    ap (λ n. some (n, m.typ, m.body ++ rest)) e

marker-guard :
    (m : Sent) (rest : List ℕ)
    → IsSendable m
    → not (valid_marker (take 16 (sent_before m rest)))
        || ltb (size m) header_len
        || ltb 4096 (size m)
      ≡ false
unfolding valid_marker
marker-guard m rest h = ground (arith, h.1)

drop-sent : (m : Sent) (rest : List ℕ) → drop (size m) (sent_before m rest) ≡ rest
drop-sent m rest =
    drop-append_all (size m) (marker ++ ((size m / 256) ∷ (size m % 256) ∷ m.typ ∷ m.body)) rest
      (omega arith)

decode_on-sent :
    (fuel : ℕ) (m : Sent) (rest : List ℕ) (pos : ℕ) (any : Bool)
    → IsSendable m
    → decode_on (suc fuel) (sent_before m rest) pos any
      ≡ whole_message pos (size m) m.name m.body ∷ decode_on fuel rest (pos + size m) true
unfolding decode_on
decode_on-sent fuel m rest pos any h =
    let payload = sent_before m rest in
    let len_lem : length payload ≡ size m + length rest =
      omega (arith, length-append m.body rest) in
    let guard : not (valid_marker (take 16 payload)) || ltb (size m) header_len || ltb 4096 (size m)
        ≡ false =
      marker-guard m rest h in
    let whole : ltb (length payload) (size m) ≡ false = ge→ltb _ _ (omega (arith, len_lem)) in
    rw (decode_on, split_header-sent m rest)
      (rw h.0 (
        rw guard (
          rw whole (
            rw (drop-sent m rest) (
              ap (λ x. x ∷ decode_on fuel rest (pos + size m) true)
                (whole_message-rest pos m rest))))))

decode_on-nil : (fuel pos : ℕ) (any : Bool) → decode_on fuel [] pos any ≡ []
unfolding decode_on
decode_on-nil zero pos any = refl
decode_on-nil (suc fuel) pos any = refl

decode_on-segment :
    (fuel : ℕ) (ms : List Sent) (pos : ℕ) (any : Bool)
    → AllSendable ms
    → length ms ≤ fuel
    → decode_on fuel (segment_of ms) pos any ≡ shown_at pos ms
unfolding shown_at
decode_on-segment fuel [] pos any h k = decode_on-nil fuel pos any
decode_on-segment zero (m ∷ ms) pos any h k = absurd (omega arith)
decode_on-segment (suc fuel) (m ∷ ms) pos any h k =
    decode_on-sent fuel m (segment_of ms) pos any h.0
    ∙ ap (λ t. whole_message pos (size m) m.name m.body ∷ t)
        (decode_on-segment fuel ms (pos + size m) true h.1 (omega arith))

length-segment_of : (ms : List Sent) → length ms ≤ length (segment_of ms)
length-segment_of [] = omega arith
length-segment_of (m ∷ ms) =
    omega (arith, length-append m.body (segment_of ms), length-segment_of ms)

-- A segment that holds messages of known types, each of at most 4096 bytes, one behind the other, is decoded
-- to exactly these messages, in order: each stands at the sum of the sizes before it, has its own size, and is
-- decoded from its own body.
pub decode_bgp-segment :
    (ms : List Sent) → AllSendable ms → decode_bgp (segment_of ms) ≡ shown_at 0 ms
unfolding decode_bgp
decode_bgp-segment ms h =
    decode_on-segment (length (segment_of ms)) ms 0 false h (length-segment_of ms)
