-- ===== src/GoFmt/Scan.antt =====
-- Numbers that are printed and scanned again.
use Prim.Native.String.append
use Prim.Native.Char.{code}
use dc_net_lab.Prelude.{
  ℕ, zero, suc, ◌+◌, ◌-◌, ◌*◌, ◌/◌, ◌%◌, ◌^◌, ◌<◌, ◌≡◌, refl, ap, sym, ◌∙◌, arith, String, List, [],
  ◌∷◌, ◌++◌, true, none, some, pos, ltb, if◌then◌else◌, Bool-cases, inl, inr, ltb→lt, All,
  All-append,
}
use dc_net_lab.Names.{codes}
use dc_net_lab.Model.{◌+s+◌}
use dc_net_lab.GoFmt.{
  digit, show_on, show, is_digit, scan_digits, scan_number, scan_pos, scan_signed, skip_blanks,
  after, sscanf,
}

pub codes-append : (s t : String) → codes (s +s+ t) ≡ codes s ++ codes t
codes-append String.[] t = ap codes (append.nil t)
codes-append (String.◌∷◌ c s) t =
    ap codes (append.cons c s t) ∙ ap (λ r. code c ∷ r) (codes-append s t)

codes-digit : (d : ℕ) → d < 10 → codes (digit d) ≡ (b'0' + d) ∷ []
codes-digit zero h = refl
codes-digit (suc zero) h = refl
codes-digit (suc (suc zero)) h = refl
codes-digit (suc (suc (suc zero))) h = refl
codes-digit (suc (suc (suc (suc zero)))) h = refl
codes-digit (suc (suc (suc (suc (suc zero))))) h = refl
codes-digit (suc (suc (suc (suc (suc (suc zero)))))) h = refl
codes-digit (suc (suc (suc (suc (suc (suc (suc zero))))))) h = refl
codes-digit (suc (suc (suc (suc (suc (suc (suc (suc zero)))))))) h = refl
codes-digit (suc (suc (suc (suc (suc (suc (suc (suc (suc zero))))))))) h = refl
codes-digit (suc (suc (suc (suc (suc (suc (suc (suc (suc (suc d)))))))))) h = absurd (omega arith)

scan_digits-snoc :
    (acc : ℕ) (cs : List ℕ) (d : ℕ)
    → All (λ c. is_digit c ≡ true) cs
    → d < 10
    → scan_digits acc (cs ++ ((b'0' + d) ∷ [])) ≡ scan_digits acc cs * 10 + d
unfolding scan_digits
scan_digits-snoc acc [] d h k = ground arith
scan_digits-snoc acc (c ∷ cs) d h k =
    ground (arith, scan_digits-snoc (acc * 10 + (c - b'0')) cs d h.1 k)

scan_number-snoc :
    (cs : List ℕ) (v d : ℕ)
    → All (λ c. is_digit c ≡ true) cs
    → d < 10
    → scan_number cs ≡ some v
    → scan_number (cs ++ ((b'0' + d) ∷ [])) ≡ some (v * 10 + d)
unfolding scan_number
scan_number-snoc [] v d h k e = cc e
scan_number-snoc (c ∷ cs) v d h k e = ground (arith, scan_digits-snoc (c - b'0') cs d h.1 k)

show_on-digits : (fuel n : ℕ) → All (λ c. is_digit c ≡ true) (codes (show_on fuel n))
unfolding show_on
show_on-digits zero n = tt
show_on-digits (suc fuel) n = elim (Bool-cases (ltb n 10)) [
  | inl e ↦ rw (show_on, e, codes-digit n (ltb→lt _ _ e)) (ground arith, tt)
  | inr e ↦
      let d : n % 10 < 10 = omega arith in
      rw (show_on, e, codes-append, codes-digit (n % 10) d)
        (All-append _ (codes (show_on fuel (n / 10))) _ (show_on-digits fuel (n / 10))
          (ground arith, tt))
]

scan-show_on : (fuel n : ℕ) → n < fuel → scan_number (codes (show_on fuel n)) ≡ some n
unfolding show_on
scan-show_on zero n h = absurd (omega arith)
scan-show_on (suc fuel) n h = elim (Bool-cases (ltb n 10)) [
  | inl e ↦
      rw (show_on, e, codes-digit n (ltb→lt _ _ e)) (unfold scan_number scan_digits in ground arith)
  | inr e ↦
      let d : n % 10 < 10 = omega arith in
      let m : ℕ = n / 10 in
      let v : m * 10 + n % 10 ≡ n = omega arith in
      let small : m < fuel = ground (arith, e) in
      rw (show_on, e, codes-append, codes-digit (n % 10) d)
        (scan_number-snoc (codes (show_on fuel m)) m (n % 10) (show_on-digits fuel m) d
            (scan-show_on fuel m small)
          ∙ ap some v)
]

after-append : (ls cs : List ℕ) → after ls (ls ++ cs) ≡ some cs
unfolding after
after-append [] cs = refl
after-append (l ∷ ls) cs = ground (arith, after-append ls cs)

-- a number has neither a sign nor blanks in front
scan_signed-number :
    (cs : List ℕ) (n : ℕ)
    → scan_number cs ≡ some n
    → scan_signed (skip_blanks cs) ≡ (if ltb n (2 ^ 63) then some (pos n) else none)
unfolding scan_number skip_blanks scan_signed scan_pos
scan_signed-number [] n e = cc e
scan_signed-number (c ∷ cs) n e = ground (arith, e)

-- What is printed behind a literal is scanned as the number again, where it is an int64.
pub sscanf-show :
    (literal : String) (n : ℕ)
    → sscanf literal (literal +s+ show n) ≡ (if ltb n (2 ^ 63) then some (pos n) else none)
unfolding sscanf show
sscanf-show literal n =
    rw (sscanf, codes-append, after-append)
      (scan_signed-number (codes (show_on (suc n) n)) n (scan-show_on (suc n) n (omega arith)))

pub sscanf-eth_empty : sscanf "eth" "" ≡ none
unfolding sscanf after
sscanf-eth_empty = refl

some-inj : {A : Type 0} {a b : A} → some a ≡ some b → a ≡ b
some-inj {a = a} h = ap (λ o. elim o [ none ↦ a | some x ↦ x ]) h

-- Different numbers are printed differently.
pub show_inj : (literal : String) (j k : ℕ) → literal +s+ show j ≡ literal +s+ show k → j ≡ k
unfolding show
show_inj literal j k h =
    let front : (n : ℕ)
        → after (codes literal) (codes (literal +s+ show n)) ≡ some (codes (show n)) =
      λ n.
        ap (after (codes literal)) (codes-append literal (show n))
        ∙ after-append (codes literal) (codes (show n)) in
    let same : codes (show j) ≡ codes (show k) =
      some-inj (sym (front j) ∙ ap (λ s. after (codes literal) (codes s)) h ∙ front k) in
    some-inj (
      sym (scan-show_on (suc j) j (omega arith))
      ∙ ap scan_number same
      ∙ scan-show_on (suc k) k (omega arith))
