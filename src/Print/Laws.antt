-- ===== src/Print/Laws.antt =====
-- The reader gets back what the printer has printed.
use net_utils.Base.{
  ℕ, zero, suc, ◌+◌, ◌-◌, ◌*◌, ◌/◌, ◌%◌, ◌≤◌, ◌<◌, ◌≡◌, ◌≢◌, refl, sym, ap, ◌∙◌, List, [], ◌∷◌,
  ◌++◌, append_assoc, append-nil, true, false, ltb, dec_lt, lt→ltb, some, ℤ, pos, negsuc, All,
  arith,
}
use net_utils.Print.{digits, print, print_int}
use net_utils.Print.Reader.{not_digit, read, read_int, negated, unsigned, strip, until}

-- A text that does not go on with a digit.
abbrev pub Stops : List ℕ → Type 0
Stops [] = Unit
Stops (c ∷ s) = not_digit c ≡ true

ge→ltb : (a b : ℕ) → ¬ (a < b) → ltb a b ≡ false
ge→ltb a b h = ground arith

read_digit : (n d : ℕ) (s : List ℕ) → d < 10 → read n ((b'0' + d) ∷ s) ≡ read (n * 10 + d) s
unfolding read
read_digit n d s h = ground arith

read-digits : (fuel n : ℕ) (s : List ℕ) → n < fuel → read 0 (digits fuel n ++ s) ≡ read n s
unfolding digits
read-digits zero n s h = absurd (omega arith)
read-digits (suc fuel) n s h = elim (dec_lt n 10) [
  | yes small ↦
      let one : n % 10 ≡ n = omega arith in
      let zero_more : 0 * 10 + n % 10 ≡ n = omega arith in
      rw (lt→ltb n 10 small)
        (read_digit 0 (n % 10) s (omega arith) ∙ ap (λ (m : ℕ). read m s) zero_more)
  | no large ↦
      let last : n / 10 * 10 + n % 10 ≡ n = omega arith in
      rw (ge→ltb n 10 large, append_assoc (digits fuel (n / 10)) ((b'0' + n % 10) ∷ []) s)
        (read-digits fuel (n / 10) ((b'0' + n % 10) ∷ s) (omega arith)
          ∙ read_digit (n / 10) (n % 10) s (omega arith)
          ∙ ap (λ (m : ℕ). read m s) last)
]

read_stop : (n : ℕ) (s : List ℕ) → Stops s → read n s ≡ (n, s)
unfolding read
read_stop n [] h = refl
read_stop n (c ∷ s) h = rw h refl

pub strip-append : (prefix s : List ℕ) → strip prefix (prefix ++ s) ≡ some s
unfolding strip
strip-append [] s = refl
strip-append (p ∷ prefix) s = ground (arith, strip-append prefix s)

pub until-append :
    (c : ℕ) (front s : List ℕ) → All (λ d. d ≢ c) front → until c (front ++ c ∷ s) ≡ (front, c ∷ s)
unfolding until
until-append c [] s h = ground arith
until-append c (d ∷ front) s h = ground (arith, until-append c front s)

digits-cons :
    (fuel n : ℕ) (s : List ℕ)
    → n < fuel
    → (c : ℕ) × (rest : List ℕ) × (digits fuel n ++ s ≡ c ∷ rest) × (b'0' ≤ c)
unfolding digits
digits-cons zero n s h = absurd (omega arith)
digits-cons (suc fuel) n s h = elim (dec_lt n 10) [
  | yes small ↦ (b'0' + n % 10, s, rw (lt→ltb n 10 small) refl, omega arith)
  | no large ↦
      let (c, rest, e, le) = digits-cons fuel (n / 10) ((b'0' + n % 10) ∷ s) (omega arith) in
      (
        c,
        rest,
        rw (ge→ltb n 10 large) (append_assoc (digits fuel (n / 10)) ((b'0' + n % 10) ∷ []) s ∙ e),
        le,
      )
]

-- What is printed for a number, with a text behind it that does not go on with a digit, is read as
-- that number, and the text is left.
pub read-print : (n : ℕ) (s : List ℕ) → Stops s → read 0 (print n ++ s) ≡ (n, s)
unfolding print
read-print n s h = read-digits (suc n) n s (omega arith) ∙ read_stop n s h

read_int-unsigned :
    (c : ℕ) (rest : List ℕ) → b'0' ≤ c → read_int (c ∷ rest) ≡ unsigned (read 0 (c ∷ rest))
unfolding read_int
read_int-unsigned c rest h = ground arith

pub read_int-print_int : (k : ℤ) (s : List ℕ) → Stops s → read_int (print_int k ++ s) ≡ (k, s)
unfolding read_int print_int
read_int-print_int (pos n) s h =
    let (c, rest, e, le) = digits-cons (suc n) n s (omega arith) in
    ap read_int e
    ∙ read_int-unsigned c rest le
    ∙ ap (λ t. unsigned (read 0 t)) (sym e)
    ∙ ap unsigned (read-print n s h)
read_int-print_int (negsuc n) s h =
    let back : n + 1 - 1 ≡ n = omega arith in
    ap negated (read-print (n + 1) s h) ∙ ap (λ (m : ℕ). (negsuc m, s)) back

pub print-cons : (n : ℕ) → (c : ℕ) × (rest : List ℕ) × (print n ≡ c ∷ rest) × (b'0' ≤ c)
unfolding print
print-cons n =
    let (c, rest, e, le) = digits-cons (suc n) n [] (omega arith) in
    (c, rest, sym (append-nil (print n)) ∙ e, le)
