-- ===== src/Cli/Numbers.antt =====
-- src/misc.cpp: numbers read from a token, which has no white space in it, by operator>>.
use log2bgp.Base.{
  ℕ, zero, suc, ◌+◌, ◌-◌, ◌*◌, ◌/◌, ◌%◌, ◌^◌, ◌≤◌, ◌<◌, ◌≡◌, refl, sym, ap, subst, ◌∙◌, Bool, true,
  false, ◌&&◌, List, [], ◌∷◌, ◌++◌, ltb, leb, ◌==◌, if◌then◌else◌, arith, All, dec_lt,
}
use log2bgp.Base.Text.{digits_of, decimal}

unfoldable pub is_digit : ℕ → Bool
is_digit c = leb b'0' c && leb c b'9'

-- The digits at the front of a text, as a number.
unfoldable pub read_digits : ℕ → List ℕ → ℕ
unfolding is_digit
read_digits acc [] = acc
read_digits acc (c ∷ t) = elim (is_digit c) [
  | true ↦ read_digits (acc * 10 + (c - b'0')) t
  | false ↦ acc
]

-- A number that does not fit makes operator>> fail.
unfoldable pub fits32 : ℕ → ℕ
fits32 n = if ltb n (2 ^ 32) then n else 0

-- string_to_uint32_t: a number behind a minus sign wraps around.
unfoldable pub string_to_uint32_t : List ℕ → ℕ
unfolding read_digits fits32
string_to_uint32_t [] = 0
string_to_uint32_t (c ∷ t) =
    if c == b'-'
    then (2 ^ 32 - fits32 (read_digits 0 t)) % 2 ^ 32
    else if c == b'+'
    then fits32 (read_digits 0 t)
    else fits32 (read_digits 0 (c ∷ t))

abbrev pub AllDigits : List ℕ → Type 0
AllDigits t = All (λ c. is_digit c ≡ true) t

AllDigits-snoc : (t : List ℕ) (c : ℕ) → AllDigits t → is_digit c ≡ true → AllDigits (t ++ (c ∷ []))
AllDigits-snoc [] c h k = (k, tt)
AllDigits-snoc (d ∷ t) c (h, hs) k = (h, AllDigits-snoc t c hs k)

read_digits-digit :
    (acc c : ℕ) (t : List ℕ)
    → is_digit c ≡ true
    → read_digits acc (c ∷ t) ≡ read_digits (acc * 10 + (c - b'0')) t
unfolding read_digits
read_digits-digit acc c t h = rw (h, read_digits) refl

read_digits-snoc :
    (acc : ℕ) (t : List ℕ) (c : ℕ)
    → AllDigits t
    → is_digit c ≡ true
    → read_digits acc (t ++ (c ∷ [])) ≡ read_digits acc t * 10 + (c - b'0')
unfolding read_digits
read_digits-snoc acc [] c h k = read_digits-digit acc c [] k
read_digits-snoc acc (d ∷ t) c (h, hs) k =
    read_digits-digit acc d (t ++ (c ∷ [])) h
    ∙ read_digits-snoc (acc * 10 + (d - b'0')) t c hs k
    ∙ ap (λ n. n * 10 + (c - b'0')) (sym (read_digits-digit acc d t h))

is_digit-add : (n : ℕ) → n < 10 → is_digit (b'0' + n) ≡ true
unfolding is_digit
is_digit-add n h = ground arith

digits_of-step :
    (fuel n : ℕ)
    → 10 ≤ n
    → digits_of (suc fuel) n ≡ digits_of fuel (n / 10) ++ ((b'0' + n % 10) ∷ [])
unfolding digits_of
digits_of-step fuel n h = ground arith

digits_of-small : (fuel n : ℕ) → n < 10 → digits_of (suc fuel) n ≡ (b'0' + n) ∷ []
unfolding digits_of
digits_of-small fuel n h = ground arith

-- What is printed for a number: digits, that are read as the number.
pub record IsDecimal (t : List ℕ) (n : ℕ) : Type 0 where
  pub digits : AllDigits t
  pub value : read_digits 0 t ≡ n
  pub first : ℕ
  pub others : List ℕ
  pub bytes : t ≡ first ∷ others

IsDecimal-small : (n : ℕ) → n < 10 → IsDecimal ((b'0' + n) ∷ []) n
unfolding read_digits
IsDecimal-small n h = record {
  digits = (is_digit-add n h, tt);
  value = read_digits-digit 0 (b'0' + n) [] (is_digit-add n h) ∙ omega arith;
  first = b'0' + n;
  others = [];
  bytes = refl;
}

IsDecimal-snoc :
    (t : List ℕ) (n : ℕ) → IsDecimal t (n / 10) → IsDecimal (t ++ ((b'0' + n % 10) ∷ [])) n
IsDecimal-snoc t n w =
    let d = is_digit-add (n % 10) (omega arith) in
    record {
      digits = AllDigits-snoc t (b'0' + n % 10) (w.digits) d;
      value = read_digits-snoc 0 t (b'0' + n % 10) (w.digits) d ∙ omega (arith, w.value);
      first = w.first;
      others = w.others ++ ((b'0' + n % 10) ∷ []);
      bytes = ap (λ u. u ++ ((b'0' + n % 10) ∷ [])) (w.bytes);
    }

pub digits_of-IsDecimal : (fuel n : ℕ) → n < fuel → IsDecimal (digits_of fuel n) n
digits_of-IsDecimal zero n h = absurd (omega arith)
digits_of-IsDecimal (suc fuel) n h = elim (dec_lt n 10) [
  | yes k ↦ subst (λ t. IsDecimal t n) (sym (digits_of-small fuel n k)) (IsDecimal-small n k)
  | no k ↦
      subst (λ t. IsDecimal t n) (sym (digits_of-step fuel n (omega arith)))
        (IsDecimal-snoc (digits_of fuel (n / 10)) n
          (digits_of-IsDecimal fuel (n / 10) (omega arith)))
]

string_to_uint32_t-digits :
    (c : ℕ) (t : List ℕ)
    → is_digit c ≡ true
    → read_digits 0 (c ∷ t) < 2 ^ 32
    → string_to_uint32_t (c ∷ t) ≡ read_digits 0 (c ∷ t)
unfolding string_to_uint32_t fits32 is_digit
string_to_uint32_t-digits c t h k = ground (arith, h, k)

-- A number of 32 bits that is printed in decimal is read back as itself.
pub string_to_uint32_t-decimal : (n : ℕ) → n < 2 ^ 32 → string_to_uint32_t (decimal n) ≡ n
unfolding decimal
string_to_uint32_t-decimal n h =
    let w = digits_of-IsDecimal (suc n) n (omega arith) in
    ap string_to_uint32_t (w.bytes)
    ∙ string_to_uint32_t-digits w.first w.others ((subst AllDigits (w.bytes) (w.digits)).0)
        (subst (λ v. v < 2 ^ 32) (sym (w.value) ∙ ap (read_digits 0) (w.bytes)) h)
    ∙ ap (read_digits 0) (sym (w.bytes))
    ∙ w.value
