-- ===== src/Netconf/Framing/Decimal.antt =====
-- The decimal size in a chunk header: what `%d` prints, `parseChunkSize` reads.
use native.Mathlib.Nat.{pow-suc}
use arca_router.Prelude.{
  ℕ, zero, suc, ◌+◌, ◌-◌, ◌*◌, ◌/◌, ◌%◌, ◌^◌, ◌≤◌, ◌<◌, true, [], ◌∷◌, ◌++◌, ok, ◌≡◌, refl, ◌∙◌, ap,
  arith, ltb, Bool-cases, inl, inr, length, length-append, Bytes, lt→ltb, le→ltb, ltb→lt, ltb→le,
}
use arca_router.Netconf.Framing.{all_digits, decimal, digits, max_int64, parse_chunk_size}

decimal-append : (xs ys : Bytes) (acc : ℕ) → decimal acc (xs ++ ys) ≡ decimal (decimal acc xs) ys
unfolding decimal
decimal-append [] ys acc = refl
decimal-append (x ∷ xs) ys acc = decimal-append xs ys (acc * 10 + (x - b'0'))

decimal_digit : (acc d : ℕ) → decimal acc ((b'0' + d) ∷ []) ≡ acc * 10 + d
unfolding decimal
decimal_digit acc d = omega arith

digits_small : (fuel n : ℕ) → n < 10 → digits (suc fuel) n ≡ (b'0' + n) ∷ []
unfolding digits
digits_small fuel n h = rw (lt→ltb n 10 h) refl

digits_large :
    (fuel n : ℕ) → 10 ≤ n → digits (suc fuel) n ≡ digits fuel (n / 10) ++ (b'0' + n % 10) ∷ []
unfolding digits
digits_large fuel n h = rw (le→ltb n 10 h) refl

pub decimal-digits : (fuel n : ℕ) → n < fuel → decimal 0 (digits fuel n) ≡ n
decimal-digits zero n h = absurd (omega arith)
decimal-digits (suc fuel) n h = elim (Bool-cases (ltb n 10)) [
  | inl small ↦ rw (digits_small fuel n (ltb→lt n 10 small)) (decimal_digit 0 n ∙ omega arith)
  | inr large ↦
      let big = ltb→le n 10 large in
      rw
        (
          digits_large fuel n big,
          decimal-append (digits fuel (n / 10)) ((b'0' + n % 10) ∷ []) 0,
          decimal-digits fuel (n / 10) (omega arith),
        )
        (decimal_digit (n / 10) (n % 10) ∙ omega arith)
]

all_digits-append :
    (xs ys : Bytes) → all_digits xs ≡ true → all_digits ys ≡ true → all_digits (xs ++ ys) ≡ true
unfolding all_digits
all_digits-append [] ys h k = k
all_digits-append (x ∷ xs) ys h k = ground (arith, all_digits-append xs ys)

all_digits_one : (d : ℕ) → d < 10 → all_digits ((b'0' + d) ∷ []) ≡ true
unfolding all_digits
all_digits_one d h = ground arith

pub all_digits-digits : (fuel n : ℕ) → all_digits (digits fuel n) ≡ true
unfolding digits
all_digits-digits zero n = unfold all_digits in refl
all_digits-digits (suc fuel) n = ground (
  arith,
  all_digits_one n,
  all_digits-append (digits fuel (n / 10)) ((b'0' + n % 10) ∷ []) (all_digits-digits fuel (n / 10))
      (all_digits_one (n % 10) (omega arith)),
)

pub length-digits : (k fuel n : ℕ) → n < 10 ^ k → 0 < k → length (digits fuel n) ≤ k
unfolding digits
length-digits zero fuel n h pos = absurd (omega arith)
length-digits (suc k) zero n h pos = omega arith
length-digits (suc zero) (suc fuel) n h pos = ground arith
length-digits (suc (suc k)) (suc fuel) n h pos =
    let power : 10 ^ suc (suc k) ≡ 10 ^ suc k * 10 = pow-suc 10 (suc k) in
    ground (
      arith,
      length-append (digits fuel (n / 10)) ((b'0' + n % 10) ∷ []),
      length-digits (suc k) fuel (n / 10) (omega arith) (omega arith),
    )

-- A positive number is printed with a first digit from 1 to 9.
pub record Leads (text : Bytes) : Type 0 where
  pub first : ℕ
  pub others : Bytes
  pub split : text ≡ first ∷ others
  pub above : b'1' ≤ first
  pub below : first ≤ b'9'

pub digits-Leads : (fuel n : ℕ) → 0 < n → n < fuel → Leads (digits fuel n)
digits-Leads zero n pos h = absurd (omega arith)
digits-Leads (suc fuel) n pos h = elim (Bool-cases (ltb n 10)) [
  | inl small ↦
      let below = ltb→lt n 10 small in
      record {
        first = b'0' + n;
        others = [];
        split = digits_small fuel n below;
        above = omega arith;
        below = omega arith;
      }
  | inr large ↦
      let big = ltb→le n 10 large in
      let front = digits-Leads fuel (n / 10) (omega arith) (omega arith) in
      record {
        first = front.first;
        others = front.others ++ (b'0' + n % 10) ∷ [];
        split = digits_large fuel n big ∙ ap (λ x. x ++ (b'0' + n % 10) ∷ []) front.split;
        above = front.above;
        below = front.below;
      }
]

parse_chunk_size-Leads :
    (c : ℕ) (cs : Bytes) {n : ℕ}
    → b'1' ≤ c
    → c ≤ b'9'
    → all_digits (c ∷ cs) ≡ true
    → decimal 0 (c ∷ cs) ≡ n
    → n ≤ max_int64
    → parse_chunk_size (c ∷ cs) ≡ ok n
unfolding parse_chunk_size all_digits
parse_chunk_size-Leads c cs lo hi h e fits = ground arith

pub parse_chunk_size-digits :
    (n : ℕ) → 0 < n → n ≤ max_int64 → parse_chunk_size (digits (suc n) n) ≡ ok n
parse_chunk_size-digits n pos fits =
    let lead = digits-Leads (suc n) n pos (omega arith) in
    rw lead.split (
      parse_chunk_size-Leads lead.first lead.others lead.above lead.below
        (rw lead.split at (all_digits-digits (suc n) n))
        (rw lead.split at (decimal-digits (suc n) n (omega arith))) fits)
