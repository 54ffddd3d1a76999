-- ===== src/Leaderboard/Commentary/Decimals.antt =====
-- The text that `itoa` writes.
use alpha_exchange.Base.{
  ℕ, zero, suc, ◌+◌, ◌-◌, ◌*◌, ◌/◌, ◌%◌, ◌^◌, ◌≤◌, ◌<◌, ◌≡◌, refl, ap, ◌∙◌, List, [], ◌∷◌, some,
  arith, All,
}
use alpha_exchange.Base.Int.{pos, negsuc}
use alpha_exchange.Leaderboard.Commentary.{write_digits, write_sign, written, magnitude, itoa}

-- The number that decimal digits stand for, read from the left, past the number `acc`.
unfoldable pub read_digits : ℕ → List ℕ → ℕ
read_digits acc [] = acc
read_digits acc (c ∷ cs) = read_digits (acc * 10 + (c - b'0')) cs

abbrev pub IsDigit : ℕ → Type 0
IsDigit c = (b'0' ≤ c) × (c ≤ b'9')

-- Of digits.
abbrev pub Denotes : List ℕ → ℕ → Type 0
Denotes text n = (read_digits 0 text ≡ n) × All IsDigit text

div10_lem : (n d : ℕ) → suc n < 10 ^ suc d → suc n / 10 < 10 ^ d
div10_lem n d h = omega arith

last_digit_lem : (n : ℕ) → (n / 10) * 10 + ((b'0' + n % 10) - b'0') ≡ n
last_digit_lem n = omega arith

-- `d` digits are enough, and leave the rest of the buffer.
write_digits-read :
    (d i n : ℕ) (text : List ℕ)
    → d ≤ i
    → n < 10 ^ d
    → All IsDigit text
    → (t : List ℕ) × (j : ℕ) × (write_digits i n text ≡ some (t, j))
      × (i ≤ d + j)
      × (read_digits 0 t ≡ read_digits n text)
      × All IsDigit t
unfolding write_digits read_digits
write_digits-read d i zero text le h all = (text, i, refl, omega arith, refl, all)
write_digits-read zero i (suc n) text le h all = absurd (omega (arith, h))
write_digits-read (suc d) zero (suc n) text le h all = absurd (omega (arith, le))
write_digits-read (suc d) (suc i) (suc n) text le h all =
    let (t, j, e, left, r, ds) =
      write_digits-read d i (suc n / 10) ((b'0' + suc n % 10) ∷ text) (omega (arith, le))
        (div10_lem n d h) ((omega arith, omega arith), all) in
    (t, j, e, omega (arith, left), r ∙ ap (λ k. read_digits k text) (last_digit_lem (suc n)), ds)

written-read :
    (n : ℕ) → n < 10 ^ 12 → (t : List ℕ) × (written (write_digits 12 n []) ≡ some t) × Denotes t n
unfolding written
written-read n h =
    let (t, j, e, left, r, ds) = write_digits-read 12 12 n [] (omega arith) h tt in
    (t, ap written e, (r ∙ (unfold read_digits in refl), ds))

signed_lem : (t : List ℕ) (j : ℕ) → 1 ≤ j → write_sign (some (t, j)) ≡ some (b'-' ∷ t)
unfolding write_sign
signed_lem t zero h = absurd (omega (arith, h))
signed_lem t (suc j) h = refl

magnitude_lem : (n : ℕ) → n + 1 < 10 ^ 11 → magnitude n ≡ n + 1
unfolding magnitude
magnitude_lem n h = ground (arith, h)

negated-read :
    (n : ℕ)
    → n + 1 < 10 ^ 11
    → (t : List ℕ) × (itoa (negsuc n) ≡ some (b'-' ∷ t)) × Denotes t (n + 1)
unfolding itoa
negated-read n h =
    let (t, j, e, left, r, ds) = write_digits-read 11 12 (n + 1) [] (omega arith) h tt in
    (
      t,
      rw (magnitude_lem n h, e) (signed_lem t j (omega (arith, left))),
      (r ∙ (unfold read_digits in refl), ds),
    )

-- What `itoa` writes can be read back: the decimal digits of a number that is not negative and has
-- at most 12 of them, and a minus sign with the digits of a negative one that has at most 11.
-- Neither case runs past the buffer of 12 bytes.
pub itoa-read :
    (n : ℕ)
    → (n < 10 ^ 12 → (t : List ℕ) × (itoa (pos n) ≡ some t) × Denotes t n)
      × (n + 1 < 10 ^ 11 → (t : List ℕ) × (itoa (negsuc n) ≡ some (b'-' ∷ t)) × Denotes t (n + 1))
unfolding itoa
itoa-read zero = (
  λ h. (b'0' ∷ [], refl, ((unfold read_digits in refl), ((omega arith, omega arith), tt))),
  negated-read 0,
)
itoa-read (suc n) = (written-read (suc n), negated-read (suc n))
