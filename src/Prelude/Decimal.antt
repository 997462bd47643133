-- ===== src/Prelude/Decimal.antt =====
-- Python's `str` and `int` on natural numbers: decimal digits without leading zeros.
use nautilus_ctrader_adapter.Prelude.Tests.{ltb, leb, if◌then◌else◌}
use nautilus_ctrader_adapter.Prelude.Lists.{all}
use nautilus_ctrader_adapter.Prelude.Eq.{Text}
use Prim.Native.Nat.{ℕ, zero, suc, ◌+◌, ◌-◌, ◌*◌, ◌/◌, ◌%◌, ◌<◌}
use mathlib.Core.Path.{◌≡◌, refl}
use mathlib.Core.Bool.{Bool, true, false, ◌&&◌}
use mathlib.Core.List.{[], ◌∷◌}
use native.Mathlib.Omega.{arith}

-- The digits of `n` in front of `acc`; one round of fuel for each digit.
pub digits : ℕ → ℕ → Text → Text
digits zero n acc = acc
digits (suc f) n acc =
    let rest = digits f (n / 10) ((b'0' + n % 10) ∷ acc) in
    if ltb n 10 then (b'0' + n) ∷ acc else rest

-- `str(n)`
unfoldable pub decimal : ℕ → Text
unfolding digits
decimal n = digits (suc n) n []

abbrev pub is_digit : ℕ → Bool
is_digit c = leb b'0' c && leb c b'9'

abbrev pub number_from : ℕ → Text → ℕ
number_from v [] = v
number_from v (c ∷ t) = number_from (v * 10 + (c - b'0')) t

-- `int(text)`, for a text of digits
abbrev pub number : Text → ℕ
number t = number_from 0 t

abbrev pub starts_nonzero : Text → Bool
starts_nonzero [] = false
starts_nonzero (c ∷ t) = ltb b'0' c

number_from-digits :
    (f n : ℕ) (acc : Text) → n < f → number_from 0 (digits f n acc) ≡ number_from n acc
unfolding digits
number_from-digits zero n acc h = elim h [ ]
number_from-digits (suc f) n acc h =
    ground (arith, number_from-digits f (n / 10) ((b'0' + n % 10) ∷ acc))

all-digits : (f n : ℕ) (acc : Text) → all is_digit acc ≡ true → all is_digit (digits f n acc) ≡ true
unfolding digits
all-digits zero n acc h = h
all-digits (suc f) n acc h = ground (arith, all-digits f (n / 10) ((b'0' + n % 10) ∷ acc))

digits-starts_nonzero :
    (f n : ℕ) (acc : Text) → 0 < n → n < f → starts_nonzero (digits f n acc) ≡ true
unfolding digits
digits-starts_nonzero zero n acc p h = elim h [ ]
digits-starts_nonzero (suc f) n acc p h =
    ground (arith, digits-starts_nonzero f (n / 10) ((b'0' + n % 10) ∷ acc))

pub number-decimal : (n : ℕ) → number (decimal n) ≡ n
unfolding decimal
number-decimal n = number_from-digits (suc n) n [] (omega arith)

pub all-decimal : (n : ℕ) → all is_digit (decimal n) ≡ true
unfolding decimal
all-decimal n = all-digits (suc n) n [] refl

pub decimal-starts_nonzero : (n : ℕ) → 0 < n → starts_nonzero (decimal n) ≡ true
unfolding decimal
decimal-starts_nonzero n p = digits-starts_nonzero (suc n) n [] p (omega arith)
