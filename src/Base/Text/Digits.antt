-- ===== src/Base/Text/Digits.antt =====
-- A printed number is a run of digits that reads back, also behind any text and a dash.
use Prim.Native.Nat.{ℕ, zero, suc, ◌+◌, ◌-◌, ◌*◌, ◌/◌, ◌%◌, ◌^◌, ◌<◌}
use Prim.Native.Char.{code}
use Prim.Native.String.{String, ◌++◌}
use mathlib.Core.Path.{◌≡◌, refl}
use mathlib.Core.Bool.{Bool, true, false, ◌&&◌}
use mathlib.Core.Option.{some}
use native.Mathlib.Omega.{arith}
use text.Mathlib.TextLemmas.{nil-append, cons-append, append-nil, append_assoc}
use patroni_postgres_operato.Base.Text.{
  digit, show_fuel, show, last_from, last_part, is_digit, scan_digits, scan_int,
}

all_digits : String → Bool
all_digits String.[] = true
all_digits (String.◌∷◌ c s) = is_digit (code c) && all_digits s

all_digits-append :
    (s t : String) → all_digits s ≡ true → all_digits t ≡ true → all_digits (s ++ t) ≡ true
unfolding all_digits
all_digits-append String.[] t hs ht = rw nil-append ht
all_digits-append (String.◌∷◌ c s) t hs ht = rw cons-append (ground (arith, all_digits-append s t))

all_digits-digit : (n : ℕ) → all_digits (digit n) ≡ true
unfolding all_digits is_digit digit
all_digits-digit zero = refl
all_digits-digit (suc zero) = refl
all_digits-digit (suc (suc zero)) = refl
all_digits-digit (suc (suc (suc zero))) = refl
all_digits-digit (suc (suc (suc (suc zero)))) = refl
all_digits-digit (suc (suc (suc (suc (suc zero))))) = refl
all_digits-digit (suc (suc (suc (suc (suc (suc zero)))))) = refl
all_digits-digit (suc (suc (suc (suc (suc (suc (suc zero))))))) = refl
all_digits-digit (suc (suc (suc (suc (suc (suc (suc (suc zero)))))))) = refl
all_digits-digit _ = refl

all_digits-show_fuel : (f n : ℕ) → all_digits (show_fuel f n) ≡ true
unfolding show_fuel all_digits
all_digits-show_fuel zero n = refl
all_digits-show_fuel (suc f) n = ground (
  arith,
  all_digits-digit n,
  all_digits-append (show_fuel f (n / 10)) (digit (n % 10)),
  all_digits-show_fuel f (n / 10),
  all_digits-digit (n % 10),
)

scan_digits-append :
    (s t : String) (acc : ℕ)
    → all_digits s ≡ true
    → scan_digits acc (s ++ t) ≡ scan_digits (scan_digits acc s) t
unfolding scan_digits all_digits
scan_digits-append String.[] t acc h = rw nil-append
scan_digits-append (String.◌∷◌ c s) t acc h =
    rw cons-append (ground (arith, scan_digits-append s t (acc * 10 + (code c - 48))))

scan_digits-digit : (acc n : ℕ) → n < 10 → scan_digits acc (digit n) ≡ acc * 10 + n
unfolding scan_digits is_digit digit
scan_digits-digit acc zero h = refl
scan_digits-digit acc (suc zero) h = refl
scan_digits-digit acc (suc (suc zero)) h = refl
scan_digits-digit acc (suc (suc (suc zero))) h = refl
scan_digits-digit acc (suc (suc (suc (suc zero)))) h = refl
scan_digits-digit acc (suc (suc (suc (suc (suc zero))))) h = refl
scan_digits-digit acc (suc (suc (suc (suc (suc (suc zero)))))) h = refl
scan_digits-digit acc (suc (suc (suc (suc (suc (suc (suc zero))))))) h = refl
scan_digits-digit acc (suc (suc (suc (suc (suc (suc (suc (suc zero)))))))) h = refl
scan_digits-digit acc (suc (suc (suc (suc (suc (suc (suc (suc (suc zero))))))))) h = refl
scan_digits-digit acc (suc (suc (suc (suc (suc (suc (suc (suc (suc (suc n)))))))))) h =
    absurd (omega arith)

scan_digits-show_fuel : (f n : ℕ) → n < f → scan_digits 0 (show_fuel f n) ≡ n
unfolding show_fuel
scan_digits-show_fuel zero n h = elim h [ ]
scan_digits-show_fuel (suc f) n h = ground (
  arith,
  scan_digits-digit 0 n,
  scan_digits-append (show_fuel f (n / 10)) (digit (n % 10)) 0 (all_digits-show_fuel f (n / 10)),
  scan_digits-show_fuel f (n / 10),
  scan_digits-digit (n / 10) (n % 10),
)

all_digits-show : (n : ℕ) → all_digits (show n) ≡ true
unfolding show
all_digits-show n = all_digits-show_fuel (suc n) n

scan_digits-show : (n : ℕ) → scan_digits 0 (show n) ≡ n
unfolding show
scan_digits-show n = scan_digits-show_fuel (suc n) n (omega arith)

-- A text of digits only goes to the accumulator whole.
last_from_digits : (acc s : String) → all_digits s ≡ true → last_from acc s ≡ acc ++ s
unfolding last_from all_digits is_digit
last_from_digits acc String.[] h = rw append-nil
last_from_digits acc (String.◌∷◌ c s) h = ground (
  arith,
  last_from_digits (acc ++ String.◌∷◌ c "") s,
  append_assoc acc (String.◌∷◌ c "") s,
  cons-append c "" s,
  nil-append s,
)

last_from-dash : (acc s t : String) → last_from acc (s ++ ("-" ++ t)) ≡ last_from "" t
unfolding last_from
last_from-dash acc String.[] t = rw (nil-append, cons-append, nil-append)
last_from-dash acc (String.◌∷◌ c s) t =
    rw cons-append
      (ground (arith, last_from-dash "" s t, last_from-dash (acc ++ String.◌∷◌ c "") s t))

non_empty : String → Bool
non_empty String.[] = false
non_empty (String.◌∷◌ c s) = true

non_empty-append : (s t : String) → non_empty t ≡ true → non_empty (s ++ t) ≡ true
unfolding non_empty
non_empty-append String.[] t h = rw nil-append h
non_empty-append (String.◌∷◌ c s) t h = rw cons-append

non_empty-digit : (n : ℕ) → non_empty (digit n) ≡ true
unfolding non_empty digit
non_empty-digit zero = refl
non_empty-digit (suc zero) = refl
non_empty-digit (suc (suc zero)) = refl
non_empty-digit (suc (suc (suc zero))) = refl
non_empty-digit (suc (suc (suc (suc zero)))) = refl
non_empty-digit (suc (suc (suc (suc (suc zero))))) = refl
non_empty-digit (suc (suc (suc (suc (suc (suc zero)))))) = refl
non_empty-digit (suc (suc (suc (suc (suc (suc (suc zero))))))) = refl
non_empty-digit (suc (suc (suc (suc (suc (suc (suc (suc zero)))))))) = refl
non_empty-digit _ = refl

non_empty-show : (n : ℕ) → non_empty (show n) ≡ true
unfolding show
non_empty-show n = ground (
  arith,
  non_empty-digit n,
  non_empty-append (show_fuel n (n / 10)) (digit (n % 10)),
  non_empty-digit (n % 10),
)

scan_int-digits :
    (s : String)
    → all_digits s ≡ true
    → non_empty s ≡ true
    → scan_digits 0 s < 2 ^ 63
    → scan_int s ≡ some (scan_digits 0 s)
unfolding scan_int all_digits non_empty
scan_int-digits String.[] h ne small = cc
scan_int-digits (String.◌∷◌ c s) h ne small = ground arith

pub scan_int-show : (n : ℕ) → n < 2 ^ 63 → scan_int (show n) ≡ some n
scan_int-show n h =
    ground
      (arith, scan_digits-show n, scan_int-digits (show n), all_digits-show n, non_empty-show n)

last_part-append : (name t : String) → all_digits t ≡ true → last_part (name ++ ("-" ++ t)) ≡ t
unfolding last_part
last_part-append name t h = rw (last_from-dash, last_from_digits "" t h, nil-append)

-- The index that is read from the name of a pod is the index that the name was built from.
pub scan_int-last_part :
    (name : String) (n : ℕ) → n < 2 ^ 63 → scan_int (last_part (name ++ ("-" ++ show n))) ≡ some n
scan_int-last_part name n h =
    rw (last_part-append name (show n) (all_digits-show n)) (scan_int-show n h)
