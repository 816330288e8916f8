-- ===== src/DriverConfig/Atoi.antt =====
-- src/driver_config.h: what `read_driver_param` returns for a decimal text.
use raspa.Prelude.{
  ℕ, ◌+◌, ◌-◌, ◌*◌, ◌^◌, ◌≤◌, ◌<◌, ◌≡◌, refl, List, [], ◌∷◌, ◌++◌, true, false, length,
  length-append, take_all, replicate, arith, ap,
}
use raspa.Prelude.Int.{ℤ, pos, negsuc, ltb_ℤ}
use raspa.DriverConfig.Params.{
  Param, Sysfs, is_digit, atoi_digits, atoi, param_str, param_val_str_len, negated, long_to_int,
  read_driver_param,
}
use native.Mathlib.Nat.{pow-suc}
use mathlib.Core.List.{append_assoc}

-- Every byte is a digit.
abbrev pub AllDigits : List ℕ → Type 0
AllDigits [] = Unit
AllDigits (c ∷ cs) = (is_digit c ≡ true) × AllDigits cs

-- The number that a list of digits denotes, by the places of its digits.
abbrev pub decimal_value : List ℕ → ℕ
decimal_value [] = 0
decimal_value (c ∷ cs) = (c - b'0') * 10 ^ length cs + decimal_value cs

-- Horner's rule with an accumulator, up to the first byte that is no digit.
atoi_digits-append :
    (ds rest : List ℕ) (c acc : ℕ)
    → AllDigits ds
    → is_digit c ≡ false
    → atoi_digits (ds ++ (c ∷ rest)) acc ≡ acc * 10 ^ length ds + decimal_value ds
unfolding atoi_digits
atoi_digits-append [] rest c acc all stop = ground arith
atoi_digits-append (d ∷ ds) rest c acc all stop = ground (
  arith,
  atoi_digits-append ds rest c (acc * 10 + (d - b'0')) all.1 stop,
  pow-suc 10 (length ds),
  ap (λ (t : ℕ). acc * t) (pow-suc 10 (length ds)),
)

-- The sign and the digits that a parameter's file holds, before the newline that ends it.
pub data Sign : Type 0 where
  plain minus : Sign

abbrev pub decimal_text : Sign → List ℕ → List ℕ
decimal_text plain ds = ds
decimal_text minus ds = b'-' ∷ ds

abbrev pub decimal_number : Sign → List ℕ → ℤ
decimal_number plain ds = pos (decimal_value ds)
decimal_number minus ds = negated (decimal_value ds)

-- The text of a parameter, once padded, still ends in the newline.
param_str-append :
    (t : List ℕ)
    → length t + 1 ≤ param_val_str_len
    → (r : List ℕ) × (param_str (t ++ (b'\n' ∷ [])) ≡ t ++ (b'\n' ∷ r))
param_str-append t fits =
    let e = take_all param_val_str_len (t ++ (b'\n' ∷ [])) (rw length-append (omega arith)) in
    (replicate (param_val_str_len - length (t ++ (b'\n' ∷ []))) 0, rw e (append_assoc t _ _))

-- A number that an `int` can hold
abbrev pub FitsInt : ℤ → Type 0
FitsInt (pos n) = n < 2 ^ 31
FitsInt (negsuc n) = n < 2 ^ 31

long_to_int-same : (z : ℤ) → FitsInt z → long_to_int z ≡ z
long_to_int-same (pos n) h = ground arith
long_to_int-same (negsuc n) h = ground arith

atoi-decimal_text :
    (s : Sign) (d : ℕ) (ds rest : List ℕ)
    → AllDigits (d ∷ ds)
    → FitsInt (decimal_number s (d ∷ ds))
    → atoi (decimal_text s (d ∷ ds) ++ (b'\n' ∷ rest)) ≡ decimal_number s (d ∷ ds)
unfolding atoi
atoi-decimal_text plain d ds rest all holds = ground (
  arith,
  atoi_digits-append (d ∷ ds) rest b'\n' 0 all refl,
  long_to_int-same (decimal_number plain (d ∷ ds)) holds,
)
atoi-decimal_text minus d ds rest all holds = ground (
  arith,
  atoi_digits-append (d ∷ ds) rest b'\n' 0 all refl,
  long_to_int-same (decimal_number minus (d ∷ ds)) holds,
)

-- A parameter whose file opens, whose read succeeds and whose text is a decimal number of at least
-- one digit, with an optional minus sign and a newline at the end, at most 25 bytes in all, is read
-- as that number if an `int` can hold it.
pub read_driver_param-decimal :
    (k : Sysfs) (p : Param) (s : Sign) (d : ℕ) (ds : List ℕ)
    → ltb_ℤ (k.open_fd p) (pos 0) ≡ false
    → ltb_ℤ (k.read_count p) (pos 0) ≡ false
    → AllDigits (d ∷ ds)
    → FitsInt (decimal_number s (d ∷ ds))
    → length (decimal_text s (d ∷ ds)) + 1 ≤ param_val_str_len
    → k.contents p ≡ decimal_text s (d ∷ ds) ++ (b'\n' ∷ [])
    → read_driver_param k p ≡ decimal_number s (d ∷ ds)
unfolding read_driver_param
read_driver_param-decimal k p s d ds opened was_read all holds fits text =
    let (r, e) = param_str-append (decimal_text s (d ∷ ds)) fits in
    rw (opened, was_read, text, e) (atoi-decimal_text s d ds r all holds)
