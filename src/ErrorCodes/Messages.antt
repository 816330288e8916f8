-- ===== src/ErrorCodes/Messages.antt =====
-- src/raspa_error_codes.h: which text a return value gets.
use raspa.Prelude.{
  ℕ, ◌≡◌, ◌≢◌, ◌⊎◌, inl, inr, refl, ap, sym, Bool-cases, ◌∙◌, some, leb, ◌==◌, if◌then◌else◌, arith,
}
use raspa.Prelude.Int.{ℤ}
use Prim.Native.String.{String, ◌++◌}
use text.Mathlib.TextLemmas.{append_assoc}
use native.Mathlib.Decide.{ℕ_discrete}
use raspa.ErrorCodes.{
  RaspaError, error_code, error_text, all_errors, failure, abs, ErrorVals, set_error_val,
  find_error, error_message, get_error_text, driver_param_error_info, raspa_success,
}

-- The table has each error, and no code twice.
pub find_error-error_code : (e : RaspaError) → find_error (error_code e) all_errors ≡ some e
unfolding find_error
find_error-error_code raspa_success = refl
find_error-error_code e = refl

abs-failure : (e : RaspaError) → abs (failure e) ≡ error_code e
abs-failure raspa_success = refl
abs-failure e = refl

-- The return value of each error finds the error's own message.
get_error_text-failure :
    (strerror : ℕ → String) (vals : ErrorVals) (e : RaspaError)
    → get_error_text strerror vals (failure e) ≡ error_message strerror vals e
unfolding get_error_text
get_error_text-failure strerror vals e =
    rw (abs-failure e, get_error_text) (rw (find_error-error_code e))

error_code_injective : (d e : RaspaError) → error_code d ≡ error_code e → d ≡ e
error_code_injective d e h =
    cc (find_error-error_code d, find_error-error_code e, ap (λ (c : ℕ). find_error c all_errors) h)

message_of_equal :
    (strerror : ℕ → String) (vals vals' : ErrorVals) (e : RaspaError)
    → vals (error_code e) ≡ vals' (error_code e)
    → error_message strerror vals e ≡ error_message strerror vals' e
unfolding error_message
message_of_equal strerror vals vals' e h = rw h

message_of_value :
    (strerror : ℕ → String) (vals : ErrorVals) (e : RaspaError) (n : ℕ)
    → vals (error_code e) ≡ n
    → error_message strerror vals e ≡ (
        if n == 0
        then error_text e
        else error_text e
          ++ "("
          ++ strerror n
          ++ (if leb 200 (error_code e) then "). " ++ driver_param_error_info else "). "))
unfolding error_message
message_of_value strerror vals e n h = rw h (elim (Bool-cases (leb 200 (error_code e))) [
  | inl hint ↦ rw hint (simp append_assoc)
  | inr plain ↦ rw plain (simp append_assoc)
])

-- After `set_error_val` for an error, the message of its return value carries the system's text for
-- the magnitude of the value if that is not zero, with the hint on the driver exactly for the codes
-- from 200 on; the message of every other error's return value is as before.
pub get_error_text-set_error_val :
    (strerror : ℕ → String) (vals : ErrorVals) (d e : RaspaError) (v : ℤ)
    → ((d ≡ e)
        × (get_error_text strerror (set_error_val d v vals) (failure e) ≡ (
            if abs v == 0
            then error_text e
            else error_text e
              ++ "("
              ++ strerror (abs v)
              ++ (if leb 200 (error_code e) then "). " ++ driver_param_error_info else "). "))))
      ⊎ ((d ≢ e)
          × (get_error_text strerror (set_error_val d v vals) (failure e)
              ≡ get_error_text strerror vals (failure e)))
get_error_text-set_error_val strerror vals d e v = elim (ℕ_discrete (error_code d) (error_code e)) [
  | yes same ↦ inl (
    error_code_injective d e same,
    get_error_text-failure strerror (set_error_val d v vals) e
        ∙ message_of_value strerror (set_error_val d v vals) e (abs v)
            (unfold set_error_val in ground arith),
  )
  | no other ↦ inr (
    λ h. other (ap error_code h),
    get_error_text-failure strerror (set_error_val d v vals) e
        ∙ message_of_equal strerror (set_error_val d v vals) vals e
            (unfold set_error_val in ground arith)
        ∙ sym (get_error_text-failure strerror vals e),
  )
]
