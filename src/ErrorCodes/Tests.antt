-- ===== src/ErrorCodes/Tests.antt =====
-- Runs of the error messages, and the theorem about them at a concrete input.
use raspa.Prelude.{ℕ, ◌≡◌, ◌≢◌, ◌⊎◌, refl}
use raspa.Prelude.Int.{pos, negsuc}
use Prim.Native.String.{String, ◌++◌}
use raspa.ErrorCodes.{
  error_text, no_error_vals, set_error_val, find_error, error_message, get_error_text,
  driver_param_error_info, raspa_enomem, raspa_eparam_version,
}
use raspa.ErrorCodes.Messages.{get_error_text-set_error_val}

abbrev no_memory : ℕ → String
no_memory code = "Cannot allocate memory"

messages :
    (get_error_text no_memory (set_error_val raspa_enomem (pos 12) no_error_vals) (negsuc 101)
      ≡ "Raspa: Failed to get buffers from driver.(Cannot allocate memory). ")
    × (get_error_text no_memory no_error_vals (negsuc 4) ≡ "Raspa: Unknown error")
unfolding get_error_text set_error_val find_error error_message error_text
messages = (refl, refl)

get_error_text-set_error_val_example :
    ((raspa_enomem ≡ raspa_eparam_version)
      × (get_error_text no_memory (set_error_val raspa_enomem (pos 12) no_error_vals) (negsuc 205)
          ≡ error_text raspa_eparam_version
            ++ "("
            ++ no_memory 12
            ++ ("). " ++ driver_param_error_info)))
    ⊎ ((raspa_enomem ≢ raspa_eparam_version)
        × (get_error_text no_memory (set_error_val raspa_enomem (pos 12) no_error_vals) (negsuc 205)
            ≡ get_error_text no_memory no_error_vals (negsuc 205)))
get_error_text-set_error_val_example =
    get_error_text-set_error_val no_memory no_error_vals raspa_enomem raspa_eparam_version (pos 12)
