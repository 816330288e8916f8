-- ===== src/Pimpl/Queries.antt =====
-- src/raspa_pimpl.h: the small functions that a client calls beside the stream.
use raspa.Prelude.{
  ℕ, ◌+◌, ◌*◌, ◌/◌, ◌^◌, ◌≡◌, ◌-◌, Option, none, some, not, ◌&&◌, arith, ltb, if◌then◌else◌,
}
use raspa.Prelude.Int.{ℤ, pos, negsuc, ltb_ℤ, ◌*ℤ◌}
use Prim.Native.String.{String}
use raspa.ErrorCodes
use raspa.ErrorCodes.{failure, get_error_text}
use raspa.Pimpl.State.{RaspaPimpl, Step}
use raspa.Pimpl.Lifecycle.{is_failure}

unfoldable pub get_sampling_rate : RaspaPimpl → ℤ
get_sampling_rate r = r.sample_rate

unfoldable pub get_num_input_channels : RaspaPimpl → ℤ
get_num_input_channels r = r.num_input_chans

unfoldable pub get_num_output_channels : RaspaPimpl → ℤ
get_num_output_channels r = r.num_output_chans

-- The value of an `int` operation, `none` where it overflows
abbrev pub to_int : ℤ → Option ℤ
to_int n = if not (ltb_ℤ n (negsuc (2 ^ 31 - 1))) && ltb_ℤ n (pos (2 ^ 31)) then some n else none

-- The product is one of `int`, before it becomes an `int64_t`.
unfoldable pub get_samplecount : RaspaPimpl → Option ℤ
get_samplecount r = to_int (r.interrupts_counter *ℤ r.buffer_size_in_frames)

abbrev pub num_pages_kernel_mem : ℕ
num_pages_kernel_mem = 20

-- As it is built with EVL; `evl_init` has no result that is looked at.
unfoldable pub init : (page_size : ℕ) → RaspaPimpl → Step
init page_size r = (pos 0, record r { kernel_buffer_mem_size = num_pages_kernel_mem * page_size })

unfoldable pub set_run_log_file : String → RaspaPimpl → RaspaPimpl
set_run_log_file path r = record r { run_logger_file_name = path }

unfoldable pub get_error_msg : (strerror : ℕ → String) → ℤ → RaspaPimpl → String
get_error_msg strerror code r = get_error_text strerror r.error_vals code

unfoldable pub get_gate_values : RaspaPimpl → ℕ
get_gate_values r = r.user_gate_in

unfoldable pub set_gate_values : ℕ → RaspaPimpl → RaspaPimpl
set_gate_values gate_out_val r = record r { user_gate_out = gate_out_val }

-- With what reading the clock returns, in seconds and nanoseconds
unfoldable pub get_time : (res : ℤ) (tv_sec tv_nsec : ℕ) → ℕ
get_time res tv_sec tv_nsec = if is_failure res then 0 else tv_sec * 1000000 + tv_nsec / 1000

-- The calls to the driver, with what it returns
unfoldable pub request_out_gpio : (get_pin_result : ℤ) → ℤ
request_out_gpio get_pin_result =
    if is_failure get_pin_result then failure ErrorCodes.raspa_egpio_unsupported else pos 0

unfoldable pub set_gpio : (set_val_result : ℤ) → ℤ
set_gpio set_val_result =
    if is_failure set_val_result then failure ErrorCodes.raspa_egpio_unsupported else pos 0

unfoldable pub free_gpio : (release_result : ℤ) → ℤ
free_gpio release_result =
    if is_failure release_result then failure ErrorCodes.raspa_egpio_unsupported else pos 0

-- With the interrupts that were counted and a buffer size that is no negative number,
-- `get_samplecount` is their product as long as it is below 2 ^ 31, and undefined from there on.
pub get_samplecount-counts :
    (r : RaspaPimpl) (interrupts frames : ℕ)
    → r.interrupts_counter ≡ pos interrupts
    → r.buffer_size_in_frames ≡ pos frames
    → get_samplecount r
      ≡ (if ltb (interrupts * frames) (2 ^ 31) then some (pos (interrupts * frames)) else none)
unfolding get_samplecount ◌*ℤ◌
get_samplecount-counts r interrupts frames e f = rw (e, f) (ground arith)
