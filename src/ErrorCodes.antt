-- ===== src/ErrorCodes.antt =====
-- src/raspa_error_codes.h: the error codes and their texts, and class RaspaErrorCode.
pub mod Messages
pub mod Tests
use raspa.Prelude.{ℕ, ◌+◌, ◌-◌, List, [], ◌∷◌, Option, none, some, ◌==◌, leb, if◌then◌else◌}
use raspa.Prelude.Int.{ℤ, pos, negsuc}
use Prim.Native.String.{String, ◌++◌}

-- ERROR_CODES_OP(ERROR_ENUM)
pub data RaspaError : Type 0 where
  raspa_success : RaspaError
  raspa_ebuffer_size_mismatch : RaspaError
  raspa_eversion : RaspaError
  raspa_enomem : RaspaError
  raspa_euser_buffers : RaspaError
  raspa_etask_affinity : RaspaError
  raspa_etask_create : RaspaError
  raspa_etask_start : RaspaError
  raspa_etask_stop : RaspaError
  raspa_etask_cancel : RaspaError
  raspa_eunmap : RaspaError
  raspa_edevice_open : RaspaError
  raspa_edevice_close : RaspaError
  raspa_ecodec_format : RaspaError
  raspa_eplatform_type : RaspaError
  raspa_edevice_firmware : RaspaError
  raspa_edevice_inactive : RaspaError
  raspa_einsocket_creation : RaspaError
  raspa_eoutsocket_creation : RaspaError
  raspa_einsocket_bind : RaspaError
  raspa_einsocket_timeout : RaspaError
  raspa_emlockall : RaspaError
  raspa_ebuffer_size_invalid : RaspaError
  raspa_ebuffer_size_sc : RaspaError
  raspa_eparam : RaspaError
  raspa_eparam_samplerate : RaspaError
  raspa_eparam_inputchans : RaspaError
  raspa_eparam_outputchans : RaspaError
  raspa_eparam_codec_format : RaspaError
  raspa_eparam_platform_type : RaspaError
  raspa_eparam_version : RaspaError
  raspa_eparam_buffer_size : RaspaError
  raspa_ealsa_init_failed : RaspaError
  raspa_egpio_unsupported : RaspaError
  raspa_eparam_usb_audio_type : RaspaError
  raspa_eusbaudio_type : RaspaError
  raspa_edevice_invalid_config_file : RaspaError
  raspa_erunlog_file_open : RaspaError
  raspa_erunlog_file_close : RaspaError
  raspa_eparam_input_audio_info : RaspaError
  raspa_eparam_output_audio_info : RaspaError

abbrev pub error_code : RaspaError → ℕ
error_code raspa_success = 0
error_code raspa_ebuffer_size_mismatch = 100
error_code raspa_eversion = 101
error_code raspa_enomem = 102
error_code raspa_euser_buffers = 103
error_code raspa_etask_affinity = 104
error_code raspa_etask_create = 105
error_code raspa_etask_start = 106
error_code raspa_etask_stop = 107
error_code raspa_etask_cancel = 108
error_code raspa_eunmap = 109
error_code raspa_edevice_open = 110
error_code raspa_edevice_close = 111
error_code raspa_ecodec_format = 112
error_code raspa_eplatform_type = 113
error_code raspa_edevice_firmware = 114
error_code raspa_edevice_inactive = 115
error_code raspa_einsocket_creation = 116
error_code raspa_eoutsocket_creation = 117
error_code raspa_einsocket_bind = 118
error_code raspa_einsocket_timeout = 119
error_code raspa_emlockall = 120
error_code raspa_ebuffer_size_invalid = 121
error_code raspa_ebuffer_size_sc = 122
error_code raspa_eparam = 200
error_code raspa_eparam_samplerate = 201
error_code raspa_eparam_inputchans = 202
error_code raspa_eparam_outputchans = 203
error_code raspa_eparam_codec_format = 204
error_code raspa_eparam_platform_type = 205
error_code raspa_eparam_version = 206
error_code raspa_eparam_buffer_size = 207
error_code raspa_ealsa_init_failed = 208
error_code raspa_egpio_unsupported = 209
error_code raspa_eparam_usb_audio_type = 210
error_code raspa_eusbaudio_type = 211
error_code raspa_edevice_invalid_config_file = 212
error_code raspa_erunlog_file_open = 213
error_code raspa_erunlog_file_close = 214
error_code raspa_eparam_input_audio_info = 215
error_code raspa_eparam_output_audio_info = 216

-- DRIVER_PARAM_ERROR_INFO
abbrev pub driver_param_error_info : String
driver_param_error_info =
    "The driver might not have been loaded or has invalid configuration or version."

-- ERROR_CODES_OP(ERROR_TEXT_MAP)
unfoldable pub error_text : RaspaError → String
error_text raspa_success = "Raspa: No error."
error_text raspa_ebuffer_size_mismatch = "Raspa: Buffer size mismatch with driver."
error_text raspa_eversion = "Raspa: Version mismatch with driver."
error_text raspa_enomem = "Raspa: Failed to get buffers from driver."
error_text raspa_euser_buffers = "Raspa: Failed to allocate user audio buffers."
error_text raspa_etask_affinity = "Raspa: Failed to set affinity for RT task."
error_text raspa_etask_create = "Raspa: Failed to create RT task."
error_text raspa_etask_start = "Raspa: Failed to start RT task."
error_text raspa_etask_stop = "Raspa: Failed to stop RT task."
error_text raspa_etask_cancel = "Raspa: Failed to cancel RT task."
error_text raspa_eunmap = "Raspa: Failed to unmap driver buffers."
error_text raspa_edevice_open = "Raspa: Failed to open driver."
error_text raspa_edevice_close = "Raspa: Failed to close driver."
error_text raspa_ecodec_format = "Raspa: Unsupported codec format."
error_text raspa_eplatform_type = "Raspa: Unsupported platform type."
error_text raspa_edevice_firmware = "Raspa: Incorrect firmware on external micro-controller."
error_text raspa_edevice_inactive = "Raspa: External micro-controller not responding."
error_text raspa_einsocket_creation =
    "Raspa: Failed to create input socket for gpio data communication."
error_text raspa_eoutsocket_creation =
    "Raspa: Failed to create output socket for gpio data communication."
error_text raspa_einsocket_bind = "Raspa: Failed to bind input socket to address."
error_text raspa_einsocket_timeout = "Raspa: Failed to set input socket to address."
error_text raspa_emlockall = "Raspa: Failed to lock memory needed to prevent page swapping."
error_text raspa_ebuffer_size_invalid = "Raspa: driver configured with invalid buffer size."
error_text raspa_ebuffer_size_sc = "Raspa: sample converter does not suppot specified buffer size."
error_text raspa_eparam = "Raspa: Unable to param from driver."
error_text raspa_eparam_samplerate = "Raspa: Unable to read sample rate param from driver."
error_text raspa_eparam_inputchans = "Raspa: Unable to read num input chans param from driver."
error_text raspa_eparam_outputchans = "Raspa: Unable to read num output chans param from driver."
error_text raspa_eparam_codec_format = "Raspa: Unable to read codec format param from driver."
error_text raspa_eparam_platform_type = "Raspa: Unable to read platform type param from driver."
error_text raspa_eparam_version = "Raspa: Unable to read driver version param from driver."
error_text raspa_eparam_buffer_size = "Raspa: Unable to access buffer size param of driver."
error_text raspa_ealsa_init_failed = "Raspa: Alsa usb init failed."
error_text raspa_egpio_unsupported = "Raspa: Unsupported gpio requested."
error_text raspa_eparam_usb_audio_type = "Raspa: Unable to read usb audio type param from driver."
error_text raspa_eusbaudio_type = "Raspa: Unsupported usb audio type."
error_text raspa_edevice_invalid_config_file =
    "Raspa: Driver cannot find one or more conf files. See dmesg."
error_text raspa_erunlog_file_open = "Raspa: Error opening the run log file."
error_text raspa_erunlog_file_close = "Raspa: Error closing the run log file."
error_text raspa_eparam_input_audio_info = "Raspa: Unable to read input audio info from driver."
error_text raspa_eparam_output_audio_info = "Raspa: Unable to read output audio info from driver."

-- The keys of `_error_text`.
abbrev pub all_errors : List RaspaError
all_errors =
    raspa_success ∷ raspa_ebuffer_size_mismatch ∷ raspa_eversion ∷ raspa_enomem
    ∷ raspa_euser_buffers ∷ raspa_etask_affinity ∷ raspa_etask_create ∷ raspa_etask_start
    ∷ raspa_etask_stop ∷ raspa_etask_cancel ∷ raspa_eunmap ∷ raspa_edevice_open
    ∷ raspa_edevice_close ∷ raspa_ecodec_format ∷ raspa_eplatform_type ∷ raspa_edevice_firmware
    ∷ raspa_edevice_inactive ∷ raspa_einsocket_creation ∷ raspa_eoutsocket_creation
    ∷ raspa_einsocket_bind ∷ raspa_einsocket_timeout ∷ raspa_emlockall ∷ raspa_ebuffer_size_invalid
    ∷ raspa_ebuffer_size_sc ∷ raspa_eparam ∷ raspa_eparam_samplerate ∷ raspa_eparam_inputchans
    ∷ raspa_eparam_outputchans ∷ raspa_eparam_codec_format ∷ raspa_eparam_platform_type
    ∷ raspa_eparam_version ∷ raspa_eparam_buffer_size ∷ raspa_ealsa_init_failed
    ∷ raspa_egpio_unsupported ∷ raspa_eparam_usb_audio_type ∷ raspa_eusbaudio_type
    ∷ raspa_edevice_invalid_config_file ∷ raspa_erunlog_file_open ∷ raspa_erunlog_file_close
    ∷ raspa_eparam_input_audio_info ∷ raspa_eparam_output_audio_info ∷ []

-- The return value of a function that fails with the error.
abbrev pub failure : RaspaError → ℤ
failure e = if error_code e == 0 then pos 0 else negsuc (error_code e - 1)

abbrev pub abs : ℤ → ℕ
abs (pos n) = n
abs (negsuc n) = n + 1

-- `_error_val`
abbrev pub ErrorVals : Type 0
ErrorVals = ℕ → ℕ

-- The constructor: ERROR_CODES_OP(ERROR_VAL_MAP)
abbrev pub no_error_vals : ErrorVals
no_error_vals code = 0

unfoldable pub set_error_val : RaspaError → ℤ → ErrorVals → ErrorVals
set_error_val e error_val vals code = if code == error_code e then abs error_val else vals code

-- `_error_text.find`
unfoldable pub find_error : ℕ → List RaspaError → Option RaspaError
find_error code [] = none
find_error code (e ∷ es) = if error_code e == code then some e else find_error code es

-- `strerror` is the C library's.
unfoldable pub error_message : (strerror : ℕ → String) → ErrorVals → RaspaError → String
error_message strerror vals e =
    let error_val = vals (error_code e) in
    if error_val == 0
    then error_text e
    else if leb (error_code raspa_eparam) (error_code e)
    then (((error_text e ++ "(") ++ strerror error_val) ++ "). ") ++ driver_param_error_info
    else ((error_text e ++ "(") ++ strerror error_val) ++ "). "

unfoldable pub get_error_text : (strerror : ℕ → String) → ErrorVals → ℤ → String
get_error_text strerror vals raspa_error_code =
    elim (find_error (abs raspa_error_code) all_errors) [
      | none ↦ "Raspa: Unknown error"
      | some e ↦ error_message strerror vals e
    ]
