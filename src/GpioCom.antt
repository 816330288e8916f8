-- ===== src/GpioCom.antt =====
-- src/raspa_gpio_com.h: class RaspaGpioCom, which carries gpio data between the real time thread
-- and a socket. What the socket calls answer is a `SocketCalls`.
pub mod Fifo
pub mod Write
pub mod Read
pub mod Drain
pub mod Bounded
pub mod Tests
use raspa.Prelude.{Bool, true, false, not, ◌&&◌, if◌then◌else◌}
use raspa.Prelude.Int.{ℤ, pos, ltb_ℤ}
use raspa.DriverConfig.{eq_ℤ}
use raspa.ErrorCodes.{
  ErrorVals, set_error_val, failure, raspa_einsocket_creation, raspa_eoutsocket_creation,
  raspa_einsocket_bind, raspa_einsocket_timeout,
}

pub record SocketCalls : Type 0 where
  pub in_socket_result : ℤ
  pub out_socket_result : ℤ
  pub bind_result : ℤ
  pub setsockopt_result : ℤ

pub record RaspaGpioCom : Type 0 where
  pub in_socket : ℤ
  pub out_socket : ℤ
  pub is_running : Bool

-- The constructor.
abbrev pub raspa_gpio_com : RaspaGpioCom
raspa_gpio_com = record { in_socket = pos 0; out_socket = pos 0; is_running = false }

-- `init`, with the error values that it shares with the caller. The threads that it starts are the
-- two loops.
unfoldable pub init : SocketCalls → RaspaGpioCom → ErrorVals → ℤ × RaspaGpioCom × ErrorVals
init calls gpio vals =
    let with_in = record gpio { in_socket = calls.in_socket_result } in
    let with_out = record with_in { out_socket = calls.out_socket_result } in
    if ltb_ℤ calls.in_socket_result (pos 0)
    then (
      failure raspa_einsocket_creation,
      with_in,
      set_error_val raspa_einsocket_creation calls.in_socket_result vals,
    )
    else if ltb_ℤ calls.out_socket_result (pos 0)
    then (
      failure raspa_eoutsocket_creation,
      with_out,
      set_error_val raspa_eoutsocket_creation calls.out_socket_result vals,
    )
    else if ltb_ℤ calls.bind_result (pos 0)
    then (
      failure raspa_einsocket_bind,
      with_out,
      set_error_val raspa_einsocket_bind calls.bind_result vals,
    )
    else if not (eq_ℤ calls.setsockopt_result (pos 0))
    then (
      failure raspa_einsocket_timeout,
      with_out,
      set_error_val raspa_einsocket_timeout calls.setsockopt_result vals,
    )
    else (pos 0, record with_out { is_running = true }, vals)

-- `deinit`, which the destructor calls. It waits for both loops to see the flag; the sockets stay
-- open.
unfoldable pub deinit : RaspaGpioCom → RaspaGpioCom
deinit gpio = if gpio.is_running then record gpio { is_running = false } else gpio

-- `_connect_to_gpio_host_socket`
unfoldable pub connect_to_gpio_host_socket : (connect_result setsockopt_result : ℤ) → Bool
connect_to_gpio_host_socket connect_result setsockopt_result =
    eq_ℤ connect_result (pos 0) && eq_ℤ setsockopt_result (pos 0)
