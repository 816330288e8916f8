-- ===== src/Pimpl/CleanupCodes.antt =====
-- src/raspa_pimpl.h: what the clean-up returns.
use raspa.Prelude.{ap, ◌∙◌, ◌≡◌, refl, Bool, true, false, ◌&&◌, ◌||◌, arith, if◌then◌else◌}
use raspa.Prelude.Int.{pos, negsuc}
use raspa.Pimpl.State.{World, RaspaPimpl}
use raspa.Pimpl.DriverInfo.{close_handle, release_driver_buffers}
use raspa.Pimpl.Buffers.{free_user_buffers}
use raspa.Pimpl.Converters.{is_negative}
use raspa.Pimpl.Lifecycle.{or_int, stop_rt_task, cleanup, is_failure}

stop_rt_task-code :
    (w : World) (r : RaspaPimpl)
    → (stop_rt_task w r).0 ≡ (
        if r.task_started && is_negative (or_int w.cancel_result w.join_result)
        then negsuc 107
        else pos 0)
unfolding stop_rt_task
stop_rt_task-code w r = ground arith

release_driver_buffers-code :
    (w : World) (r : RaspaPimpl)
    → (release_driver_buffers w r).0
      ≡ (if r.mmap_initialized && is_negative w.munmap_result then negsuc 108 else pos 0)
unfolding release_driver_buffers
release_driver_buffers-code w r = ground arith

close_handle-code :
    (w : World) (r : RaspaPimpl)
    → (close_handle w r).0
      ≡ (if r.device_opened && is_negative w.close_result then negsuc 110 else pos 0)
unfolding close_handle
close_handle-code w r = ground arith

-- The answers that `_cleanup` reports, each only where its stage has something to do: a negative one
-- of the two calls for the task, joined bit by bit, of `munmap` or of `close`.
abbrev pub is_reported : World → RaspaPimpl → Bool
is_reported w r =
    (r.task_started && is_negative (or_int w.cancel_result w.join_result))
    || (r.mmap_initialized && is_negative w.munmap_result)
    || (r.device_opened && is_negative w.close_result)

codes_or :
    (a b c : Bool)
    → is_negative (
        or_int
          (or_int (if a then negsuc 107 else pos 0) (if b then negsuc 108 else pos 0))
          (if c then negsuc 110 else pos 0))
      ≡ (a || b || c)
unfolding or_int
codes_or true true true = refl
codes_or true true false = refl
codes_or true false true = refl
codes_or true false false = refl
codes_or false true true = refl
codes_or false true false = refl
codes_or false false true = refl
codes_or false false false = refl

codes_or-zero :
    (a b c : Bool)
    → is_failure (
        or_int
          (or_int (if a then negsuc 107 else pos 0) (if b then negsuc 108 else pos 0))
          (if c then negsuc 110 else pos 0))
      ≡ (a || b || c)
unfolding or_int
codes_or-zero true true true = refl
codes_or-zero true true false = refl
codes_or-zero true false true = refl
codes_or-zero true false false = refl
codes_or-zero false true true = refl
codes_or-zero false true false = refl
codes_or-zero false false true = refl
codes_or-zero false false false = refl

kept_flags :
    (w : World) (r : RaspaPimpl)
    → ((free_user_buffers (stop_rt_task w r).1).mmap_initialized ≡ r.mmap_initialized)
      × ((free_user_buffers (stop_rt_task w r).1).device_opened ≡ r.device_opened)
unfolding free_user_buffers stop_rt_task
kept_flags w r = ground arith

release_driver_buffers-keeps :
    (w : World) (r : RaspaPimpl) → (release_driver_buffers w r).1.device_opened ≡ r.device_opened
unfolding release_driver_buffers
release_driver_buffers-keeps w r = ground arith

cleanup-code :
    (w : World) (r : RaspaPimpl)
    → (cleanup w r).0
      ≡ or_int
          (or_int
            (if r.task_started && is_negative (or_int w.cancel_result w.join_result)
              then negsuc 107
              else pos 0)
            (if r.mmap_initialized && is_negative w.munmap_result then negsuc 108 else pos 0))
          (if r.device_opened && is_negative w.close_result then negsuc 110 else pos 0)
unfolding cleanup
cleanup-code w r =
    let freed = free_user_buffers (stop_rt_task w r).1 in
    let (mapped, opened) = kept_flags w r in
    simp (
      stop_rt_task-code w r,
      release_driver_buffers-code w freed,
      close_handle-code w (release_driver_buffers w freed).1,
      release_driver_buffers-keeps w freed,
      mapped,
      opened,
    )

-- `_cleanup` returns a negative number if the results of `pthread_cancel` and `pthread_join`, joined
-- bit by bit, are negative for a task that was started, that of `munmap` is for a mapping, or that
-- of `close` is for an open device; and 0 if none of this holds. So a positive error number of the
-- task's calls, and whatever the run logger's end returns, are not reported.
pub cleanup-reports :
    (w : World) (r : RaspaPimpl)
    → (is_failure (cleanup w r).0 ≡ is_reported w r)
      × (is_negative (cleanup w r).0 ≡ is_reported w r)
cleanup-reports w r =
    let task = r.task_started && is_negative (or_int w.cancel_result w.join_result) in
    let mapping = r.mmap_initialized && is_negative w.munmap_result in
    let device = r.device_opened && is_negative w.close_result in
    (
      ap is_failure (cleanup-code w r) ∙ codes_or-zero task mapping device,
      ap is_negative (cleanup-code w r) ∙ codes_or task mapping device,
    )
