-- ===== src/Pimpl/Cleanup.antt =====
-- src/raspa_pimpl.h: what the clean-up leaves behind.
use raspa.Prelude.{
  ap, List, ◌∙◌, ◌≡◌, Option, none, some, Bool, true, false, not, ◌&&◌, [], arith, if◌then◌else◌,
}
use raspa.DriverConfig.{PlatformType, UsbAudioType}
use raspa.SampleConversion.Converter.{SampleConverter}
use raspa.RunLogger
use raspa.RunLogger.{RunLogger}
use raspa.GpioCom.{RaspaGpioCom}
use raspa.Pimpl.State.{World, RaspaPimpl}
use raspa.Pimpl.DriverInfo.{
  is_native, is_sync, is_native_alsa, close_handle, release_driver_buffers,
}
use raspa.Pimpl.Buffers.{free_user_buffers}
use raspa.Pimpl.Converters.{deinit_sample_converter}
use raspa.Pimpl.Lifecycle.{stop_rt_task, delete_instances, cleanup}

abbrev pub is_set : Option RaspaGpioCom → Bool
is_set none = false
is_set (some gpio) = true

-- The object has the instances of its platform, its kind of USB audio and its flags only: a gpio
-- object not on NATIVE, a delay filter on SYNC, converters of the USB audio where the driver has it
-- native, a run logger that runs or has its file open where it is enabled.
pub record IsConsistent (r : RaspaPimpl) : Type 0 where
  pub gpio : (is_native r.platform_type && is_set r.gpio_com) ≡ false
  pub filter : (not (is_sync r.platform_type) && r.delay_error_filter) ≡ false
  pub usb_input :
      (if is_native_alsa r.usb_audio_type then [] else r.input_usb_sample_converter) ≡ []
  pub usb_output :
      (if is_native_alsa r.usb_audio_type then [] else r.output_usb_sample_converter) ≡ []
  pub logger : (not r.run_logger_enable && r.run_logger.is_running) ≡ false
  pub log_stream : (not r.run_logger_enable && r.run_logger.stream_open) ≡ false

-- The object holds nothing any more.
pub record IsReleased (r : RaspaPimpl) : Type 0 where
  pub no_task : r.task_started ≡ false
  pub no_user_buffers : r.user_buffers_allocated ≡ false
  pub no_mapping : r.mmap_initialized ≡ false
  pub no_device : r.device_opened ≡ false
  pub no_input_converter : r.input_sample_converter ≡ []
  pub no_output_converter : r.output_sample_converter ≡ []
  pub no_usb_input : r.input_usb_sample_converter ≡ []
  pub no_usb_output : r.output_usb_sample_converter ≡ []
  pub no_filter : r.delay_error_filter ≡ false
  pub no_gpio : is_set r.gpio_com ≡ false
  pub no_logger : r.run_logger.is_running ≡ false
  pub no_log_stream : r.run_logger.stream_open ≡ false

-- Steps that leave the instances alone leave them consistent.
abbrev pub instances :
    RaspaPimpl
    → (Option RaspaGpioCom × Bool × RunLogger)
      × (Bool × PlatformType × UsbAudioType)
      × (List (Option SampleConverter) × List (Option SampleConverter))
instances r = (
  (r.gpio_com, r.delay_error_filter, r.run_logger),
  (r.run_logger_enable, r.platform_type, r.usb_audio_type),
  (r.input_usb_sample_converter, r.output_usb_sample_converter),
)

write_buffer_to_file-stopped :
    (accepts flush : Bool) (l : RunLogger)
    → (RunLogger.write_buffer_to_file accepts flush l).is_running ≡ l.is_running
unfolding RunLogger.write_buffer_to_file RunLogger.write_block
write_buffer_to_file-stopped accepts flush l = ground arith

run_end-stopped :
    (accepts in_round : Bool) (l : RunLogger)
    → (RunLogger.run_end accepts in_round l).is_running ≡ l.is_running
unfolding RunLogger.run_end
run_end-stopped accepts true l =
    write_buffer_to_file-stopped accepts true (RunLogger.write_buffer_to_file accepts false l)
    ∙ write_buffer_to_file-stopped accepts false l
run_end-stopped accepts false l = write_buffer_to_file-stopped accepts true l

close_stream-fields :
    (closes : Bool) (l : RunLogger)
    → ((RunLogger.close_stream closes l).1.is_running ≡ l.is_running)
      × ((RunLogger.close_stream closes l).1.stream_open ≡ false)
unfolding RunLogger.close_stream
close_stream-fields closes l = ground arith

terminated :
    (accepts in_round closes : Bool) (l : RunLogger)
    → ((RunLogger.terminate accepts in_round closes l).1.is_running ≡ false)
      × ((RunLogger.terminate accepts in_round closes l).1.stream_open ≡ false)
unfolding RunLogger.terminate
terminated accepts in_round closes l =
    let ended = RunLogger.run_end accepts in_round (record l { is_running = false }) in
    let closed_end = close_stream-fields closes ended in
    let closed = close_stream-fields closes l in
    ground (
      arith,
      closed_end,
      closed,
      run_end-stopped accepts in_round (record l { is_running = false }),
    )

stop_rt_task-stopped : (w : World) (r : RaspaPimpl) → (stop_rt_task w r).1.task_started ≡ false
unfolding stop_rt_task
stop_rt_task-stopped w r = ground arith

released_fields :
    (w : World) (r : RaspaPimpl)
    → ((release_driver_buffers w r).1.mmap_initialized ≡ false)
      × ((release_driver_buffers w r).1.task_started ≡ r.task_started)
      × ((release_driver_buffers w r).1.user_buffers_allocated ≡ r.user_buffers_allocated)
unfolding release_driver_buffers
released_fields w r = ground arith

closed_fields :
    (w : World) (r : RaspaPimpl)
    → ((close_handle w r).1.device_opened ≡ false)
      × ((close_handle w r).1.mmap_initialized ≡ r.mmap_initialized)
      × ((close_handle w r).1.task_started ≡ r.task_started)
      × ((close_handle w r).1.user_buffers_allocated ≡ r.user_buffers_allocated)
unfolding close_handle
closed_fields w r = ground arith

freed_fields :
    (r : RaspaPimpl)
    → ((free_user_buffers r).user_buffers_allocated ≡ false)
      × ((free_user_buffers r).task_started ≡ r.task_started)
unfolding free_user_buffers
freed_fields r = ground arith

stages-instances :
    (w : World) (r : RaspaPimpl)
    → (instances (stop_rt_task w r).1 ≡ instances r)
      × (instances (free_user_buffers r) ≡ instances r)
      × (instances (release_driver_buffers w r).1 ≡ instances r)
      × (instances (close_handle w r).1 ≡ instances r)
unfolding stop_rt_task free_user_buffers release_driver_buffers close_handle
stages-instances w r = (ground arith, ground arith, ground arith, ground arith)

-- The instances of a consistent object, deleted
abbrev pub NoInstances : RaspaPimpl → Type 0
NoInstances r =
    ((r.delay_error_filter ≡ false) × (is_set r.gpio_com ≡ false))
    × ((r.run_logger.is_running ≡ false) × (r.run_logger.stream_open ≡ false))
    × ((r.input_usb_sample_converter ≡ []) × (r.output_usb_sample_converter ≡ []))

delete_instances-NoInstances :
    (w : World) (r : RaspaPimpl) → IsConsistent r → NoInstances (delete_instances w r)
unfolding delete_instances deinit_sample_converter
delete_instances-NoInstances w r h = (
  (ground (arith, h.filter), ground (arith, h.gpio)),
  (
    ground (arith, h.logger, terminated w.log_accepts w.log_in_round w.log_closes r.run_logger),
    ground (arith, h.log_stream, terminated w.log_accepts w.log_in_round w.log_closes r.run_logger),
  ),
  (ground (arith, h.usb_input), ground (arith, h.usb_output)),
)

delete_instances-fields :
    (w : World) (r : RaspaPimpl)
    → IsConsistent r
    → r.task_started ≡ false
    → r.user_buffers_allocated ≡ false
    → r.mmap_initialized ≡ false
    → r.device_opened ≡ false
    → IsReleased (delete_instances w r)
unfolding delete_instances deinit_sample_converter
delete_instances-fields w r h a b c d =
    let ((filter, gpio), (logger, stream), (usb_in, usb_out)) =
      delete_instances-NoInstances w r h in
    record {
      no_task = ground (arith, a);
      no_user_buffers = ground (arith, b);
      no_mapping = ground (arith, c);
      no_device = ground (arith, d);
      no_input_converter = ground arith;
      no_output_converter = ground arith;
      no_usb_input = usb_in;
      no_usb_output = usb_out;
      no_filter = filter;
      no_gpio = gpio;
      no_logger = logger;
      no_log_stream = stream;
    }

pub IsConsistent-of :
    (r t : RaspaPimpl) → instances t ≡ instances r → IsConsistent r → IsConsistent t
IsConsistent-of r t e h = record {
  gpio = ap (λ i. is_native i.1.1 && is_set i.0.0) e ∙ h.gpio;
  filter = ap (λ i. not (is_sync i.1.1) && i.0.1) e ∙ h.filter;
  usb_input = ap (λ i. if is_native_alsa i.1.2 then [] else i.2.0) e ∙ h.usb_input;
  usb_output = ap (λ i. if is_native_alsa i.1.2 then [] else i.2.1) e ∙ h.usb_output;
  logger = ap (λ i. not i.1.0 && i.0.2.is_running) e ∙ h.logger;
  log_stream = ap (λ i. not i.1.0 && i.0.2.stream_open) e ∙ h.log_stream;
}

pub cleanup-IsReleased : (w : World) (r : RaspaPimpl) → IsConsistent r → IsReleased (cleanup w r).1
unfolding cleanup
cleanup-IsReleased w r h =
    let stopped = (stop_rt_task w r).1 in
    let freed = free_user_buffers stopped in
    let released = (release_driver_buffers w freed).1 in
    let closed = (close_handle w released).1 in
    let at_freed = freed_fields stopped in
    let at_released = released_fields w freed in
    let at_closed = closed_fields w released in
    let same =
      (stages-instances w released).3
      ∙ (stages-instances w freed).2
      ∙ (stages-instances w stopped).1
      ∙ (stages-instances w r).0 in
    delete_instances-fields w closed (IsConsistent-of r closed same h)
      (at_closed.2 ∙ at_released.1 ∙ at_freed.1 ∙ stop_rt_task-stopped w r)
      (at_closed.3 ∙ at_released.2 ∙ at_freed.0) (at_closed.1 ∙ at_released.0) at_closed.0
