-- ===== src/Lib.antt =====
-- Verification library of raspa, the user space library between an audio driver of the kernel and a
-- client's process function. The paths below are those of the repository.
--
-- The program. A client opens raspa, hands over a callback, starts the real time thread and closes
-- it again. src/raspa_pimpl.h holds the one object behind the C interface of include/raspa: it reads
-- the driver's parameters (src/driver_config.h), maps the driver's memory and lays out the buffers,
-- and makes a sample converter for each channel (src/sample_conversion.h). For each interrupt its
-- thread converts the codec's words to floats, calls the client and converts back. On the platforms
-- with a micro-controller it exchanges control packets, whose gpio data two threads carry to and
-- from a socket (src/raspa_gpio_com.h). A run logger writes the periods' times to a file
-- (src/raspa_run_logger.h), and src/raspa_error_codes.h makes the messages.
--
-- The files.
--   Prelude: numbers, lists, signed integers, 32-bit words, words in memory and the laws of `&` that
--     the rest shares.
--   DriverConfig: src/driver_config.h. Types has the enumerations, Params the reading of a parameter
--     (read_driver_param, over a record of what open and read answer) and the two checks; Atoi and
--     Version have the theorems.
--   Binary32: the type float as bit patterns and exact integers, with rounding to nearest even.
--   SampleConversion: src/sample_conversion.h. Codec has the conversions of a sample, Converter the
--     loops over a buffer (`none` is an access out of range, or the conversion of a NaN, which is
--     undefined), Select the choice of a converter.
--   RunLogger: src/raspa_run_logger.h. Defs has the class with its two counters as 32-bit patterns;
--     Pending, Blocks and History relate it to a queue.
--   ErrorCodes: src/raspa_error_codes.h, the table and RaspaErrorCode.
--   GpioCom: src/raspa_gpio_com.h. Its parent file has init and deinit; Write and Read have the
--     two loops as steps that interleave with the real time thread's, Drain the inner loop of the
--     first; Fifo is the interface of the queue of third-party/fifo, which Bounded fills.
--   Pimpl: src/raspa_pimpl.h. State has the fields of RaspaPimpl, and World, the answers of the
--     system, one to each call. Layout, Buffers, DriverInfo and Converters have the stages of
--     opening and their counterparts, Lifecycle composes them: open_device is cut at its early
--     returns into open_sized, open_buffers and so on, each of which is the rest of the function.
--     UserCallback has _perform_user_callback, Packets the control packets over a record of the
--     submodule's functions, RtLoop the three loops of the thread, Queries the small functions.
--     Chain, ChannelSetup, Stages, LateStages, OpenState, Opened, Cleanup, CleanupCodes, Close,
--     Instances, Consistent, UserInput, UserOutput, Pairing, UserPeriod, StopFlag, DriverMemory,
--     Stopping, Settling and Downsampling have the theorems.
--   AlsaUsb: src/raspa_alsa_usb.h. Its parent file has the class and the ring's indices, Setup the
--     calls that set the streams up, Reading the transfer from the device, Streams the two threads
--     with their queues and the calls of the real time thread; Ready, Window, Queued and InOrder
--     have the theorems.
--   Api: src/raspa_api_wrapper.cpp and include/raspa/raspa.h, the calls of a client and sequences of
--     them; Usb, Opened, Session and Released have the theorems.
--   Programs: src/apps, two clients. Loopback has the callback of src/apps/loopback.c, LoopbackPeriod
--     runs it in a period of Pimpl; SignalRecorder has the class of src/apps/signal_recorder and the
--     check of main; Tone, Rows, Recording, Periods, Allocation, Recorder and ChannelCheck have its
--     theorems.
--
-- Names. A method keeps its name without the leading underscore. Where two would coincide the
-- private one is renamed: open_handle and close_handle are _open_device and _close_device,
-- set_driver_buffers is _init_driver_buffers.
--
-- State and effects. A method that changes the object takes it and returns it, beside its return
-- value; `and_then` is the early return. What is undefined in C++ is `none`: an access out of range,
-- a write of _clear_driver_buffers behind the mapping, user's buffers that could not be allocated
-- (which are filled all the same), a method of the USB audio through a null pointer. Each interrupt
-- brings what the driver wrote into the memory until then. Threads are steps or events in
-- a sequence: a turn of a loop and a call of the other thread each happen as a whole.
--
-- Numbers. Sample words, packets' words and the run logger's counters are 32-bit patterns with
-- their wrap-around. The difference of the logger's counters is taken in `int`: where it leaves that
-- type, which C++ leaves undefined, the model wraps as the compilers do. Other `int` values are
-- integers without bound, since the overflow of signed arithmetic is undefined; sizes that were
-- checked not to be negative are natural numbers. atoi's number is a `long` as strtol makes it, cast
-- to `int`.
--
-- Loops recurse on what is left to do: the frames of a buffer, the channels, the bytes of a text, the
-- events. Only the inner loop of the gpio writer, which other threads can prolong, takes fuel: one
-- round more than there are elements in its queue is enough.
--
-- Not modelled. The samples of the USB audio come to a period of RaspaPimpl as an argument, beside
-- the queues of AlsaUsb. src/raspa_delay_error_filter.h, a filter in float whose output comes with
-- each interrupt. The thread modes of EVL, and the part of init() for the build without EVL.
-- get_output_latency, which divides in float. Sleeping, and joining threads. The options of the
-- programs in src/apps, the stereo mix of the loopback program, which adds in float, and the files
-- of the recorder; its tone, a sine in double, is an argument. The queue of third-party/fifo and
-- the submodule of the control protocols are taken as interfaces.
pub mod Prelude
pub mod DriverConfig
pub mod Binary32
pub mod SampleConversion
pub mod RunLogger
pub mod ErrorCodes
pub mod GpioCom
pub mod Pimpl
pub mod AlsaUsb
pub mod Api
pub mod Programs
