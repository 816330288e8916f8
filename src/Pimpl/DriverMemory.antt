-- ===== src/Pimpl/DriverMemory.antt =====
-- src/raspa_pimpl.h: the driver's buffers against the memory that `init` plans and that is mapped.
use raspa.Prelude.{
  ℕ, ◌+◌, ◌*◌, ◌≤◌, ◌≡◌, refl, ap, ◌∙◌, inl, inr, Option, none, some, Bool, true, false, leb,
  if◌then◌else◌, arith, Bool-cases,
}
use raspa.Prelude.Int.{pos_part}
use raspa.DriverConfig.{PlatformType, native, sync, async}
use raspa.Pimpl.State.{World, RaspaPimpl}
use raspa.Pimpl.DriverInfo.{is_native}
use raspa.Pimpl.Buffers.{set_driver_buffers, clear_driver_buffers, clear_fits, fits_mapping}
use raspa.Pimpl.Queries.{init}
use raspa.Pimpl.Layout.{
  PacketSizes, init_driver_buffers, init_native_buffers, init_packet_buffers,
  driver_buffer_size_in_samples,
}

-- What the layout takes for the buffers and the packets, in bytes
abbrev pub needed_bytes : PacketSizes → PlatformType → (samples : ℕ) → ℕ
needed_bytes s p samples =
    if is_native p
    then 16 * samples
    else 16 * samples + 16 * (s.device_ctrl_pkt_size_words + s.audio_ctrl_pkt_size_words)

abbrev pub is_defined {ℓ} : {A : Type ℓ} → Option A → Bool
is_defined none = false
is_defined (some a) = true

native_fits :
    (s : PacketSizes) (samples pages : ℕ)
    → 1 ≤ samples
    → clear_fits s native (20 * pages) samples (init_native_buffers samples)
      ≡ leb (16 * samples) (20 * pages)
unfolding clear_fits init_native_buffers
native_fits s samples pages h = ground arith

packets_fit :
    (s : PacketSizes) (p : PlatformType) (samples pages : ℕ)
    → is_native p ≡ false
    → 1 ≤ samples
    → clear_fits s p (20 * pages) samples (init_packet_buffers s samples)
      ≡ leb
          (16 * samples + 16 * (s.device_ctrl_pkt_size_words + s.audio_ctrl_pkt_size_words))
          (20 * pages)
unfolding clear_fits init_packet_buffers
packets_fit s p samples pages other h = ground arith

init_driver_buffers-fit :
    (s : PacketSizes) (p : PlatformType) (samples pages : ℕ)
    → 1 ≤ samples
    → clear_fits s p (20 * pages) samples (init_driver_buffers s p samples)
      ≡ leb (needed_bytes s p samples) (20 * pages)
unfolding init_driver_buffers
init_driver_buffers-fit s native samples pages h = native_fits s samples pages h
init_driver_buffers-fit s sync samples pages h = packets_fit s sync samples pages refl h
init_driver_buffers-fit s async samples pages h = packets_fit s async samples pages refl h

-- The samples of a buffer, as they follow from the driver's parameters
abbrev pub samples_of : RaspaPimpl → ℕ
samples_of r =
    driver_buffer_size_in_samples (pos_part r.buffer_size_in_frames)
      (pos_part r.num_driver_input_chans) (pos_part r.num_driver_output_chans)

clear_driver_buffers-defined :
    (w : World) (r : RaspaPimpl)
    → r.mmap_initialized ≡ true
    → is_defined (clear_driver_buffers w r) ≡ fits_mapping w r
unfolding clear_driver_buffers
clear_driver_buffers-defined w r mapped = elim (Bool-cases (fits_mapping w r)) [
  | inl fits ↦ rw (mapped, fits) refl
  | inr over ↦ rw (mapped, over) refl
]

-- With the driver's memory mapped as large as `init` planned it, words of 4 bytes, and at least one
-- sample to a buffer: `_init_driver_buffers` is defined (none of its writes leaves the mapping)
-- exactly if 16 bytes for each sample of a buffer, and on the platforms with a micro-controller 16
-- for each word of the two kinds of control packets, are no more than 20 pages.
pub set_driver_buffers-defined :
    (w : World) (page_size : ℕ) (r : RaspaPimpl)
    → r.mmap_initialized ≡ true
    → r.kernel_buffer_mem_size ≡ (init page_size r).1.kernel_buffer_mem_size
    → 1 ≤ samples_of r
    → is_defined (set_driver_buffers w r)
      ≡ leb (needed_bytes w.packet_sizes r.platform_type (samples_of r)) (20 * page_size)
unfolding set_driver_buffers init
set_driver_buffers-defined w page_size r mapped planned some_samples =
    let laid_out : RaspaPimpl = record r {
      driver_buffer_size = samples_of r;
      driver_buffers = init_driver_buffers w.packet_sizes r.platform_type (samples_of r);
    } in
    clear_driver_buffers-defined w laid_out mapped
    ∙ ap
        (λ (bytes : ℕ).
          clear_fits w.packet_sizes r.platform_type bytes (samples_of r) laid_out.driver_buffers)
        planned
    ∙ init_driver_buffers-fit w.packet_sizes r.platform_type (samples_of r) page_size some_samples
