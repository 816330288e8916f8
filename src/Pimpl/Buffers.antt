-- ===== src/Pimpl/Buffers.antt =====
-- src/raspa_pimpl.h: the buffers in the driver's memory and those of the user.
use raspa.Prelude.{
  ℕ, zero, suc, ◌+◌, ◌≤◌, ◌<◌, ◌≡◌, ◌⊎◌, inl, inr, none, some, true, false, ◌&&◌, ◌||◌, not,
  if◌then◌else◌, replicate, arith, Option, Bool, ◌/◌, ◌==◌, leb, sym, refl, ◌∙◌, Bool-cases,
}
use mathlib.Core.Option.{some-injective}
use raspa.DriverConfig.{PlatformType}
use raspa.Prelude.Memory.{write_word}
use raspa.Prelude.Int.{ℤ, pos, pos_part, ltb_ℤ}
use native.Mathlib.Decide.{ℕ_discrete}
use raspa.ErrorCodes
use raspa.Pimpl.Layout.{
  DriverBuffers, PacketSizes, init_driver_buffers, driver_buffer_size_in_samples,
  num_user_audio_samples,
}
use raspa.Pimpl.State.{World, RaspaPimpl, Step}
use raspa.Pimpl.DriverInfo.{is_native, fail_with}

-- The body of the loop of `_clear_driver_buffers`
unfoldable pub clear_frame : DriverBuffers → (i : ℕ) → (ℕ → ℕ) → ℕ → ℕ
clear_frame b i memory = write_word (b.audio_in_1 + i) 0 (
    write_word (b.audio_in_0 + i) 0
      (write_word (b.audio_out_1 + i) 0 (write_word (b.audio_out_0 + i) 0 memory)))

-- The loop of `_clear_driver_buffers`, with the index `i` and `rounds` still to go.
unfoldable pub clear_audio : DriverBuffers → (rounds i : ℕ) → (ℕ → ℕ) → ℕ → ℕ
clear_audio b zero i memory = memory
clear_audio b (suc rounds) i memory = clear_audio b rounds (suc i) (clear_frame b i memory)

unfoldable pub clear_packets : World → RaspaPimpl → ℕ → ℕ
clear_packets w r =
    let b = r.driver_buffers in
    let clear = w.clear_audio_ctrl_pkt in
    if is_native r.platform_type
    then r.driver_memory
    else clear b.tx_pkt_1 (clear b.tx_pkt_0 (clear b.rx_pkt_1 (clear b.rx_pkt_0 r.driver_memory)))

-- The words from `start` on lie within a mapping of `words` words, if there are any.
abbrev pub is_inside : (words start size : ℕ) → Bool
is_inside words start size = size == 0 || leb (start + size) words

-- Every word that `_clear_driver_buffers` writes lies within a mapping of `bytes` bytes, with words
-- of 4 bytes.
unfoldable pub clear_fits : PacketSizes → PlatformType → (bytes size : ℕ) → DriverBuffers → Bool
clear_fits s p bytes size b =
    let words = bytes / 4 in
    let packet = s.audio_ctrl_pkt_size_words in
    (is_native p
      || (is_inside words b.rx_pkt_0 packet
          && is_inside words b.rx_pkt_1 packet
          && is_inside words b.tx_pkt_0 packet
          && is_inside words b.tx_pkt_1 packet))
    && is_inside words b.audio_out_0 size
    && is_inside words b.audio_out_1 size
    && is_inside words b.audio_in_0 size
    && is_inside words b.audio_in_1 size

abbrev pub fits_mapping : World → RaspaPimpl → Bool
fits_mapping w r =
    clear_fits w.packet_sizes r.platform_type r.kernel_buffer_mem_size r.driver_buffer_size
      r.driver_buffers

-- What it makes of a memory whose mapping holds all of that
abbrev pub cleared : World → RaspaPimpl → RaspaPimpl
cleared w r = record r {
  driver_memory = clear_audio r.driver_buffers r.driver_buffer_size 0 (clear_packets w r);
}

-- `none` where a write leaves the mapping, which no condition of the code excludes.
unfoldable pub clear_driver_buffers : World → RaspaPimpl → Option RaspaPimpl
clear_driver_buffers w r =
    if r.mmap_initialized then (if fits_mapping w r then some (cleared w r) else none) else some r

-- `_init_driver_buffers`
unfoldable pub set_driver_buffers : World → RaspaPimpl → Option RaspaPimpl
set_driver_buffers w r =
    let size =
      driver_buffer_size_in_samples (pos_part r.buffer_size_in_frames)
        (pos_part r.num_driver_input_chans) (pos_part r.num_driver_output_chans) in
    clear_driver_buffers w (record r {
      driver_buffer_size = size;
      driver_buffers = init_driver_buffers w.packet_sizes r.platform_type size;
    })

-- `res` of `_init_user_buffers` is that of `||`: 1 if a call of `posix_memalign` failed. The second
-- call is made only if the first succeeded.
unfoldable pub memalign_result : World → ℤ
memalign_result w = if not w.memalign_in || not w.memalign_out then pos 1 else pos 0

-- The buffers are filled with zeros before `res` is looked at: through a pointer that was not set,
-- that is undefined.
unfoldable pub init_user_buffers : World → RaspaPimpl → Option Step
init_user_buffers w r =
    let samples =
      num_user_audio_samples r.usb_audio_type (pos_part r.buffer_size_in_frames)
        r.driver_buffer_size in
    let filled : RaspaPimpl = record r {
      user_buffers_allocated = false;
      user_audio_in = some (replicate samples 0);
      user_audio_out = some (replicate samples 0);
    } in
    if w.memalign_in && w.memalign_out
    then some (
        if ltb_ℤ (memalign_result w) (pos 0)
        then fail_with ErrorCodes.raspa_euser_buffers (memalign_result w) filled
        else (pos 0, record filled { user_buffers_allocated = true }))
    else none

unfoldable pub free_user_buffers : RaspaPimpl → RaspaPimpl
free_user_buffers r =
    if r.user_buffers_allocated
    then record r { user_audio_in = none; user_audio_out = none; user_buffers_allocated = false }
    else r

-- A word of one of the four audio buffers, at an index that the loop still comes to.
abbrev pub InAudio : DriverBuffers → (rounds i at : ℕ) → Type 0
InAudio b rounds i at =
    (n : ℕ) × (i ≤ n)
    × (n < i + rounds)
    × ((at ≡ b.audio_in_0 + n)
        ⊎ (at ≡ b.audio_in_1 + n)
        ⊎ (at ≡ b.audio_out_0 + n)
        ⊎ (at ≡ b.audio_out_1 + n))

still_to_clear :
    (b : DriverBuffers) (rounds i : ℕ) (memory : ℕ → ℕ) (at : ℕ)
    → (memory at ≡ 0) ⊎ InAudio b (suc rounds) i at
    → (clear_frame b i memory at ≡ 0) ⊎ InAudio b rounds (suc i) at
unfolding clear_frame
still_to_clear b rounds i memory at (inl h) = inl (ground arith)
still_to_clear b rounds i memory at (inr (n, from, below, place)) = elim (ℕ_discrete n i) [
  | yes here ↦ inl (ground arith)
  | no later ↦ inr (n, omega arith, omega arith, place)
]

clear_audio-zero :
    (b : DriverBuffers) (rounds i : ℕ) (memory : ℕ → ℕ) (at : ℕ)
    → (memory at ≡ 0) ⊎ InAudio b rounds i at
    → clear_audio b rounds i memory at ≡ 0
unfolding clear_audio
clear_audio-zero b zero i memory at h = ground arith
clear_audio-zero b (suc rounds) i memory at h =
    clear_audio-zero b rounds (suc i) (clear_frame b i memory) at
      (still_to_clear b rounds i memory at h)

-- Once the memory is mapped, clearing is defined if what it clears lies within the mapping.
pub clear_driver_buffers-fits :
    (w : World) (r : RaspaPimpl)
    → r.mmap_initialized ≡ true
    → fits_mapping w r ≡ true
    → clear_driver_buffers w r ≡ some (cleared w r)
unfolding clear_driver_buffers
clear_driver_buffers-fits w r mapped fits = rw (mapped, fits) refl

-- Before, it does nothing.
clear_driver_buffers-unmapped :
    (w : World) (r : RaspaPimpl) → r.mmap_initialized ≡ false → clear_driver_buffers w r ≡ some r
unfolding clear_driver_buffers
clear_driver_buffers-unmapped w r unmapped = rw unmapped refl

-- Clearing changes nothing but the memory.
pub clear_driver_buffers-eq :
    (w : World) (r t : RaspaPimpl)
    → clear_driver_buffers w r ≡ some t
    → (memory : ℕ → ℕ) × (t ≡ record r { driver_memory = memory })
unfolding clear_driver_buffers
clear_driver_buffers-eq w r t h = elim (Bool-cases r.mmap_initialized) [
  | inl mapped ↦ elim (Bool-cases (fits_mapping w r)) [
    | inl fits ↦
        let e = sym (clear_driver_buffers-fits w r mapped fits) ∙ h in
        ((cleared w r).driver_memory, sym (some-injective _ _ e))
    | inr over ↦ absurd (ground (arith, rw (mapped, over) at h))
  ]
  | inr unmapped ↦
      let e = sym (clear_driver_buffers-unmapped w r unmapped) ∙ h in
      (r.driver_memory, sym (some-injective _ _ e))
]

-- Clearing sets every word of the four audio buffers to 0, on each platform.
pub cleared-zero :
    (w : World) (r : RaspaPimpl) (at : ℕ)
    → InAudio r.driver_buffers r.driver_buffer_size 0 at
    → (cleared w r).driver_memory at ≡ 0
cleared-zero w r at h =
    clear_audio-zero r.driver_buffers r.driver_buffer_size 0 (clear_packets w r) at (inr h)
