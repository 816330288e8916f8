-- ===== src/Programs/Loopback.antt =====
-- src/apps/loopback.c: the callback of the normal mode. `none` is an access out of range.
use raspa.Pimpl.Layout.{row_lt}
use native.Mathlib.Decide.{dec_lt}
use native.Mathlib.Nat.{mod-lt, mod-add-div', div-lt_iff_lt-mul}
use raspa.Prelude.{
  ℕ, zero, suc, ◌+◌, ◌*◌, ◌≤◌, ◌<◌, ◌≡◌, refl, ap, sym, ◌∙◌, List, Option, some, ltb, if◌then◌else◌,
  ◌>>=◌, arith, length, get_elem?, get_or, set, store, store-eq-set, length-set,
  get_elem?-eq-get_or, get_or-set_self, get_or-set_ne, get_or_ext, ◌/◌, ◌%◌,
}

-- The inner loop: `left` channels from `channel_idx` on
unfoldable pub copy_channels :
    (num_frames frame left channel_idx : ℕ) → (input output : List ℕ) → Option (List ℕ)
copy_channels num_frames frame zero channel_idx input output = some output
copy_channels num_frames frame (suc left) channel_idx input output =
    let at = frame + channel_idx * num_frames in
    get_elem? input at >>= (λ sample.
      store output at sample
      >>= (λ stored. copy_channels num_frames frame left (channel_idx + 1) input stored))

-- The outer loop: `left` frames from `frame` on
unfoldable pub copy_frames :
    (num_frames num_channels left frame : ℕ) → (input output : List ℕ) → Option (List ℕ)
copy_frames num_frames num_channels zero frame input output = some output
copy_frames num_frames num_channels (suc left) frame input output =
    copy_channels num_frames frame num_channels 0 input output
    >>= (λ copied. copy_frames num_frames num_channels left (frame + 1) input copied)

abbrev pub used_channels : (num_input_chans num_output_chans : ℕ) → ℕ
used_channels num_input_chans num_output_chans =
    if ltb num_input_chans num_output_chans then num_input_chans else num_output_chans

unfoldable pub normal_process :
    (num_frames num_input_chans num_output_chans : ℕ) → (input output : List ℕ) → Option (List ℕ)
normal_process num_frames num_input_chans num_output_chans input output =
    copy_frames num_frames (used_channels num_input_chans num_output_chans) num_frames 0 input
      output

module _ (input : List ℕ) where
  -- A cell that holds the input's sample
  abbrev Copied : List ℕ → ℕ → Type 0
  Copied output j = get_or output j 0 ≡ get_or input j 0

  -- The loop is defined, it spoils no cell that was copied, and changes none from `bound` on.
  pub record Copies (bound : ℕ) (output : List ℕ) (done : ℕ → Type 0) (result : Option (List ℕ))
      : Type 0 where
    pub out : List ℕ
    pub returns : result ≡ some out
    pub same_length : length out ≡ length output
    pub copied : (j : ℕ) → done j → Copied out j
    pub kept : (j : ℕ) → Copied output j → Copied out j
    pub beyond : (j : ℕ) → bound ≤ j → get_or out j 0 ≡ get_or output j 0

  Copied-set :
      (output : List ℕ) (at j : ℕ)
      → at < length output
      → Copied output j
      → Copied (set output at (get_or input at 0)) j
  Copied-set output at j inside h = grind (
    arith,
    get_or-set_self output at (get_or input at 0) 0 inside,
    get_or-set_ne output at j (get_or input at 0) 0,
  )

  -- The cells that the inner loop still writes, and those that the outer loop does
  abbrev pub InChannels : (num_frames frame left channel_idx j : ℕ) → Type 0
  InChannels num_frames frame left channel_idx j =
      (c : ℕ) × (channel_idx ≤ c) × (c < channel_idx + left) × (j ≡ frame + c * num_frames)

  abbrev pub InFrames : (num_frames num_channels left frame j : ℕ) → Type 0
  InFrames num_frames num_channels left frame j =
      (i : ℕ) × (c : ℕ) × (frame ≤ i)
      × (i < frame + left)
      × (c < num_channels)
      × (j ≡ i + c * num_frames)

  copy_channels-Copies :
      (num_frames frame left channel_idx : ℕ) (output : List ℕ)
      → frame < num_frames
      → (channel_idx + left) * num_frames ≤ length input
      → (channel_idx + left) * num_frames ≤ length output
      → Copies
          ((channel_idx + left) * num_frames)
          output
          (InChannels num_frames frame left channel_idx)
          (copy_channels num_frames frame left channel_idx input output)
  unfolding copy_channels
  copy_channels-Copies num_frames frame zero channel_idx output f reads writes = record {
    out = output;
    returns = refl;
    same_length = refl;
    copied = λ j (c, lo, hi, e). absurd (omega arith);
    kept = λ j h. h;
    beyond = λ j h. refl;
  }
  copy_channels-Copies num_frames frame (suc left) channel_idx output f reads writes =
      let at = frame + channel_idx * num_frames in
      let below : at < (channel_idx + suc left) * num_frames =
        omega
          (arith, row_lt channel_idx frame num_frames (channel_idx + suc left) (omega arith) f) in
      let stored = set output at (get_or input at 0) in
      let e : channel_idx + 1 + left ≡ channel_idx + suc left = omega arith in
      let rest =
        copy_channels-Copies num_frames frame left (channel_idx + 1) stored f (rw e reads)
          (rw (e, length-set) writes) in
      record {
        out = rest.out;
        returns =
            rw (get_elem?-eq-get_or input at 0 (omega arith))
              (rw (store-eq-set output at (get_or input at 0) (omega arith)) rest.returns);
        same_length = rest.same_length ∙ length-set output at (get_or input at 0);
        copied = λ j (c, lo, hi, q). elim (dec_lt channel_idx c) [
          | yes later ↦ rest.copied j (c, omega arith, omega arith, q)
          | no first ↦
              let same : at ≡ j =
                ap (λ (n : ℕ). frame + n * num_frames) (let h : channel_idx ≡ c = omega arith in h)
                ∙ sym q in
              rest.kept j
                (rw (sym same) (get_or-set_self output at (get_or input at 0) 0 (omega arith)))
        ];
        kept = λ j h. rest.kept j (Copied-set output at j (omega arith) h);
        beyond = λ j h.
            rest.beyond j (rw e h)
            ∙ get_or-set_ne output at j (get_or input at 0) 0 (λ q. omega arith);
      }

  copy_frames-Copies :
      (num_frames num_channels left frame : ℕ) (output : List ℕ)
      → frame + left ≡ num_frames
      → num_channels * num_frames ≤ length input
      → num_channels * num_frames ≤ length output
      → Copies
          (num_channels * num_frames)
          output
          (InFrames num_frames num_channels left frame)
          (copy_frames num_frames num_channels left frame input output)
  unfolding copy_frames
  copy_frames-Copies num_frames num_channels zero frame output e reads writes = record {
    out = output;
    returns = refl;
    same_length = refl;
    copied = λ j (i, c, lo, hi, in', q). absurd (omega arith);
    kept = λ j h. h;
    beyond = λ j h. refl;
  }
  copy_frames-Copies num_frames num_channels (suc left) frame output e reads writes =
      let e0 : 0 + num_channels ≡ num_channels = omega arith in
      let first =
        copy_channels-Copies num_frames frame num_channels 0 output (omega arith) (rw e0 reads)
          (rw e0 writes) in
      let rest =
        copy_frames-Copies num_frames num_channels left (frame + 1) first.out (omega arith) reads
          (rw first.same_length writes) in
      record {
        out = rest.out;
        returns = rw first.returns rest.returns;
        same_length = rest.same_length ∙ first.same_length;
        copied = λ j (i, c, lo, hi, in', q). elim (dec_lt frame i) [
          | yes later ↦ rest.copied j (i, c, omega arith, omega arith, in', q)
          | no now ↦
              let same : i ≡ frame = omega arith in
              rest.kept j (
                first.copied j
                  (c, omega arith, omega arith, q ∙ ap (λ (n : ℕ). n + c * num_frames) same))
        ];
        kept = λ j h. rest.kept j (first.kept j h);
        beyond = λ j h. rest.beyond j h ∙ first.beyond j (rw e0 h);
      }

frames_exist : (num_channels num_frames j : ℕ) → j < num_channels * num_frames → 0 < num_frames
frames_exist num_channels zero j h = absurd (omega arith)
frames_exist num_channels (suc f) j h = omega arith

-- Where both buffers hold the frames of the channels that are used, the callback of the normal mode
-- accesses nothing out of range, copies each of these frames and changes no other cell.
pub normal_process-Copies :
    (num_frames num_input_chans num_output_chans : ℕ) (input output : List ℕ)
    → let n = used_channels num_input_chans num_output_chans in
      n * num_frames ≤ length input
      → n * num_frames ≤ length output
      → Copies input
          (n * num_frames)
          output
          (λ j. j < n * num_frames)
          (normal_process num_frames num_input_chans num_output_chans input output)
unfolding normal_process
normal_process-Copies num_frames num_input_chans num_output_chans input output reads writes =
    let n = used_channels num_input_chans num_output_chans in
    let all =
      copy_frames-Copies input num_frames n num_frames 0 output (omega arith) reads writes in
    record {
      out = all.out;
      returns = all.returns;
      same_length = all.same_length;
      copied = λ j h.
          let some_frames = frames_exist n num_frames j h in
          all.copied j (
            j % num_frames,
            j / num_frames,
            omega arith,
            omega (arith, mod-lt j some_frames),
            (div-lt_iff_lt-mul some_frames).1 h,
            sym (mod-add-div' j num_frames),
          );
      kept = all.kept;
      beyond = all.beyond;
    }

-- With as many output as input channels, and buffers of just their frames, the output becomes the
-- input.
pub normal_process-all :
    (num_frames num_chans : ℕ) (input output : List ℕ)
    → length input ≡ num_chans * num_frames
    → length output ≡ num_chans * num_frames
    → normal_process num_frames num_chans num_chans input output ≡ some input
normal_process-all num_frames num_chans input output read written =
    let same : used_channels num_chans num_chans ≡ num_chans = ground arith in
    let all =
      normal_process-Copies num_frames num_chans num_chans input output (rw same (omega arith))
        (rw same (omega arith)) in
    all.returns
    ∙ ap some (
        get_or_ext all.out input 0 (omega (arith, all.same_length))
          (λ i h. all.copied i (rw same (omega (arith, all.same_length)))))
