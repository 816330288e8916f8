-- ===== src/AlsaUsb/Reading.antt =====
-- src/raspa_alsa_usb.h: what `_read_from_pcm` comes to.
use raspa.DriverConfig.{eq_ℤ}
use raspa.Prelude.{
  ◌∙◌, ap₂, ap, ℕ, zero, suc, ◌+◌, ◌-◌, ◌*◌, ◌≤◌, ◌<◌, ◌≡◌, refl, List, [], ◌∷◌, Option, none, some,
  true, false, ltb, if◌then◌else◌, arith, map,
}
use raspa.Prelude.Int.{ℤ, pos, ltb_ℤ, ◌+ℤ◌, sub_ℕ}
use raspa.AlsaUsb.{eagain, epipe, xrun_recovery, Transfer, read_from_pcm}

-- An answer of a device with no xrun: the frames that it has, or EAGAIN
abbrev pub frames_or_again : Option ℕ → ℤ
frames_or_again none = eagain
frames_or_again (some n) = pos n

-- The device never gives more frames than it is asked for.
abbrev pub Delivers : List (Option ℕ) → ℕ → Type 0
Delivers [] left = 0 ≤ left
Delivers (none ∷ answers) left = Delivers answers left
Delivers (some n ∷ answers) left = (n ≤ left) × Delivers answers (left - n)

-- The frames of all its answers
abbrev pub frames_given : List (Option ℕ) → ℕ
frames_given [] = 0
frames_given (none ∷ answers) = frames_given answers
frames_given (some n ∷ answers) = n + frames_given answers

-- With `got` frames of the `left` that are asked for, the others are still to come, the pointer
-- stands behind those that came, and it returns 0 if and only if none is missing.
pub record IsRead (channels at left got : ℕ) (t : Transfer) : Type 0 where
  pub within : got ≤ left
  pub returned : t.returned ≡ (if ltb got left then none else some (pos 0))
  pub frame_ptr : t.frame_ptr ≡ pos (at + got * channels)
  pub frames_cntr : t.frames_cntr ≡ pos (left - got)

nothing_given : (answers : List (Option ℕ)) → Delivers answers 0 → frames_given answers ≡ 0
nothing_given [] h = refl
nothing_given (none ∷ answers) h = nothing_given answers h
nothing_given (some zero ∷ answers) (fits, h) = omega (arith, nothing_given answers h)
nothing_given (some (suc n) ∷ answers) (fits, h) = absurd (omega arith)

further_on :
    (channels at n got : ℕ) → at + n * channels + got * channels ≡ at + (n + got) * channels
further_on channels at n got = omega arith

missing_after :
    (left n got : ℕ)
    → n ≤ left
    → (if ltb got (left - n) then none else some (pos 0))
      ≡ (if ltb (n + got) left then none else some (pos 0))
missing_after left n got h = ground arith

-- One answer, while frames are missing and after
read_again :
    (channels at left : ℕ) (answers : List ℤ)
    → 0 < left
    → read_from_pcm channels (eagain ∷ answers) (pos at) (pos left)
      ≡ read_from_pcm channels answers (pos at) (pos left)
unfolding read_from_pcm
read_again channels at left answers more =
    let missing : ltb_ℤ (pos 0) (pos left) ≡ true = ground arith in rw missing refl

read_frames :
    (channels at left n : ℕ) (answers : List ℤ)
    → 0 < left
    → n ≤ left
    → read_from_pcm channels (pos n ∷ answers) (pos at) (pos left)
      ≡ read_from_pcm channels answers (pos (at + n * channels)) (pos (left - n))
unfolding read_from_pcm ◌+ℤ◌
read_frames channels at left n answers more fits =
    let missing : ltb_ℤ (pos 0) (pos left) ≡ true = ground arith in
    let some_frames : eq_ℤ (pos n) eagain ≡ false = ground arith in
    let no_error : ltb_ℤ (pos n) (pos 0) ≡ false = ground arith in
    let ptr : pos at +ℤ pos (n * channels) ≡ pos (at + n * channels) = ground arith in
    let left' : pos left +ℤ sub_ℕ 0 n ≡ pos (left - n) = ground arith in
    rw (missing, some_frames, no_error) (ap₂ (read_from_pcm channels answers) ptr left')

no_more_asked :
    (channels at : ℕ) (answer : ℤ) (answers : List ℤ)
    → IsRead channels at 0 0 (read_from_pcm channels (answer ∷ answers) (pos at) (pos 0))
unfolding read_from_pcm
no_more_asked channels at answer answers = record {
  within = omega arith;
  returned = refl;
  frame_ptr = ap pos (omega arith);
  frames_cntr = refl;
}

-- From a device with no xrun, which never gives more frames than are still missing, the pointer of
-- `_read_from_pcm` stands behind all the frames that the device gave and its counter says how many
-- are missing; it waits as long as some are, and has returned 0 once it has them all.
pub read_from_pcm-IsRead :
    (channels at left : ℕ) (answers : List (Option ℕ))
    → Delivers answers left
    → IsRead channels at left
        (frames_given answers)
        (read_from_pcm channels (map frames_or_again answers) (pos at) (pos left))
unfolding read_from_pcm
read_from_pcm-IsRead channels at left [] h = record {
  within = omega arith;
  returned = ground arith;
  frame_ptr = ap pos (omega arith);
  frames_cntr = ap pos (omega arith);
}
read_from_pcm-IsRead channels at zero (answer ∷ answers) h =
    let none_came : frames_given (answer ∷ answers) ≡ 0 = nothing_given (answer ∷ answers) h in
    rw none_came (no_more_asked channels at (frames_or_again answer) (map frames_or_again answers))
read_from_pcm-IsRead channels at (suc left) (none ∷ answers) h =
    rw (read_again channels at (suc left) (map frames_or_again answers) (omega arith))
      (read_from_pcm-IsRead channels at (suc left) answers h)
read_from_pcm-IsRead channels at (suc left) (some n ∷ answers) (fits, h) =
    let next = read_from_pcm-IsRead channels (at + n * channels) (suc left - n) answers h in
    rw (read_frames channels at (suc left) n (map frames_or_again answers) (omega arith) fits)
      (record {
        within = omega (arith, next.within);
        returned = next.returned ∙ missing_after (suc left) n (frames_given answers) fits;
        frame_ptr = next.frame_ptr ∙ ap pos (further_on channels at n (frames_given answers));
        frames_cntr = next.frames_cntr ∙ ap pos (omega arith);
      })

-- An underrun that was recovered from moves the pointer back by 32 frames and asks for 32 more, at
-- the next call to the device.
pub underrun_moves_back :
    (channels at left : ℕ)
    → 0 < left
    → let t = read_from_pcm channels (epipe ∷ []) (pos at) (pos left) in
      (t.frame_ptr ≡ sub_ℕ at (32 * channels))
      × (t.frames_cntr ≡ pos (left + 32))
      × (t.returned ≡ none)
unfolding read_from_pcm xrun_recovery ◌+ℤ◌
underrun_moves_back channels at left h = ground arith
