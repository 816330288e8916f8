-- ===== src/Programs/ChannelCheck.antt =====
-- src/apps/signal_recorder/signal_recorder.cpp: the check of the listed input channels, and what
-- `init` then does with them.
use raspa.Prelude.{ℕ, ◌<◌, ◌≡◌, ◌⊎◌, List, [], ◌∷◌, true}
use raspa.Prelude.Int.{ℤ, pos, ltb_ℤ}
use raspa.Programs.SignalRecorder.{SignalRecorder}

-- A list of channels that exist
pub data AllExist (n : ℕ) : List ℤ → List ℕ → Type 0 where
  none_listed : AllExist n [] []
  one_more :
      {chan : ℕ} {chans : List ℤ} {ins : List ℕ}
      → chan < n
      → AllExist n chans ins
      → AllExist n (pos chan ∷ chans) (chan ∷ ins)

-- A channel that does not exist: the one behind the last, or a negative one
abbrev pub IsMissing : ℕ → ℤ → Type 0
IsMissing n chan = (chan ≡ pos n) ⊎ (ltb_ℤ chan (pos 0) ≡ true)
