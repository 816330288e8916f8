-- ===== src/Api/Released.antt =====
-- src/raspa_api_wrapper.cpp: a session of a client, from raspa_open to raspa_close.
use raspa.Prelude.{List, [], ◌∷◌, Option, none, some}
use raspa.Api.{Call, Answers, raspa_start_realtime}

-- A session up to its raspa_close: raspa_open, and at most one raspa_start_realtime.
abbrev pub opening : Answers × Call → (start : Option Answers) → List (Answers × Call)
opening open_call none = open_call ∷ []
opening open_call (some b) = open_call ∷ (b, raspa_start_realtime) ∷ []
