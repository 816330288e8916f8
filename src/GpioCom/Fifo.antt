-- ===== src/GpioCom/Fifo.antt =====
-- third-party/fifo: what src/raspa_gpio_com.h relies on of the queue between two threads. The
-- queue itself is another project's.
use raspa.Prelude.{◌≡◌, List, [], ◌∷◌, ◌++◌, Option, none, some, Bool, true, false}

-- `contents` is what has been pushed and not been popped yet, oldest first. A push stores its
-- element at the end or changes nothing, and a pop takes the first element unless there is none.
pub record Fifo (A : Type 0) : Type 1 where
  pub Queue : Type 0
  pub contents : Queue → List A
  pub push : A → Queue → Bool × Queue
  pub pop : Queue → Option (A × Queue)
  pub push_stores :
      (a : A) (q q' : Queue) → push a q ≡ (true, q') → contents q' ≡ contents q ++ a ∷ []
  pub push_full : (a : A) (q q' : Queue) → push a q ≡ (false, q') → contents q' ≡ contents q
  pub pop_takes : (a : A) (q q' : Queue) → pop q ≡ some (a, q') → contents q ≡ a ∷ contents q'
  pub pop_empty : (q : Queue) → pop q ≡ none → contents q ≡ []
