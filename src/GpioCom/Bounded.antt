-- ===== src/GpioCom/Bounded.antt =====
-- Queues of numbers with room for so many elements, which show that the laws of `Fifo` can hold.
use raspa.Prelude.{
  ℕ, ◌<◌, ◌≡◌, refl, ap, sym, List, [], ◌∷◌, ◌++◌, Option, none, some, Bool, true, false, ltb,
  if◌then◌else◌, length, Bool-cases, inl, inr, arith,
}
use raspa.GpioCom.Fifo.{Fifo}

abbrev push_last : (capacity : ℕ) → ℕ → List ℕ → Bool × List ℕ
push_last capacity a q = if ltb (length q) capacity then (true, q ++ a ∷ []) else (false, q)

abbrev pop_first : List ℕ → Option (ℕ × List ℕ)
pop_first [] = none
pop_first (a ∷ q) = some (a, q)

pub push_last-stores :
    (capacity a : ℕ) (q q' : List ℕ) → push_last capacity a q ≡ (true, q') → q' ≡ q ++ a ∷ []
push_last-stores capacity a q q' h = elim (Bool-cases (ltb (length q) capacity)) [
  | inl room ↦ ap (λ (p : Bool × List ℕ). p.1) (sym (rw room at h))
  | inr full ↦
      absurd (let e : false ≡ true = ap (λ (p : Bool × List ℕ). p.0) (rw full at h) in cc e)
]

pub push_last-full :
    (capacity a : ℕ) (q q' : List ℕ) → push_last capacity a q ≡ (false, q') → q' ≡ q
push_last-full capacity a q q' h = elim (Bool-cases (ltb (length q) capacity)) [
  | inl room ↦
      absurd (let e : true ≡ false = ap (λ (p : Bool × List ℕ). p.0) (rw room at h) in cc e)
  | inr full ↦ ap (λ (p : Bool × List ℕ). p.1) (sym (rw full at h))
]

pub pop_first-takes : (a : ℕ) (q q' : List ℕ) → pop_first q ≡ some (a, q') → q ≡ a ∷ q'
pop_first-takes a [] q' h = ground arith
pop_first-takes a (b ∷ q) q' h = ground arith

pub pop_first-empty : (q : List ℕ) → pop_first q ≡ none → q ≡ []
pop_first-empty [] h = refl
pop_first-empty (a ∷ q) h = ground arith

abbrev pub bounded_by : (capacity : ℕ) → Fifo ℕ
bounded_by capacity = record {
  Queue = List ℕ;
  contents = λ (q : List ℕ). q;
  push = push_last capacity;
  pop = pop_first;
  push_stores = push_last-stores capacity;
  push_full = push_last-full capacity;
  pop_takes = pop_first-takes;
  pop_empty = pop_first-empty;
}

-- GPIO_PACKET_Q_SIZE is 100.
abbrev pub bounded : Fifo ℕ
bounded = bounded_by 100

-- RASPA_TO_USB_IO_BUFFER_RATIO is 512.
abbrev pub usb_bounded : Fifo ℕ
usb_bounded = bounded_by 512

pub usb_bounded-room : (a : ℕ) (q : List ℕ) → length q < 512 → (push_last 512 a q).0 ≡ true
usb_bounded-room a q h = ground arith
