-- ===== src/Pimpl/Packets.antt =====
-- src/raspa_pimpl.h: the control packets that go with a period on the platforms with a
-- micro-controller. The packets' layout is the submodule's: a `Protocol` is the functions of it that
-- the code calls, on the driver's memory and a packet's place in it.
use raspa.Prelude.{
  ℕ, zero, suc, ◌≤◌, ◌≡◌, refl, ap, ◌∙◌, List, [], ◌∷◌, ◌++◌, none, some, Bool, if◌then◌else◌,
  length, ◌⊎◌, Option-cases, inl, inr, arith,
}
use raspa.GpioCom.Fifo.{Fifo}

pub record Protocol : Type 0 where
  pub has_magic_words : (ℕ → ℕ) → ℕ → Bool
  pub num_gpio_blobs : (ℕ → ℕ) → ℕ → ℕ
  pub gpio_blob : (ℕ → ℕ) → ℕ → ℕ → ℕ
  pub gate_in_val : (ℕ → ℕ) → ℕ → ℕ
  pub create_default : ℕ → (ℕ → ℕ) → ℕ → ℕ
  pub prepare_cease : ℕ → (ℕ → ℕ) → ℕ → ℕ
  pub prepare_gpio_cmd : ℕ → List ℕ → (ℕ → ℕ) → ℕ → ℕ
  pub set_gate_out : ℕ → ℕ → (ℕ → ℕ) → ℕ → ℕ
  pub max_num_gpio_blobs : ℕ

module _ (fifo : Fifo ℕ) (protocol : Protocol) where
  -- The loop of `_prepare_gpio_cmd_pkt`, with `room` blobs that still fit
  unfoldable pub take_blobs : (room : ℕ) → fifo.Queue → List ℕ × fifo.Queue
  take_blobs zero q = ([], q)
  take_blobs (suc room) q = elim (fifo.pop q) [
    | none ↦ ([], q)
    | some (blob, left) ↦ let (blobs, last) = take_blobs room left in (blob ∷ blobs, last)
  ]

  unfoldable pub prepare_gpio_cmd_pkt : (at : ℕ) → fifo.Queue → (ℕ → ℕ) → (ℕ → ℕ) × fifo.Queue
  prepare_gpio_cmd_pkt at q memory =
      let (blobs, left) = take_blobs protocol.max_num_gpio_blobs q in
      (protocol.prepare_gpio_cmd at blobs (protocol.create_default at memory), left)

  -- The loop of `_parse_rx_pkt`; what does not fit into the queue is dropped.
  unfoldable pub send_blobs : (at i rounds : ℕ) → (ℕ → ℕ) → fifo.Queue → fifo.Queue
  send_blobs at i zero memory q = q
  send_blobs at i (suc rounds) memory q =
      send_blobs at (suc i) rounds memory (fifo.push (protocol.gpio_blob memory at i) q).1

  unfoldable pub parse_rx_pkt : (at : ℕ) → (ℕ → ℕ) → fifo.Queue → fifo.Queue
  parse_rx_pkt at memory q =
      if protocol.has_magic_words memory at
      then send_blobs at 0 (protocol.num_gpio_blobs memory at) memory q
      else q

  -- `rx_gpio_data_available` asks the same queue for an element.
  unfoldable pub get_next_tx_pkt_data :
      (stop : Bool) (at : ℕ) → fifo.Queue → (ℕ → ℕ) → (ℕ → ℕ) × fifo.Queue
  get_next_tx_pkt_data stop at q memory =
      if stop then (protocol.prepare_cease at memory, q) else elim (fifo.pop q) [
        | none ↦ (protocol.create_default at memory, q)
        | some _ ↦ prepare_gpio_cmd_pkt at q memory
      ]

  -- A gpio packet takes the oldest elements of the queue in their order, at most as many as it has
  -- room for, and fewer only if the queue is then empty.
  pub take_blobs-takes :
      (room : ℕ) (q : fifo.Queue)
      → let (blobs, left) = take_blobs room q in
        (fifo.contents q ≡ blobs ++ fifo.contents left)
        × (length blobs ≤ room)
        × ((length blobs ≡ room) ⊎ (fifo.contents left ≡ []))
  unfolding take_blobs
  take_blobs-takes zero q = (refl, omega arith, inl refl)
  take_blobs-takes (suc room) q = elim (Option-cases (fifo.pop q)) [
    | inl empty ↦ rw (empty, take_blobs) (refl, omega arith, inr (fifo.pop_empty q empty))
    | inr ((blob, left), first) ↦
        let (all, fits, full) = take_blobs-takes room left in
        rw (first, take_blobs)
          (
            fifo.pop_takes blob q left first ∙ ap (λ (l : List ℕ). blob ∷ l) all,
            omega (arith, fits),
            elim full [ inl e ↦ inl (omega (arith, e)) | inr e ↦ inr e ],
          )
  ]
