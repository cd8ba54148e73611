-- ===== src/Usb.antt =====
-- Bulk transfers: the Transport interface of include/ezfadvance/usb_device.hpp and BulkTransport of
-- src/usb_device.cpp. The device is the list of the answers that libusb will give, one to a
-- transfer; the log holds what the program did, in order.
pub mod Traces
pub mod Transfers
pub mod Choice
use ezfadvance_iii.Prelude.Text.{same_text}
use ezfadvance_iii.Prelude.{
  ℕ, ◌+◌, Bool, true, false, Option, none, some, List, [], ◌∷◌, ◌++◌, ◌==◌, if◌then◌else◌, length,
  take,
}

-- What `libusb_bulk_transfer` reports: an error code, the number of bytes it wrote, or the bytes
-- it read.
pub data Answer : Type 0 where
  failed : ℕ → Answer
  wrote : ℕ → Answer
  received : List ℕ → Answer

-- A write with its timeout in milliseconds, a read with its timeout and largest size, and a wait in
-- microseconds.
pub data Event : Type 0 where
  sent : ℕ → List ℕ → Event
  asked : ℕ → ℕ → Event
  waited : ℕ → Event

pub record World : Type 0 where
  pub answers : List Answer
  pub log : List Event

-- A method that returns `bool`.
abbrev pub Action : Type 0
Action = World → Bool × World

-- `a && b`: the right side runs only if the left one gave true.
infixr 36 ◌&&&◌
abbrev pub ◌&&&◌ : Action → Action → Action
◌&&&◌ first second w = let (good, w') = first w in if good then second w' else (false, w')

abbrev pub done : Action
done w = (true, w)

abbrev after : World → Event → List Answer → World
after w event answers = record { answers = answers; log = w.log ++ (event ∷ []) }

out_answer : Event → ℕ → World → List Answer → Bool × World
out_answer event size w (wrote transferred ∷ rest) = (transferred == size, after w event rest)
out_answer event size w (failed rc ∷ rest) = (false, after w event rest)
out_answer event size w (received bytes ∷ rest) = (false, after w event rest)
out_answer event size w [] = (false, after w event [])

-- `BulkTransport::out`
unfoldable pub bulk_out : List ℕ → ℕ → Action
unfolding out_answer
bulk_out bytes timeout_ms w = out_answer (sent timeout_ms bytes) (length bytes) w w.answers

in_answer : Event → ℕ → World → List Answer → Option (List ℕ) × World
in_answer event maximum w (received bytes ∷ rest) = (some (take maximum bytes), after w event rest)
in_answer event maximum w (failed rc ∷ rest) = (none, after w event rest)
in_answer event maximum w (wrote transferred ∷ rest) = (none, after w event rest)
in_answer event maximum w [] = (none, after w event [])

-- `BulkTransport::inMax`: the bytes that the reference parameter holds, where it gives true. A
-- transfer reads at most the size it was asked for.
unfoldable pub in_max : ℕ → ℕ → World → Option (List ℕ) × World
unfolding in_answer
in_max maximum timeout_ms w = in_answer (asked timeout_ms maximum) maximum w w.answers

abbrev pub of_size : ℕ → Option (List ℕ) → Option (List ℕ)
of_size wanted none = none
of_size wanted (some bytes) = if length bytes == wanted then some bytes else none

-- `BulkTransport::inExact`
unfoldable pub in_exact : ℕ → ℕ → World → Option (List ℕ) × World
in_exact wanted timeout_ms w =
    let (bytes, w') = in_max wanted timeout_ms w in (of_size wanted bytes, w')

-- A delay callback.
abbrev pub wait : ℕ → Action
wait us w = (true, record w { log = w.log ++ (waited us ∷ []) })

-- `if (us != 0) delay(us)`
abbrev pub wait_unless_zero : ℕ → Action
wait_unless_zero us = if us == 0 then done else wait us

-- `inMax(response, maximum, timeout)` and `response == bytes`, as every caller joins them.
abbrev pub compared : List ℕ → Option (List ℕ) → Bool
compared bytes none = false
compared bytes (some response) = same_text response bytes

abbrev pub read_and_compare : ℕ → ℕ → List ℕ → Action
read_and_compare timeout maximum bytes w =
    let (response, w') = in_max maximum timeout w in (compared bytes response, w')
