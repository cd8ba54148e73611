-- ===== src/ReadOnlyCartridge/Linear.antt =====
-- What a linear read of src/read_only_cartridge.cpp returns.
use ezfadvance_iii.Prelude.{ℕ, ◌<◌, ◌≤◌, ◌+◌, ◌≡◌, List, [], ◌∷◌, ◌++◌, length}
use ezfadvance_iii.Usb.Traces.{Step, put, expect}
use ezfadvance_iii.ReadOnlyCartridge.{timeout_ms, read_command}

abbrev pub piece_script : ℕ → List ℕ → List Step
piece_script address chunk =
    put timeout_ms (read_command address (length chunk))
    ∷ expect timeout_ms (length chunk) chunk
    ∷ []

-- The commands for these consecutive chunks, and the replies.
abbrev pub linear_script : ℕ → List (List ℕ) → List Step
linear_script address [] = []
linear_script address (chunk ∷ chunks) =
    piece_script address chunk ++ linear_script (address + length chunk) chunks

-- Every chunk has 64 KiB, but the last, which has at least one byte and at most so many.
abbrev pub Pieces : List (List ℕ) → Type 0
Pieces [] = Unit
Pieces (chunk ∷ []) = (0 < length chunk) × (length chunk ≤ 0x10000)
Pieces (chunk ∷ next ∷ chunks) = (length chunk ≡ 0x10000) × Pieces (next ∷ chunks)
