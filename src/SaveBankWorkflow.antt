-- ===== src/SaveBankWorkflow.antt =====
-- The workflows on a range of save banks: src/save_bank_workflow.cpp. Console output is left out,
-- and the time of a call of the file store is the log of transfers before it.
pub mod Writing
use ezfadvance_iii.Prelude.{
  ℕ, ◌*◌, Bool, true, false, Option, none, some, List, [], ◌∷◌, ◌++◌, ◌!=◌, ◌==◌, ◌&&◌,
  if◌then◌else◌, length, drop,
}
use ezfadvance_iii.Prelude.Text.{same_text}
use ezfadvance_iii.Prelude.Result.{Result, ok, ◌>>=◌}
use ezfadvance_iii.SaveBanks.{hex16}
use ezfadvance_iii.Usb.{World, Event, Action}
use ezfadvance_iii.SaveMemory.{bank_bytes, ReadError, read, write, clear_range}

-- A call of `SaveFileStore`: `writeNew` or `write`, the path, the data, what it gave, and the
-- transfers so far.
pub record Stored : Type 0 where
  pub is_new : Bool
  pub path : List ℕ
  pub contents : List ℕ
  pub succeeded : Bool
  pub transfers_before : List Event

-- The device, what the file store will answer, and its calls so far.
pub record State : Type 0 where
  pub world : World
  pub file_answers : List Bool
  pub stored : List Stored

-- The members of `DirectSaveBankWorkflow` that do not change.
pub record Request : Type 0 where
  pub first_bank : ℕ
  pub bank_count : ℕ
  pub output_path : Option (List ℕ)
  pub input : Option (List ℕ)
  pub backup_path : Option (List ℕ)

abbrev pub file_answer : List Bool → Bool × List Bool
file_answer [] = (false, [])
file_answer (good ∷ rest) = (good, rest)

-- A call of the file store.
abbrev pub store : Bool → List ℕ → List ℕ → State → Bool × State
store is_new path contents s =
    let (good, rest) = file_answer s.file_answers in
    let call : Stored = record {
      is_new = is_new;
      path = path;
      contents = contents;
      succeeded = good;
      transfers_before = s.world.log;
    } in
    (good, record s { file_answers = rest; stored = s.stored ++ (call ∷ []) })

abbrev pub back_up : Option (List ℕ) → List ℕ → State → Bool × State
back_up none current s = (true, s)
back_up (some path) current s = store true path current s

abbrev pub act_on : Action → State → Bool × State
act_on act s = let (good, w) = act s.world in (good, record s { world = w })

-- The read-back: a failed read gives 2, another save 6.
abbrev pub compared_back : List ℕ → State → Option (List ℕ) × World → ℕ × State
compared_back input s (none, w) = (2, record s { world = w })
compared_back input s (some verification, w) =
    ((if same_text verification input then 0 else 6), record s { world = w })

abbrev pub after_write : Request → List ℕ → Bool × State → Result ReadError (ℕ × State)
after_write request input (false, s) = ok (2, s)
after_write request input (true, s) =
    read (request.bank_count * bank_bytes) request.first_bank s.world >>= λ got.
    ok (compared_back input s got)

abbrev pub after_backup : Request → List ℕ → Bool × State → Result ReadError (ℕ × State)
after_backup request input (false, s) = ok (5, s)
after_backup request input (true, s) =
    after_write request input (act_on (write request.first_bank input) s)

-- `DirectSaveBankWorkflow::write`
unfoldable pub write_save : Request → List ℕ → List ℕ → State → Result ReadError (ℕ × State)
write_save request input current s =
    if length input != request.bank_count * bank_bytes
    then ok (1, s)
    else after_backup request input (back_up request.backup_path current s)

abbrev dump_code : Bool × State → ℕ × State
dump_code (false, s) = (5, s)
dump_code (true, s) = (0, s)

-- `"save-bank-" + hex16(selector).substr(2) + ".sav"`
abbrev default_path : ℕ → List ℕ
default_path selector =
    (b's' ∷ b'a' ∷ b'v' ∷ b'e' ∷ b'-' ∷ b'b' ∷ b'a' ∷ b'n' ∷ b'k' ∷ b'-' ∷ [])
    ++ (drop 2 (hex16 selector) ++ (b'.' ∷ b's' ∷ b'a' ∷ b'v' ∷ []))

abbrev path_or : Option (List ℕ) → List ℕ → List ℕ
path_or none fallback = fallback
path_or (some path) fallback = path

-- `DirectSaveBankWorkflow::dump`
unfoldable pub dump : Request → List ℕ → State → ℕ × State
dump request save s =
    dump_code (store false (path_or request.output_path (default_path request.first_bank)) save s)

abbrev pub after_read :
    Request → Option (List ℕ) → State → Option (List ℕ) × World → Result ReadError (ℕ × State)
after_read request input s (none, w) = ok (2, record s { world = w })
after_read request none s (some current, w) = ok (dump request current (record s { world = w }))
after_read request (some input) s (some current, w) =
    write_save request input current (record s { world = w })

-- `DirectSaveBankWorkflow::run`
unfoldable pub run : Request → State → Result ReadError (ℕ × State)
run request s = read (request.bank_count * bank_bytes) request.first_bank s.world >>= λ got.
    after_read request request.input s got

abbrev all_zero : List ℕ → Bool
all_zero [] = true
all_zero (byte ∷ bytes) = (byte == 0) && all_zero bytes

abbrev erased_back : State → Option (List ℕ) × World → ℕ × State
erased_back s (none, w) = (6, record s { world = w })
erased_back s (some verification, w) =
    ((if all_zero verification then 0 else 6), record s { world = w })

abbrev after_clear : ℕ → ℕ → Bool × State → Result ReadError (ℕ × State)
after_clear first_selector bank_count (false, s) = ok (2, s)
after_clear first_selector bank_count (true, s) =
    read (bank_count * bank_bytes) first_selector s.world >>= λ got. ok (erased_back s got)

abbrev clear : ℕ → ℕ → Bool × State → Result ReadError (ℕ × State)
clear first_selector bank_count (false, s) = ok (5, s)
clear first_selector bank_count (true, s) =
    after_clear first_selector bank_count (act_on (clear_range first_selector bank_count) s)

abbrev erase_backup :
    ℕ → ℕ → List ℕ → State → Option (List ℕ) × World → Result ReadError (ℕ × State)
erase_backup first_selector bank_count path s (none, w) = ok (2, record s { world = w })
erase_backup first_selector bank_count path s (some current, w) =
    clear first_selector bank_count (store true path current (record s { world = w }))

-- `SaveBankEraseWorkflow::run`
unfoldable pub run_erase : ℕ → ℕ → Option (List ℕ) → State → Result ReadError (ℕ × State)
run_erase first_selector bank_count none s = clear first_selector bank_count (true, s)
run_erase first_selector bank_count (some path) s =
    read (bank_count * bank_bytes) first_selector s.world >>= λ got.
    erase_backup first_selector bank_count path s got
