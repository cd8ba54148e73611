-- ===== src/Examples/Reads.antt =====
-- A read session, on concrete inputs.
use ezfadvance_iii.Prelude.{
  ℕ, zero, suc, refl, none, some, true, List, [], ◌∷◌, ◌++◌, replicate, arith,
}
use ezfadvance_iii.Usb.{Answer, wrote, received}
use ezfadvance_iii.Protocol.{command92_two}
use ezfadvance_iii.Options.CardReader.{ez3_flash}
use ezfadvance_iii.SaveMemory.{bank_bytes}
use ezfadvance_iii.SaveBankWorkflow.{State, Request, run}
use ezfadvance_iii.SaveBankWorkflow.Writing.{WriteOutcome, run-WriteOutcome}
use ezfadvance_iii.ReadOnlyCartridge.{Session, read_catalog}
use ezfadvance_iii.ReadOnlyCartridge.Mapping.{Mapping}
use ezfadvance_iii.ReadOnlyCartridge.CatalogReading.{Outcome, read_catalog-Outcome}

abbrev session : List Answer → Session
session answers = record {
  world = record { answers = answers; log = [] };
  kind = ez3_flash;
  linear_read_limit = 0x00800000;
}

-- The answers to so many two-byte transactions.
abbrev transactions : ℕ → List Answer
transactions zero = []
transactions (suc n) = wrote 13 ∷ wrote 2 ∷ received command92_two ∷ transactions n

-- A card whose first instruction branches to 0xC0 and whose loader is erased.
abbrev erased_loader : List Answer
erased_loader =
    wrote 13
    ∷ received (0x2E ∷ 0 ∷ 0 ∷ 0xEA ∷ [])
    ∷ wrote 13
    ∷ received (replicate 0x7080 0xFF)
    ∷ []

read_catalog-Outcome_example :
    Outcome 0x02000000 120 (read_catalog 0x02000000 120 (session erased_loader))
read_catalog-Outcome_example =
    read_catalog-Outcome 0x02000000 120 (session erased_loader) (omega arith) refl (omega arith)

abbrev chunk : List ℕ
chunk = 1 ∷ 2 ∷ 3 ∷ 4 ∷ []

abbrev first_bytes : List Answer
first_bytes = wrote 13 ∷ received chunk ∷ []

-- A write of one bank with a backup, to a device that is read, and stops in the middle of the write.
abbrev restore_request : Request
restore_request = record {
  first_bank = 0x0910;
  bank_count = 1;
  output_path = none;
  input = some (replicate bank_bytes 0x5A);
  backup_path = some (0x62 ∷ []);
}

abbrev before_restore : State
before_restore = record {
  world = record {
    answers = transactions 8 ++ (wrote 13 ∷ received (replicate bank_bytes 0x11) ∷ transactions 8);
    log = [];
  };
  file_answers = true ∷ [];
  stored = [];
}

run-WriteOutcome_example :
    WriteOutcome restore_request
      (replicate bank_bytes 0x5A)
      before_restore
      (run restore_request before_restore)
run-WriteOutcome_example =
    run-WriteOutcome restore_request (replicate bank_bytes 0x5A) before_restore (omega arith)
      (omega arith) (omega arith) refl
