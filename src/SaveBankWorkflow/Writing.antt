-- ===== src/SaveBankWorkflow/Writing.antt =====
-- What a write of a save by `DirectSaveBankWorkflow::run` of src/save_bank_workflow.cpp has done.
use ezfadvance_iii.Prelude.{
  ℕ, ◌+◌, ◌*◌, ◌%◌, ◌<◌, ◌≤◌, ◌≡◌, ◌≢◌, refl, sym, ap, inl, inr, Bool, true, false, Bool-cases,
  ◌||◌, Option, none, some, List, [], ◌∷◌, ◌++◌, map, ltb, ◌!=◌, ◌==◌, length, arith,
}
use ezfadvance_iii.Prelude.Text.{same_text, same_text-eq}
use ezfadvance_iii.Prelude.Result.{Result, ok, Result-cases}
use mathlib.Core.Path.{subst}
use mathlib.Core.List.{append-nil}
use ezfadvance_iii.Usb.{World, Event}
use ezfadvance_iii.Usb.Traces.{event_of, Fulfils}
use ezfadvance_iii.SaveMemory.{bank_bytes, ReadError, read, write}
use ezfadvance_iii.SaveMemory.Scripts.{write_script, write-Performs}
use ezfadvance_iii.SaveMemory.Reading.{HasRead, read_sound}
use ezfadvance_iii.SaveBankWorkflow.{
  Stored, State, Request, file_answer, back_up, compared_back, after_write, after_backup,
  write_save, after_read, run,
}

-- The call of the file store for a backup.
abbrev pub backup_of : Option (List ℕ) → List ℕ → List Event → List Stored
backup_of none current log = []
backup_of (some path) current log =
    record {
      is_new = true;
      path = path;
      contents = current;
      succeeded = true;
      transfers_before = log;
    }
    ∷ []

-- The banks were read, and the store was called for just the backup of what they held, before any
-- other transfer; `between` is the device behind the read.
pub record BackedUp (request : Request) (s : State) (between : World) (stored : List Stored)
    : Type 0 where
  pub current : List ℕ
  pub has_read : HasRead request.bank_count request.first_bank [] current s.world between
  pub backup : stored ≡ s.stored ++ backup_of request.backup_path current between.log

-- The input was written to the banks, and a read of them behind it gave the input back.
pub record Written (request : Request) (input : List ℕ) (between behind : World) : Type 0 where
  pub written : World
  pub whole : length input ≡ request.bank_count * bank_bytes
  pub answered :
      Fulfils
        (write_script request.bank_count request.first_bank input)
        between.answers
        written.answers
  pub logged :
      written.log
      ≡ between.log ++ map event_of (write_script request.bank_count request.first_bank input)
  pub read_back : HasRead request.bank_count request.first_bank [] input written behind

-- The exit code and the state of a write.
pub data WriteOutcome (request : Request) (input : List ℕ) (s : State)
    : Result ReadError (ℕ × State) → Type 0 where
  complete :
      {s' : State} (between : World)
      → BackedUp request s between s'.stored
      → Written request input between s'.world
      → WriteOutcome request input s (ok (0, s'))
  only_read :
      {code : ℕ} {s' : State} (got : Option (List ℕ))
      → code ≢ 0
      → read (request.bank_count * bank_bytes) request.first_bank s.world ≡ ok (got, s'.world)
      → WriteOutcome request input s (ok (code, s'))
  backup_kept :
      {code : ℕ} {s' : State} (between : World)
      → code ≢ 0
      → BackedUp request s between s'.stored
      → WriteOutcome request input s (ok (code, s'))

module _ (first_bank banks : ℕ) where
  read_supported :
      (w : World)
      → 1 ≤ banks
      → banks ≤ 4
      → (got : Option (List ℕ) × World) × (read (banks * bank_bytes) first_bank w ≡ ok got)
  unfolding read
  read_supported w some_bank few =
      let size = banks * bank_bytes in
      let test : (size == 0 || ltb (4 * bank_bytes) size || (size % bank_bytes != 0)) ≡ false =
        ground arith in
      elim (Result-cases (read size first_bank w)) [
        | inl good ↦ good
        | inr (e, f) ↦ absurd (let g = rw test at f in cc)
      ]

module _ (request : Request) (input : List ℕ) (s : State) (some_bank : 1 ≤ request.bank_count)
    (few : request.bank_count ≤ 4)
    (word : request.first_bank + request.bank_count * 0x10 < 65536) where
  -- The read-back behind a write that succeeded.
  after_write-WriteOutcome :
      (between : World) (s2 : State)
      → BackedUp request s between s2.stored
      → length input ≡ request.bank_count * bank_bytes
      → Fulfils
          (write_script request.bank_count request.first_bank input)
          between.answers
          s2.world.answers
      → s2.world.log
        ≡ between.log ++ map event_of (write_script request.bank_count request.first_bank input)
      → WriteOutcome request input s (after_write request input (true, s2))
  after_write-WriteOutcome between s2 kept whole answered logged =
      let ((output, w), e) =
        read_supported request.first_bank request.bank_count s2.world some_bank few in
      rw e (go output w e)
    where
      go :
          (output : Option (List ℕ)) (w : World)
          → read (request.bank_count * bank_bytes) request.first_bank s2.world ≡ ok (output, w)
          → WriteOutcome request input s (ok (compared_back input s2 (output, w)))
      go none w e = WriteOutcome.backup_kept between (λ z. ground arith) kept
      go (some verification) w e = elim (Bool-cases (same_text verification input)) [
        | inl p ↦
            let same = same_text-eq verification input p in
            let (back, n) =
              read_sound request.bank_count request.first_bank s2.world w verification some_bank few
                word e in
            rw p (
              WriteOutcome.complete between kept (record {
                written = s2.world;
                whole = whole;
                answered = answered;
                logged = logged;
                read_back =
                    subst (λ t. HasRead request.bank_count request.first_bank [] t s2.world w) same
                      back;
              }))
        | inr p ↦ rw p (WriteOutcome.backup_kept between (λ z. ground arith) kept)
      ]

  -- The write behind a backup.
  after_backup-WriteOutcome :
      (s1 : State)
      → BackedUp request s s1.world s1.stored
      → length input ≡ request.bank_count * bank_bytes
      → WriteOutcome request input s (after_backup request input (true, s1))
  after_backup-WriteOutcome s1 kept whole = go (write request.first_bank input s1.world) refl
    where
      go :
          (r : Bool × World)
          → write request.first_bank input s1.world ≡ r
          → WriteOutcome request input s
              (after_write request input (r.0, record s1 { world = r.1 }))
      go (false, w) e = WriteOutcome.backup_kept s1.world (λ z. ground arith) kept
      go (true, w) e =
          let (x, l) =
            (write-Performs request.first_bank request.bank_count input word some_bank few
                whole).sound
              s1.world w e in
          after_write-WriteOutcome s1.world (record s1 { world = w }) kept whole x l

  -- The write behind the first read.
  write_save-WriteOutcome :
      (current : List ℕ) (s0 : State)
      → s0.stored ≡ s.stored
      → HasRead request.bank_count request.first_bank [] current s.world s0.world
      → read (request.bank_count * bank_bytes) request.first_bank s.world
        ≡ ok (some current, s0.world)
      → WriteOutcome request input s (write_save request input current s0)
  unfolding write_save
  write_save-WriteOutcome current s0 same has e =
      elim (Bool-cases (length input != request.bank_count * bank_bytes)) [
        | inl p ↦ rw p (WriteOutcome.only_read (some current) (λ z. ground arith) e)
        | inr p ↦ rw p (go request.backup_path refl (ground arith))
      ]
    where
      go :
          (path : Option (List ℕ))
          → request.backup_path ≡ path
          → length input ≡ request.bank_count * bank_bytes
          → WriteOutcome request input s (after_backup request input (back_up path current s0))
      go none q whole =
          after_backup-WriteOutcome s0
            (record { current = current; has_read = has; backup = rw (q, append-nil) same }) whole
      go (some path) q whole = stored_backup (file_answer s0.file_answers)
        where
          call : Bool → Stored
          call good = record {
            is_new = true;
            path = path;
            contents = current;
            succeeded = good;
            transfers_before = s0.world.log;
          }

          stored_backup :
              (r : Bool × List Bool)
              → WriteOutcome request input s (
                  after_backup request input
                    (r.0, record s0 { file_answers = r.1; stored = s0.stored ++ (call r.0 ∷ []) }))
          stored_backup (false, rest) = WriteOutcome.only_read (some current) (λ z. ground arith) e
          stored_backup (true, rest) =
              after_backup-WriteOutcome
                (record s0 { file_answers = rest; stored = s0.stored ++ (call true ∷ []) })
                (record {
                  current = current;
                  has_read = has;
                  backup = rw q (ap (λ t. t ++ (call true ∷ [])) same);
                })
                whole

  -- A run of the workflow that writes a save to one to four banks, with selectors within 16 bits:
  -- it throws nothing. With the exit code 0 the banks were read, the backup, where one is asked
  -- for, was stored as a new file with what they held before anything was written, then the input,
  -- which has the size of the banks, was written to them, and a read behind it gave the input
  -- back. With any other code either the device has seen the first read only, or the backup, where
  -- one is asked for, was stored before anything was written.
  pub run-WriteOutcome : request.input ≡ some input → WriteOutcome request input s (run request s)
  unfolding run
  run-WriteOutcome given =
      let ((output, w), e) =
        read_supported request.first_bank request.bank_count s.world some_bank few in
      rw e (
        subst (λ i. WriteOutcome request input s (after_read request i s (output, w))) (sym given)
          (go output w e))
    where
      go :
          (output : Option (List ℕ)) (w : World)
          → read (request.bank_count * bank_bytes) request.first_bank s.world ≡ ok (output, w)
          → WriteOutcome request input s (after_read request (some input) s (output, w))
      go none w e = WriteOutcome.only_read none (λ z. ground arith) e
      go (some current) w e =
          write_save-WriteOutcome current (record s { world = w }) refl
            (read_sound request.bank_count request.first_bank s.world w current some_bank few word
              e).0
            e
