-- ===== src/Lib.antt =====
-- The program reads, writes and wipes EZ-Flash Advance III cartridges through a USB writer. This
-- library models its logic on values: the cartridge's formats, the choice of save banks, the
-- order of the USB transfers, the order of a card write, and the command lines.
--
-- How the parts interact. A command line (Options) becomes a request; the planner (SaveAccess)
-- turns a request and the save markers of a catalog (Catalog, over the words and branches of
-- CartridgeFormat) into a bank and a size (SaveBanks); SaveMemory then reads, writes or clears the
-- banks, and SaveBankWorkflow puts these in order with the backup. ReadOnlyCartridge finds and reads
-- the catalog of a card. CardWriter orders a write of an image, CardWipe the erase of a card.
-- SaveMemory, FlashWindow and CardWipe send everything through the transaction of Protocol or the
-- bulk transfers of Usb.
--
-- Files and their sources. Function names are the source's in snake case, named above each.
--   CartridgeFormat  src/cartridge_format.cpp: CartridgeFormat
--   Catalog          src/cartridge_format.cpp: GbaHeader, CatalogEntry; src/ez3_catalog.cpp
--   SaveBanks        include/ezfadvance/save_bank_layout.hpp, src/save_bank_selector.cpp with its
--                    header, and hex16 of src/save_bank_workflow.cpp
--   SaveAccess       include/ezfadvance/save_selection.hpp, src/save_access_planner.cpp
--   Usb              src/usb_device.cpp: BulkTransport
--   Protocol         src/protocol.cpp
--   FlashWindow      src/flash_window_selector.cpp
--   SaveMemory       src/save_bank_access.cpp, src/save_memory_reader.cpp,
--                    src/save_memory_writer.cpp, src/save_bank_cleaner.cpp
--   SaveBankWorkflow src/save_bank_workflow.cpp
--   CardWriter       src/card_writer.cpp, src/verification_policy.cpp
--   Verification     src/verification_session.cpp, and the choice of the way in
--                    src/libusb_writer_backend.cpp
--   WriterBackend    src/libusb_writer_backend.cpp
--   ReadOnlyCartridge  src/read_only_cartridge.cpp, src/ez3_catalog_reader.cpp
--   ImageBuilder     src/cartridge_image_builder.cpp
--   CardWipe         src/card_wipe_workflow.cpp, src/read_session_transition.cpp
--   Options          src/save_reader_options.cpp, src/writer_options.cpp,
--                    src/card_reader_options.cpp
--   Prelude          tests, lists, bytes, integers, results and texts that the parts share
--   Examples         the definitions on concrete inputs
-- The children of a part hold its proofs and are named for what they prove.
--
-- State. A method that talks to the device is a function on a World: the answers that libusb will
-- give, one to a transfer, and the log of what was done. A failed, short or missing answer is the
-- failure of its transfer, so a list of answers is any behaviour of a device. Usb.Traces says what
-- it means that a method performs a script of transfers: it succeeds exactly when the device
-- answers all of it, then it has done exactly it, and when it fails it has done a front of it. The
-- abstract backend of the card writer is likewise a list of answers with a log of calls.
--
-- Numbers are unbounded with their wrap-around written out (% 2 ^ w); std::size_t and unsigned long
-- are words of 64 bits where the source can overflow them. Loops are recursive on lists or on the
-- number of rounds left, which the source computes before it loops, so no fuel is chosen: the
-- readiness polls have five attempts, a clear and a write have as many rounds as banks, a slot
-- search as many as bytes, and a linear read, a programming, an erase and a verification one more
-- than the whole blocks of the image or of the read; the theorems on these loops hold for just these
-- numbers of rounds.
--
-- Not modelled: console output, files, opening a USB device, decompression, and the main programs.
-- The ROM and EEPROM analysis, the analysis of saves and the workflows on a whole card have no model
-- here; a call of the file store is one answer of a list. The two loader templates that the image
-- builder embeds are arguments of its functions. A method that may throw gives a Result; in the loops of a linear
-- verification and of a programming, whose commands never throw for an image of a card's size, an
-- exception is taken for a failure.
pub mod Prelude
pub mod CartridgeFormat
pub mod Catalog
pub mod SaveBanks
pub mod SaveAccess
pub mod Usb
pub mod Protocol
pub mod FlashWindow
pub mod SaveMemory
pub mod ImageBuilder
pub mod Verification
pub mod WriterBackend
pub mod SaveBankWorkflow
pub mod ReadOnlyCartridge
pub mod CardWriter
pub mod CardWipe
pub mod Options
pub mod Examples
