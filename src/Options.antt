-- ===== src/Options.antt =====
-- The command lines of the three tools: src/save_reader_options.cpp, src/writer_options.cpp and
-- src/card_reader_options.cpp.
pub mod SaveReader
pub mod Writer
pub mod CardReader
