-- ===== src/File.antt =====
-- src/utils/file.cpp: the text of a file.
use cppsong.Base.{Bytes, Option, none, some, []}

-- What is read of the bytes of a file; a file that is not open gives nothing, and nothing is thrown.
abbrev text_of : Option Bytes → Bytes
text_of none = []
text_of (some text) = text

-- `contents` has the bytes of the files that a `std::ifstream` opens.
abbrev pub read_file : (Bytes → Option Bytes) → Bytes → Bytes
read_file contents file_path = text_of (contents file_path)
