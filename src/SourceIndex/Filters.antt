-- ===== src/SourceIndex/Filters.antt =====
-- src/indexing/Filtering/{DesktopIni,ThumbsDb}Filter.cpp: files that the operating system makes are
-- not indexed.
use acbackup.Prelude.{
  ℕ, ◌+◌, ◌*◌, Bool, true, false, List, [], ◌∷◌, String, String_discrete, ite, ◌==◌, ◌&&◌,
  if◌then◌else◌, take, length,
}

-- A file on disk as a filter sees it: `Path::GetName`, the bytes, and how many of those asked for a
-- `FileInputStream` reads at first.
pub record FileOnDisk : Type 0 where
  pub name : String
  pub bytes : List ℕ
  pub delivers : ℕ → ℕ

-- The lines that a `TextReader` for UTF-16 reads of bytes.
abbrev pub ReadLines : Type 0
ReadLines = List ℕ → String × String

abbrev same_bytes : List ℕ → List ℕ → Bool
same_bytes [] [] = true
same_bytes (x ∷ xs) (y ∷ ys) = (x == y) && same_bytes xs ys
same_bytes _ _ = false

-- `DataReader::ReadUInt16` in little endian, on two bytes at least, is the byte order mark.
abbrev has_byte_order_mark : List ℕ → Bool
has_byte_order_mark (low ∷ high ∷ bytes) = (high * 256 + low) == 65279
has_byte_order_mark _ = false

abbrev behind_mark : List ℕ → List ℕ
behind_mark (low ∷ high ∷ bytes) = bytes
behind_mark _ = []

-- `DesktopIniFilter::MatchesData`.
unfoldable desktop_ini_data : ReadLines → List ℕ → Bool
desktop_ini_data read_lines bytes =
    let lines = read_lines (behind_mark bytes) in
    if has_byte_order_mark bytes
    then ite (String_discrete lines.0 "")
        (ite (String_discrete lines.1 "[.ShellClassInfo]") true false) false
    else false

-- `DesktopIniFilter::Matches`.
unfoldable pub desktop_ini_matches : ReadLines → FileOnDisk → Bool
unfolding desktop_ini_data
desktop_ini_matches read_lines f =
    ite (String_discrete f.name "desktop.ini") (desktop_ini_data read_lines f.bytes) false

-- The signature of a compound file.
abbrev expected_signature : List ℕ
expected_signature = 208 ∷ 207 ∷ 17 ∷ 224 ∷ 161 ∷ 177 ∷ 26 ∷ []

-- `ThumbsDbFilter::MatchesData`.
unfoldable thumbs_db_data : FileOnDisk → Bool
thumbs_db_data f =
    let signature = take (f.delivers 7) f.bytes in
    if length signature == 7 then same_bytes signature expected_signature else false

-- `ThumbsDbFilter::Matches`.
unfoldable pub thumbs_db_matches : FileOnDisk → Bool
unfolding thumbs_db_data
thumbs_db_matches f = ite (String_discrete f.name "Thumbs.db") (thumbs_db_data f) false
