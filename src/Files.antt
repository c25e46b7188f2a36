-- ===== src/Files.antt =====
-- A file that a crate reads whole as a text: `read_to_string` finds none, cannot read it (or it is
-- not UTF-8), or gives its text.
use deathstr0ke.Base.{Bool, true, false, Option, none, some, Result, ok, err, String}
use deathstr0ke.Text.{Text}

pub data File : Type 0 where
  missing unreadable : File
  text : Text → File

-- `fs::read_to_string(…).context(…)?`
abbrev pub read_to_string : String → File → Result Text
read_to_string message missing = err message
read_to_string message unreadable = err message
read_to_string message (text s) = ok s

-- `Path::is_file` and `Path::exists`, where nothing but a file stands at the path.
abbrev pub is_file : File → Bool
is_file missing = false
is_file unreadable = true
is_file (text s) = true

abbrev pub readable : File → Option Text
readable missing = none
readable unreadable = none
readable (text s) = some s
