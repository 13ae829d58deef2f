-- ===== src/FileHandler.antt =====
-- WindowsFileHandler of storage-node/src/platform/windows/windows_file_handler.cpp. What the calls of
-- Windows answer for a path is a parameter. A DWORD is a number below 2^32, and a size that is passed
-- as one is cut to it.
pub mod Whole
use p2p_server_file_storage.Prelude.{
  ℕ, zero, suc, ◌+◌, ◌-◌, ◌*◌, ◌/◌, ◌%◌, ◌^◌, Bool, true, false, not, ◌&&◌, List, [], ◌∷◌, ◌++◌,
  Option, none, some, ltb, leb, ◌==◌, if◌then◌else◌, length, take,
}
use p2p_server_file_storage.Text.{u64_mod}

-- The answers for one path: `GetFileAttributesA`, `none` for INVALID_FILE_ATTRIBUTES; whether
-- `CreateFileA` opens it for reading and for writing; `GetFileSizeEx`; the bytes that `ReadFile` gives
-- where it is asked for a number of them; how many `WriteFile` takes; whether `DeleteFileA` and
-- `CreateDirectoryA` succeed; and the readings of `GetFileAttributesExA`.
pub record FileTimes : Type 0 where
  pub size_low : ℕ
  pub size_high : ℕ
  pub time_low : ℕ
  pub time_high : ℕ

pub record Windows : Type 0 where
  pub attributes : Option ℕ
  pub opens : Bool
  pub creates : Bool
  pub file_size : Option ℕ
  pub reads : ℕ → Option (List ℕ)
  pub writes : List ℕ → Option ℕ
  pub deletes : Bool
  pub makes_directory : Bool
  pub times : Option FileTimes

abbrev pub dword : ℕ → ℕ
dword n = n % 2 ^ 32

-- FILE_ATTRIBUTE_DIRECTORY is 16.
unfoldable pub is_directory : ℕ → Bool
is_directory attributes = attributes / 16 % 2 == 1

unfoldable pub file_exists : Windows → Bool
file_exists w = elim w.attributes [ none ↦ false | some a ↦ not (is_directory a) ]

unfoldable pub directory_exists : Windows → Bool
directory_exists w = elim w.attributes [ none ↦ false | some a ↦ is_directory a ]

zeros : ℕ → List ℕ
zeros zero = []
zeros (suc n) = 0 ∷ zeros n

-- Behind `ReadFile`, for a buffer of this size.
read_buffer : ℕ → Option (List ℕ) → Bool × List ℕ
unfolding zeros
read_buffer size none = (false, zeros size)
read_buffer size (some part) = (length part == size, part ++ zeros (size - length part))

read_sized : Windows → Option ℕ → Bool × List ℕ
unfolding read_buffer
read_sized w none = (false, [])
read_sized w (some size) = if size == 0 then (true, []) else read_buffer size (w.reads (dword size))

-- `ReadFile`, for an empty buffer: the result, and the buffer.
unfoldable pub read_file : Windows → Bool × List ℕ
unfolding read_sized
read_file w = if not w.opens then (false, []) else read_sized w w.file_size

-- `WriteFile`: the result, and the bytes that the call of Windows is handed.
unfoldable pub write_file : Windows → List ℕ → Bool × List ℕ
write_file w buffer =
    let handed = take (dword (length buffer)) buffer in
    if not w.creates
    then (false, [])
    else (elim (w.writes handed) [ none ↦ false | some n ↦ n == length buffer ], handed)

-- `DeleteFile`.
unfoldable pub delete_file : Windows → Bool
delete_file w = w.deletes

-- `GetFileSize`: `none` where it returns false.
unfoldable pub get_file_size : Windows → Option ℕ
get_file_size w = if not w.opens then none else w.file_size

abbrev pub epoch_difference : ℕ
epoch_difference = 116444736000000000

-- The milliseconds from the start of 1970 to a file time, `none` for the fallback to the present.
unfoldable pub unix_time : ℕ → Option ℕ
unix_time ticks =
    let unix = (ticks - epoch_difference) / 10000 in
    if leb epoch_difference ticks then some (unix / 1000 * 1000 + unix % 1000) else none

-- `FileInfo`.
pub record FileInfo : Type 0 where
  pub exists : Bool
  pub size : ℕ
  pub last_modified : Option ℕ

unfoldable pub get_file_info : Windows → Option FileInfo
get_file_info w = elim w.times [
  | none ↦ none
  | some t ↦ some (record {
    exists = true;
    size = t.size_high * 2 ^ 32 + t.size_low;
    last_modified = unix_time (t.time_high * 2 ^ 32 + t.time_low);
  })
]

unfoldable pub create_directory : Windows → Bool
create_directory w = if directory_exists w then true else w.makes_directory
