-- ===== src/Stream.antt =====
-- The binary streams of <fstream> that the file handler reads and writes, as the source uses them
-- on a 64-bit little-endian Linux system: DBEngine/filehandler (public_api.hpp, writeToBinaryFile).
-- A stream is the file's bytes, the file position that seekg and seekp share, and the failbit.
pub mod Bytes
pub mod Reading
use bsc_thesis.Base.{
  ℕ, ◌+◌, ◌-◌, ◌^◌, Bool, true, false, List, [], ◌++◌, ltb, leb, if◌then◌else◌, length, take, drop,
  replicate,
}

pub record Stream : Type 0 where
  pub bytes : List ℕ
  pub pos : ℕ
  pub failed : Bool

-- A file that was just opened for reading.
abbrev pub open_stream : List ℕ → Stream
open_stream file = record { bytes = file; pos = 0; failed = false }

-- `stream.read(buffer, n)`: what arrives in the buffer. A short read sets the failbit, and a
-- stream that has failed reads nothing.
unfoldable pub read : ℕ → Stream → List ℕ × Stream
read n s =
    let left = drop s.pos s.bytes in
    if s.failed
    then ([], s)
    else (if leb n (length left)
        then (take n left, record s { pos = s.pos + n })
        else (left, record s { pos = s.pos + length left; failed = true }))

-- std::streamoff is a signed 64-bit integer.
abbrev pub streamoff_limit : ℕ
streamoff_limit = 2 ^ 63

-- `stream.seekg(offset, std::ios::cur)` at an offset that was computed as a std::uint64_t: from
-- 2^63 on it stands for a step back. Nothing moves once the stream has failed.
unfoldable pub seek_cur : ℕ → Stream → Stream
seek_cur offset s =
    let target = if ltb offset streamoff_limit then s.pos + offset else s.pos + offset - 2 ^ 64 in
    let reachable =
      if ltb offset streamoff_limit
      then ltb (s.pos + offset) streamoff_limit
      else leb (2 ^ 64) (s.pos + offset) in
    if s.failed
    then s
    else (if reachable then record s { pos = target } else record s { failed = true })

-- `stream.seekg(target, std::ios::beg)` and `stream.seekp(target, std::ios::beg)`.
unfoldable pub seek_beg : ℕ → Stream → Stream
seek_beg target s =
    if s.failed
    then s
    else (if ltb target streamoff_limit
        then record s { pos = target }
        else record s { failed = true })

-- `stream.write(data, n)` on a stream open for reading and writing: it overwrites in place, and a
-- gap past the end is filled with zeros.
unfoldable pub overwrite : List ℕ → Stream → Stream
overwrite xs s =
    let before = take s.pos s.bytes ++ replicate (s.pos - length s.bytes) 0 in
    if s.failed then s else record s {
      bytes = before ++ (xs ++ drop (s.pos + length xs) s.bytes);
      pos = s.pos + length xs;
    }
