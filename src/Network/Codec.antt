-- ===== src/Network/Codec.antt =====
-- presidium-network/src/codec.rs: length-prefixed frames on a byte stream. A stream to read from is
-- the bytes that are still to come before its end; reading returns what is left of it. Writing
-- returns the bytes put on the stream before it is closed.
pub mod Requests
use mathlib.Core.List.{append_assoc}
use presidium.Base.{
  ℕ, ◌%◌, ◌≡◌, ◌≤◌, refl, String, ◌++◌, Result, ok, err, ◌>>=◌, length, take, drop, ltb,
  if◌then◌else◌, arith, length-append, take-append, drop-append, length-take, take-append-drop,
}
use presidium.Base.Words.{u32_mod, to_be, from_be, length-to_be, from_be-to_be}
use presidium.Crypto.Constants.{Bytes}

-- 16 MiB.
abbrev pub max_frame_size : ℕ
max_frame_size = 16777216

-- `io::ErrorKind` with the message, where the code gives one.
pub data IoError : Type 0 where
  unexpected_eof : IoError
  invalid_data : String → IoError

-- `read_exact` into a buffer of a size.
unfoldable pub read_exact : ℕ → Bytes → Result IoError (Bytes × Bytes)
read_exact n stream =
    if ltb (length stream) n then err unexpected_eof else ok (take n stream, drop n stream)

unfoldable pub read_frame : Bytes → Result IoError (Bytes × Bytes)
unfolding read_exact
read_frame stream = do
  header ← read_exact 4 stream
  let (len_buf, rest) = header
  if ltb max_frame_size (from_be len_buf)
      then err (invalid_data "frame exceeds size limit")
      else read_exact (from_be len_buf) rest

unfoldable pub write_frame : Bytes → Result IoError Bytes
write_frame bytes =
    if ltb max_frame_size (length bytes)
    then err (invalid_data "frame exceeds size limit")
    else ok (to_be 4 (length bytes % u32_mod) ++ bytes)

-- A frame of at most 16 MiB is written, and read back from a stream that goes on after it; what
-- comes after it is left.
pub read_frame-write_frame :
    (bytes rest : Bytes)
    → length bytes ≤ max_frame_size
    → (frame : Bytes) × (write_frame bytes ≡ ok frame)
      × (read_frame (frame ++ rest) ≡ ok (bytes, rest))
unfolding read_frame write_frame read_exact
read_frame-write_frame bytes rest h =
    let size : ℕ = length bytes in
    let header : Bytes = to_be 4 (size % u32_mod) in
    (
      header ++ bytes,
      ground arith,
      ground (
        arith,
        length-to_be 4 (size % u32_mod),
        append_assoc header bytes rest,
        length-append header (bytes ++ rest),
        length-append bytes rest,
        take-append 4 header (bytes ++ rest) (length-to_be 4 (size % u32_mod)),
        drop-append 4 header (bytes ++ rest) (length-to_be 4 (size % u32_mod)),
        take-append size bytes rest refl,
        drop-append size bytes rest refl,
        from_be-to_be 4 (size % u32_mod) (omega arith),
      ),
    )

-- A frame read is at most 16 MiB long, and the stream was a prefix of four bytes with its length, the
-- frame and what is left.
read_frame_bounds :
    (stream bytes rest : Bytes)
    → read_frame stream ≡ ok (bytes, rest)
    → (length bytes ≤ max_frame_size)
      × (from_be (take 4 stream) ≡ length bytes)
      × (stream ≡ take 4 stream ++ (bytes ++ rest))
unfolding read_frame read_exact
read_frame_bounds stream bytes rest h =
    let size : ℕ = from_be (take 4 stream) in
    ground (
      arith,
      h,
      take-append-drop 4 stream,
      take-append-drop size (drop 4 stream),
      length-take size (drop 4 stream),
    )
