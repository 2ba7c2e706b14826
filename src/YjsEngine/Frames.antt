-- ===== src/YjsEngine/Frames.antt =====
-- Strings and frames of the sidecar's protocol, cmd/yjs-engine/index.js. Node's `Buffer` accessors
-- throw out of range; what they throw is a parameter, and so is UTF-8.
pub mod RoundTrip
use collab_editor.Prelude.{
  ℕ, zero, suc, ◌+◌, ◌*◌, ◌/◌, ◌%◌, ◌^◌, ◌≡◌, Bool, true, false, List, [], ◌∷◌, ◌++◌, length, take,
  drop, get_or, Option, none, some, Text, text, ltb, if◌then◌else◌,
}
use collab_editor.YjsEngine.Varint.{Bytes, Failure, Attempt, returned, failed}

-- `toString('utf8')`, `Buffer.from(s, 'utf8')`, and the RangeError of an access at an offset of a
-- buffer of some length, or of a write of a number that does not fit.
pub record Node : Type 0 where
  pub decode : Bytes → Text
  pub encode : Text → Bytes
  pub read_error : ℕ → ℕ → Failure
  pub write_error : ℕ → Failure

abbrev pub protocol_version : ℕ
protocol_version = 1

abbrev pub status_ok : ℕ
status_ok = 0

abbrev pub status_err : ℕ
status_err = 1

abbrev pub header_bytes : ℕ
header_bytes = 1 + 4 + 4 + 1 + 1

-- `writeUInt16BE(n)` and `writeUInt32BE(n)` of a number in range.
unfoldable pub uint16_be : ℕ → Bytes
uint16_be n = n / 256 ∷ n % 256 ∷ []

unfoldable pub uint32_be : ℕ → Bytes
uint32_be n = n / 2 ^ 24 ∷ (n / 2 ^ 16) % 256 ∷ (n / 256) % 256 ∷ n % 256 ∷ []

-- The big-endian numbers that four bytes of a buffer stand for.
unfoldable pub uint32_at : Bytes → ℕ → ℕ
uint32_at buf offset =
    256
      * (256 * (256 * get_or buf offset 0 + get_or buf (offset + 1) 0) + get_or buf (offset + 2) 0)
    + get_or buf (offset + 3) 0

module _ (node : Node) where
  -- `buf.readUInt8(offset)`, `buf.readUInt16BE(offset)` and `buf.readUInt32BE(offset)`.
  unfoldable pub read_uint8 : Bytes → ℕ → Attempt ℕ
  read_uint8 buf offset =
      if ltb (length buf) (offset + 1)
      then failed (node.read_error (length buf) offset)
      else returned (get_or buf offset 0)

  unfoldable pub read_uint16_be : Bytes → ℕ → Attempt ℕ
  read_uint16_be buf offset =
      if ltb (length buf) (offset + 2)
      then failed (node.read_error (length buf) offset)
      else returned (256 * get_or buf offset 0 + get_or buf (offset + 1) 0)

  unfoldable pub read_uint32_be : Bytes → ℕ → Attempt ℕ
  read_uint32_be buf offset =
      if ltb (length buf) (offset + 4)
      then failed (node.read_error (length buf) offset)
      else returned (uint32_at buf offset)

  -- The value and the offset behind it. `slice` stops at the buffer's end.
  unfoldable pub read_var_string : Bytes → ℕ → Attempt (Text × ℕ)
  read_var_string buf offset = elim (read_uint16_be buf offset) [
    | failed e ↦ failed e
    | returned len ↦ returned (node.decode (take len (drop (offset + 2) buf)), offset + 2 + len)
  ]

  -- The write of a length above 16 bits throws.
  unfoldable pub write_var_string : Text → Attempt Bytes
  write_var_string s =
      let bytes = node.encode s in
      if ltb (length bytes) (2 ^ 16)
      then returned (uint16_be (length bytes) ++ bytes)
      else failed (node.write_error (length bytes))

-- The sequence number, the op and the status are in range.
unfoldable pub build_frame : ℕ → ℕ → ℕ → Bytes → Bytes
build_frame seq op status payload =
    protocol_version ∷ uint32_be (4 + 1 + 1 + length payload)
    ++ uint32_be seq
    ++ (op ∷ status ∷ payload)
