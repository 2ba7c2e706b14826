-- ===== src/YjsEngine/Varint.antt =====
-- lib0's variable-length numbers as cmd/yjs-engine/index.js writes and reads them. A decoder
-- `{ buf, pos }` is the bytes from `pos` on; an encoder is the concatenation of its chunks.
mod Bits
pub mod RoundTrip
use collab_editor.Prelude.{
  ℕ, zero, suc, ◌+◌, ◌*◌, ◌/◌, ◌%◌, ◌^◌, Bool, true, false, List, [], ◌∷◌, ◌++◌, length, take, drop,
  Option, none, some, ◌≡◌, refl, ◌⊎◌, inl, inr, Text, text, ltb, if◌then◌else◌,
}
use Prim.Native.Nat.{bit_or}

-- A `Buffer`, its bytes below 256.
abbrev pub Bytes : Type 0
Bytes = List ℕ

-- A thrown `Error`: its `code`, if it has one, and its message.
pub record Failure : Type 0 where
  pub code : Option Text
  pub message : Text

pub data Attempt (A : Type 0) : Type 0 where
  returned : A → Attempt A
  failed : Failure → Attempt A

-- To split on an outcome and keep the equation.
pub Attempt-cases :
    {A : Type 0} (r : Attempt A) → ((a : A) × (r ≡ returned a)) ⊎ ((e : Failure) × (r ≡ failed e))
Attempt-cases (returned a) = inl (a, refl)
Attempt-cases (failed e) = inr (e, refl)

-- `new Error(message)`.
abbrev pub plain_error : Text → Failure
plain_error message = record { code = none; message = message }

-- `n << shift` in 32 bits, as an unsigned number; the shift counts modulo 32.
abbrev pub shift_left : ℕ → ℕ → ℕ
shift_left n shift = (n * 2 ^ (shift % 32)) % 2 ^ 32

-- The loop of `readVarUint`, at `n` and `shift`. `(b & 0x80) === 0` is `b < 128` for a byte.
unfoldable pub read_groups : ℕ → ℕ → Bytes → Attempt (ℕ × Bytes)
read_groups shift n [] = failed (plain_error (text "readVarUint: unexpected eof"))
read_groups shift n (b ∷ rest) =
    let n' = bit_or n (shift_left (b % 128) shift) in
    let more = read_groups (shift + 7) n' rest in
    if ltb b 128
    then returned (n', rest)
    else if ltb 35 (shift + 7)
    then failed (plain_error (text "readVarUint: overflow"))
    else more

unfoldable pub read_var_uint : Bytes → Attempt (ℕ × Bytes)
read_var_uint d = read_groups 0 0 d

unfoldable pub read_var_uint8_array : Bytes → Attempt (Bytes × Bytes)
read_var_uint8_array d = elim (read_var_uint d) [
  | failed e ↦ failed e
  | returned (len, rest) ↦
      if ltb (length rest) len
      then failed (plain_error (text "readVarUint8Array: short buffer"))
      else returned (take len rest, drop len rest)
]

-- The loop of `writeVarUint`: `0x80 | (n & 0x7f)` is a sum, and `n >>>= 7` drops what is above 32
-- bits. The last step runs when `n` is at most 0x7f, which it is after four rounds.
unfoldable pub write_groups : ℕ → ℕ → Bytes
write_groups zero n = n % 128 ∷ []
write_groups (suc fuel) n =
    let more = write_groups fuel ((n % 2 ^ 32) / 128) in
    if ltb 127 n then (128 + n % 128) ∷ more else n % 128 ∷ []

unfoldable pub write_var_uint : ℕ → Bytes
write_var_uint n = write_groups 4 n

unfoldable pub write_var_uint8_array : Bytes → Bytes
write_var_uint8_array bytes = write_var_uint (length bytes) ++ bytes
