-- ===== src/YjsEngine/Varint/RoundTrip.antt =====
-- Reading what was written.
use native.Mathlib.Omega.{arith}
use native.Mathlib.Numerals.{towards_suc}
use collab_editor.Prelude.{
  ◌≡◌, refl, ℕ, zero, suc, ◌+◌, ◌*◌, ◌/◌, ◌%◌, ◌^◌, ◌≤◌, ◌<◌, ap, true, false, ◌++◌, length, ltb,
  Bool-cases, inl, inr, length-append, take-append_left, drop-append_left, append_assoc, ◌∙◌,
}
use Prim.Native.Nat.{bit_or}
use collab_editor.YjsEngine.Varint.Bits.{bit_or_disjoint}
use collab_editor.YjsEngine.Varint.{
  Bytes, returned, read_groups, write_groups, read_var_uint, write_var_uint, read_var_uint8_array,
  write_var_uint8_array, shift_left,
}

-- One round of the loop adds its seven bits above those that were read.
bit_or-shift_left :
    (shift n d : ℕ)
    → n < 2 ^ shift
    → shift < 32
    → d * 2 ^ shift < 2 ^ 32
    → bit_or n (shift_left d shift) ≡ n + d * 2 ^ shift
bit_or-shift_left shift n d h low fits =
    let e : shift % 32 ≡ shift = omega arith in
    rw e (
      let f : (d * 2 ^ shift) % 4294967296 ≡ d * 2 ^ shift = omega (arith, fits) in
      rw f (bit_or_disjoint shift n d h))

power_seven : (s : ℕ) → 2 ^ (s + 7) ≡ 128 * 2 ^ s
power_seven s = simp towards_suc (omega arith)

-- A number is its lowest seven bits and the rest, at any place.
split_seven : (m p : ℕ) → m * p ≡ (m % 128) * p + (m / 128) * (128 * p)
split_seven m p =
    let e : m ≡ m % 128 + 128 * (m / 128) = omega arith in omega (arith, ap (λ (t : ℕ). t * p) e)

le_mul : (m p : ℕ) → 0 < p → m ≤ m * p
le_mul m zero h = absurd (omega arith)
le_mul m (suc k) h = omega arith

-- What a round reads stays below the place of the next one.
round_fits : (n m p : ℕ) → n < p → n + (m % 128) * p < 128 * p
round_fits n m p h =
    let k : (m % 128) * p ≤ 127 * p = mul_mono (m % 128) 127 p (omega arith) in omega arith
  where
    mul_mono : (a b q : ℕ) → a ≤ b → a * q ≤ b * q
    mul_mono a b zero h = omega arith
    mul_mono a b (suc q) h = omega (arith, mul_mono a b q h)

-- From a shift with room for the groups that follow.
read_groups-write_groups :
    (fuel shift n m : ℕ) (rest : Bytes)
    → shift + 7 * fuel ≡ 28
    → n < 2 ^ shift
    → m * 2 ^ shift < 2 ^ 32
    → read_groups shift n (write_groups fuel m ++ rest) ≡ returned (n + m * 2 ^ shift, rest)
unfolding write_groups read_groups
read_groups-write_groups zero shift n m rest e h fits =
    let s28 : shift ≡ 28 = omega (arith, e) in
    let f : m * 2 ^ 28 < 2 ^ 32 = rw s28 at fits in
    let g : (m % 128) % 128 ≡ m = omega (arith, f) in
    let t : ltb (m % 128) 128 ≡ true = ground arith in
    rw (t, g) (rw (bit_or-shift_left shift n m h (omega arith) fits))
read_groups-write_groups (suc fuel) shift n m rest e h fits = elim (Bool-cases (ltb 127 m)) [
  | inl big ↦
      let word : m % 4294967296 ≡ m = omega (arith, fits, le_mul m (2 ^ shift) (omega arith)) in
      let d : (128 + m % 128) % 128 ≡ m % 128 = omega arith in
      let t : ltb (128 + m % 128) 128 ≡ false = ground arith in
      let sp : m * 2 ^ shift ≡ (m % 128) * 2 ^ shift + (m / 128) * (128 * 2 ^ shift) =
        split_seven m (2 ^ shift) in
      let s : ltb 35 (shift + 7) ≡ false = ground arith in
      rw (big, word)
        (rw (t, d, s)
          (rw (bit_or-shift_left shift n (m % 128) h (omega arith) (omega arith)) (
            read_groups-write_groups fuel (shift + 7) (n + (m % 128) * 2 ^ shift) (m / 128) rest
              (omega arith) (rw (power_seven shift) (round_fits n m (2 ^ shift) h))
              (rw (power_seven shift) (omega arith))
            ∙ ap (λ (k : ℕ). returned (k, rest)) (rw (power_seven shift) (omega arith)))))
  | inr small ↦
      let low : m ≤ 127 = ground arith in
      let g : (m % 128) % 128 ≡ m = omega (arith, low) in
      let t : ltb (m % 128) 128 ≡ true = ground arith in
      rw small (rw (t, g) (rw (bit_or-shift_left shift n m h (omega arith) fits)))
]

-- The decoder reads back each number of 32 bits, and stops where it ends.
pub read_var_uint-write_var_uint :
    (n : ℕ) (rest : Bytes)
    → n < 2 ^ 32
    → read_var_uint (write_var_uint n ++ rest) ≡ returned (n, rest)
unfolding read_var_uint write_var_uint
read_var_uint-write_var_uint n rest h =
    read_groups-write_groups 4 0 0 n rest refl (omega arith) (omega arith)
    ∙ ap (λ (k : ℕ). returned (k, rest)) (omega arith)

-- A byte array that is written is read back, whatever follows it.
pub read_var_uint8_array-write_var_uint8_array :
    (bytes rest : Bytes)
    → length bytes < 2 ^ 32
    → read_var_uint8_array (write_var_uint8_array bytes ++ rest) ≡ returned (bytes, rest)
unfolding read_var_uint8_array write_var_uint8_array
read_var_uint8_array-write_var_uint8_array bytes rest h =
    let long : ltb (length (bytes ++ rest)) (length bytes) ≡ false =
      ground (arith, length-append bytes rest) in
    rw (
      append_assoc (write_var_uint (length bytes)) bytes rest,
      read_var_uint8_array,
      read_var_uint-write_var_uint (length bytes) (bytes ++ rest) h,
      long,
      take-append_left (length bytes) bytes rest refl,
      drop-append_left (length bytes) bytes rest refl,
    )
