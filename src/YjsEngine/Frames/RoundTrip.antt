-- ===== src/YjsEngine/Frames/RoundTrip.antt =====
-- What a reader finds in a string and in a frame that were written.
use collab_editor.Prelude.{
  ◌≡◌, refl, ap, ◌∙◌, ℕ, ◌+◌, ◌*◌, ◌/◌, ◌%◌, ◌^◌, ◌<◌, true, false, ◌∷◌, ◌++◌, length, take, drop,
  get_or, Text, ltb, length-append, take-append_left, get_or-append_right, drop-append_right, arith,
}
use collab_editor.YjsEngine.Varint.{Bytes, returned}
use collab_editor.YjsEngine.Frames.{
  Node, uint32_at, uint16_be, uint32_be, read_uint8, read_uint16_be, read_uint32_be,
  read_var_string, write_var_string, build_frame, header_bytes,
}

-- The four bytes of a number of 32 bits.
uint32_be_value :
    (n : ℕ)
    → n < 2 ^ 32
    → 256 * (256 * (256 * (n / 16777216) + (n / 65536) % 256) + (n / 256) % 256) + n % 256 ≡ n
uint32_be_value n h =
    let e : n / 65536 ≡ n / 256 / 256 = omega arith in
    let f : n / 16777216 ≡ n / 256 / 256 / 256 = omega arith in omega (arith, e, f)

pub length-build_frame :
    (seq op status : ℕ) (payload : Bytes)
    → length (build_frame seq op status payload) ≡ 11 + length payload
unfolding build_frame uint32_be
length-build_frame seq op status payload = omega arith

-- The length field of a frame in a buffer.
pub uint32_at-build_frame :
    (seq op status : ℕ) (payload rest : Bytes)
    → length payload + 6 < 2 ^ 32
    → uint32_at (build_frame seq op status payload ++ rest) 1 ≡ 6 + length payload
unfolding build_frame uint32_be uint32_at
uint32_at-build_frame seq op status payload rest hp =
    uint32_be_value (6 + length payload) (omega (arith, hp))

module _ (node : Node) where
  -- The fields of a frame stand where `processFrame` and the connection look for them.
  pub build_frame_fields :
      (seq op status : ℕ) (payload rest : Bytes)
      → seq < 2 ^ 32
      → length payload + 6 < 2 ^ 32
      → (read_uint8 node (build_frame seq op status payload ++ rest) 0 ≡ returned 1)
        × ((read_uint32_be node (build_frame seq op status payload ++ rest) 1
              ≡ returned (6 + length payload))
            × ((read_uint32_be node (build_frame seq op status payload ++ rest) 5 ≡ returned seq)
                × ((read_uint8 node (build_frame seq op status payload ++ rest) 9 ≡ returned op)
                    × (drop header_bytes (build_frame seq op status payload ++ rest)
                        ≡ payload ++ rest))))
  unfolding build_frame uint32_be read_uint8 read_uint32_be uint32_at
  build_frame_fields seq op status payload rest hs hp = (
    ground arith,
    (
      ground (arith, uint32_be_value (6 + length payload) (omega (arith, hp))),
      (ground (arith, uint32_be_value seq hs), (ground arith, refl)),
    ),
  )

  -- A string of at most 65535 bytes that UTF-8 carries is written, and is read back wherever it
  -- stands, with the offset behind it.
  pub read_var_string-write_var_string :
      (s : Text) (front rest : Bytes)
      → node.decode (node.encode s) ≡ s
      → length (node.encode s) < 2 ^ 16
      → (written : Bytes) × ((write_var_string node s ≡ returned written)
          × (read_var_string node (front ++ (written ++ rest)) (length front)
              ≡ returned (s, length front + length written)))
  unfolding write_var_string read_var_string read_uint16_be uint16_be
  read_var_string-write_var_string s front rest text_ok small =
      let n = length (node.encode s) in
      let buf = front ++ (n / 256 ∷ n % 256 ∷ node.encode s ++ rest) in
      let long : ltb (length buf) (length front + 2) ≡ false =
        ground (arith, length-append front (n / 256 ∷ n % 256 ∷ node.encode s ++ rest)) in
      let fits : ltb n 65536 ≡ true = ground (arith, small) in
      let high : get_or buf (length front) 0 ≡ n / 256 =
        ap (λ (k : ℕ). get_or buf k 0) (omega arith)
        ∙ get_or-append_right front (n / 256 ∷ n % 256 ∷ node.encode s ++ rest) 0 0 in
      let low : get_or buf (length front + 1) 0 ≡ n % 256 =
        get_or-append_right front (n / 256 ∷ n % 256 ∷ node.encode s ++ rest) 1 0 in
      let value : 256 * (n / 256) + n % 256 ≡ n = omega arith in
      let body : take n (drop (length front + 2) buf) ≡ node.encode s =
        ap (take n) (drop-append_right front (n / 256 ∷ n % 256 ∷ node.encode s ++ rest) 2)
        ∙ take-append_left n (node.encode s) rest refl in
      (
        n / 256 ∷ n % 256 ∷ node.encode s,
        (
          rw fits,
          rw (read_var_string, read_uint16_be, long, high, low, value, body, text_ok)
              (ap (λ (k : ℕ). returned (s, k)) (omega arith)),
        ),
      )
