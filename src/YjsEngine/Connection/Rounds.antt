-- ===== src/YjsEngine/Connection/Rounds.antt =====
-- What one round of the connection's loop takes and leaves, and that more bytes behind the buffer
-- do not matter to it.
use collab_editor.Prelude.{
  ℕ, zero, suc, ◌+◌, ◌≡◌, refl, ap, ◌≤◌, ◌<◌, false, [], ◌∷◌, ◌++◌, length, take, drop, none, some,
  ltb, Bool-cases, Option-cases, inl, inr, length-append, length-drop, arith,
}
use collab_editor.YjsEngine.Varint.{Bytes, Attempt-cases}
use collab_editor.YjsEngine.Frames.{Node, uint32_at}
use collab_editor.YjsEngine.Docs.{DocOps}
use collab_editor.YjsEngine.Handlers.{process_frame}
use collab_editor.YjsEngine.Connection.{Connection, next_frame, serve_frame, serve_next, extend}

take-append : (n : ℕ) (xs ys : Bytes) → n ≤ length xs → take n (xs ++ ys) ≡ take n xs
take-append zero xs ys h = refl
take-append (suc n) [] ys h = absurd (omega arith)
take-append (suc n) (x ∷ xs) ys h = ap (x ∷◌) (take-append n xs ys (omega arith))

drop-append : (n : ℕ) (xs ys : Bytes) → n ≤ length xs → drop n (xs ++ ys) ≡ drop n xs ++ ys
drop-append zero xs ys h = refl
drop-append (suc n) [] ys h = absurd (omega arith)
drop-append (suc n) (x ∷ xs) ys h = drop-append n xs ys (omega arith)

-- The length field stands in the first five bytes.
uint32_at-append :
    (buffer more : Bytes) → 5 ≤ length buffer → uint32_at (buffer ++ more) 1 ≡ uint32_at buffer 1
unfolding uint32_at
uint32_at-append [] more h = absurd (omega arith)
uint32_at-append (a ∷ []) more h = absurd (omega arith)
uint32_at-append (a ∷ b ∷ []) more h = absurd (omega arith)
uint32_at-append (a ∷ b ∷ c ∷ []) more h = absurd (omega arith)
uint32_at-append (a ∷ b ∷ c ∷ d ∷ []) more h = absurd (omega arith)
uint32_at-append (a ∷ b ∷ c ∷ d ∷ e ∷ rest) more h = refl

-- When there is a full frame: it is the buffer's first bytes, five at least.
next_frame_full :
    (buffer frame rest : Bytes)
    → next_frame buffer ≡ some (frame, rest)
    → (5 ≤ length buffer)
      × ((5 + uint32_at buffer 1 ≤ length buffer)
          × ((frame ≡ take (5 + uint32_at buffer 1) buffer)
              × (rest ≡ drop (5 + uint32_at buffer 1) buffer)))
unfolding next_frame
next_frame_full buffer frame rest h = elim (Bool-cases (ltb (length buffer) 5)) [
  | inl short ↦ ground (arith, rw short at h)
  | inr header ↦ elim (Bool-cases (ltb (length buffer) (5 + uint32_at buffer 1))) [
    | inl short ↦ ground (arith, rw (header, short) at h)
    | inr full ↦ ground (arith, rw (header, full) at h)
  ]
]

pub next_frame-append :
    (buffer more frame rest : Bytes)
    → next_frame buffer ≡ some (frame, rest)
    → next_frame (buffer ++ more) ≡ some (frame, rest ++ more)
unfolding next_frame
next_frame-append buffer more frame rest h =
    let (header, (full, (f, r))) = next_frame_full buffer frame rest h in
    let n = 5 + uint32_at buffer 1 in
    let a : ltb (length (buffer ++ more)) 5 ≡ false = ground (arith, length-append buffer more) in
    let b : ltb (length (buffer ++ more)) n ≡ false = ground (arith, length-append buffer more) in
    rw (
      a,
      uint32_at-append buffer more header,
      b,
      take-append n buffer more full,
      drop-append n buffer more full,
      f,
      r,
    )

module _ (node : Node) (y : DocOps) where
  serve_frame-extend :
      (frame rest more : Bytes) (c : Connection node y)
      → serve_frame node y frame (rest ++ more) (extend node y c more)
        ≡ extend node y (serve_frame node y frame rest c) more
  unfolding serve_frame extend
  serve_frame-extend frame rest more c =
      elim (Attempt-cases (process_frame node y frame c.docs).0) [
        | inl (bytes, e) ↦ rw (e, serve_frame, extend)
        | inr (thrown, e) ↦ rw (e, serve_frame, extend)
      ]

  -- What a round is.
  serve_next_round :
      (c c' : Connection node y)
      → serve_next node y c ≡ some c'
      → (c.thrown ≡ none)
        × ((frame rest : Bytes) × ((next_frame c.buffer ≡ some (frame, rest))
              × (c' ≡ serve_frame node y frame rest c)))
  unfolding serve_next
  serve_next_round c c' h = elim (Option-cases c.thrown) [
    | inr (e, thrown) ↦ ground (arith, rw (serve_next, thrown) at h)
    | inl fine ↦ elim (Option-cases (next_frame c.buffer)) [
      | inl partial ↦ ground (arith, rw (serve_next, fine, partial) at h)
      | inr ((frame, rest), full) ↦
          let k : some (serve_frame node y frame rest c) ≡ some c' =
            rw (serve_next, fine, full) at h in
          (fine, (frame, rest, (full, cc)))
    ]
  ]

  pub serve_next-extend :
      (c c' : Connection node y) (more : Bytes)
      → serve_next node y c ≡ some c'
      → serve_next node y (extend node y c more) ≡ some (extend node y c' more)
  unfolding serve_next extend
  serve_next-extend c c' more h =
      let (fine, (frame, rest, (full, e))) = serve_next_round c c' h in
      rw (serve_next, fine, next_frame-append c.buffer more frame rest full, e)
        (ap some (serve_frame-extend frame rest more c))

  buffer-serve_frame :
      (frame rest : Bytes) (c : Connection node y) → (serve_frame node y frame rest c).buffer ≡ rest
  unfolding serve_frame
  buffer-serve_frame frame rest c = elim (Attempt-cases (process_frame node y frame c.docs).0) [
    | inl (bytes, e) ↦ rw (e, serve_frame)
    | inr (thrown, e) ↦ rw (e, serve_frame)
  ]

  -- A round takes bytes off the buffer.
  pub serve_next_shorter :
      (c c' : Connection node y)
      → serve_next node y c ≡ some c'
      → length c'.buffer < length c.buffer
  serve_next_shorter c c' h =
      let (fine, (frame, rest, (full, e))) = serve_next_round c c' h in
      let (header, (fits, (f, r))) = next_frame_full c.buffer frame rest full in
      rw (e, buffer-serve_frame frame rest c, r)
        (omega (arith, length-drop (5 + uint32_at c.buffer 1) c.buffer, header))
