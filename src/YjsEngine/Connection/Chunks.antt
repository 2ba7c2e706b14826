-- ===== src/YjsEngine/Connection/Chunks.antt =====
-- Where the socket cuts the stream of bytes makes no difference.
use collab_editor.Prelude.{
  ℕ, zero, suc, ◌+◌, ◌≡◌, refl, sym, ap, ◌∙◌, ◌≤◌, ◌≢◌, ◌⊎◌, List, [], ◌∷◌, ◌++◌, length, none,
  some, Option-cases, inl, inr, append_assoc, append-nil, length-append, arith,
}
use collab_editor.YjsEngine.Varint.{Bytes}
use collab_editor.YjsEngine.Frames.{Node}
use collab_editor.YjsEngine.Docs.{DocOps}
use collab_editor.YjsEngine.Connection.{
  Connection, serve_next, drain, extend, receive, receive_all, concat, next_frame,
}
use collab_editor.YjsEngine.Connection.Rounds.{serve_next-extend, serve_next_shorter}

module _ (node : Node) (y : DocOps) where
  pub serve_next_empty : (c : Connection node y) → c.buffer ≡ [] → serve_next node y c ≡ none
  serve_next_empty c e = elim (Option-cases (serve_next node y c)) [
    | inl done ↦ done
    | inr (c', h) ↦ absurd (omega (arith, serve_next_shorter node y c c' h, ap length e))
  ]

  pub drain_stop :
      (f : ℕ) (c : Connection node y) → serve_next node y c ≡ none → drain node y f c ≡ c
  unfolding drain
  drain_stop zero c h = refl
  drain_stop (suc f) c h = rw (drain, h)

  length-empty : (xs : Bytes) → length xs ≤ 0 → xs ≡ []
  length-empty [] h = refl
  length-empty (x ∷ xs) h = absurd (omega arith)

  drain_next :
      (f : ℕ) (c c' : Connection node y)
      → serve_next node y c ≡ some c'
      → drain node y (suc f) c ≡ drain node y f c'
  unfolding drain
  drain_next f c c' h = rw (drain, h)

  -- Any two amounts of fuel that reach the buffer's length do the same.
  drain_enough :
      (f g : ℕ) (c : Connection node y)
      → length c.buffer ≤ f
      → length c.buffer ≤ g
      → drain node y f c ≡ drain node y g c
  unfolding drain
  drain_enough zero g c hf hg = sym (drain_stop g c (serve_next_empty c (length-empty c.buffer hf)))
  drain_enough (suc f) zero c hf hg =
      drain_stop (suc f) c (serve_next_empty c (length-empty c.buffer hg))
  drain_enough (suc f) (suc g) c hf hg = elim (Option-cases (serve_next node y c)) [
    | inl done ↦ drain_stop (suc f) c done ∙ sym (drain_stop (suc g) c done)
    | inr (c', next) ↦
        let short = serve_next_shorter node y c c' next in
        drain_next f c c' next
        ∙ drain_enough f g c' (omega (arith, short, hf)) (omega (arith, short, hg))
        ∙ sym (drain_next g c c' next)
  ]

  pub drain_round :
      (f : ℕ) (c c' : Connection node y)
      → length c.buffer ≤ f
      → serve_next node y c ≡ some c'
      → drain node y f c ≡ drain node y f c'
  drain_round f c c' h next =
      let short = serve_next_shorter node y c c' next in
      drain_enough f (suc f) c h (omega (arith, h)) ∙ drain_next f c c' next

  drain_settled :
      (f : ℕ) (c : Connection node y)
      → length c.buffer ≤ f
      → serve_next node y (drain node y f c) ≡ none
  unfolding drain
  drain_settled zero c h = serve_next_empty c (length-empty c.buffer h)
  drain_settled (suc f) c h = elim (Option-cases (serve_next node y c)) [
    | inl done ↦ rw (drain_stop (suc f) c done) done
    | inr (c', next) ↦
        rw (drain_next f c c' next)
          (drain_settled f c' (omega (arith, serve_next_shorter node y c c' next, h)))
  ]

  length-extend :
      (c : Connection node y) (more : Bytes) (g : ℕ)
      → length c.buffer + length more ≤ g
      → length (extend node y c more).buffer ≤ g
  unfolding extend
  length-extend c more g h = omega (arith, length-append c.buffer more, h)

  extend_enough :
      (g k : ℕ) (c : Connection node y) (more : Bytes)
      → length c.buffer + length more ≤ g
      → length c.buffer + length more ≤ k
      → drain node y g (extend node y c more) ≡ drain node y k (extend node y c more)
  unfolding extend
  extend_enough g k c more hg hk =
      drain_enough g k (extend node y c more) (omega (arith, length-append c.buffer more, hg))
        (omega (arith, length-append c.buffer more, hk))

  -- Bytes that arrive before or after the loop has run are answered alike.
  drain-extend :
      (f g k : ℕ) (c : Connection node y) (more : Bytes)
      → length c.buffer ≤ f
      → length c.buffer + length more ≤ g
      → length (drain node y f c).buffer + length more ≤ k
      → drain node y g (extend node y c more)
        ≡ drain node y k (extend node y (drain node y f c) more)
  unfolding drain
  drain-extend zero g k c more hf hg hk = extend_enough g k c more hg hk
  drain-extend (suc f) g k c more hf hg hk = elim (Option-cases (serve_next node y c)) [
    | inl done ↦
        let stop = drain_stop (suc f) c done in
        let hk' : length c.buffer + length more ≤ k = rw stop at hk in
        rw stop (extend_enough g k c more hg hk')
    | inr (c', next) ↦
        let step = drain_next f c c' next in
        let short = serve_next_shorter node y c c' next in
        let fits : length (extend node y c more).buffer ≤ g = length-extend c more g hg in
        let hk' : length (drain node y f c').buffer + length more ≤ k = rw step at hk in
        rw step (
          drain_round g (extend node y c more) (extend node y c' more) fits
            (serve_next-extend node y c c' more next)
          ∙ drain-extend f g k c' more (omega (arith, short, hf)) (omega (arith, short, hg)) hk')
  ]

  extend-extend :
      (c : Connection node y) (a b : Bytes)
      → extend node y (extend node y c a) b ≡ extend node y c (a ++ b)
  unfolding extend
  extend-extend c a b = rw (append_assoc c.buffer a b)

  -- Two events are one event with the bytes of both.
  receive-receive :
      (c : Connection node y) (a b : Bytes)
      → receive node y (receive node y c a) b ≡ receive node y c (a ++ b)
  unfolding receive extend
  receive-receive c a b =
      let start = extend node y c a in
      let f = length (c.buffer ++ a) in
      let g = length (c.buffer ++ (a ++ b)) in
      let ends = (drain node y f start).buffer in
      let hg : length (c.buffer ++ a) + length b ≤ g =
        omega
          (arith, length-append c.buffer a, length-append c.buffer (a ++ b), length-append a b) in
      sym (
        drain-extend f g (length (ends ++ b)) start b (omega arith) hg
          (omega (arith, length-append ends b)))
      ∙ ap (drain node y g) (extend-extend c a b)

  receive_settled :
      (c : Connection node y) (chunk : Bytes) → serve_next node y (receive node y c chunk) ≡ none
  unfolding receive extend
  receive_settled c chunk =
      drain_settled (length (c.buffer ++ chunk)) (extend node y c chunk) (omega arith)

  receive_nothing : (c : Connection node y) → serve_next node y c ≡ none → receive node y c [] ≡ c
  unfolding receive extend
  receive_nothing c h = rw (append-nil c.buffer) (drain_stop (length c.buffer) c h)

  -- On a connection whose callback has returned, any way of cutting the same bytes into chunks has
  -- the same answers, the same registry and the same rest of the buffer as one chunk of them all.
  pub receive_all_lem :
      (c : Connection node y) (chunks : List Bytes)
      → serve_next node y c ≡ none
      → receive_all node y c chunks ≡ receive node y c (concat chunks)
  unfolding receive_all
  receive_all_lem c [] h = sym (receive_nothing c h)
  receive_all_lem c (chunk ∷ chunks) h =
      receive_all_lem (receive node y c chunk) chunks (receive_settled c chunk)
      ∙ receive-receive c chunk (concat chunks)

  -- The loop returns where an error was thrown or no full frame is left.
  serve_next_stops :
      (c : Connection node y)
      → serve_next node y c ≡ none
      → (c.thrown ≢ none) ⊎ (next_frame c.buffer ≡ none)
  unfolding serve_next
  serve_next_stops c h = elim (Option-cases c.thrown) [
    | inr (e, there) ↦ inl (λ absent. absurd (ground (arith, absent, there)))
    | inl alive ↦ elim (Option-cases (next_frame c.buffer)) [
      | inl done ↦ inr done
      | inr ((frame, rest), full) ↦
          let e : some _ ≡ none = rw (alive, serve_next, full) at h in absurd (ground (arith, e))
    ]
  ]

  -- The callback's loop ends, whatever bytes have come: with as many rounds as there are bytes, or
  -- more, it is at the state in which the callback returns, and there an error was thrown or the
  -- buffer has no full frame left.
  pub drain-receive :
      (c : Connection node y) (chunk : Bytes) (fuel : ℕ)
      → length c.buffer + length chunk ≤ fuel
      → (drain node y fuel (extend node y c chunk) ≡ receive node y c chunk)
        × (((receive node y c chunk).thrown ≢ none)
            ⊎ (next_frame (receive node y c chunk).buffer ≡ none))
  unfolding receive
  drain-receive c chunk fuel h = (
    extend_enough fuel (length (c.buffer ++ chunk)) c chunk h
        (omega (arith, length-append c.buffer chunk)),
    serve_next_stops (receive node y c chunk) (receive_settled c chunk),
  )
