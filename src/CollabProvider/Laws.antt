-- ===== src/CollabProvider/Laws.antt =====
-- Each promise for the connection is settled once or waits.
use collab_editor.Prelude.{
  ℕ, ◌+◌, ◌≡◌, refl, ap, Bool, true, false, List, [], ◌∷◌, ◌++◌, ◌==◌, leb, ltb, if◌then◌else◌,
  if-holds, arith,
}
use collab_editor.CollabProvider.{
  CollabStatus, disconnected, connecting, connected, Outcome, resolved, timed_out, rejected,
  Settled, CollaborationProvider, new_collaboration_provider, same_status, set_status, settle,
  settle_all, is_connected, status_changed, when_connected, times, without, time_out, disconnect,
  connect, destroy, Event, connect_called, status_emitted, awaited, disconnect_called, destroyed,
  timer_fired, step, run,
}

-- How often a promise is in the log.
unfoldable pub settlements : ℕ → List Settled → ℕ
settlements id [] = 0
settlements id (s ∷ log) = let rest = settlements id log in if id == s.id then 1 + rest else rest

settlements-append :
    (id : ℕ) (xs ys : List Settled)
    → settlements id (xs ++ ys) ≡ settlements id xs + settlements id ys
unfolding settlements
settlements-append id [] ys = omega arith
settlements-append id (x ∷ xs) ys = ground (arith, settlements-append id xs ys)

settlements-settle :
    (id : ℕ) (outcome : Outcome) (ids : List ℕ) → settlements id (settle outcome ids) ≡ times id ids
unfolding settlements settle times
settlements-settle id outcome [] = refl
settlements-settle id outcome (x ∷ ids) = ground (arith, settlements-settle id outcome ids)

times-append : (id : ℕ) (xs ys : List ℕ) → times id (xs ++ ys) ≡ times id xs + times id ys
unfolding times
times-append id [] ys = omega arith
times-append id (x ∷ xs) ys = ground (arith, times-append id xs ys)

times-without :
    (id other : ℕ) (xs : List ℕ)
    → times id (without other xs) ≡ (if id == other then 0 else times id xs)
unfolding times without
times-without id other [] = ground arith
times-without id other (x ∷ xs) = ground (arith, times-without id other xs)

-- A promise that was given out waits or is settled, once in all; any other number does neither.
abbrev pub Counts : List ℕ → List Settled → ℕ → Type 0
Counts waiting settled next =
    (id : ℕ) → times id waiting + settlements id settled ≡ (if ltb id next then 1 else 0)

-- In the state of a provider; and while it is connected nothing waits.
abbrev pub IsCounted : CollaborationProvider → Type 0
IsCounted p = Counts p.waiting p.settled p.next × ((is_connected p.status ≡ true) → p.waiting ≡ [])

same_status_lem : (a b : CollabStatus) → same_status a b ≡ true → b ≡ a
unfolding same_status
same_status_lem disconnected disconnected h = refl
same_status_lem connecting connecting h = refl
same_status_lem connected connected h = refl
same_status_lem disconnected connecting h = absurd (ground (arith, h))
same_status_lem disconnected connected h = absurd (ground (arith, h))
same_status_lem connecting disconnected h = absurd (ground (arith, h))
same_status_lem connecting connected h = absurd (ground (arith, h))
same_status_lem connected disconnected h = absurd (ground (arith, h))
same_status_lem connected connecting h = absurd (ground (arith, h))

pub set_status-status :
    (status : CollabStatus) (p : CollaborationProvider) → (set_status status p).status ≡ status
unfolding set_status
set_status-status status p =
    if-holds (λ q. q.status ≡ status) (same_status status p.status) p _
      (λ same. same_status_lem status p.status same) (λ other. refl)

set_status-Counts :
    (status : CollabStatus) (p : CollaborationProvider)
    → Counts p.waiting p.settled p.next
    → Counts (set_status status p).waiting (set_status status p).settled (set_status status p).next
unfolding set_status
set_status-Counts status p h =
    if-holds (λ q. Counts q.waiting q.settled q.next) (same_status status p.status) p _ (λ same. h)
      (λ other. h)

-- A status other than connected leaves those that wait alone.
set_status-IsCounted :
    (status : CollabStatus) (p : CollaborationProvider)
    → is_connected status ≡ false
    → Counts p.waiting p.settled p.next
    → IsCounted (set_status status p)
set_status-IsCounted status p off h = (
  set_status-Counts status p h,
  λ on. absurd (ground (arith, on, off, ap is_connected (set_status-status status p))),
)

settle_all-IsCounted :
    (outcome : Outcome) (p : CollaborationProvider)
    → Counts p.waiting p.settled p.next
    → IsCounted (settle_all outcome p)
unfolding settle_all times
settle_all-IsCounted outcome p h = (
  (λ id.
      let here = h id in
      let logged = settlements-append id p.settled (settle outcome p.waiting) in
      let more = settlements-settle id outcome p.waiting in ground (arith, here, logged, more)),
  λ on. refl,
)

status_changed-IsCounted :
    (status : CollabStatus) (p : CollaborationProvider)
    → IsCounted p
    → IsCounted (status_changed status p)
unfolding status_changed
status_changed-IsCounted status p (h, idle) =
    if-holds IsCounted (is_connected status) (settle_all resolved (set_status status p)) _
      (λ on. settle_all-IsCounted resolved (set_status status p) (set_status-Counts status p h))
      (λ off. set_status-IsCounted status p off h)

when_connected-IsCounted : (p : CollaborationProvider) → IsCounted p → IsCounted (when_connected p)
unfolding when_connected settlements times
when_connected-IsCounted p (h, idle) =
    let one : List Settled = record { id = p.next; outcome = resolved } ∷ [] in
    if-holds IsCounted (is_connected p.status) _ _
      (λ on.
        ((λ id. ground (arith, h id, settlements-append id p.settled one)), λ still. idle still))
      (λ off. (
        (λ id. ground (arith, h id, times-append id p.waiting (p.next ∷ []))),
        λ on. absurd (ground (arith, on, off)),
      ))

time_out-IsCounted : (id : ℕ) (p : CollaborationProvider) → IsCounted p → IsCounted (time_out id p)
unfolding time_out settlements times
time_out-IsCounted id p (h, idle) =
    let one : List Settled = record { id = id; outcome = timed_out } ∷ [] in
    if-holds IsCounted (leb 1 (times id p.waiting)) _ p
      (λ set. (
        (λ other. ground (
          arith,
          set,
          h id,
          h other,
          settlements-append other p.settled one,
          times-without other id p.waiting,
        )),
        λ on. absurd (ground (arith, set, ap (times id) (idle on))),
      ))
      (λ unset. (h, idle))

connect-IsCounted :
    (ws_connected : Bool) (p : CollaborationProvider)
    → IsCounted p
    → IsCounted (connect ws_connected p)
unfolding connect disconnect is_connected
connect-IsCounted ws_connected p (h, idle) =
    let shut = record p { attached = false } in
    let opened = record (set_status connecting (disconnect p)) { attached = true } in
    let closed = set_status-Counts disconnected shut h in
    let ready : IsCounted (set_status connecting (disconnect p)) =
      set_status-IsCounted connecting (disconnect p) refl closed in
    let (counts, waits) = ready in
    when_connected-IsCounted
      (if ws_connected then settle_all resolved (set_status connected opened) else opened)
      (if-holds IsCounted ws_connected _ opened
        (λ on.
          settle_all-IsCounted resolved (set_status connected opened)
            (set_status-Counts connected opened counts))
        (λ off. (counts, waits)))

pub step-IsCounted : (e : Event) (p : CollaborationProvider) → IsCounted p → IsCounted (step e p)
unfolding step disconnect destroy is_connected
step-IsCounted (connect_called ws_connected) p h = connect-IsCounted ws_connected p h
step-IsCounted (status_emitted status) p h = status_changed-IsCounted status p h
step-IsCounted awaited p h = when_connected-IsCounted p h
step-IsCounted disconnect_called p (h, idle) =
    set_status-IsCounted disconnected (record p { attached = false }) refl h
step-IsCounted destroyed p (h, idle) =
    settle_all-IsCounted rejected (set_status disconnected (record p { attached = false }))
      (set_status-Counts disconnected (record p { attached = false }) h)
step-IsCounted (timer_fired id) p h = time_out-IsCounted id p h

run-steps : (es : List Event) (p : CollaborationProvider) → IsCounted p → IsCounted (run es p)
unfolding run
run-steps [] p h = h
run-steps (e ∷ es) p h = run-steps es (step e p) (step-IsCounted e p h)

-- After any calls, status events and time-outs of a new provider, each promise for the connection
-- that it gave out either waits or was settled, once in all, and a number that it did not give out
-- does neither; while the provider is connected no promise waits.
pub run-IsCounted : (es : List Event) → IsCounted (run es new_collaboration_provider)
unfolding settlements times
run-IsCounted es = run-steps es new_collaboration_provider ((λ id. ground arith), λ on. refl)
