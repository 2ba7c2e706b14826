-- ===== src/PositionMap/Overrides/Clients.antt =====
-- The clients of a range are those that wrote its characters.
use collab_editor.Prelude.{
  ℕ, ◌+◌, ◌-◌, ◌≤◌, ◌<◌, ◌≡◌, refl, ◌⊎◌, inl, inr, Bool, true, false, ◌&&◌, List, [], ◌∷◌, Option,
  none, some, ltb, ◌==◌, if◌then◌else◌, Bool-cases, Option-cases, arith,
}
use collab_editor.Blame.Live.{Item}
use collab_editor.PositionMap.Overrides.{
  add_client, add_clients, visible_length, collect_from, collect_clients_in_range, only_client,
}

abbrev pub is_client : ℕ → List ℕ → Bool
is_client c [] = false
is_client c (d ∷ clients) = if d == c then true else is_client c clients

-- The client that inserted the visible character at an offset.
abbrev pub author_at : List Item → ℕ → Option ℕ
author_at [] j = none
author_at (item ∷ items) j = elim (visible_length item) [
  | none ↦ author_at items j
  | some len ↦ elim (ltb j len) [ true ↦ some item.client | false ↦ author_at items (j - len) ]
]

is_client-add_client :
    (c d : ℕ) (clients : List ℕ)
    → is_client d (add_client c clients) ≡ (if c == d then true else is_client d clients)
unfolding add_client
is_client-add_client c d [] = refl
is_client-add_client c d (e ∷ clients) = ground (arith, is_client-add_client c d clients)

pub is_client-add_clients :
    (cs clients : List ℕ) (d : ℕ)
    → (is_client d cs ≡ true) ⊎ (is_client d clients ≡ true)
    → is_client d (add_clients cs clients) ≡ true
unfolding add_clients
is_client-add_clients [] clients d h = ground (arith, h)
is_client-add_clients (c ∷ cs) clients d h =
    is_client-add_clients cs (add_client c clients) d
      (ground (arith, h, is_client-add_client c d clients))

collect_from_keeps :
    (start end : ℕ) (items : List Item) (offset : ℕ) (clients : List ℕ) (d : ℕ)
    → is_client d clients ≡ true
    → is_client d (collect_from start end items offset clients) ≡ true
unfolding collect_from
collect_from_keeps start end [] offset clients d h = h
collect_from_keeps start end (item ∷ items) offset clients d h =
    elim (Option-cases (visible_length item)) [
      | inl hidden ↦
          rw (collect_from, hidden) (collect_from_keeps start end items offset clients d h)
      | inr (len, shown) ↦
          rw (collect_from, shown)
            (collect_from_keeps start end items (offset + len)
              (if ltb offset end && ltb start (offset + len)
                then add_client item.client clients
                else clients)
              d (ground (arith, h, is_client-add_client item.client d clients)))
    ]

collect_from_author :
    (start end : ℕ) (items : List Item) (offset : ℕ) (clients : List ℕ) (j d : ℕ)
    → author_at items j ≡ some d
    → start ≤ offset + j
    → offset + j < end
    → is_client d (collect_from start end items offset clients) ≡ true
unfolding collect_from
collect_from_author start end [] offset clients j d h a b = absurd (ground (arith, h))
collect_from_author start end (item ∷ items) offset clients j d h a b =
    elim (Option-cases (visible_length item)) [
      | inl hidden ↦
          rw (collect_from, hidden)
            (collect_from_author start end items offset clients j d (rw (author_at, hidden) at h) a
              b)
      | inr (len, shown) ↦ elim (Bool-cases (ltb j len)) [
        | inl here ↦
            let e : item.client ≡ d = ground (arith, rw (author_at, shown, here) at h) in
            let added : is_client d (
                  if ltb offset end && ltb start (offset + len)
                  then add_client item.client clients
                  else clients)
                ≡ true =
              ground (arith, e, here, a, b, is_client-add_client item.client d clients) in
            rw (collect_from, shown) (collect_from_keeps start end items (offset + len) _ d added)
        | inr later ↦
            rw (collect_from, shown)
              (collect_from_author start end items (offset + len) _ (j - len) d
                (rw (author_at, shown, later) at h) (ground (arith, later, a))
                (ground (arith, later, b)))
      ]
    ]

-- Whoever wrote a visible character of the range is among the clients of the range.
pub collect_clients_in_range-author_at :
    (items : List Item) (start end j d : ℕ)
    → author_at items j ≡ some d
    → start ≤ j
    → j < end
    → is_client d (collect_clients_in_range items start end) ≡ true
unfolding collect_clients_in_range
collect_clients_in_range-author_at items start end j d h a b =
    collect_from_author start end items 0 [] j d h (omega (arith, a)) (omega (arith, b))

pub only_client_alone :
    (clients : List ℕ) (c d : ℕ) → only_client clients ≡ some c → is_client d clients ≡ true → d ≡ c
unfolding only_client
only_client_alone [] c d h k = absurd (ground (arith, h))
only_client_alone (e ∷ []) c d h k = ground (arith, h, k)
only_client_alone (e ∷ f ∷ clients) c d h k = absurd (ground (arith, h))
