-- ===== src/PositionMap/Overrides/Laws.antt =====
-- What a reported override says of the text and of who wrote it.
use collab_editor.Prelude.{
  ℕ, ◌+◌, ◌-◌, ◌≤◌, ◌<◌, ◌≡◌, ◌≢◌, refl, ap, ◌∙◌, inl, inr, true, List, [], ◌∷◌, length, filter,
  All, All-append, Option, none, some, Text, text_eq, text_eq_iff, slice, ◌==◌, Bool-cases,
  Option-cases, arith,
}
use collab_editor.Blame.Live.{Item}
use collab_editor.PositionMap.{TextNode, Positions, build_position_map, snap_range}
use collab_editor.PositionMap.Overrides.{
  DelimiterPattern, FormattingOverride, add_clients, collect_clients_in_range, only_client, user_of,
  credits_of, delim_clients, is_wrapped, try_pattern, first_pattern, mark_overrides, node_overrides,
  overrides_of, find_formatting_overrides, find_ytext_start_for_pm_pos,
}
use collab_editor.PositionMap.Overrides.Clients.{
  author_at, is_client-add_clients, collect_clients_in_range-author_at, only_client_alone,
}

-- A range of the source with delimiters round it, all of whose visible characters one client wrote,
-- and all visible characters of whose delimiters another one; the override credits their users, who
-- differ, and stands where the range is shown.
pub record IsWrapping (y : Text) (items : List Item) (users : List (ℕ × Text)) (m : Positions)
    (o : FormattingOverride) : Type 0 where
  pub pattern : DelimiterPattern
  pub start : ℕ
  pub end : ℕ
  pub formatter : ℕ
  pub author : ℕ
  pub opening_read :
      (length pattern.opening ≤ start)
      × (slice (start - length pattern.opening) start y ≡ pattern.opening)
  pub closing_read : slice end (end + length pattern.closing) y ≡ pattern.closing
  pub opening_by :
      (j d : ℕ)
      → start - length pattern.opening ≤ j
      → j < start
      → author_at items j ≡ some d
      → d ≡ formatter
  pub closing_by :
      (j d : ℕ)
      → end ≤ j
      → j < end + length pattern.closing
      → author_at items j ≡ some d
      → d ≡ formatter
  pub text_by : (j d : ℕ) → start ≤ j → j < end → author_at items j ≡ some d → d ≡ author
  pub different : formatter ≢ author
  pub delimiter_user_of : user_of users formatter ≡ some o.delimiter_user
  pub text_user_of : user_of users author ≡ some o.text_user
  pub users_differ : o.delimiter_user ≢ o.text_user
  pub shown : snap_range start end m ≡ some (o.from, o.to)

credits_of_lem :
    (users : List (ℕ × Text)) (f a : Option ℕ) (delim_user text_user : Text)
    → credits_of users f a ≡ some (delim_user, text_user)
    → (formatter author : ℕ) × ((f ≡ some formatter)
        × ((a ≡ some author)
            × ((formatter ≢ author)
                × ((user_of users formatter ≡ some delim_user)
                    × ((user_of users author ≡ some text_user) × (delim_user ≢ text_user))))))
unfolding credits_of
credits_of_lem users none a delim_user text_user h = absurd (ground (arith, h))
credits_of_lem users (some f) none delim_user text_user h = absurd (ground (arith, h))
credits_of_lem users (some f) (some a) delim_user text_user h = elim (Bool-cases (f == a)) [
  | inl same ↦ absurd (ground (arith, rw (credits_of, same) at h))
  | inr different ↦ elim (Option-cases (user_of users f)) [
    | inl unknown ↦ absurd (ground (arith, rw (credits_of, different, unknown) at h))
    | inr (u, known) ↦ elim (Option-cases (user_of users a)) [
      | inl unknown ↦ absurd (ground (arith, rw (credits_of, different, known, unknown) at h))
      | inr (v, known') ↦ elim (Bool-cases (text_eq u v)) [
        | inl alike ↦ absurd (ground (arith, rw (credits_of, different, known, known', alike) at h))
        | inr unlike ↦
            let e = rw (credits_of, different, known, known', unlike) at h in
            let u' : u ≡ delim_user = ground (arith, e) in
            let v' : v ≡ text_user = ground (arith, e) in
            (
              f,
              a,
              (
                refl,
                (
                  refl,
                  (
                    ground (arith, different),
                    (
                      known ∙ ap some u',
                      (
                        known' ∙ ap some v',
                        λ same. ground (arith, text_eq_iff u v, unlike, u', v', same),
                      ),
                    ),
                  ),
                ),
              ),
            )
      ]
    ]
  ]
]

is_wrapped_lem :
    (y : Text) (pattern : DelimiterPattern) (start end : ℕ)
    → is_wrapped y pattern start end ≡ true
    → (length pattern.opening ≤ start)
      × ((slice (start - length pattern.opening) start y ≡ pattern.opening)
          × (slice end (end + length pattern.closing) y ≡ pattern.closing))
unfolding is_wrapped
is_wrapped_lem y pattern start end h =
    let a = text_eq_iff (slice (start - length pattern.opening) start y) pattern.opening in
    let b = text_eq_iff (slice end (end + length pattern.closing) y) pattern.closing in
    (ground (arith, h), (a.0 (ground (arith, h)), b.0 (ground (arith, h))))

module _ (y : Text) (items : List Item) (users : List (ℕ × Text)) (m : Positions) where
  abbrev AllWrapping : List FormattingOverride → Type 0
  AllWrapping os = All (IsWrapping y items users m) os

  -- Where the tests of a candidate succeed.
  wrapped-IsWrapping :
      (start end : ℕ) (pattern : DelimiterPattern) (delim_user text_user : Text) (from to : ℕ)
      → is_wrapped y pattern start end ≡ true
      → credits_of users
          (only_client (delim_clients items pattern start end))
          (only_client (collect_clients_in_range items start end))
        ≡ some (delim_user, text_user)
      → snap_range start end m ≡ some (from, to)
      → IsWrapping y items users m
          record { from = from; to = to; delimiter_user = delim_user; text_user = text_user }
  unfolding delim_clients
  wrapped-IsWrapping start end pattern delim_user text_user from to wrapped credited shown =
      let opening = collect_clients_in_range items (start - length pattern.opening) start in
      let closing = collect_clients_in_range items end (end + length pattern.closing) in
      let inner = collect_clients_in_range items start end in
      let clients = delim_clients items pattern start end in
      let (f, a, (only_f, (only_a, (ne, (uf, (ua, ud)))))) =
        credits_of_lem users (only_client clients) (only_client inner) delim_user text_user
          credited in
      let (fits, (before, behind)) = is_wrapped_lem y pattern start end wrapped in
      record {
        pattern = pattern;
        start = start;
        end = end;
        formatter = f;
        author = a;
        opening_read = (fits, before);
        closing_read = behind;
        opening_by = λ j d p q at_j. only_client_alone clients f d only_f (
            is_client-add_clients closing (add_clients opening []) d (
              inr (
                is_client-add_clients opening [] d (
                  inl (
                    collect_clients_in_range-author_at items (start - length pattern.opening) start
                      j d at_j p q)))));
        closing_by = λ j d p q at_j. only_client_alone clients f d only_f (
            is_client-add_clients closing (add_clients opening []) d (
              inl (
                collect_clients_in_range-author_at items end (end + length pattern.closing) j d at_j
                  p q)));
        text_by = λ j d p q at_j.
            only_client_alone inner a d only_a
              (collect_clients_in_range-author_at items start end j d at_j p q);
        different = ne;
        delimiter_user_of = uf;
        text_user_of = ua;
        users_differ = ud;
        shown = shown;
      }

  try_pattern-IsWrapping :
      (start end : ℕ) (pattern : DelimiterPattern) (o : FormattingOverride)
      → try_pattern y items users m start end pattern ≡ some o
      → IsWrapping y items users m o
  unfolding try_pattern
  try_pattern-IsWrapping start end pattern o h =
      let formatter = only_client (delim_clients items pattern start end) in
      let author = only_client (collect_clients_in_range items start end) in
      elim (Bool-cases (is_wrapped y pattern start end)) [
        | inr bare ↦ absurd (ground (arith, rw (try_pattern, bare) at h))
        | inl wrapped ↦ elim (Option-cases (credits_of users formatter author)) [
          | inl nobody ↦ absurd (ground (arith, rw (try_pattern, wrapped, nobody) at h))
          | inr ((delim_user, text_user), credited) ↦ elim (Option-cases (snap_range start end m)) [
            | inl hidden ↦ absurd (ground (arith, rw (try_pattern, wrapped, credited, hidden) at h))
            | inr ((from, to), shown) ↦
                let found = rw (try_pattern, wrapped, credited, shown) at h in
                let made : record {
                  from = from;
                  to = to;
                  delimiter_user = delim_user;
                  text_user = text_user;
                }
                    ≡ o =
                  cc in
                rw made at (
                  wrapped-IsWrapping start end pattern delim_user text_user from to wrapped credited
                    shown)
          ]
        ]
      ]

  first_pattern-AllWrapping :
      (start end : ℕ) (patterns : List DelimiterPattern)
      → AllWrapping (first_pattern y items users m start end patterns)
  unfolding first_pattern
  first_pattern-AllWrapping start end [] = tt
  first_pattern-AllWrapping start end (p ∷ patterns) =
      elim (Option-cases (try_pattern y items users m start end p)) [
        | inl failed ↦ rw (first_pattern, failed) (first_pattern-AllWrapping start end patterns)
        | inr (o, found) ↦
            rw (first_pattern, found) (try_pattern-IsWrapping start end p o found, tt)
      ]

  mark_overrides-AllWrapping :
      (start end : ℕ) (patterns : List DelimiterPattern) (marks : List Text)
      → AllWrapping (mark_overrides y items users m start end patterns marks)
  unfolding mark_overrides
  mark_overrides-AllWrapping start end patterns [] = tt
  mark_overrides-AllWrapping start end patterns (mark ∷ marks) =
      let candidates = filter (λ p. text_eq p.mark mark) patterns in
      All-append (IsWrapping y items users m) (first_pattern y items users m start end candidates)
        (mark_overrides y items users m start end patterns marks)
        (first_pattern-AllWrapping start end candidates)
        (mark_overrides-AllWrapping start end patterns marks)

  node_overrides-AllWrapping :
      (patterns : List DelimiterPattern) (node : TextNode)
      → AllWrapping (node_overrides y items users m patterns node)
  unfolding node_overrides
  node_overrides-AllWrapping patterns node = elim (Bool-cases (length node.text == 0)) [
    | inl empty ↦ rw (node_overrides, empty) tt
    | inr full ↦ elim (Option-cases (find_ytext_start_for_pm_pos m node.pos)) [
      | inl hidden ↦ rw (node_overrides, full, hidden) tt
      | inr (start, found) ↦
          rw (node_overrides, full, found)
            (mark_overrides-AllWrapping start (start + length node.text) patterns node.marks)
    ]
  ]

  overrides_of-AllWrapping :
      (patterns : List DelimiterPattern) (nodes : List TextNode)
      → AllWrapping (overrides_of y items users m patterns nodes)
  unfolding overrides_of
  overrides_of-AllWrapping patterns [] = tt
  overrides_of-AllWrapping patterns (node ∷ nodes) =
      All-append (IsWrapping y items users m) (node_overrides y items users m patterns node)
        (overrides_of y items users m patterns nodes) (node_overrides-AllWrapping patterns node)
        (overrides_of-AllWrapping patterns nodes)

-- Each override that is reported stands for a range of the source between delimiters of a pattern,
-- where one client wrote all that is visible of the delimiters and another one all that is visible
-- between them; it names their users, which differ, and the position where the range is shown.
pub find_formatting_overrides-IsWrapping :
    (doc : List TextNode) (y : Text) (items : List Item) (users : List (ℕ × Text))
    (patterns : List DelimiterPattern)
    → All
        (IsWrapping y items users (build_position_map doc y))
        (find_formatting_overrides doc y items users patterns)
unfolding find_formatting_overrides
find_formatting_overrides-IsWrapping doc y items users patterns =
    overrides_of-AllWrapping y items users (build_position_map doc y) patterns doc
