-- ===== src/Provider/CommentRoutes.antt =====
-- The routes of the comments provider, packages/provider-sdk-ts/src/comments/handler.ts: which
-- handler express finds for a request, and how it answers. The JSON values are opaque: a body has been
-- read by express.json before, which answers 413 or 400 to one over 256 kB or without JSON.
pub mod Laws
use collab_editor.Prelude.{
  ℕ, zero, suc, ◌+◌, ◌-◌, ◌*◌, Bool, true, false, not, ◌&&◌, ◌||◌, List, [], ◌∷◌, Option, none,
  some, Text, text, text_eq, ltb, leb, ◌==◌, if◌then◌else◌,
}
use collab_editor.Provider.Processor.{Result, ok, thrown}

-- A number that `parseInt` gives.
pub record Whole : Type 0 where
  pub negative : Bool
  pub magnitude : ℕ

-- The white space that `parseInt` skips.
abbrev pub is_space : ℕ → Bool
is_space c =
    (leb 9 c && leb c 13)
    || (c == 32
        || (c == 160
            || (c == 5760
                || ((leb 8192 c && leb c 8202)
                    || (c == 8232
                        || (c == 8233
                            || (c == 8239 || (c == 8287 || (c == 12288 || c == 65279)))))))))

unfoldable pub skip_space : Text → Text
skip_space [] = []
skip_space (c ∷ s) = let rest = skip_space s in if is_space c then rest else c ∷ s

unfoldable pub parse_digits : Option ℕ → Text → Option ℕ
parse_digits acc [] = acc
parse_digits acc (c ∷ s) =
    let value : ℕ = elim acc [ none ↦ 0 | some n ↦ n ] in
    let more = parse_digits (some (10 * value + (c - 48))) s in
    if leb 48 c && leb c 57 then more else acc

abbrev pub signed : Bool → Option ℕ → Option Whole
signed negative none = none
signed negative (some n) = some record { negative = negative; magnitude = n }

-- `Number.parseInt(s, 10)`, with `none` for NaN; exact below 2 ^ 53.
unfoldable pub parse_int : Text → Option Whole
parse_int s = elim (skip_space s) [
  | [] ↦ none
  | c ∷ rest ↦
      if c == b'-'
      then signed true (parse_digits none rest)
      else if c == b'+'
      then signed false (parse_digits none rest)
      else signed false (parse_digits none (c ∷ rest))
]

-- `parseInt(limit ?? '10', 10) || 10`
unfoldable pub limit_of : Option Text → Whole
limit_of limit =
    let ten : Whole = record { negative = false; magnitude = 10 } in
    let asked : Option Whole = parse_int (elim limit [ none ↦ text "10" | some s ↦ s ]) in
    elim asked [ none ↦ ten | some n ↦ if n.magnitude == 0 then ten else n ]

pub data Verb : Type 0 where
  get post patch delete : Verb

-- A request: the segments of its path, which are not empty, its query and its body.
pub record Request (Json : Type 0) : Type 0 where
  pub verb : Verb
  pub segments : List Text
  pub path : Option Text
  pub q : Option Text
  pub limit : Option Text
  pub since : Option Text
  pub body : Json

-- The provider, with a state of its own; what is optional there is optional here.
pub record CommentsProvider : Type 1 where
  pub Json : Type 0
  pub Store : Type 0
  pub capabilities : Store → Result Json × Store
  pub list_comment_threads : Text → Store → Result Json × Store
  pub create_comment_thread : Text → Json → Store → Result Json × Store
  pub get_comment_thread : Text → Text → Store → Result (Option Json) × Store
  pub add_reply : Text → Text → Json → Store → Result Json × Store
  pub update_thread_status : Text → Text → Json → Store → Result Json × Store
  pub delete_comment_thread : Text → Text → Store → Result (Unit {0}) × Store
  pub search_mentions : Option (Text → Text → Whole → Store → Result Json × Store)
  pub poll_comment_changes : Option (Text → Text → Store → Result Json × Store)
  pub update_comment : Option (Text → Text → Text → Json → Store → Result Json × Store)
  pub delete_comment : Option (Text → Text → Text → Store → Result (Unit {0}) × Store)
  pub add_reaction : Option (Text → Text → Json → Store → Result (Unit {0}) × Store)
  pub remove_reaction : Option (Text → Text → Json → Store → Result (Unit {0}) × Store)
  pub decide_suggestion : Option (Text → Text → Json → Store → Result Json × Store)

module _ (provider : CommentsProvider) where
  open provider use {Json, Store}

  pub data Body : Type 0 where
    error : Text → Body
    json threads candidates : Json → Body
    empty : Body

  pub record Response : Type 0 where
    pub status : ℕ
    pub body : Body

  abbrev pub Handler : Type 0
  Handler = Store → Response × Store

  -- What a handler does with what it awaited: the answer to a value, in a `try` whose `catch` answers
  -- with 500.
  abbrev pub answered : {A : Type 0} → (A → Response) → Result A → Response
  answered f (thrown e) = record { status = 500; body = error e }
  answered f (ok a) = f a

  abbrev pub reply : ℕ → (Json → Body) → Json → Response
  reply status body value = record { status = status; body = body value }

  abbrev pub ended : Unit {0} → Response
  ended done = record { status = 204; body = empty }

  abbrev pub found : Option Json → Response
  found none = record { status = 404; body = error (text "thread not found") }
  found (some value) = record { status = 200; body = json value }

  unfoldable pub attempt : {A : Type 0} → (Store → Result A × Store) → (A → Response) → Handler
  attempt action f store = let (a, store') = action store in (answered f a, store')

  unfoldable pub bad_request : Handler
  bad_request store =
      (record { status = 400; body = error (text "missing 'path' query parameter") }, store)

  unfoldable pub with_path : Option Text → (Text → Handler) → Handler
  with_path none handler = bad_request
  with_path (some []) handler = bad_request
  with_path (some (c ∷ path)) handler = handler (c ∷ path)

  abbrev pub text_or : Option Text → Text
  text_or none = []
  text_or (some s) = s

  -- A route that is registered where the provider has the method.
  abbrev pub registered : {A : Type 0} → Option A → (A → Handler) → Option Handler → Option Handler
  registered none handler next = next
  registered (some f) handler next = some (handler f)

  -- The routes below `/documents/comments/:threadId`.
  unfoldable pub thread_route : Text → Request Json → Option Handler
  thread_route thread_id r = elim r.verb [
    | get ↦ some (with_path r.path (λ id. attempt (provider.get_comment_thread id thread_id) found))
    | patch ↦ some (
        with_path r.path
          (λ id. attempt (provider.update_thread_status id thread_id r.body) (reply 200 json)))
    | delete ↦
        some (with_path r.path (λ id. attempt (provider.delete_comment_thread id thread_id) ended))
    | post ↦ none
  ]

  unfoldable pub replies_route : Text → Request Json → Option Handler
  replies_route thread_id r = elim r.verb [
    | post ↦
        some (
          with_path r.path
            (λ id. attempt (provider.add_reply id thread_id r.body) (reply 201 json)))
    | _ ↦ none
  ]

  unfoldable pub reactions_route : Text → Request Json → Option Handler
  reactions_route thread_id r = elim r.verb [
    | post ↦
        registered provider.add_reaction
          (λ f. with_path r.path (λ id. attempt (f id thread_id r.body) ended)) none
    | delete ↦
        registered provider.remove_reaction
          (λ f. with_path r.path (λ id. attempt (f id thread_id r.body) ended)) none
    | _ ↦ none
  ]

  unfoldable pub comment_route : Text → Text → Request Json → Option Handler
  comment_route thread_id comment_id r = elim r.verb [
    | patch ↦
        registered provider.update_comment
          (λ f.
            with_path r.path (λ id. attempt (f id thread_id comment_id r.body) (reply 200 json)))
          none
    | delete ↦
        registered provider.delete_comment
          (λ f. with_path r.path (λ id. attempt (f id thread_id comment_id) ended)) none
    | _ ↦ none
  ]

  unfoldable pub decision_route : Text → Request Json → Option Handler
  decision_route thread_id r = elim r.verb [
    | post ↦
        registered provider.decide_suggestion
          (λ f. with_path r.path (λ id. attempt (f id thread_id r.body) (reply 200 json))) none
    | _ ↦ none
  ]

  -- The routes of `/documents/comments`.
  unfoldable pub threads_route : Request Json → Option Handler
  threads_route r = elim r.verb [
    | get ↦
        some
          (with_path r.path (λ id. attempt (provider.list_comment_threads id) (reply 200 threads)))
    | post ↦ some (
        with_path r.path
          (λ id. attempt (provider.create_comment_thread id r.body) (reply 201 json)))
    | _ ↦ none
  ]

  -- Mounted before the routes with a thread, which take over where it is not registered.
  unfoldable pub poll_route : Request Json → Option Handler
  poll_route r = elim r.verb [
    | get ↦
        registered provider.poll_comment_changes
          (λ f. with_path r.path (λ id. attempt (f id (text_or r.since)) (reply 200 json)))
          (thread_route (text "poll") r)
    | _ ↦ thread_route (text "poll") r
  ]

  unfoldable pub search_route : Request Json → Option Handler
  search_route r = elim r.verb [
    | get ↦
        registered provider.search_mentions
          (λ f.
            with_path r.path
              (λ id. attempt (f id (text_or r.q) (limit_of r.limit)) (reply 200 candidates)))
          none
    | _ ↦ none
  ]

  unfoldable pub capabilities_route : Request Json → Option Handler
  capabilities_route r = elim r.verb [
    | get ↦ some (attempt provider.capabilities (reply 200 json))
    | _ ↦ none
  ]

  -- The routes of two and of three segments below `/documents/comments`.
  unfoldable pub two_segments : Text → Text → Request Json → Option Handler
  two_segments a b r =
      if text_eq a (text "mentions") && text_eq b (text "search")
      then search_route r
      else if text_eq b (text "replies")
      then replies_route a r
      else if text_eq b (text "reactions")
      then reactions_route a r
      else none

  unfoldable pub three_segments : Text → Text → Text → Request Json → Option Handler
  three_segments a b c r =
      if text_eq b (text "comments")
      then comment_route a c r
      else if text_eq b (text "suggestion") && text_eq c (text "decision")
      then decision_route a r
      else none

  unfoldable pub below_comments : List Text → Request Json → Option Handler
  below_comments [] r = threads_route r
  below_comments (a ∷ []) r = if text_eq a (text "poll") then poll_route r else thread_route a r
  below_comments (a ∷ b ∷ []) r = two_segments a b r
  below_comments (a ∷ b ∷ c ∷ []) r = three_segments a b c r
  below_comments (a ∷ b ∷ c ∷ d ∷ rest) r = none

  -- The handler that the router finds; `none` where no route matches.
  unfoldable pub handler_for : Request Json → Option Handler
  handler_for r = elim r.segments [
    | [] ↦ none
    | a ∷ [] ↦ if text_eq a (text "capabilities") then capabilities_route r else none
    | a ∷ b ∷ rest ↦
        if text_eq a (text "documents") && text_eq b (text "comments")
        then below_comments rest r
        else none
  ]
