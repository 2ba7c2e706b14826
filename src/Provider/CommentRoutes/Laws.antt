-- ===== src/Provider/CommentRoutes/Laws.antt =====
-- How the routes of the comments provider answer.
use collab_editor.Prelude.{
  ℕ, ◌≡◌, refl, ◌⊎◌, inl, inr, Bool, true, false, ◌&&◌, List, [], ◌∷◌, Option, none, some, Text,
  text, text_eq, if◌then◌else◌,
}
use collab_editor.Provider.Processor.{Result, ok, thrown}
use collab_editor.Provider.CommentRoutes.{
  CommentsProvider, Request, Verb, get, post, patch, delete, Response, Handler, answered, reply,
  ended, found, attempt, bad_request, with_path, registered, thread_route, replies_route,
  reactions_route, comment_route, decision_route, threads_route, poll_route, search_route,
  two_segments, three_segments, below_comments, handler_for, json, threads, candidates, limit_of,
  text_or,
}

-- The query parameter `path` is missing or empty.
abbrev pub lacks_path : Option Text → Bool
lacks_path none = true
lacks_path (some []) = true
lacks_path (some (c ∷ path)) = false

-- The status of an answer to a request with a path.
abbrev pub IsAnswer : ℕ → Type 0
IsAnswer status =
    (status ≡ 200) ⊎ ((status ≡ 201) ⊎ ((status ≡ 204) ⊎ ((status ≡ 404) ⊎ (status ≡ 500))))

module _ (provider : CommentsProvider) where
  open provider use {Json, Store}

  -- Without a path the request is refused and reaches the provider not at all, with one it is
  -- answered.
  abbrev pub IsGuarded : Option Text → Handler provider → Type 0
  IsGuarded path handler =
      (store : Store)
      → ((lacks_path path ≡ true) × (handler store ≡ bad_request provider store))
        ⊎ ((lacks_path path ≡ false) × IsAnswer (handler store).0.status)

  abbrev IsGuardedRoute : Option Text → Option (Handler provider) → Type 0
  IsGuardedRoute path none = Unit
  IsGuardedRoute path (some handler) = IsGuarded path handler

  attempt-IsAnswer :
      {A : Type 0} (action : Store → Result A × Store) (f : A → Response provider)
      → ((a : A) → IsAnswer (f a).status)
      → (store : Store) → IsAnswer (attempt provider action f store).0.status
  unfolding attempt
  attempt-IsAnswer action f h store = go (action store).0
    where
      go : (r : Result _) → IsAnswer (answered provider f r).status
      go (thrown e) = inr (inr (inr (inr refl)))
      go (ok a) = h a

  with_path-IsGuarded :
      {A : Type 0} (path : Option Text) (action : Text → Store → Result A × Store)
      (f : A → Response provider)
      → ((a : A) → IsAnswer (f a).status)
      → IsGuarded path (with_path provider path (λ id. attempt provider (action id) f))
  unfolding with_path
  with_path-IsGuarded none action f h store = inl (refl, refl)
  with_path-IsGuarded (some []) action f h store = inl (refl, refl)
  with_path-IsGuarded (some (c ∷ path)) action f h store =
      inr (refl, attempt-IsAnswer (action (c ∷ path)) f h store)

  registered-IsGuardedRoute :
      {A : Type 0} (path : Option Text) (method : Option A) (handler : A → Handler provider)
      (next : Option (Handler provider))
      → ((f : A) → IsGuarded path (handler f))
      → IsGuardedRoute path next
      → IsGuardedRoute path (registered provider method handler next)
  registered-IsGuardedRoute path none handler next h k = k
  registered-IsGuardedRoute path (some f) handler next h k = h f

  found-IsAnswer : (value : Option Json) → IsAnswer (found provider value).status
  found-IsAnswer none = inr (inr (inr (inl refl)))
  found-IsAnswer (some value) = inl refl

  if-IsGuardedRoute :
      (b : Bool) (path : Option Text) (x y : Option (Handler provider))
      → IsGuardedRoute path x
      → IsGuardedRoute path y
      → IsGuardedRoute path (if b then x else y)
  if-IsGuardedRoute true path x y h k = h
  if-IsGuardedRoute false path x y h k = k

  thread_route-IsGuardedRoute :
      (v : Verb) (id : Text) (r : Request Json)
      → IsGuardedRoute r.path (thread_route provider id record r { verb = v })
  unfolding thread_route
  thread_route-IsGuardedRoute get thread_id r =
      with_path-IsGuarded r.path (λ id. provider.get_comment_thread id thread_id) (found provider)
        found-IsAnswer
  thread_route-IsGuardedRoute patch thread_id r =
      with_path-IsGuarded r.path (λ id. provider.update_thread_status id thread_id r.body)
        (reply provider 200 json) (λ a. inl refl)
  thread_route-IsGuardedRoute delete thread_id r =
      with_path-IsGuarded r.path (λ id. provider.delete_comment_thread id thread_id)
        (ended provider) (λ a. inr (inr (inl refl)))
  thread_route-IsGuardedRoute post thread_id r = tt

  replies_route-IsGuardedRoute :
      (v : Verb) (a : Text) (r : Request Json)
      → IsGuardedRoute r.path (replies_route provider a record r { verb = v })
  unfolding replies_route
  replies_route-IsGuardedRoute post a r =
      with_path-IsGuarded r.path (λ id. provider.add_reply id a r.body) (reply provider 201 json)
        (λ a. inr (inl refl))
  replies_route-IsGuardedRoute get a r = tt
  replies_route-IsGuardedRoute patch a r = tt
  replies_route-IsGuardedRoute delete a r = tt

  reactions_route-IsGuardedRoute :
      (v : Verb) (a : Text) (r : Request Json)
      → IsGuardedRoute r.path (reactions_route provider a record r { verb = v })
  unfolding reactions_route
  reactions_route-IsGuardedRoute post a r =
      registered-IsGuardedRoute r.path provider.add_reaction
        (λ f. with_path provider r.path (λ id. attempt provider (f id a r.body) (ended provider)))
        none
        (λ f.
          with_path-IsGuarded r.path (λ id. f id a r.body) (ended provider)
            (λ a. inr (inr (inl refl))))
        tt
  reactions_route-IsGuardedRoute delete a r =
      registered-IsGuardedRoute r.path provider.remove_reaction
        (λ f. with_path provider r.path (λ id. attempt provider (f id a r.body) (ended provider)))
        none
        (λ f.
          with_path-IsGuarded r.path (λ id. f id a r.body) (ended provider)
            (λ a. inr (inr (inl refl))))
        tt
  reactions_route-IsGuardedRoute get a r = tt
  reactions_route-IsGuardedRoute patch a r = tt

  comment_route-IsGuardedRoute :
      (v : Verb) (a b : Text) (r : Request Json)
      → IsGuardedRoute r.path (comment_route provider a b record r { verb = v })
  unfolding comment_route
  comment_route-IsGuardedRoute patch a b r =
      registered-IsGuardedRoute r.path provider.update_comment
        (λ f.
          with_path provider r.path
            (λ id. attempt provider (f id a b r.body) (reply provider 200 json)))
        none
        (λ f.
          with_path-IsGuarded r.path (λ id. f id a b r.body) (reply provider 200 json)
            (λ a. inl refl))
        tt
  comment_route-IsGuardedRoute delete a b r =
      registered-IsGuardedRoute r.path provider.delete_comment
        (λ f. with_path provider r.path (λ id. attempt provider (f id a b) (ended provider))) none
        (λ f.
          with_path-IsGuarded r.path (λ id. f id a b) (ended provider) (λ a. inr (inr (inl refl))))
        tt
  comment_route-IsGuardedRoute get a b r = tt
  comment_route-IsGuardedRoute post a b r = tt

  decision_route-IsGuardedRoute :
      (v : Verb) (a : Text) (r : Request Json)
      → IsGuardedRoute r.path (decision_route provider a record r { verb = v })
  unfolding decision_route
  decision_route-IsGuardedRoute post a r =
      registered-IsGuardedRoute r.path provider.decide_suggestion
        (λ f.
          with_path provider r.path
            (λ id. attempt provider (f id a r.body) (reply provider 200 json)))
        none
        (λ f.
          with_path-IsGuarded r.path (λ id. f id a r.body) (reply provider 200 json)
            (λ a. inl refl))
        tt
  decision_route-IsGuardedRoute get a r = tt
  decision_route-IsGuardedRoute patch a r = tt
  decision_route-IsGuardedRoute delete a r = tt

  search_route-IsGuardedRoute :
      (v : Verb) (r : Request Json)
      → IsGuardedRoute r.path (search_route provider record r { verb = v })
  unfolding search_route
  search_route-IsGuardedRoute get r =
      registered-IsGuardedRoute r.path provider.search_mentions
        (λ f. with_path provider r.path (λ id.
          attempt provider (f id (text_or provider r.q) (limit_of r.limit))
            (reply provider 200 candidates)))
        none
        (λ f.
          with_path-IsGuarded r.path (λ id. f id (text_or provider r.q) (limit_of r.limit))
            (reply provider 200 candidates) (λ a. inl refl))
        tt
  search_route-IsGuardedRoute post r = tt
  search_route-IsGuardedRoute patch r = tt
  search_route-IsGuardedRoute delete r = tt

  threads_route-IsGuardedRoute :
      (v : Verb) (r : Request Json)
      → IsGuardedRoute r.path (threads_route provider record r { verb = v })
  unfolding threads_route
  threads_route-IsGuardedRoute get r =
      with_path-IsGuarded r.path (λ id. provider.list_comment_threads id)
        (reply provider 200 threads) (λ a. inl refl)
  threads_route-IsGuardedRoute post r =
      with_path-IsGuarded r.path (λ id. provider.create_comment_thread id r.body)
        (reply provider 201 json) (λ a. inr (inl refl))
  threads_route-IsGuardedRoute patch r = tt
  threads_route-IsGuardedRoute delete r = tt

  poll_route-IsGuardedRoute :
      (v : Verb) (r : Request Json)
      → IsGuardedRoute r.path (poll_route provider record r { verb = v })
  unfolding poll_route
  poll_route-IsGuardedRoute get r =
      registered-IsGuardedRoute r.path provider.poll_comment_changes
        (λ f.
          with_path provider r.path
            (λ id. attempt provider (f id (text_or provider r.since)) (reply provider 200 json)))
        (thread_route provider (text "poll") record r { verb = get })
        (λ f.
          with_path-IsGuarded r.path (λ id. f id (text_or provider r.since))
            (reply provider 200 json) (λ a. inl refl))
        (thread_route-IsGuardedRoute get (text "poll") r)
  poll_route-IsGuardedRoute post r = thread_route-IsGuardedRoute post (text "poll") r
  poll_route-IsGuardedRoute patch r = thread_route-IsGuardedRoute patch (text "poll") r
  poll_route-IsGuardedRoute delete r = thread_route-IsGuardedRoute delete (text "poll") r

  below_comments-IsGuardedRoute :
      (segments : List Text) (r : Request Json)
      → IsGuardedRoute r.path (below_comments provider segments r)
  unfolding below_comments two_segments three_segments
  below_comments-IsGuardedRoute [] r = threads_route-IsGuardedRoute r.verb r
  below_comments-IsGuardedRoute (a ∷ []) r =
      if-IsGuardedRoute (text_eq a (text "poll")) r.path (poll_route provider r)
        (thread_route provider a r) (poll_route-IsGuardedRoute r.verb r)
        (thread_route-IsGuardedRoute r.verb a r)
  below_comments-IsGuardedRoute (a ∷ b ∷ []) r =
      if-IsGuardedRoute (text_eq a (text "mentions") && text_eq b (text "search")) r.path _ _
        (search_route-IsGuardedRoute r.verb r)
        (if-IsGuardedRoute (text_eq b (text "replies")) r.path _ _
          (replies_route-IsGuardedRoute r.verb a r)
          (if-IsGuardedRoute (text_eq b (text "reactions")) r.path _ _
            (reactions_route-IsGuardedRoute r.verb a r) tt))
  below_comments-IsGuardedRoute (a ∷ b ∷ c ∷ []) r =
      if-IsGuardedRoute (text_eq b (text "comments")) r.path _ _
        (comment_route-IsGuardedRoute r.verb a c r)
        (if-IsGuardedRoute (text_eq b (text "suggestion") && text_eq c (text "decision")) r.path _ _
          (decision_route-IsGuardedRoute r.verb a r) tt)
  below_comments-IsGuardedRoute (a ∷ b ∷ c ∷ d ∷ rest) r = tt

  -- Whatever handler the router finds below /documents/comments: a request without a path is refused
  -- with 400 and does not reach the provider; any other is answered with 200, 201 or 204, with 404
  -- for a thread that is not there, or with 500.
  pub handler_for-IsGuarded :
      (rest : List Text) (r : Request Json) (handler : Handler provider)
      → r.segments ≡ text "documents" ∷ text "comments" ∷ rest
      → handler_for provider r ≡ some handler
      → IsGuarded r.path handler
  unfolding handler_for text_eq
  handler_for-IsGuarded rest r handler e h =
      let k : below_comments provider rest r ≡ some handler = rw (handler_for, e) at h in
      rw k at (below_comments-IsGuardedRoute rest r)
