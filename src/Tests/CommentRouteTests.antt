-- ===== src/Tests/CommentRouteTests.antt =====
-- A comments provider without any of the optional methods.
use collab_editor.Prelude.{◌∷◌, ◌≡◌, refl, true, false, [], some, none, text, text_eq, ℕ}
use collab_editor.Provider.Processor.{ok, thrown}
use collab_editor.Provider.CommentRoutes.{
  CommentsProvider, Request, Handler, get, with_path, attempt, found, handler_for, below_comments,
  poll_route, thread_route, parse_int, skip_space, parse_digits, limit_of,
}
use collab_editor.Provider.CommentRoutes.Laws.{handler_for-IsGuarded, IsGuarded}

abbrev plain : CommentsProvider
plain = record {
  Json = ℕ;
  Store = ℕ;
  capabilities = λ s. (ok 1, s);
  list_comment_threads = λ id s. (ok s, s);
  create_comment_thread = λ id body s. (ok body, s);
  get_comment_thread = λ id thread_id s. (ok none, s);
  add_reply = λ id thread_id body s. (thrown (text "full"), s);
  update_thread_status = λ id thread_id body s. (ok body, s);
  delete_comment_thread = λ id thread_id s. (ok tt, s);
  search_mentions = none;
  poll_comment_changes = none;
  update_comment = none;
  delete_comment = none;
  add_reaction = none;
  remove_reaction = none;
  decide_suggestion = none;
}

abbrev poll_request : Request ℕ
poll_request = record {
  verb = get;
  segments = text "documents" ∷ text "comments" ∷ text "poll" ∷ [];
  path = some (text "a.md");
  q = none;
  limit = none;
  since = none;
  body = 0;
}

abbrev poll_handler : Handler plain
poll_handler =
    with_path plain (some (text "a.md"))
      (λ id. attempt plain (plain.get_comment_thread id (text "poll")) (found plain))

-- Without the method, a poll is taken for the thread "poll".
poll_is_a_thread : handler_for plain poll_request ≡ some poll_handler
unfolding handler_for below_comments poll_route thread_route text_eq
poll_is_a_thread = refl

handler_for-IsGuarded_example : IsGuarded plain (some (text "a.md")) poll_handler
handler_for-IsGuarded_example =
    handler_for-IsGuarded plain (text "poll" ∷ []) poll_request poll_handler refl poll_is_a_thread

-- `parseInt('0', 10) || 10`
limit_zero : limit_of (some (text "0")) ≡ record { negative = false; magnitude = 10 }
unfolding limit_of parse_int skip_space parse_digits
limit_zero = refl

limit_minus : limit_of (some (text " -5x")) ≡ record { negative = true; magnitude = 5 }
unfolding limit_of parse_int skip_space parse_digits
limit_minus = refl
