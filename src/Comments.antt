-- ===== src/Comments.antt =====
-- `CommentEngine` of frontend/src/collab/comment-engine.ts: the threads in a shared map, and what is
-- kept about their persistence.
pub mod Threads
pub mod Mentions
pub mod Persist
pub mod Poll
pub mod Anchors
use native.Mathlib.Decide.{ℕ_discrete}
use collab_editor.Prelude.{
  ℕ, ◌+◌, ◌*◌, ◌-◌, Bool, true, false, not, ◌&&◌, List, [], ◌∷◌, ◌++◌, Option, none, some, length,
  Text, text, ltb, leb, if◌then◌else◌,
}
use collab_editor.Prelude.Maps.{lookup, insert, erase, has, add}
use collab_editor.Interfaces.{
  CommentAnchor, Comment, Mention, Reaction, Suggestion, ThreadStatus, opened, resolved,
  CommentsCapabilities,
}

-- A thread in the map. A missing list of reactions is the empty list.
pub record StoredThread : Type 0 where
  pub anchor : CommentAnchor
  pub start_rel : Option Text
  pub end_rel : Option Text
  pub status : ThreadStatus
  pub resolved_by : Option Text
  pub resolved_at : Option Text
  pub suggestion : Option Suggestion
  pub comments : List Comment
  pub reactions : List Reaction
  pub created_at : Text

-- Equality of two threads, which the source decides on their JSON.
pub StoredThread-discrete : Discrete StoredThread
StoredThread-discrete = hlevel ℕ_discrete

pub record Config : Type 0 where
  pub document_id : Text
  pub user_id : Text
  pub user_name : Text
  pub poll_interval_ms : ℕ
  pub persist_enabled : Bool

-- The fields of the engine. The last persisted thread stands for its JSON; of a timer it is kept
-- whether it is set, and of the listeners how often they were notified.
pub record CommentEngine : Type 0 where
  pub ymap : List (Text × StoredThread)
  pub dirty : List Text
  pub last_persisted : List (Text × StoredThread)
  pub retry_count : List (Text × ℕ)
  pub capabilities : Option CommentsCapabilities
  pub persist_timer : Bool
  pub poll_timer : Bool
  pub last_poll_at : Option Text
  pub notifications : ℕ

abbrev pub new_comment_engine :
    Option CommentsCapabilities → List (Text × StoredThread) → CommentEngine
new_comment_engine capabilities ymap = record {
  ymap = ymap;
  dirty = [];
  last_persisted = [];
  retry_count = [];
  capabilities = capabilities;
  persist_timer = false;
  poll_timer = false;
  last_poll_at = none;
  notifications = 0;
}

-- The origin of a mutation of the map: polling reconciliation, or the user.
pub data Origin : Type 0 where
  poll_origin user_origin : Origin

-- `_schedulePersist`: a pending timer is replaced.
unfoldable pub schedule_persist : CommentEngine → CommentEngine
schedule_persist e = record e { persist_timer = true }

module _ (config : Config) where
  -- The `observeDeep` handler, for a transaction that touches one key.
  unfoldable pub observe : Origin → Text → CommentEngine → CommentEngine
  observe poll_origin key e = record e { notifications = e.notifications + 1 }
  observe user_origin key e = record e {
    notifications = e.notifications + 1;
    dirty = add key e.dirty;
    persist_timer = (if config.persist_enabled then true else e.persist_timer);
  }

  -- `transact(() => ymap.set(key, thread), origin)`
  unfoldable pub write : Origin → Text → StoredThread → CommentEngine → CommentEngine
  unfolding observe
  write origin key thread e = observe origin key (record e { ymap = insert key thread e.ymap })

  -- `transact(() => ymap.delete(key), origin)`: no event where the key is absent.
  unfoldable pub drop_key : Origin → Text → CommentEngine → CommentEngine
  unfolding observe
  drop_key origin key e =
      if has key e.ymap then observe origin key (record e { ymap = erase key e.ymap }) else e

  -- `mutator` returns `none` where the source's returns the thread itself.
  unfoldable pub mutate_thread :
      Text → (StoredThread → Option StoredThread) → CommentEngine → CommentEngine
  unfolding write
  mutate_thread thread_id mutator e = elim (lookup thread_id e.ymap) [
    | none ↦ e
    | some existing ↦ elim (mutator existing) [
      | none ↦ e
      | some next ↦ write user_origin thread_id next e
    ]
  ]

-- `new TextEncoder().encode(content).length`: a surrogate pair takes four bytes, a lone surrogate
-- the three of the replacement character.
unfoldable pub utf8_length : Text → ℕ
utf8_length [] = 0
utf8_length (c ∷ []) = if ltb c 0x80 then 1 else if ltb c 0x800 then 2 else 3
utf8_length (c ∷ d ∷ s) =
    let after_pair = 4 + utf8_length s in
    let after_one =
      (if ltb c 0x80 then 1 else if ltb c 0x800 then 2 else 3) + utf8_length (d ∷ s) in
    if leb 0xd800 c && ltb c 0xdc00 && leb 0xdc00 d && ltb d 0xe000 then after_pair else after_one

unfoldable pub size_limit : CommentEngine → ℕ
size_limit e = elim e.capabilities [ none ↦ 10 * 1024 | some c ↦ c.max_comment_size ]

-- Whether `_enforceSize` lets the content pass.
unfoldable pub fits : CommentEngine → Text → Bool
unfolding size_limit
fits e content = leb (utf8_length content) (size_limit e)

-- What a call that may throw does: `none` is the size error.
pub data Attempt (A : Type 0) : Type 0 where
  returned : A → Attempt A
  size_error : Attempt A
