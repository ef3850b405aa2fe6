-- ===== src/Gateway/Sessions.antt =====
-- `SessionMap` of server/gateway/src/state.rs: the sessions by user and session id, and the ids of
-- each user. A HashSet is the list of its members.
pub mod Agree
pub mod Registered
pub mod Interleaved
use tsod.Prelude.{
  ℕ, Bool, true, false, not, Option, none, some, List, [], ◌∷◌, ◌++◌, if◌then◌else◌, ◌==◌, length,
  retain, take,
}
use tsod.Prelude.Maps.{lookup, insert, remove, nat_key, pair_key}
use tsod.Prelude.Keys.{member, without}
use tsod.SendPolicy.{SendCtx}

pub record SessionMap : Type 0 where
  pub inner : List ((ℕ × ℕ) × SendCtx)
  pub user_index : List (ℕ × List ℕ)

unfoldable pub new : SessionMap
new = record { inner = []; user_index = [] }

-- `or_default`
abbrev pub ids_of : Option (List ℕ) → List ℕ
ids_of none = []
ids_of (some ids) = ids

-- `HashSet::insert`
unfoldable pub add_id : ℕ → List ℕ → List ℕ
add_id sid ids = if member sid ids then ids else ids ++ (sid ∷ [])

unfoldable pub index_session : List (ℕ × List ℕ) → ℕ → ℕ → List (ℕ × List ℕ)
unfolding add_id
index_session index user sid = insert user (add_id sid (ids_of (lookup user index))) index

unfoldable pub register : SessionMap → ℕ → ℕ → SendCtx → SessionMap
unfolding index_session
register m user sid tx = record {
  inner = insert (user, sid) tx m.inner;
  user_index = index_session m.user_index user sid;
}

-- The set of the user's ids without the session's, under the entry's lock, and whether it is empty.
unfoldable pub take_id : List (ℕ × List ℕ) → ℕ → ℕ → List (ℕ × List ℕ) × Bool
unfolding without
take_id index user sid = elim (lookup user index) [
  | none ↦ (index, false)
  | some ids ↦ (insert user (without sid ids) index, length (without sid ids) == 0)
]

unfoldable pub remove_from_user_index : List (ℕ × List ℕ) → ℕ → ℕ → List (ℕ × List ℕ)
unfolding take_id
remove_from_user_index index user sid =
    let (left, is_empty) = take_id index user sid in if is_empty then remove user left else left

unfoldable pub unregister : SessionMap → ℕ → ℕ → SessionMap
unfolding remove_from_user_index
unregister m user sid = record {
  inner = remove (user, sid) m.inner;
  user_index = remove_from_user_index m.user_index user sid;
}

-- The keys that are collected.
unfoldable pub keys_with : ℕ → List ((ℕ × ℕ) × SendCtx) → List (ℕ × ℕ)
keys_with sid [] = []
keys_with sid ((key, ctx) ∷ m) =
    let rest = keys_with sid m in if key.1 == sid then key ∷ rest else rest

unfoldable pub unregister_all : SessionMap → List (ℕ × ℕ) → SessionMap
unfolding unregister
unregister_all m [] = m
unregister_all m ((user, sid) ∷ keys) = unregister_all (unregister m user sid) keys

unfoldable pub unregister_by_session_id : SessionMap → ℕ → SessionMap
unfolding keys_with unregister_all
unregister_by_session_id m sid = unregister_all m (keys_with sid m.inner)

unfoldable pub has_user_sessions : SessionMap → ℕ → Bool
has_user_sessions m user = elim (lookup user m.user_index) [
  | none ↦ false
  | some ids ↦ not (length ids == 0)
]

abbrev pub is_pending : (ℕ × ℕ) × SendCtx → Bool
is_pending entry = entry.1.prune.pending

unfoldable pub pending_sessions : SessionMap → ℕ → List ((ℕ × ℕ) × SendCtx)
pending_sessions m max = take max (retain is_pending m.inner)

-- `any`
unfoldable pub any_pending : List ((ℕ × ℕ) × SendCtx) → Bool
any_pending [] = false
any_pending (entry ∷ m) = if is_pending entry then true else any_pending m

unfoldable pub has_pending : SessionMap → Bool
unfolding any_pending
has_pending m = any_pending m.inner

unfoldable pub pending_count : SessionMap → ℕ
pending_count m = length (retain is_pending m.inner)

abbrev pub found : ℕ → Option SendCtx → List (ℕ × SendCtx) → List (ℕ × SendCtx)
found sid none rest = rest
found sid (some ctx) rest = (sid, ctx) ∷ rest

-- The loop over the user's ids.
unfoldable pub sessions_of : List ((ℕ × ℕ) × SendCtx) → ℕ → List ℕ → List (ℕ × SendCtx)
sessions_of inner user [] = []
sessions_of inner user (sid ∷ ids) =
    found sid (lookup (user, sid) inner) (sessions_of inner user ids)

unfoldable pub get_sessions : SessionMap → ℕ → List (ℕ × SendCtx)
unfolding sessions_of
get_sessions m user = sessions_of m.inner user (ids_of (lookup user m.user_index))
