-- ===== src/Monitor/Redis.antt =====
-- The Redis server, which is not in the repository: its commands are a parameter, with what their
-- documentation says of the keys that the monitor and the workers use.
pub mod Keys
pub mod Elem
pub mod Memory
use mathlib.Core.List.{Perm}
use supercluster.Prelude.{
  ℕ, min, ◌≡◌, Bool, true, false, List, [], ◌∷◌, ◌++◌, Option, none, some, if◌then◌else◌,
}
use supercluster.Prelude.Text.{Str}
use supercluster.Prelude.Lists.{length}
use supercluster.Prelude.Dict.{Dict}
use supercluster.Prelude.Sets.{elem}
use supercluster.Monitor.Redis.Keys.{
  View, ListKey, SetKey, list_at, members_at, put_list, put_members, remove_last, without_last,
  last?, insert_member, put_owner, drop_owner,
}

pub record Redis : Type 1 where
  pub Db : Type 0
  pub view : Db → View
  -- LLEN, LRANGE 0 -1, HGETALL, SCARD, SMEMBERS
  pub llen : ListKey → Db → ℕ
  pub lrange : ListKey → Db → List Str
  pub hgetall : Db → Dict Str
  pub scard : SetKey → Db → ℕ
  pub smembers : SetKey → Db → List Str
  pub llen_reply : (k : ListKey) (db : Db) → llen k db ≡ length (list_at k (view db))
  pub lrange_reply : (k : ListKey) (db : Db) → lrange k db ≡ list_at k (view db)
  pub hgetall_reply : (db : Db) → hgetall db ≡ (view db).owners
  pub scard_reply : (k : SetKey) (db : Db) → scard k db ≡ length (members_at k (view db))
  pub smembers_reply : (k : SetKey) (db : Db) → smembers k db ≡ members_at k (view db)
  -- LPUSH key value
  pub lpush : ListKey → Str → Db → Db
  pub lpush_view :
      (k : ListKey) (x : Str) (db : Db)
      → view (lpush k x db) ≡ put_list k (x ∷ list_at k (view db)) (view db)
  -- LREM key -1 value: the last occurrence goes; the reply is how many went.
  pub lrem : ListKey → Str → Db → ℕ × Db
  pub lrem_reply :
      (k : ListKey) (x : Str) (db : Db)
      → (lrem k x db).0 ≡ (if elem x (list_at k (view db)) then 1 else 0)
  pub lrem_view :
      (k : ListKey) (x : Str) (db : Db)
      → view (lrem k x db).1 ≡ put_list k (remove_last x (list_at k (view db))) (view db)
  -- LMOVE source destination RIGHT LEFT, for two different keys
  pub lmove : ListKey → ListKey → Db → Option Str × Db
  pub lmove_reply : (s t : ListKey) (db : Db) → (lmove s t db).0 ≡ last? (list_at s (view db))
  pub lmove_view :
      (s t : ListKey) (db : Db)
      → view (lmove s t db).1 ≡ elim (last? (list_at s (view db))) [
        | none ↦ view db
        | some x ↦
            put_list t
              (x ∷ list_at t (view db))
              (put_list s (without_last (list_at s (view db))) (view db))
      ]
  -- LMOVE source destination LEFT LEFT
  pub lmove_left : ListKey → ListKey → Db → Option Str × Db
  pub lmove_left_reply :
      (s t : ListKey) (db : Db)
      → (lmove_left s t db).0 ≡ elim (list_at s (view db)) [ [] ↦ none | x ∷ _ ↦ some x ]
  pub lmove_left_view :
      (s t : ListKey) (db : Db)
      → view (lmove_left s t db).1 ≡ elim (list_at s (view db)) [
        | [] ↦ view db
        | x ∷ xs ↦ put_list t (x ∷ list_at t (view db)) (put_list s xs (view db))
      ]
  -- HSET, HDEL on the owners
  pub hset : Str → Str → Db → Db
  pub hset_view :
      (k v : Str) (db : Db)
      → view (hset k v db) ≡ record (view db) { owners = put_owner k v (view db).owners }
  pub hdel : Str → Db → Db
  pub hdel_view :
      (k : Str) (db : Db)
      → view (hdel k db) ≡ record (view db) { owners = drop_owner k (view db).owners }
  -- SADD key value, and SPOP key count: any members, as many as asked for or as there are
  pub sadd : SetKey → Str → Db → Db
  pub sadd_view :
      (k : SetKey) (x : Str) (db : Db)
      → view (sadd k x db) ≡ put_members k (insert_member x (members_at k (view db))) (view db)
  pub spop : SetKey → ℕ → Db → List Str × Db
  pub spop_reply :
      (k : SetKey) (n : ℕ) (db : Db)
      → length (spop k n db).0 ≡ min n (length (members_at k (view db)))
  pub spop_perm :
      (k : SetKey) (n : ℕ) (db : Db)
      → Perm (members_at k (view db)) ((spop k n db).0 ++ members_at k (view (spop k n db).1))
  pub spop_view :
      (k : SetKey) (n : ℕ) (db : Db)
      → view (spop k n db).1 ≡ put_members k (members_at k (view (spop k n db).1)) (view db)
