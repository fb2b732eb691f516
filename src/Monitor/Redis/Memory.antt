-- ===== src/Monitor/Redis/Memory.antt =====
-- A Redis in memory, which shows that the assumptions on the server can be met.
use mathlib.Core.List.Perm
use supercluster.Prelude.{
  ℕ, ◌≡◌, refl, arith, List, [], ◌∷◌, ◌++◌, Option, none, some, if◌then◌else◌,
}
use supercluster.Prelude.Text.{Str}
use supercluster.Prelude.Lists.{length, take, drop, length-take, take-append-drop}
use supercluster.Monitor.Redis.{Redis}
use supercluster.Prelude.Sets.{elem}
use supercluster.Monitor.Redis.Keys.{
  View, ListKey, SetKey, list_at, members_at, put_list, put_members, remove_last, without_last,
  last?, insert_member, put_owner, drop_owner, success_queue, failed_queue, metrics_key,
  retiring_key,
}
use mathlib.Core.List.{Perm}

abbrev move : ListKey → ListKey → View → Option Str × View
move s t v = elim (last? (list_at s v)) [
  | none ↦ (none, v)
  | some x ↦ (some x, put_list t (x ∷ list_at t v) (put_list s (without_last (list_at s v)) v))
]

abbrev move_left : ListKey → ListKey → View → Option Str × View
move_left s t v = elim (list_at s v) [
  | [] ↦ (none, v)
  | x ∷ xs ↦ (some x, put_list t (x ∷ list_at t v) (put_list s xs v))
]

pub move_reply : (s t : ListKey) (v : View) → (move s t v).0 ≡ last? (list_at s v)
move_reply s t v = ground arith

pub move_view :
    (s t : ListKey) (v : View)
    → (move s t v).1 ≡ elim (last? (list_at s v)) [
      | none ↦ v
      | some x ↦ put_list t (x ∷ list_at t v) (put_list s (without_last (list_at s v)) v)
    ]
move_view s t v = ground arith

pub move_left_reply :
    (s t : ListKey) (v : View)
    → (move_left s t v).0 ≡ elim (list_at s v) [ [] ↦ none | x ∷ _ ↦ some x ]
move_left_reply s t v = ground arith

pub move_left_view :
    (s t : ListKey) (v : View)
    → (move_left s t v).1
      ≡ elim (list_at s v) [ [] ↦ v | x ∷ xs ↦ put_list t (x ∷ list_at t v) (put_list s xs v) ]
move_left_view s t v = ground arith

abbrev pop : SetKey → ℕ → View → List Str × View
pop k n v = (take n (members_at k v), put_members k (drop n (members_at k v)) v)

members-put : (k : SetKey) (l : List Str) (v : View) → members_at k (put_members k l v) ≡ l
members-put success_queue l v = refl
members-put failed_queue l v = refl
members-put metrics_key l v = refl
members-put retiring_key l v = refl

pub pop_perm :
    (k : SetKey) (n : ℕ) (v : View)
    → Perm (members_at k v) ((pop k n v).0 ++ members_at k (pop k n v).1)
pop_perm k n v = rw (members-put, take-append-drop) (Perm.refl (members_at k v))

pub pop_view :
    (k : SetKey) (n : ℕ) (v : View) → (pop k n v).1 ≡ put_members k (members_at k (pop k n v).1) v
pop_view k n v = rw members-put

abbrev pub memory : Redis
memory = record {
  Db = View;
  view = λ v. v;
  llen = λ k v. length (list_at k v);
  lrange = λ k v. list_at k v;
  hgetall = λ v. v.owners;
  scard = λ k v. length (members_at k v);
  smembers = λ k v. members_at k v;
  llen_reply = λ k v. refl;
  lrange_reply = λ k v. refl;
  hgetall_reply = λ v. refl;
  scard_reply = λ k v. refl;
  smembers_reply = λ k v. refl;
  lpush = λ k x v. put_list k (x ∷ list_at k v) v;
  lpush_view = λ k x v. refl;
  lrem =
      λ k x v. (if elem x (list_at k v) then 1 else 0, put_list k (remove_last x (list_at k v)) v);
  lrem_reply = λ k x v. refl;
  lrem_view = λ k x v. refl;
  lmove = move;
  lmove_reply = move_reply;
  lmove_view = move_view;
  lmove_left = move_left;
  lmove_left_reply = move_left_reply;
  lmove_left_view = move_left_view;
  hset = λ k x v. record v { owners = put_owner k x v.owners };
  hset_view = λ k x v. refl;
  hdel = λ k v. record v { owners = drop_owner k v.owners };
  hdel_view = λ k v. refl;
  sadd = λ k x v. put_members k (insert_member x (members_at k v)) v;
  sadd_view = λ k x v. refl;
  spop = pop;
  spop_reply = λ k n v. length-take n (members_at k v);
  spop_perm = pop_perm;
  spop_view = pop_view;
}
