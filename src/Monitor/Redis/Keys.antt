-- ===== src/Monitor/Redis/Keys.antt =====
-- What the keys of the mission hold. The deployment gives the keys different names.
use supercluster.Prelude.{List, [], ◌∷◌, Option, none, some, if◌then◌else◌}
use supercluster.Prelude.Text.{Str, str_eq}
use supercluster.Prelude.Sets.{elem}
use supercluster.Prelude.Dict.{Dict}

-- JOB_QUEUE and PROGRESS_QUEUE
pub data ListKey : Type 0 where
  job_queue progress_queue : ListKey

-- SUCCESS_QUEUE, FAILED_QUEUE, METRICS and RETIRING
pub data SetKey : Type 0 where
  success_queue failed_queue metrics_key retiring_key : SetKey

-- The lists run from left to right, the sets are in any order, and the owners map jobs to pods.
pub record View : Type 0 where
  pub jobs : List Str
  pub progress : List Str
  pub owners : Dict Str
  pub succeeded : List Str
  pub failed : List Str
  pub metrics : List Str
  pub retiring : List Str

abbrev pub list_at : ListKey → View → List Str
list_at job_queue v = v.jobs
list_at progress_queue v = v.progress

abbrev pub put_list : ListKey → List Str → View → View
put_list job_queue l v = record v { jobs = l }
put_list progress_queue l v = record v { progress = l }

abbrev pub members_at : SetKey → View → List Str
members_at success_queue v = v.succeeded
members_at failed_queue v = v.failed
members_at metrics_key v = v.metrics
members_at retiring_key v = v.retiring

abbrev pub put_members : SetKey → List Str → View → View
put_members success_queue l v = record v { succeeded = l }
put_members failed_queue l v = record v { failed = l }
put_members metrics_key l v = record v { metrics = l }
put_members retiring_key l v = record v { retiring = l }

-- The list without the last occurrence of `x`.
unfoldable pub remove_last : Str → List Str → List Str
unfolding elem
remove_last x [] = []
remove_last x (y ∷ ys) =
    let rest = remove_last x ys in if elem x ys then y ∷ rest else if str_eq x y then ys else y ∷ ys

unfoldable pub last? : List Str → Option Str
last? [] = none
last? (x ∷ []) = some x
last? (x ∷ y ∷ l) = last? (y ∷ l)

unfoldable pub without_last : List Str → List Str
without_last [] = []
without_last (x ∷ []) = []
without_last (x ∷ y ∷ l) = x ∷ without_last (y ∷ l)

unfoldable pub insert_member : Str → List Str → List Str
unfolding elem
insert_member x l = if elem x l then l else x ∷ l

unfoldable pub drop_owner : Str → Dict Str → Dict Str
drop_owner k [] = []
drop_owner k ((j, v) ∷ d) = let rest = drop_owner k d in if str_eq k j then rest else (j, v) ∷ rest

unfoldable pub put_owner : Str → Str → Dict Str → Dict Str
unfolding drop_owner
put_owner k v d = (k, v) ∷ drop_owner k d
