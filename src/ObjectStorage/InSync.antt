-- ===== src/ObjectStorage/InSync.antt =====
-- objectstorage/reconciler.go: two buckets are in sync by the objects that their pages list.
use native.Mathlib.Nat.{mod-add-mod}
use syncctl.Base.{
  ℕ, suc, ◌+◌, ◌%◌, ◌^◌, true, ◌&&◌, [], ◌∷◌, ◌++◌, ◌==◌, length, ◌≡◌, ◌↔◌, refl, sym, ap, ◌∙◌,
  arith, Text, Bool-cases, inl, inr,
}
use syncctl.Base.Result.{Result, ok, err}
use syncctl.Reconciler.Retry.{Outcome, succeeded, failed, cancelled}
use syncctl.ObjectStorage.{
  BucketListError, map_list_error, BucketOutcome, Page, Pages, Stats, Bucket, count_page,
  bucket_stats, size_of, start, tries, list_bucket, after_tries, compare_stats, with_lists,
  reconcile_buckets,
}

-- The objects of all pages, in their order, if there is no error among them.
pub data Lists : Pages → Page → Type 0 where
  no_more : Lists [] []
  more :
      {page objects : Page} {pages : Pages}
      → Lists pages objects
      → Lists (ok page ∷ pages) (page ++ objects)

abbrev pub total_size : Page → ℕ
total_size [] = 0
total_size (o ∷ objects) = size_of o + total_size objects

-- The number and the total size of objects, behind `count` objects of size `size`.
abbrev pub stats_behind : ℕ → ℕ → Page → Stats
stats_behind count size objects = (count + length objects, (size + total_size objects) % 2 ^ 64)

same_stats : (a b c d : ℕ) → a ≡ c → b ≡ d → ◌≡◌ {A = Stats} (a, b % 2 ^ 64) (c, d % 2 ^ 64)
same_stats a b c d h k = cc

count_page_lem :
    (page : Page) (count size : ℕ)
    → count_page page (count, size % 2 ^ 64) ≡ stats_behind count size page
unfolding count_page
count_page_lem [] count size =
    same_stats count size (count + 0) (size + 0) (omega arith) (omega arith)
count_page_lem (o ∷ page) count size = rw (mod-add-mod size (2 ^ 64) (size_of o)) (
    count_page_lem page (suc count) (size + size_of o)
    ∙ same_stats (suc count + length page) (size + size_of o + total_size page)
        (count + length (o ∷ page)) (size + total_size (o ∷ page)) (omega arith) (omega arith))

total_size-append : (a b : Page) → total_size (a ++ b) ≡ total_size a + total_size b
total_size-append [] b = omega arith
total_size-append (o ∷ a) b = omega (arith, total_size-append a b)

length-append : (a b : Page) → length (a ++ b) ≡ length a + length b
length-append [] b = omega arith
length-append (o ∷ a) b = omega (arith, length-append a b)

bucket_stats_lem :
    {pages : Pages} {objects : Page} (count size : ℕ)
    → Lists pages objects
    → bucket_stats pages (count, size % 2 ^ 64) ≡ ok (stats_behind count size objects)
unfolding bucket_stats
bucket_stats_lem count size no_more =
    ap ok (same_stats count size (count + 0) (size + 0) (omega arith) (omega arith))
bucket_stats_lem count size (more {page} {objects} rest) = rw (count_page_lem page count size) (
    bucket_stats_lem (count + length page) (size + total_size page) rest
    ∙ ap ok (
        same_stats (count + length page + length objects)
          (size + total_size page + total_size objects) (count + length (page ++ objects))
          (size + total_size (page ++ objects)) (omega (arith, length-append page objects))
          (omega (arith, total_size-append page objects))))

-- A listing without an error is the objects of its pages.
bucket_stats-Lists :
    (pages : Pages) (s out : Stats)
    → bucket_stats pages s ≡ ok out
    → (objects : Page) × Lists pages objects
unfolding bucket_stats
bucket_stats-Lists [] s out h = ([], no_more)
bucket_stats-Lists (err e ∷ pages) s out h = cc
bucket_stats-Lists (ok page ∷ pages) s out h =
    let (objects, rest) = bucket_stats-Lists pages (count_page page s) out h in
    (page ++ objects, more rest)

-- A bucket whose attempts end with a success lists these objects.
pub record Listed (b : Bucket) : Type 0 where
  pub objects : Page
  pub succeeds : (tries b).outcome ≡ succeeded
  pub listed : Lists (b.pages (tries b).calls) objects

pub record SameStats (primary replica : Bucket) : Type 0 where
  pub left : Listed primary
  pub right : Listed replica
  pub count : length left.objects ≡ length right.objects
  pub size : total_size left.objects % 2 ^ 64 ≡ total_size right.objects % 2 ^ 64

list_bucket_lem : (b : Bucket) → list_bucket b ≡ after_tries b (tries b).calls (tries b).outcome
unfolding list_bucket
list_bucket_lem b = refl

abbrev stats_of : Page → Stats
stats_of objects = (length objects, total_size objects % 2 ^ 64)

list_bucket-ok : (b : Bucket) (l : Listed b) → list_bucket b ≡ ok (stats_of l.objects)
list_bucket-ok b l =
    list_bucket_lem b
    ∙ ap (after_tries b (tries b).calls) l.succeeds
    ∙ ap map_list_error (bucket_stats_lem 0 0 l.listed)
    ∙ ap ok (
        same_stats (0 + length l.objects) (0 + total_size l.objects) (length l.objects)
          (total_size l.objects) (omega arith) (omega arith))

map_list_error-ok : (r : Result Text Stats) (s : Stats) → map_list_error r ≡ ok s → r ≡ ok s
map_list_error-ok (ok s') s h = cc
map_list_error-ok (err e) s h = cc

after_tries-Listed :
    (b : Bucket) (o : Outcome Text) (s : Stats)
    → (tries b).outcome ≡ o
    → after_tries b (tries b).calls o ≡ ok s
    → Listed b
after_tries-Listed b (failed x) s e h = cc
after_tries-Listed b cancelled s e h = cc
after_tries-Listed b succeeded s e h =
    let (objects, listed) =
      bucket_stats-Lists (b.pages (tries b).calls) start s (map_list_error-ok _ s h) in
    record { objects = objects; succeeds = e; listed = listed }

list_bucket-Listed : (b : Bucket) (s : Stats) → list_bucket b ≡ ok s → Listed b
list_bucket-Listed b s h =
    after_tries-Listed b (tries b).outcome s refl (sym (list_bucket_lem b) ∙ h)

compare_stats_iff :
    (p r : Stats) → ((compare_stats p r).in_sync ≡ true) ↔ ((p.0 ≡ r.0) × (p.1 ≡ r.1))
unfolding compare_stats
compare_stats_iff (c, s) (d, t) = elim (Bool-cases (c == d && s == t)) [
  | inl same ↦ rw same ((λ h. ground arith), λ h. refl)
  | inr not_same ↦ rw not_same ((λ h. cc), λ h. absurd (ground arith))
]

-- Lists that are compared and found equal are both there.
with_lists-ok :
    (p r : Result BucketListError Stats)
    → (with_lists p r).in_sync ≡ true
    → (a : Stats) × (b : Stats) × (p ≡ ok a) × (r ≡ ok b) × ((a.0 ≡ b.0) × (a.1 ≡ b.1))
with_lists-ok (err e) r h = cc
with_lists-ok (ok a) (err e) h = cc
with_lists-ok (ok a) (ok b) h = (a, b, refl, refl, (compare_stats_iff a b).0 h)

with_stats :
    (primary replica : Bucket)
    → (left : Listed primary) → (right : Listed replica)
    → with_lists (list_bucket primary) (list_bucket replica)
      ≡ compare_stats (stats_of left.objects) (stats_of right.objects)
with_stats primary replica left right =
    rw (list_bucket-ok primary left, list_bucket-ok replica right) refl

reconcile_buckets_lem :
    (primary replica : Bucket)
    → reconcile_buckets primary replica ≡ with_lists (list_bucket primary) (list_bucket replica)
unfolding reconcile_buckets
reconcile_buckets_lem primary replica = refl

ok_eq : {a b : Stats} → ◌≡◌ {A = Result BucketListError Stats} (ok a) (ok b) → a ≡ b
ok_eq h = cc

-- Two buckets are in sync exactly if an attempt at listing each of them succeeds, and the objects of their
-- pages are as many and have the same total size, on 64 bits.
pub reconcile_buckets_iff :
    (primary replica : Bucket)
    → ((reconcile_buckets primary replica).in_sync ≡ true) ↔ SameStats primary replica
reconcile_buckets_iff primary replica = rw (reconcile_buckets_lem primary replica) (
    (
      λ h.
          let (a, b, p, r, same) = with_lists-ok (list_bucket primary) (list_bucket replica) h in
          let left = list_bucket-Listed primary a p in
          let right = list_bucket-Listed replica b r in
          let p' = ok_eq (sym p ∙ list_bucket-ok primary left) in
          let r' = ok_eq (sym r ∙ list_bucket-ok replica right) in
          let (counts, sizes) = rw (p', r') at same in
          record { left = left; right = right; count = counts; size = sizes },
      λ s.
          ap (λ (o : BucketOutcome). o.in_sync) (with_stats primary replica s.left s.right)
          ∙ (compare_stats_iff (stats_of s.left.objects) (stats_of s.right.objects)).1
              (s.count, s.size),
    ))
