-- ===== src/ObjectStorage.antt =====
-- internal/reconciler/objectstorage/reconciler.go: the comparison of two buckets. An `int64` of sizes
-- stands for its residue, which decides equality; objects are counted without a bound.
pub mod InSync
use syncctl.Base.{
  ℕ, suc, ◌+◌, ◌-◌, ◌%◌, ◌^◌, Bool, true, false, ◌&&◌, Option, none, some, List, [], ◌∷◌, ◌==◌,
  Text, if◌then◌else◌,
}
use syncctl.Base.Int.{ℤ, pos}
use syncctl.Base.Result.{Result, ok, err}
use syncctl.Config.Types.{Duration, S3Config}
use syncctl.Reconciler.Retry.{Outcome, succeeded, failed, cancelled, Run, retry}

-- The sizes of the objects of a page; an object may come without one.
abbrev pub Page : Type 0
Page = List (Option ℕ)

-- What the paginator gives until it has no more pages; an error ends it.
abbrev pub Pages : Type 0
Pages = List (Result Text Page)

-- The number of the objects, and their total size.
abbrev pub Stats : Type 0
Stats = ℕ × ℕ

abbrev pub size_of : Option ℕ → ℕ
size_of none = 0
size_of (some n) = n

-- The loop over the objects of a page.
unfoldable pub count_page : Page → Stats → Stats
count_page [] s = s
count_page (o ∷ page) (count, size) = count_page page (suc count, (size + size_of o) % 2 ^ 64)

-- `bucketStats`, from the counters on
unfoldable pub bucket_stats : Pages → Stats → Result Text Stats
unfolding count_page
bucket_stats [] s = ok s
bucket_stats (err e ∷ pages) s = err e
bucket_stats (ok page ∷ pages) s = bucket_stats pages (count_page page s)

-- A bucket as its answers to the attempts at listing it, and whether the context is done behind them.
pub record Bucket : Type 0 where
  pub pages : ℕ → Pages
  pub done : ℕ → Bool

abbrev error_of : Result Text Stats → Option Text
error_of (ok s) = none
error_of (err e) = some e

abbrev pub start : Stats
start = (0, 0)

-- The call of `Retry`.
unfoldable pub tries : Bucket → Run Text
unfolding retry bucket_stats
tries b =
    retry (λ n. error_of (bucket_stats (b.pages n) start)) b.done (pos 10000000000) (pos 3)
      (pos 2000000000)

pub data BucketListError : Type 0 where
  list_failed : Text → BucketListError
  list_cancelled : BucketListError

abbrev pub map_list_error : Result Text Stats → Result BucketListError Stats
map_list_error (ok s) = ok s
map_list_error (err e) = err (list_failed e)

-- What the variables hold behind the last call.
abbrev pub after_tries : Bucket → ℕ → Outcome Text → Result BucketListError Stats
after_tries b calls succeeded = map_list_error (bucket_stats (b.pages calls) start)
after_tries b calls (failed e) = err (list_failed e)
after_tries b calls cancelled = err list_cancelled

unfoldable pub list_bucket : Bucket → Result BucketListError Stats
unfolding tries
list_bucket b = let r = tries b in after_tries b r.calls r.outcome

-- `Detail`, as a value
pub data BucketDetail : Type 0 where
  primary_list replica_list : BucketListError → BucketDetail
  buckets_match : Stats → BucketDetail
  drift : Stats → Stats → BucketDetail

-- `Result`
pub record BucketOutcome : Type 0 where
  pub in_sync : Bool
  pub detail : BucketDetail
  pub remaining : ℕ

-- The remaining objects are the distance of the counts.
unfoldable pub compare_stats : Stats → Stats → BucketOutcome
compare_stats (p_count, p_size) (r_count, r_size) =
    if p_count == r_count && p_size == r_size
    then record { in_sync = true; detail = buckets_match (p_count, p_size); remaining = 0 }
    else record {
      in_sync = false;
      detail = drift (p_count, p_size) (r_count, r_size);
      remaining = (p_count - r_count) + (r_count - p_count);
    }

abbrev pub with_replica : Stats → Result BucketListError Stats → BucketOutcome
with_replica p (err e) = record { in_sync = false; detail = replica_list e; remaining = 1 }
with_replica p (ok r) = compare_stats p r

abbrev pub with_lists : Result BucketListError Stats → Result BucketListError Stats → BucketOutcome
with_lists (err e) replica = record { in_sync = false; detail = primary_list e; remaining = 1 }
with_lists (ok p) replica = with_replica p replica

-- `Reconcile`
unfoldable pub reconcile_buckets : Bucket → Bucket → BucketOutcome
unfolding list_bucket compare_stats
reconcile_buckets primary replica = with_lists (list_bucket primary) (list_bucket replica)

pub data BucketError : Type 0 where
  no_primary : BucketError
  primary_client replica_client : Text → BucketError

-- `Reconciler`, with what stands for a client
pub record BucketReconciler (L : Type 0) : Type 0 where
  pub primary : L
  pub replica : L
  pub lag_threshold : Duration

abbrev or_primary : S3Config → Option S3Config → S3Config
or_primary primary none = primary
or_primary primary (some s) = s

module _ {L : Type 0} (new_s3_client : S3Config → Text → Result Text L) where
  abbrev pub with_replica_client :
      S3Config → L → Result Text L → Result BucketError (BucketReconciler L)
  with_replica_client cfg p (err e) = err (replica_client e)
  with_replica_client cfg p (ok r) =
      ok (record { primary = p; replica = r; lag_threshold = cfg.replication_lag })

  abbrev pub with_primary_client :
      S3Config → Option S3Config → Result Text L → Result BucketError (BucketReconciler L)
  with_primary_client cfg secondary (err e) = err (primary_client e)
  with_primary_client cfg secondary (ok p) =
      let rep = or_primary cfg secondary in
      with_replica_client cfg p (new_s3_client rep rep.replica_bucket)

  -- `New`
  unfoldable pub new_buckets :
      Option S3Config → Option S3Config → Result BucketError (BucketReconciler L)
  new_buckets none secondary = err no_primary
  new_buckets (some cfg) secondary =
      with_primary_client cfg secondary (new_s3_client cfg cfg.primary_bucket)
