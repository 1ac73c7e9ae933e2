-- ===== src/Tests/ObjectStorage.antt =====
-- Two buckets of objectstorage/reconciler.go with the same objects on other pages.
use syncctl.Base.{ℕ, zero, suc, true, false, none, some, [], ◌∷◌, ◌≡◌, ◌↔◌, refl, codes}
use syncctl.Base.Result.{ok, err}
use syncctl.ObjectStorage.{Pages, Bucket, buckets_match, reconcile_buckets}
use syncctl.ObjectStorage.InSync.{SameStats, reconcile_buckets_iff}

-- The first attempt fails on its second page.
abbrev second_try : ℕ → Pages
second_try zero = []
second_try (suc zero) = ok (some 5 ∷ []) ∷ err (codes "timeout") ∷ []
second_try (suc (suc n)) = ok (some 5 ∷ none ∷ []) ∷ ok (some 7 ∷ []) ∷ []

abbrev slow_bucket : Bucket
slow_bucket = record { pages = second_try; done = λ n. false }

abbrev one_page : Bucket
one_page = record { pages = λ n. ok (some 7 ∷ some 5 ∷ some 0 ∷ []) ∷ []; done = λ n. false }

both_match :
    reconcile_buckets slow_bucket one_page
    ≡ record { in_sync = true; detail = buckets_match (3, 12); remaining = 0 }
unfolding reconcile_buckets
both_match = refl

reconcile_buckets_iff_example :
    ((reconcile_buckets slow_bucket one_page).in_sync ≡ true) ↔ SameStats slow_bucket one_page
reconcile_buckets_iff_example = reconcile_buckets_iff slow_bucket one_page
