-- ===== src/StampIssuer/Tests.antt =====
-- The theorems on the issuer at a concrete one (pkg/postage/stampissuer.go).
use sana.Common.{ℕ, ◌≡◌, refl, false, some, [], ◌∷◌, arith}
use sana.Common.Int.{pos}
use sana.StampIssuer.Index.{index_to_bytes}
use sana.StampIssuer.State.{StampIssuer, to_bucket, issued, inc, count_up}
use sana.StampIssuer.Counting.{Issued, inc-Issued}
use sana.StampIssuer.Buckets.{IsSound}

abbrev issuer : StampIssuer
issuer = record {
  label = [];
  key_id = [];
  batch_id = [];
  batch_amount = pos 0;
  batch_depth = 3;
  bucket_depth = 2;
  buckets = 0 ∷ 1 ∷ 2 ∷ 0 ∷ [];
  max_bucket_count = 2;
  block_number = 0;
  immutable_flag = false;
}

issuer-IsSound : IsSound issuer
issuer-IsSound = record { fullest = refl; fits = omega arith; numbered = omega arith }

second_bucket : inc (64 ∷ 0 ∷ 0 ∷ 0 ∷ []) issuer ≡ issued (index_to_bytes 1 1) (count_up 1 1 issuer)
unfolding inc to_bucket
second_bucket = refl

inc-Issued_example :
    (b : ℕ) × (to_bucket 2 (64 ∷ 0 ∷ 0 ∷ 0 ∷ []) ≡ some b)
    × Issued b (index_to_bytes 1 1) issuer (count_up 1 1 issuer)
inc-Issued_example =
    inc-Issued issuer (count_up 1 1 issuer) (64 ∷ 0 ∷ 0 ∷ 0 ∷ []) (index_to_bytes 1 1)
      issuer-IsSound second_bucket

abbrev shallow : StampIssuer
shallow = record issuer { batch_depth = 1 }
