-- ===== src/StampIssuer/State.antt =====
-- `StampIssuer` and inc (pkg/postage/stampissuer.go). Counts are uint32, depths uint8.
use sana.Common.{
  ℕ, ◌+◌, ◌-◌, ◌/◌, ◌%◌, ◌^◌, Bool, Option, none, some, List, ◌∷◌, ltb, ◌==◌, if◌then◌else◌,
  get_elem?, set, replicate,
}
use sana.Common.Word.{u8_mod}
use sana.Common.Int.{ℤ}
use sana.StampIssuer.Index.{u32_mod, get32, index_to_bytes}

pub record StampIssuer : Type 0 where
  pub label : List ℕ
  pub key_id : List ℕ
  pub batch_id : List ℕ
  pub batch_amount : ℤ
  pub batch_depth : ℕ
  pub bucket_depth : ℕ
  pub buckets : List ℕ
  pub max_bucket_count : ℕ
  pub block_number : ℕ
  pub immutable_flag : Bool

unfoldable pub new_stamp_issuer : List ℕ → List ℕ → List ℕ → ℤ → ℕ → ℕ → ℕ → Bool → StampIssuer
new_stamp_issuer label key_id batch_id amount batch_depth bucket_depth block_number immutable =
    record {
      label = label;
      key_id = key_id;
      batch_id = batch_id;
      batch_amount = amount;
      batch_depth = batch_depth;
      bucket_depth = bucket_depth;
      buckets = replicate (2 ^ bucket_depth) 0;
      max_bucket_count = 0;
      block_number = block_number;
      immutable_flag = immutable;
    }

-- a - b on uint8
abbrev pub minus8 : ℕ → ℕ → ℕ
minus8 a b = (a + (u8_mod - b)) % u8_mod

-- The bucket of an address; `none` for the panic on fewer than four bytes.
unfoldable pub to_bucket : ℕ → List ℕ → Option ℕ
to_bucket depth (a ∷ b ∷ c ∷ d ∷ _) = some (get32 a b c d / 2 ^ minus8 32 depth)
to_bucket depth _ = none

-- 1 << (Depth - BucketDepth) on uint32
abbrev pub bucket_size : StampIssuer → ℕ
bucket_size si = 2 ^ minus8 si.batch_depth si.bucket_depth % u32_mod

-- What inc does: it panics, finds the bucket full, or gives an index and the new issuer.
pub data Issue : Type 0 where
  panics : Issue
  bucket_full : Issue
  issued : List ℕ → StampIssuer → Issue

abbrev pub count_up : ℕ → ℕ → StampIssuer → StampIssuer
count_up b count si =
    let more = (count + 1) % u32_mod in
    record si {
      buckets = set si.buckets b more;
      max_bucket_count = if ltb si.max_bucket_count more then more else si.max_bucket_count;
    }

abbrev pub inc_bucket : StampIssuer → ℕ → Option ℕ → Issue
inc_bucket si b none = panics
inc_bucket si b (some count) =
    if count == bucket_size si
    then bucket_full
    else issued (index_to_bytes b count) (count_up b count si)

abbrev pub inc_at : StampIssuer → Option ℕ → Issue
inc_at si none = panics
inc_at si (some b) = inc_bucket si b (get_elem? si.buckets b)

unfoldable pub inc : List ℕ → StampIssuer → Issue
inc addr si = inc_at si (to_bucket si.bucket_depth addr)

abbrev pub utilization : StampIssuer → ℕ
utilization si = si.max_bucket_count
