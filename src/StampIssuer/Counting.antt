-- ===== src/StampIssuer/Counting.antt =====
-- What inc counts (pkg/postage/stampissuer.go).
use sana.Common.{
  ℕ, zero, suc, ◌+◌, ◌-◌, ◌*◌, ◌/◌, ◌%◌, ◌^◌, ◌≤◌, ◌<◌, ◌≡◌, ◌≢◌, refl, ap, sym, ◌∙◌, subst, Bool,
  false, Option, none, some, List, [], ◌∷◌, ◌==◌, if◌then◌else◌, length, length-set, get_elem?,
  get_or, replicate, arith, Bool-cases, inl, inr,
}
use native.Mathlib.Nat.{div-lt_iff_lt-mul}
use sana.Common.Int.{ℤ}
use sana.Common.Word.{pow2_mono, pow2_add, pow2_positive}
use sana.StampIssuer.Index.{
  u32_mod, index_to_bytes, bytes_to_index, bytes_to_index-index_to_bytes, get32,
}
use sana.StampIssuer.State.{
  StampIssuer, bucket_size, to_bucket, Issue, panics, bucket_full, issued, count_up, inc_bucket,
  inc_at, inc, new_stamp_issuer, minus8,
}
use sana.StampIssuer.Buckets.{
  greatest, IsSound, greatest-get_or, greatest-set, get_or-set, get_or-set_other, get_elem?_lem,
}

-- One stamp from bucket `b`, of which `count` were issued before.
pub record Issued (b : ℕ) (bytes : List ℕ) (si t : StampIssuer) : Type 0 where
  pub index : bytes_to_index bytes ≡ some (b, get_or si.buckets b 0)
  pub counted : get_or t.buckets b 0 ≡ get_or si.buckets b 0 + 1
  pub others : (c : ℕ) → b ≢ c → get_or t.buckets c 0 ≡ get_or si.buckets c 0
  pub room : get_or si.buckets b 0 < bucket_size si
  pub same_size : bucket_size t ≡ bucket_size si
  pub sound : IsSound t

count_up-Issued :
    (si : StampIssuer) (b c : ℕ)
    → IsSound si
    → get_elem? si.buckets b ≡ some c
    → (c == bucket_size si) ≡ false
    → Issued b (index_to_bytes b c) si (count_up b c si)
count_up-Issued si b c s g n =
    let (inside, at) = get_elem?_lem si.buckets b c g in
    let below = greatest-get_or si.buckets b in
    let f = s.fits in
    let m = s.fullest in
    let l = s.numbered in
    let small : c < bucket_size si = ground arith in
    let next : (c + 1) % u32_mod ≡ c + 1 = omega arith in
    let top = greatest-set si.buckets b (c + 1) inside (omega arith) in
    record {
      index =
          bytes_to_index-index_to_bytes b c (omega arith) (omega arith)
          ∙ ap (λ x. some (b, x)) (sym at);
      counted = rw next (get_or-set si.buckets b (c + 1) inside ∙ omega arith);
      others = λ d e. get_or-set_other si.buckets b d ((c + 1) % u32_mod) e;
      room = omega arith;
      same_size = refl;
      sound = record {
        fullest = rw (next, m, top) refl;
        fits = rw (next, top) (ground arith);
        numbered = rw (length-set si.buckets b ((c + 1) % u32_mod)) l;
      };
    }

-- What holds of an issue from the bucket `o`.
abbrev Fine : StampIssuer → Option ℕ → Issue → Type 0
Fine si o panics = Unit {0}
Fine si o bucket_full = Unit {0}
Fine si o (issued bytes t) = (b : ℕ) × (o ≡ some b) × Issued b bytes si t

inc_bucket-Fine :
    (si : StampIssuer) (b : ℕ) (g : Option ℕ)
    → IsSound si
    → get_elem? si.buckets b ≡ g
    → Fine si (some b) (inc_bucket si b g)
inc_bucket-Fine si b none s e = tt
inc_bucket-Fine si b (some c) s e = elim (Bool-cases (c == bucket_size si)) [
  | inl full ↦ rw full tt
  | inr n ↦ rw n (b, refl, count_up-Issued si b c s e n)
]

inc_at-Fine : (si : StampIssuer) (o : Option ℕ) → IsSound si → Fine si o (inc_at si o)
inc_at-Fine si none s = tt
inc_at-Fine si (some b) s = inc_bucket-Fine si b (get_elem? si.buckets b) s refl

-- A stamp that inc issues has the bucket of the address and the number of stamps issued from that
-- bucket before, which becomes one more, at most the size of a bucket; the other buckets stay, and
-- the utilization stays the count of the fullest bucket.
pub inc-Issued :
    (si t : StampIssuer) (addr bytes : List ℕ)
    → IsSound si
    → inc addr si ≡ issued bytes t
    → (b : ℕ) × (to_bucket si.bucket_depth addr ≡ some b) × Issued b bytes si t
unfolding inc
inc-Issued si t addr bytes s h =
    subst (Fine si (to_bucket si.bucket_depth addr)) h
      (inc_at-Fine si (to_bucket si.bucket_depth addr) s)

greatest-replicate : (n : ℕ) → greatest (replicate n 0) ≡ 0
greatest-replicate zero = refl
greatest-replicate (suc n) = let h = greatest-replicate n in ground arith

length-zeros : (n : ℕ) → length (replicate {A = ℕ} n 0) ≡ n
length-zeros zero = refl
length-zeros (suc n) = ap suc (length-zeros n)

-- A new issuer of a bucket depth up to 32 is sound.
pub new_stamp_issuer-IsSound :
    (label key id : List ℕ) (amount : ℤ) (depth bucket_depth block : ℕ) (immutable : Bool)
    → bucket_depth ≤ 32
    → IsSound (new_stamp_issuer label key id amount depth bucket_depth block immutable)
unfolding new_stamp_issuer
new_stamp_issuer-IsSound label key id amount depth bucket_depth block immutable h =
    let m = pow2_mono bucket_depth 32 h in
    record {
      fullest = sym (greatest-replicate (2 ^ bucket_depth));
      fits = rw (greatest-replicate (2 ^ bucket_depth)) (omega arith);
      numbered = rw (length-zeros (2 ^ bucket_depth)) (omega arith);
    }

shift-below : (i d : ℕ) → i < 2 ^ 32 → d ≤ 32 → i / 2 ^ (32 - d) < 2 ^ d
shift-below i d h k =
    let e : 2 ^ d * 2 ^ (32 - d) ≡ 2 ^ 32 =
      sym (pow2_add d (32 - d)) ∙ ap (λ n. 2 ^ n) {y = 32} (omega arith) in
    (div-lt_iff_lt-mul {k = 2 ^ (32 - d)} {x = i} {y = 2 ^ d} (pow2_positive (32 - d))).1 (rw e h)

get_elem?-below : (xs : List ℕ) (i : ℕ) → i < length xs → get_elem? xs i ≡ some (get_or xs i 0)
get_elem?-below [] i h = absurd (omega arith)
get_elem?-below (x ∷ xs) zero h = refl
get_elem?-below (x ∷ xs) (suc i) h = get_elem?-below xs i (omega arith)

-- The issuer has a bucket for each prefix of `bucket_depth` bits.
abbrev pub HasBuckets : StampIssuer → Type 0
HasBuckets si = (length si.buckets ≡ 2 ^ si.bucket_depth) × (si.bucket_depth ≤ 32)

-- inc for an address whose first four bytes are given does not panic: it finds the bucket full
-- exactly when as many stamps as fit were issued from it, and issues a stamp otherwise.
pub inc_answer :
    (si : StampIssuer) (a b c d : ℕ) (rest : List ℕ)
    → HasBuckets si
    → a < 256
    → b < 256
    → c < 256
    → d < 256
    → let bucket = get32 a b c d / 2 ^ (32 - si.bucket_depth) in
      (bucket < length si.buckets)
      × (inc (a ∷ b ∷ c ∷ d ∷ rest) si ≡ (
          if get_or si.buckets bucket 0 == bucket_size si
          then bucket_full
          else issued
              (index_to_bytes bucket (get_or si.buckets bucket 0))
              (count_up bucket (get_or si.buckets bucket 0) si)))
unfolding inc to_bucket
inc_answer si a b c d rest (l, k) ha hb hc hd =
    let bucket = get32 a b c d / 2 ^ (32 - si.bucket_depth) in
    let inside = shift-below (get32 a b c d) si.bucket_depth (omega arith) k in
    let below : bucket < length si.buckets = rw l inside in
    let shift : minus8 32 si.bucket_depth ≡ 32 - si.bucket_depth = omega arith in
    (below, rw (shift, get_elem?-below si.buckets bucket below) refl)

pow2_wraps : (e : ℕ) → 32 ≤ e → 2 ^ e % u32_mod ≡ 0
pow2_wraps e h =
    let split : 2 ^ e ≡ 2 ^ (e - 32) * 2 ^ 32 =
      ap (λ n. 2 ^ n) {y = e - 32 + 32} (omega arith) ∙ pow2_add (e - 32) 32 in
    rw split (omega arith)

-- With a bucket depth above the batch depth, a bucket that issued no stamp is full: the size of a
-- bucket overflows to 0.
pub inc_deep :
    (si : StampIssuer) (a b c d : ℕ) (rest : List ℕ)
    → HasBuckets si
    → a < 256
    → b < 256
    → c < 256
    → d < 256
    → si.batch_depth < si.bucket_depth
    → get_or si.buckets (get32 a b c d / 2 ^ (32 - si.bucket_depth)) 0 ≡ 0
    → inc (a ∷ b ∷ c ∷ d ∷ rest) si ≡ bucket_full
inc_deep si a b c d rest h ha hb hc hd deep none_yet =
    let (below, e) = inc_answer si a b c d rest h ha hb hc hd in
    let zero_size : bucket_size si ≡ 0 =
      pow2_wraps (minus8 si.batch_depth si.bucket_depth) (omega arith) in
    e ∙ rw (none_yet, zero_size) refl
