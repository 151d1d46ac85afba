-- ===== src/Batchstore/Serving.antt =====
-- What Unreserve leaves in the queue (pkg/postage/batchstore/reserve.go).

use sana.Common.{
  ℕ, ◌+◌, ◌%◌, ◌≤◌, ◌<◌, ◌≡◌, refl, ap, Bool, true, false, List, [], ◌∷◌, ◌++◌, ltb, inl, inr,
  Bool-cases, arith,
}
use sana.Common.Word.{u8_mod}
use sana.Batchstore.State.{Store, Unreserved}
use sana.Batchstore.Chain.{Answer, error, stop, more, serve, lower_storage}

-- The callback answered for these items that the loop goes on, and the storage radius is at most one
-- below theirs.
abbrev pub AllServed : (Unreserved → Answer) → ℕ → List (ℕ × Unreserved) → Type 0
AllServed cb radius [] = Unit {0}
AllServed cb radius ((c, item) ∷ items) =
    ((cb item ≡ more) × (item.1 ≤ radius + 1)) × AllServed cb radius items

-- How the loop ended: at the end of the queue; with an error at the first item that is left; or with no
-- error, at an item that the callback served and stopped at.
pub data Ended (cb : Unreserved → Answer) (radius : ℕ)
    : Bool → List (ℕ × Unreserved) → List (ℕ × Unreserved) → Type 0 where
  at_end : Ended cb radius true [] []
  by_error :
      (c : ℕ) (item : Unreserved) (rest : List (ℕ × Unreserved))
      → cb item ≡ error
      → Ended cb radius false [] ((c, item) ∷ rest)
  by_stop :
      (c : ℕ) (item : Unreserved) (rest : List (ℕ × Unreserved))
      → cb item ≡ stop
      → item.1 ≤ radius + 1
      → Ended cb radius true ((c, item) ∷ []) rest

-- The items that were served come first in the queue, in its order, then the one at which the callback
-- stopped, if there is one, and the rest is left.
pub record IsServed (cb : Unreserved → Answer) (items : List (ℕ × Unreserved)) (s t : Store)
    (ok : Bool) : Type 0 where
  pub served : List (ℕ × Unreserved)
  pub stopped_at : List (ℕ × Unreserved)
  pub items_are : served ++ (stopped_at ++ t.queue) ≡ items
  pub all_served : AllServed cb t.reserve.storage_radius served
  pub ended : Ended cb t.reserve.storage_radius ok stopped_at t.queue
  pub not_lower : s.reserve.storage_radius ≤ t.reserve.storage_radius
  pub small : t.reserve.storage_radius < 255

-- The radius of each item is a uint8.
abbrev pub AllSmall : List (ℕ × Unreserved) → Type 0
AllSmall [] = Unit {0}
AllSmall ((c, item) ∷ items) = (item.1 < u8_mod) × AllSmall items

lowered :
    (r : ℕ) (s : Store)
    → s.reserve.storage_radius < 255
    → r < u8_mod
    → let t = lower_storage r s in
      (s.reserve.storage_radius ≤ t.reserve.storage_radius)
      × (t.reserve.storage_radius < 255)
      × (r ≤ t.reserve.storage_radius + 1)
lowered r s h k = elim (Bool-cases (ltb ((s.reserve.storage_radius + 1) % u8_mod) r)) [
  | inl y ↦ rw y (ground arith, ground arith, ground arith)
  | inr n ↦ rw n (omega arith, h, ground arith)
]

module _ (cb : Unreserved → Answer) where
  -- The loop of Unreserve over items of uint8 radii, with a storage radius below 255, goes on exactly while
  -- the callback answers so. It ends with no error at the end of the items or at the one at which the
  -- callback stops, which leaves the queue with those before it; or with an error at the one at which the
  -- callback fails, which stays in the queue with those after it. The storage radius is not lowered and at
  -- most one below the radius of each item that left, and stays below 255.
  pub serve-IsServed :
      (items : List (ℕ × Unreserved)) (s : Store)
      → s.reserve.storage_radius < 255
      → AllSmall items
      → IsServed cb items s (serve cb items s).1 (serve cb items s).0
  unfolding serve
  serve-IsServed [] s h k = record {
    served = [];
    stopped_at = [];
    items_are = refl;
    all_served = tt;
    ended = at_end;
    not_lower = omega arith;
    small = h;
  }
  serve-IsServed ((c, item) ∷ rest) s h k =
      by_answer (cb item) refl
        (serve-IsServed rest (lower_storage item.1 s) (lowered item.1 s h k.0).1 k.1)
    where
      by_answer :
          (a : Answer)
          → cb item ≡ a
          → IsServed cb rest
              (lower_storage item.1 s)
              (serve cb rest (lower_storage item.1 s)).1
              (serve cb rest (lower_storage item.1 s)).0
          → let t = lower_storage item.1 s in
            let end = elim a as (λ _. Bool × Store) [
              | error ↦ (false, record s { queue = (c, item) ∷ rest })
              | stop ↦ (true, record t { queue = rest })
              | more ↦ serve cb rest t
            ] in
            IsServed cb ((c, item) ∷ rest) s end.1 end.0
      by_answer error e ih = record {
        served = [];
        stopped_at = [];
        items_are = refl;
        all_served = tt;
        ended = by_error c item rest e;
        not_lower = omega arith;
        small = h;
      }
      by_answer stop e ih =
          let (a, b, d) = lowered item.1 s h k.0 in
          record {
            served = [];
            stopped_at = (c, item) ∷ [];
            items_are = refl;
            all_served = tt;
            ended = by_stop c item rest e d;
            not_lower = a;
            small = b;
          }
      by_answer more e ih =
          let (a, b, d) = lowered item.1 s h k.0 in
          let up = ih.not_lower in
          record {
            served = (c, item) ∷ ih.served;
            stopped_at = ih.stopped_at;
            items_are = ap (λ l. (c, item) ∷ l) ih.items_are;
            all_served = ((e, omega arith), ih.all_served);
            ended = ih.ended;
            not_lower = omega arith;
            small = ih.small;
          }
