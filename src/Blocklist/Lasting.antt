-- ===== src/Blocklist/Lasting.antt =====
-- How long a peer stays blocked (pkg/p2p/libp2p/internal/blocklist/blocklist.go).
use sana.Common.{
  ◌≡◌, refl, ap, sym, ◌∙◌, Bool, true, false, not, ◌||◌, Option, none, some, arith, Bool-cases, inl,
  inr,
}
use sana.Common.Int.{ℤ, pos, negsuc, ◌≤ℤ◌, leb_ℤ, eqb_ℤ}
use sana.Common.Time.{Time, since}
use sana.Blocklist.State.{Entry, is_over, exists, longest, add}

-- Is a peer blocked for `d`, which for 0 is forever, still blocked after `past`?
abbrev pub lasts : ℤ → ℤ → Bool
lasts d past = eqb_ℤ d (pos 0) || leb_ℤ past d

abbrev pub lasts_before : Option ℤ → ℤ → Bool
lasts_before none past = false
lasts_before (some d) past = lasts d past

abbrev pub entry : Time → ℤ → Entry
entry t d = record { timestamp = t; duration = some d }

abbrev pub earlier : Time → Option ℤ → Option Entry
earlier t none = none
earlier t (some d) = some (entry t d)

abbrev pub NotNegative : Option ℤ → Type 0
NotNegative none = Unit {0}
NotNegative (some d) = pos 0 ≤ℤ d

not_over : (now t : Time) (d : ℤ) → not (is_over now t d) ≡ lasts d (since now t)
not_over now t d = ground arith

lasts-longest :
    (a d past : ℤ)
    → pos 0 ≤ℤ a
    → pos 0 ≤ℤ d
    → lasts (longest a d) past ≡ (lasts a past || lasts d past)
unfolding longest
lasts-longest a d past h k = ground arith

longest_first : (a : ℤ) → pos 0 ≤ℤ a → longest a (negsuc 0) ≡ a
unfolding longest
longest_first a h = ground arith

or_false : (b : Bool) → (b || false) ≡ b
or_false true = refl
or_false false = refl

exists-entry :
    (now t : Time) (d : ℤ)
    → (exists now false false (some (entry t d))).0 ≡ some (lasts d (since now t))
unfolding exists
exists-entry now t d = elim (Bool-cases (is_over now t d)) [
  | inl e ↦ let n = not_over now t d in rw e (ap some (ap not (sym e) ∙ n))
  | inr e ↦ let n = not_over now t d in rw e (ap some (ap not (sym e) ∙ n))
]

-- After Add at time `s`, with no failing access, a peer is blocked at `now` exactly if the time from
-- `s` to `now` is within the new duration or within the one of the entry that was there, over or
-- not, where a duration of 0 never ends.
pub exists-add :
    (now s t : Time) (duration : ℤ) (d : Option ℤ)
    → pos 0 ≤ℤ duration
    → NotNegative d
    → let (error, after) = add s false false duration (earlier t d) in
      (error ≡ false)
      × ((exists now false false after).0
          ≡ some (lasts duration (since now s) || lasts_before d (since now s)))
unfolding add
exists-add now s t duration none h k = (
  refl,
  exists-entry now s (longest duration (negsuc 0))
      ∙ ap some (
          ap (λ x. lasts x (since now s)) (longest_first duration h)
          ∙ sym (or_false (lasts duration (since now s)))),
)
exists-add now s t duration (some d) h k = (
  refl,
  exists-entry now s (longest duration d) ∙ ap some (lasts-longest duration d (since now s) h k),
)
