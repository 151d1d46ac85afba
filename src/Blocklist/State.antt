-- ===== src/Blocklist/State.antt =====
-- `Blocklist`: Exists, Add and get (pkg/p2p/libp2p/internal/blocklist/blocklist.go), on the entry of
-- one peer. The Boolean arguments tell which accesses to the store fail.
use sana.Common.{Bool, true, false, not, ◌&&◌, ◌||◌, Option, none, some, if◌then◌else◌}
use sana.Common.Int.{ℤ, pos, negsuc, ltb_ℤ, eqb_ℤ}
use sana.Common.Time.{Time, since}

-- The duration is a string in the store; `none` is one that does not parse.
pub record Entry : Type 0 where
  pub timestamp : Time
  pub duration : Option ℤ

pub data Got : Type 0 where
  not_found : Got
  get_error : Got
  found : Time → ℤ → Got

abbrev parsed : Time → Option ℤ → Got
parsed t none = get_error
parsed t (some d) = found t d

abbrev pub get : Bool → Option Entry → Got
get true _ = get_error
get false none = not_found
get false (some e) = parsed e.timestamp e.duration

abbrev pub is_over : Time → Time → ℤ → Bool
is_over now t d = ltb_ℤ d (since now t) && not (eqb_ℤ d (pos 0))

abbrev check : Time → Bool → Option Entry → Got → Option Bool × Option Entry
check now delete_fails s not_found = (some false, s)
check now delete_fails s get_error = (none, s)
check now delete_fails s (found t d) =
    if is_over now t d then (some false, if delete_fails then s else none) else (some true, s)

-- Exists; `none` for an error. That Delete fails is ignored.
unfoldable pub exists : Time → Bool → Bool → Option Entry → Option Bool × Option Entry
exists now get_fails delete_fails s = check now delete_fails s (get get_fails s)

-- The duration that Add stores, from the one that is asked for and the one that is there.
unfoldable pub longest : ℤ → ℤ → ℤ
longest duration d =
    if (ltb_ℤ duration d && not (eqb_ℤ duration (pos 0))) || eqb_ℤ d (pos 0) then d else duration

abbrev put : Bool → Time → ℤ → Option Entry → Bool × Option Entry
put put_fails now d s =
    if put_fails then (true, s) else (false, some (record { timestamp = now; duration = some d }))

abbrev store : Time → Bool → ℤ → Option Entry → Got → Bool × Option Entry
store now put_fails duration s not_found = put put_fails now (longest duration (negsuc 0)) s
store now put_fails duration s get_error = (true, s)
store now put_fails duration s (found _ d) = put put_fails now (longest duration d) s

-- Add; the Boolean is true for an error.
unfoldable pub add : Time → Bool → Bool → ℤ → Option Entry → Bool × Option Entry
add now get_fails put_fails duration s = store now put_fails duration s (get get_fails s)
