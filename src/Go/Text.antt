-- ===== src/Go/Text.antt =====
-- The functions of the packages strings and strconv, and slices of texts. A position counts bytes.
use Prim.Native.Char.{Char, code}
use Prim.Native.String.{len, slice, [], ◌∷◌}
use text.Mathlib.Text.{find?}
use mathlib.Core.List.{[], ◌∷◌}
use interlock_old.Prelude.{
  ℕ, zero, suc, ◌+◌, ◌-◌, ◌*◌, ◌^◌, String, Bool, true, false, ◌&&◌, ◌||◌, ◌==◌, Option, none, some,
  List, leb, ltb, eqb, if◌then◌else◌,
}
use interlock_old.Prelude.Int.{ℤ, pos, negsuc}
use interlock_old.Go.Outcome.{Outcome, ok, err, panic}

-- strings.Index(s, sub) > -1
unfoldable pub contains : String → String → Bool
contains s sub = elim (find? s sub) [ none ↦ false | some i ↦ true ]

-- strings.Index(s, sub) > 0
unfoldable pub contains_past_start : String → String → Bool
contains_past_start s sub = elim (find? s sub) [ none ↦ false | some i ↦ ltb 0 i ]

-- s[:n]
unfoldable pub slice_to : ℕ → String → Outcome String
slice_to n s = if leb n (len s) then ok (slice s 0 n) else panic

-- s[n:]
unfoldable pub slice_from : ℕ → String → Outcome String
slice_from n s = if leb n (len s) then ok (slice s n (len s)) else panic

-- One more character in front of the first part.
unfoldable pub extend_first : Char → List String → List String
extend_first c [] = (c ∷ []) ∷ []
extend_first c (part ∷ parts) = (c ∷ part) ∷ parts

-- strings.Split(s, sep) for a separator of one character, given by its code
unfoldable pub split : ℕ → String → List String
unfolding extend_first
split sep [] = "" ∷ []
split sep (c ∷ s) =
    let parts = split sep s in if eqb (code c) sep then "" ∷ parts else extend_first c parts

-- The first part of a split, which always exists (`split-cons`).
unfoldable pub first_part : ℕ → String → String
unfolding split
first_part sep s = elim (split sep s) [ [] ↦ "" | part ∷ parts ↦ part ]

-- strings.Replace(s, old, new, -1) for texts of one character
unfoldable pub replace : ℕ → Char → String → String
replace old new [] = []
replace old new (c ∷ s) = (if eqb (code c) old then new else c) ∷ replace old new s

-- The value of a run of decimal digits; `none` at any other character.
unfoldable pub decimal : ℕ → String → Option ℕ
decimal acc [] = some acc
decimal acc (c ∷ s) =
    let rest = decimal (acc * 10 + (code c - 48)) s in
    if leb 48 (code c) && leb (code c) 57 then rest else none

unfoldable pub digits : String → Option ℕ
unfolding decimal
digits [] = none
digits (c ∷ s) = decimal 0 (c ∷ s)

abbrev pub max_int : ℕ
max_int = 2 ^ 63 - 1

-- The sign is read already; the range is that of a 64-bit int.
positive : Option ℕ → Outcome ℤ
positive none = err "invalid syntax"
positive (some n) = if leb n max_int then ok (pos n) else err "value out of range"

negative : Option ℕ → Outcome ℤ
negative none = err "invalid syntax"
negative (some zero) = ok (pos 0)
negative (some (suc n)) = if leb n max_int then ok (negsuc n) else err "value out of range"

-- strconv.Atoi
unfoldable pub atoi : String → Outcome ℤ
unfolding digits positive negative
atoi [] = err "invalid syntax"
atoi (c ∷ s) =
    if eqb (code c) b'-'
    then negative (digits s)
    else if eqb (code c) b'+'
    then positive (digits s)
    else positive (digits (c ∷ s))

-- The white space of ASCII, and U+0085 and U+00A0
is_space : Char → Bool
is_space c = let n = code c in leb 9 n && leb n 13 || (eqb n 32 || (eqb n 133 || eqb n 160))

trim_left : String → String
trim_left [] = ""
trim_left (c ∷ s) = let rest = trim_left s in if is_space c then rest else c ∷ s

trim_right : String → String
trim_right [] = ""
trim_right (c ∷ s) = let rest = trim_right s in if rest == "" && is_space c then "" else c ∷ rest

-- strings.TrimSpace, of texts without the other spaces of Unicode
unfoldable pub trim_space : String → String
unfolding is_space trim_left trim_right
trim_space s = trim_right (trim_left s)
