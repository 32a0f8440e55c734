-- ===== src/Format.antt =====
-- libinotifytools/src/inotify.rs: `snprintf`, `sprintf` and `strncpy`. The path of the event, what
-- strftime(3) makes of the time and the content of the buffer of `event_to_str_sep` are given.
pub mod Writes
pub mod Bounds
pub mod Expand
pub mod Prints
pub mod Result
use inotify_tools.Prelude.{
  ℕ, zero, suc, ◌+◌, ◌-◌, ◌%◌, Bytes, Bool, true, false, not, ◌&&◌, ◌||◌, Option, none, some, [],
  ◌∷◌, ◌++◌, ◌==◌, until_nul, ltb, leb, if◌then◌else◌, length, take, drop, is_empty, get_or,
  is_none,
}
use Prim.Native.Nat.{min}
use inotify_tools.Prelude.Word.{u32_mod, minus_one, is_neg}
use inotify_tools.Prelude.Buffer.{write_at}
use inotify_tools.Handle.{Inotifytools, EventPath, ◌>>=◌}
use inotify_tools.Events.{event_to_str_sep, hex_digits}
use inotify_tools.Csv.{max_strlen}

-- what the directives print; `time` is none if strftime(3) fails, and empty if no format is set
pub record Args : Type 0 where
  pub path : EventPath
  pub mask : ℕ
  pub cookie : ℕ
  pub evstr : Bytes
  pub time : Option Bytes

-- `NString`, also while `ind` is its length
pub record NString : Type 0 where
  pub buf : Bytes
  pub len : ℕ

-- `src.get(k).copied().unwrap_or(0)` for the first `n` places
unfoldable pub padded : ℕ → Bytes → Bytes
padded zero src = []
padded (suc n) [] = 0 ∷ padded n []
padded (suc n) (x ∷ src) = x ∷ padded n src

unfoldable pub strncpy : Bytes → ℕ → Bytes → ℕ → Bytes
unfolding padded
strncpy buf ind src n = write_at buf ind (padded n src)

-- `out.buf[ind as usize] = c; ind += 1`; none is the panic out of range
unfoldable pub put : NString → ℕ → Option NString
put out c =
    if ltb out.len (length out.buf)
    then some (record { buf = write_at out.buf out.len (c ∷ []); len = (out.len + 1) % u32_mod })
    else none

-- a text that is copied with `strncpy`
unfoldable pub text : NString → Bytes → ℕ → NString
unfolding strncpy
text out s room = record {
  buf = strncpy out.buf out.len s room;
  len = (out.len + length s) % u32_mod;
}

-- a character of something that is no directive
unfoldable pub plain : NString → ℕ → NString
plain out c =
    if ltb out.len max_strlen
    then record { buf = write_at out.buf out.len (c ∷ []); len = (out.len + 1) % u32_mod }
    else out

-- `format!("{:x}")` of a `u32`
unfoldable pub strip_zeros : Bytes → Bytes
strip_zeros [] = []
strip_zeros (c ∷ []) = c ∷ []
strip_zeros (c ∷ d ∷ s) = let rest = strip_zeros (d ∷ s) in if c == b'0' then rest else c ∷ d ∷ s

unfoldable pub hex : ℕ → Bytes
unfolding strip_zeros
hex v = strip_zeros (hex_digits 8 v)

-- `%c`
unfoldable pub put_cookie : NString → ℕ → ℕ → Option NString
unfolding hex
put_cookie out cookie room =
    let s = hex cookie in
    let n = min (length s) (room - 1) in
    if ltb (out.len + n) (length out.buf)
    then some (record {
      buf = write_at out.buf out.len (take n s ++ (0 ∷ []));
      len = (out.len + length s) % u32_mod;
    })
    else none

-- How a round of the loop ends: with the rest of the format, or with the return of EINVAL.
pub data Round : Type 0 where
  go : Bytes → NString → Round
  stop : NString → Round

-- the `match` on a `ch1` that is no directive; `rest` stands behind it
unfoldable pub unknown : ℕ → Args → ℕ → Bytes → NString → Option Round
unfolding text plain
unknown size a ch1 [] out = some (go [] (plain (plain out b'%') ch1))
unknown size a ch1 (ch2 ∷ rest) out =
    if ch2 == b'e'
    then some (go rest (text out (event_to_str_sep a.evstr a.mask ch1) (size - out.len)))
    else some (go (ch2 ∷ rest) (plain (plain out b'%') ch1))

-- the `match` on `ch1`; `rest` stands behind it
unfoldable pub directive : ℕ → Args → ℕ → Bytes → NString → Option Round
unfolding put text put_cookie unknown
directive size a ch1 rest out =
    let room = size - out.len in
    let shown = λ (sep : ℕ). event_to_str_sep a.evstr a.mask sep in
    if ch1 == b'%'
    then (put out b'%' >>= λ o. some (go rest o))
    else if ch1 == b'0'
    then (put out 0 >>= λ o. some (go rest o))
    else if ch1 == b'n'
    then (put out 10 >>= λ o. some (go rest o))
    else if ch1 == b'w'
    then if leb a.path.dirnamelen room
      then some (
          go rest (record {
            buf = strncpy out.buf out.len a.path.filename a.path.dirnamelen;
            len = (out.len + a.path.dirnamelen) % u32_mod;
          }))
      else some (go rest out)
    else if ch1 == b'f'
    then some (go rest (text out a.path.eventname room))
    else if ch1 == b'c'
    then (put_cookie out a.cookie room >>= λ o. some (go rest o))
    else if ch1 == b'e'
    then some (go rest (text out (shown b',') room))
    else if ch1 == b'T'
    then elim a.time [ none ↦ some (stop out) | some t ↦ some (go rest (text out t room)) ]
    else unknown size a ch1 rest out

-- one round of the loop at the byte `c` of the format
unfoldable pub round : ℕ → Args → ℕ → Bytes → NString → Option Round
unfolding directive
round size a c rest out =
    if not (c == b'%')
    then (put out c >>= λ o. some (go rest o))
    else elim rest [ [] ↦ some (stop out) | ch1 ∷ rest' ↦ directive size a ch1 rest' out ]

-- the loop, and whether it came to its end; each round takes a byte of the format at least
unfoldable pub loop : ℕ → ℕ → Args → Bytes → NString → Option (NString × Bool)
unfolding round
loop zero size a fmt out = some (out, true)
loop (suc fuel) size a [] out = some (out, true)
loop (suc fuel) size a (c ∷ rest) out =
    if ltb (out.len + 1) size
    then (round size a c rest out >>= λ r. elim r [
      | go rest' out' ↦ loop fuel size a rest' out'
      | stop out' ↦ some (out', false)
    ])
    else some (out, true)

abbrev pub emsgsize : ℕ
emsgsize = 90

abbrev pub einval : ℕ
einval = 22

-- `size` as the limit of the loop, which a negative one ends at once
abbrev pub limit : ℕ → ℕ
limit size = if is_neg size then 0 else size

-- What is returned, the error and the string; none is a panic.
unfoldable pub snprintf : Args → NString → ℕ → ℕ → Option Bytes → Option (ℕ × ℕ × NString)
unfolding loop
snprintf a out error size none = some (minus_one, einval, out)
snprintf a out error size (some fmt) =
    if is_empty fmt
    then some (minus_one, einval, out)
    else if ltb max_strlen (length fmt) || ltb max_strlen (limit size)
    then some (minus_one, emsgsize, out)
    else (loop (length fmt) (limit size) a fmt (record { buf = out.buf; len = 0 }) >>= λ (o, valid).
        if valid
        then some ((o.len + minus_one) % u32_mod, error, o)
        else some (o.len, einval, record { buf = o.buf; len = out.len }))

unfoldable pub sprintf : Args → NString → ℕ → Option Bytes → Option (ℕ × ℕ × NString)
unfolding snprintf
sprintf a out error fmt = snprintf a out error max_strlen fmt

-- the format of strftime(3) for %T, and none
unfoldable pub set_printf_timefmt : Inotifytools → Bytes → Inotifytools
set_printf_timefmt l fmt = record l { timefmt = some (until_nul fmt) }

unfoldable pub clear_timefmt : Inotifytools → Inotifytools
clear_timefmt l = record l { timefmt = none }
