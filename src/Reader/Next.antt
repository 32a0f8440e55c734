-- ===== src/Reader/Next.antt =====
-- libinotifytools/src/inotify.rs: `next_event`, `next_events` and `next_events_raw`. regexec(3) is
-- a parameter. What is printed to the standard error is left out.
use inotify_tools.Prelude.{
  ℕ, zero, suc, ◌+◌, ◌-◌, ◌*◌, ◌%◌, Bytes, Bool, true, false, not, ◌&&◌, ◌||◌, Option, none, some,
  [], ◌∷◌, ◌==◌, ltb, leb, if◌then◌else◌, length, take, drop, until_nul, replicate, bit_or,
}
use Prim.Native.Nat.{min}
use inotify_tools.Prelude.Word.{u32_mod, u64_mod, is_neg, le_zero, bias, has, sign_extend}
use inotify_tools.Prelude.Buffer.{write_at, codes}
use inotify_tools.Consts.{in_isdir, in_create, in_moved_to}
use inotify_tools.Counters.{record_stats}
use inotify_tools.Csv.{max_strlen}
use inotify_tools.Format.{Args, NString, snprintf}
use inotify_tools.Handle.{Regex, ◌>>=◌}
use inotify_tools.Kernel.{Kernel}
use inotify_tools.Names.{Event, filename_from_event}
use inotify_tools.Reader.{Reader, cap, event_size, rd_u32, current_event}
use inotify_tools.Reader.Convert.{convert_fanotify_event}

-- how a round of the loop ends: it returns false, goes on, or returns true
pub data Verdict : Type 0 where
  fails : Verdict
  skips : Verdict
  delivers : Verdict

-- `isize as usize` at least 0
unfoldable pub at_least_zero : ℕ → ℕ
at_least_zero n = if leb 0x8000000000000000 n then 0 else n

-- The head of a round: whether there is an event in the buffer, and the state; an incomplete event
-- is moved to the front. None is a panic.
unfoldable pub look : Reader → Option (Bool × Reader)
unfolding rd_u32
look r =
    let first = sign_extend r.first_byte in
    let len = rd_u32 r.evbuf (first + 12) in
    let have = r.bytes - first in
    if not (r.first_byte == 0)
      && leb (bias r.first_byte) (bias ((r.bytes + (u64_mod - event_size)) % u32_mod))
    then if not r.lib.fanotify_mode && ltb r.bytes (first + event_size + len)
      then if ltb r.bytes first || ltb (length r.evbuf) r.bytes
        then none
        else some (
          false,
          record r {
            ret_off = first;
            evbuf = write_at r.evbuf 0 (take have (drop first r.evbuf));
            bytes = have;
            first_byte = 0;
          },
        )
      else some (true, record r { ret_off = first; this_bytes = 0 })
    else if r.first_byte == 0
    then some (false, record r { bytes = 0 })
    else some (false, r)

-- `bytes` and, at the end, `first_byte`
unfoldable pub advance_bytes : Reader → Reader
advance_bytes r =
    let bytes = (r.bytes + r.this_bytes) % u64_mod in
    record r {
      bytes = bytes;
      first_byte = if sign_extend r.first_byte == bytes then 0 else r.first_byte;
    }

module _ {W : Type 0} (k : Kernel W) where
  -- the loop until enough bytes can be read, false if the call fails; on fuel
  unfoldable pub wait : ℕ → ℕ → ℕ → W → Option (Bool × W)
  wait zero fd num_events s = none
  wait (suc fuel) fd num_events s =
      let (n, s') = k.fionread fd s in
      let rest = wait fuel fd num_events s' in
      elim n [
        | none ↦ some (false, s')
        | some n ↦ if leb (event_size * num_events) n then some (true, s') else rest
      ]

  -- read(2) behind the bytes that are there
  unfoldable pub read : Reader → W → Bool × Reader × W
  unfolding at_least_zero
  read r s =
      let off = min (at_least_zero r.bytes) cap in
      let (got, s') = k.read r.lib.fd (cap - off) s in
      elim got [
        | none ↦ (false, record r { lib = record r.lib { error = k.errno s' } }, s')
        | some [] ↦ (false, r, s')
        | some (c ∷ cs) ↦ (
          true,
          record r { evbuf = write_at r.evbuf off (c ∷ cs); this_bytes = length (c ∷ cs) },
          s',
        )
      ]

  unfoldable pub fill : ℕ → Reader → ℕ → ℕ → W → Option (Bool × Reader × W)
  unfolding wait read
  fill fuel r timeout num_events s =
      let (rc, s1) = k.ppoll r.lib.fd timeout s in
      if is_neg rc
      then some (false, record r { lib = record r.lib { error = k.errno s1 } }, s1)
      else if rc == 0
      then some (false, r, s1)
      else (wait fuel r.lib.fd num_events s1 >>= λ (ok, s2).
          if ok
          then some (read r s2)
          else some (false, record r { lib = record r.lib { error = k.errno s2 } }, s2))

  -- `first_byte` behind the event at it, and the event's process (0 for inotify)
  unfoldable pub take_event : Reader → W → Option (Option ℕ × Reader × W)
  unfolding convert_fanotify_event rd_u32
  take_event r s =
      let r = record r { ret_off = sign_extend r.first_byte } in
      if r.lib.fanotify_mode
      then convert_fanotify_event k r s
      else some (
        some 0,
        record r {
          first_byte = (r.first_byte + event_size + rd_u32 r.evbuf (r.ret_off + 12)) % u32_mod;
        },
        s,
      )

module _ {W : Type 0} (k : Kernel W) (regexec : Regex → Bytes → Bool) where
  -- Whether the regular expression filters the event out, and the error that `snprintf` leaves; no
  -- directive of the format needs a time.
  unfoldable pub filtered : Reader → W → Option (Bool × ℕ × W)
  unfolding rd_u32 current_event filename_from_event snprintf
  filtered r s = elim r.lib.regex [
    | none ↦ some (false, r.lib.error, s)
    | some re ↦
        let mask = rd_u32 r.evbuf (r.ret_off + 4) in
        let ev = current_event r in
        if not (r.lib.recursive_watch == 0)
          && has mask in_isdir
          && has mask (bit_or in_create in_moved_to)
        then some (false, r.lib.error, s)
        else (filename_from_event k r.lib ev s >>= λ (path, s').
            let a : Args = record {
              path = path;
              mask = ev.mask;
              cookie = ev.cookie;
              evstr = [];
              time = some [];
            } in
            let empty : NString = record { buf = replicate max_strlen 0; len = 0 } in
            snprintf a empty r.lib.error max_strlen (some (codes "%w%f")) >>= λ (_, error, name).
            let matched = regexec re (until_nul (take name.len name.buf)) in
            some (if matched then not r.lib.invert_regexp else r.lib.invert_regexp, error, s'))
  ]

  -- the events of the process itself, the filter and the counters
  unfoldable pub judge : ℕ → Reader → W → Option (Verdict × Reader × W)
  unfolding filtered rd_u32 record_stats
  judge pid r s =
      if not (r.lib.self_pid == 0) && r.lib.self_pid == pid
      then some (skips, r, s)
      else (filtered r s >>= λ (out, error, s').
          let l = record r.lib { error = error } in
          if out
          then some (skips, record r { lib = l }, s')
          else if l.collect_stats
          then some (
            delivers,
            record r {
              lib = record_stats l (rd_u32 r.evbuf r.ret_off) (rd_u32 r.evbuf (r.ret_off + 4));
            },
            s',
          )
          else some (delivers, record r { lib = l }, s'))

  -- a round once there are bytes of an event
  unfoldable pub finish : Reader → W → Option (Verdict × Reader × W)
  unfolding take_event advance_bytes judge
  finish r s = take_event k r s >>= λ (pid, r', s'). elim pid [
    | none ↦ some (fails, r', s')
    | some p ↦ judge p (advance_bytes r') s'
  ]

  -- a round of the loop of `next_events_raw`
  unfoldable pub round : ℕ → Reader → ℕ → ℕ → W → Option (Verdict × Reader × W)
  unfolding look fill finish
  round fuel r timeout num_events s =
      look (record r { lib = record r.lib { error = 0 } }) >>= λ (buffered, r').
      if buffered
      then finish r' s
      else (fill k fuel r' timeout num_events s >>= λ (ok, r'', s').
          if ok then finish r'' s' else some (fails, r'', s'))

  -- The loop, on fuel: each round that skips an event goes on with less. None is a panic, or that the
  -- fuel ran out.
  unfoldable pub rounds : ℕ → Reader → ℕ → ℕ → W → Option (Bool × Reader × W)
  unfolding round
  rounds zero r timeout num_events s = none
  rounds (suc fuel) r timeout num_events s =
      round fuel r timeout num_events s >>= λ (verdict, r', s'). elim verdict [
        | fails ↦ some (false, r', s')
        | skips ↦ rounds fuel r' timeout num_events s'
        | delivers ↦ some (true, r', s')
      ]

  unfoldable pub next_events_raw : ℕ → Reader → ℕ → ℕ → W → Option (Bool × Reader × W)
  unfolding rounds
  next_events_raw fuel r timeout num_events s =
      if le_zero num_events then some (false, r, s) else rounds fuel r timeout num_events s

  unfoldable pub next_events : ℕ → Reader → ℕ → ℕ → W → Option (Option Event × Reader × W)
  unfolding next_events_raw current_event
  next_events fuel r timeout num_events s =
      next_events_raw fuel r timeout num_events s >>= λ (ok, r', s').
      some (if ok then some (current_event r') else none, r', s')

  -- the timeout 0 waits as long as -1
  unfoldable pub next_event : ℕ → Reader → ℕ → W → Option (Option Event × Reader × W)
  unfolding next_events
  next_event fuel r timeout s =
      next_events fuel r (if timeout == 0 then u64_mod - 1 else timeout) 1 s
