-- ===== src/Printing/Laws.antt =====
-- What reaches the stream, and which formats inotifywait accepts.
use inotify_tools.Prelude.{
  ◌+◌, ◌%◌, ◌≤◌, ◌<◌, ◌≡◌, refl, ap, ◌∙◌, sym, arith, Bytes, Bool, true, false, not, Option, none,
  some, List, [], ◌∷◌, ◌++◌, ◌==◌, ltb, if◌then◌else◌, length, take, is_empty, unwrap_or,
  Option-cases, Bool-cases, inl, inr,
}
use mathlib.Core.List.{append_assoc, append-nil}
use inotify_tools.Prelude.Word.{minus_one, u32_mod}
use inotify_tools.Csv.{max_strlen}
use inotify_tools.Format.{Args, NString}
use inotify_tools.Format.Bounds.{snprintf-Within}
use inotify_tools.Format.Expand.{expand}
use inotify_tools.Format.Result.{snprintf_lem}
use inotify_tools.Handle.{Inotifytools, ◌>>=◌}
use inotify_tools.Kernel.{Kernel}
use inotify_tools.Names.{Event}
use inotify_tools.Names.Laws.{filename_from_event_lem}
use inotify_tools.Options.Wait.{Opts}
use inotify_tools.Registry.Invariant.{Inv}
use inotify_tools.Printing.{
  Stream, Printer, new_nstring, as_bytes, write_to, event_args, snprintf_event, fprintf_to,
  validate_format, output_event, output_events, fake_event, Tried, goes_on, exits, wrong_format,
}

-- a stream with a text behind it
abbrev pub appended : Stream → Bytes → Stream
appended none u = none
appended (some w) u = some (w ++ u)

-- the string for printing has its 4096 bytes
abbrev pub Sized : Option NString → Type 0
Sized o = length (unwrap_or o new_nstring).buf ≡ max_strlen

-- whether the format was accepted
abbrev pub accepted : Tried → Bool
accepted (goes_on p messages) = true
accepted (exits messages) = false

take-prefix : (u rest : Bytes) → take (length u) (u ++ rest) ≡ u
take-prefix [] rest = refl
take-prefix (x ∷ u) rest = ap (◌∷◌ x) (take-prefix u rest)

written_text :
    (u rest : Bytes)
    → length u < max_strlen
    → as_bytes (record { buf = u ++ rest; len = length u }) ≡ u
unfolding as_bytes
written_text u rest h = ground (arith, take-prefix u rest)

write_to-appended : (f : Stream) (u : Bytes) → write_to f u ≡ appended f u
unfolding write_to
write_to-appended none u = refl
write_to-appended (some w) [] = ap some (sym (append-nil w))
write_to-appended (some w) (x ∷ u) = refl

appended-nil : (f : Stream) → appended f [] ≡ f
appended-nil none = refl
appended-nil (some w) = ap some (append-nil w)

appended-append : (f : Stream) (u t : Bytes) → appended (appended f u) t ≡ appended f (u ++ t)
appended-append none u t = refl
appended-append (some w) u t = ap some (append_assoc w u t)

-- what is returned is -1 for the empty text only
tried_text :
    (u : Bytes)
    → length u < max_strlen
    → ((length u + minus_one) % u32_mod == minus_one) ≡ is_empty u
tried_text [] h = ground arith
tried_text (x ∷ u) h = ground (arith, h)

-- an empty text returns -1, and nothing would be written
shown_text :
    (f : Stream) (u rest : Bytes)
    → length u < max_strlen
    → (if (length u + minus_one) % u32_mod == minus_one
        then f
        else write_to f (as_bytes (record { buf = u ++ rest; len = length u })))
      ≡ appended f u
shown_text f [] rest h = ground (arith, appended-nil f)
shown_text f (x ∷ u) rest h =
    ground (arith, h, written_text (x ∷ u) rest h, write_to-appended f (x ∷ u))

module _ {W : Type 0} (k : Kernel W) (strftime : Bytes → W → Option Bytes) (evstr : Bytes) where
  event_args-dir :
      (l : Inotifytools) (ev : Event) (s s' : W) (a : Args)
      → Inv l
      → event_args k strftime evstr l ev s ≡ some (a, s')
      → a.path.dirnamelen ≤ length a.path.filename
  unfolding event_args
  event_args-dir l ev s s' a v e =
      let (path, s'', f, g, _) = filename_from_event_lem k l v ev s in ground (arith, e, f, g)

  -- one event that is printed with a format
  pub fprintf_to_lem :
      (p : Printer) (ev : Event) (fmt u : Bytes) (a : Args) (s s' : W)
      → Inv p.lib
      → Sized p.print_out
      → event_args k strftime evstr p.lib ev s ≡ some (a, s')
      → 0 < length fmt
      → length fmt ≤ max_strlen
      → expand (length fmt) a fmt ≡ some u
      → length u + 1 < max_strlen
      → (out : NString) × (fprintf_to k strftime evstr p ev (some fmt) s
          ≡ some (
            (length u + minus_one) % u32_mod,
            record { lib = p.lib; print_out = some out; stream = appended p.stream u },
            s',
          ))
        × (length out.buf ≡ max_strlen)
  unfolding fprintf_to snprintf_event
  fprintf_to_lem p ev fmt u a s s' v full e pos short f room =
      let out = unwrap_or p.print_out new_nstring in
      let dir = event_args-dir p.lib ev s s' a v e in
      let (rest, g) =
        snprintf_lem a out p.lib.error max_strlen fmt u dir full (omega arith) pos short f room in
      let (ret, err, out', h, w) = snprintf-Within a out p.lib.error max_strlen (some fmt) full in
      let sized : length (u ++ rest) ≡ max_strlen = ground (arith, g, h, w.0, full) in
      (
        record { buf = u ++ rest; len = length u },
        rw (e, g)
            (ap
              (λ (f : Stream). some (
                (length u + minus_one) % u32_mod,
                record {
                  lib = p.lib;
                  print_out = some (record { buf = u ++ rest; len = length u });
                  stream = f;
                },
                s',
              ))
              (shown_text p.stream u rest (omega (arith, room)))),
        sized,
      )

  -- What a format prints for the events of a list, and the state behind it: none, if it is invalid
  -- for one of them or its text does not fit in.
  unfoldable pub texts : Inotifytools → Bytes → List Event → W → Option (Bytes × W)
  texts l fmt [] s = some ([], s)
  texts l fmt (ev ∷ evs) s = event_args k strftime evstr l ev s >>= λ (a, s1).
      expand (length fmt) a fmt >>= λ u.
      let rest = texts l fmt evs s1 in
      if ltb (length u + 1) max_strlen then (rest >>= λ (t, s2). some (u ++ t, s2)) else none

  texts-nil :
      (l : Inotifytools) (fmt : Bytes) (s s' : W) (t : Bytes)
      → texts l fmt [] s ≡ some (t, s')
      → ([] ≡ t) × (s ≡ s')
  unfolding texts
  texts-nil l fmt s s' t e = (ground (arith, e), ground (arith, e))

  -- the first event of a list that can be printed
  texts-cons :
      (l : Inotifytools) (fmt : Bytes) (ev : Event) (evs : List Event) (s s' : W) (t : Bytes)
      → texts l fmt (ev ∷ evs) s ≡ some (t, s')
      → (a : Args) × (s1 : W) × (u : Bytes) × (t' : Bytes) × (event_args k strftime evstr l ev s
          ≡ some (a, s1))
        × (expand (length fmt) a fmt ≡ some u)
        × (length u + 1 < max_strlen)
        × (texts l fmt evs s1 ≡ some (t', s'))
        × (u ++ t' ≡ t)
  unfolding texts
  texts-cons l fmt ev evs s s' t e = elim (Option-cases (event_args k strftime evstr l ev s)) [
    | inl f ↦ absurd (ground (arith, e, f))
    | inr ((a, s1), f) ↦ elim (Option-cases (expand (length fmt) a fmt)) [
      | inl g ↦ absurd (ground (arith, e, f, g))
      | inr (u, g) ↦ elim (Option-cases (texts l fmt evs s1)) [
        | inl h ↦ absurd (ground (arith, e, f, g, h))
        | inr ((t', s2), h) ↦ (
          a,
          s1,
          u,
          t',
          f,
          g,
          ground (arith, e, f, g, h),
          ground (arith, e, f, g, h),
          ground (arith, e, f, g, h),
        )
      ]
    ]
  ]

  -- With a format that is not empty nor longer than 4096 bytes, printing a list of events appends
  -- to the stream the texts that the format stands for, in the order of the events, if the handle
  -- satisfies the invariant, the string for printing has its 4096 bytes, and each text leaves two
  -- of these free; the handle stays as it is.
  pub output_events_lem :
      (o : Opts) (fmt t : Bytes) (evs : List Event) (p : Printer) (s s' : W)
      → o.csv ≡ false
      → o.format ≡ some fmt
      → Inv p.lib
      → Sized p.print_out
      → 0 < length fmt
      → length fmt ≤ max_strlen
      → texts p.lib fmt evs s ≡ some (t, s')
      → (out : Option NString) × (output_events k strftime evstr o p evs s
          ≡ some (record { lib = p.lib; print_out = out; stream = appended p.stream t }, s'))
  unfolding output_events output_event
  output_events_lem o fmt t [] p s s' no_csv form v full pos short e =
      let (none_left, same) = texts-nil p.lib fmt s s' t e in
      (
        p.print_out,
        ground (arith, same)
            ∙ ap
                (λ (f : Stream).
                  some (record { lib = p.lib; print_out = p.print_out; stream = f }, s'))
                (sym (appended-nil p.stream) ∙ ap (appended p.stream) none_left),
      )
  output_events_lem o fmt t (ev ∷ evs) p s s' no_csv form v full pos short e =
      let (a, s1, u, t', f, g, room, h, whole) = texts-cons p.lib fmt ev evs s s' t e in
      let (out, printed, full') = fprintf_to_lem p ev fmt u a s s1 v full f pos short g room in
      let p' : Printer = record {
        lib = p.lib;
        print_out = some out;
        stream = appended p.stream u;
      } in
      let (out', rest) = output_events_lem o fmt t' evs p' s1 s' no_csv form v full' pos short h in
      (
        out',
        rw (no_csv, form, printed)
            (rest
              ∙ ap (λ (f : Stream). some (record { lib = p.lib; print_out = out'; stream = f }, s'))
                  (appended-append p.stream u t' ∙ ap (appended p.stream) whole)),
      )

  -- A format that is not empty nor longer than 4096 bytes, whose text for the event that it is
  -- tried with is `u` and leaves two of 4096 bytes free, is accepted exactly if `u` is not
  -- empty: one that prints only the names of that event is refused.
  pub validate_format_lem :
      (p : Printer) (fmt u : Bytes) (a : Args) (s s' : W)
      → Inv p.lib
      → Sized p.print_out
      → event_args k strftime evstr p.lib fake_event s ≡ some (a, s')
      → 0 < length fmt
      → length fmt ≤ max_strlen
      → expand (length fmt) a fmt ≡ some u
      → length u + 1 < max_strlen
      → (tried : Tried) × (validate_format k strftime evstr none p fmt s ≡ some (tried, s'))
        × (accepted tried ≡ not (is_empty u))
  unfolding validate_format
  validate_format_lem p fmt u a s s' v full e pos short f room =
      let (out, g, full') =
        fprintf_to_lem (record p { stream = some [] }) fake_event fmt u a s s' v full e pos short f
          room in
      elim (Bool-cases (is_empty u)) [
        | inl h ↦ rw (g, tried_text u (omega arith), h) (exits (wrong_format ∷ []), refl, refl)
        | inr h ↦ rw (g, tried_text u (omega arith), h) (_, refl, refl)
      ]
