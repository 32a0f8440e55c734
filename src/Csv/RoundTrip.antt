-- ===== src/Csv/RoundTrip.antt =====
-- Reading a printed CSV line gives the fields back.
use inotify_tools.Prelude.{
  ℕ, zero, suc, ◌-◌, ◌≤◌, ◌<◌, ◌≡◌, refl, Bytes, false, ◌&&◌, ◌||◌, not, Option, none, some, [],
  ◌∷◌, ◌++◌, arith, ◌==◌, ltb, if◌then◌else◌, length, take, get_or, contains, is_empty, ◌⊎◌, inl,
  inr, Bool-cases, ap, sym, ◌∙◌, take_of_length-le, All,
}
use mathlib.Core.List.{append_assoc}
use inotify_tools.Handle.{EventPath}
use inotify_tools.Events.{event_to_str}
use inotify_tools.Csv.{max_strlen, double_quotes, csv_escape_len, csv_escape, output_event_csv}

-- A reader of one field: quoted, with doubled quotes, or plain up to a comma or a line end.
unfoldable pub read_quoted : Bytes → Option (Bytes × Bytes)
read_quoted [] = none
read_quoted (c ∷ []) = if c == b'"' then some ([], []) else none
read_quoted (c ∷ d ∷ s) =
    let escaped = read_quoted s in
    let plain = read_quoted (d ∷ s) in
    if c == b'"'
    then if d == b'"'
      then elim escaped [ none ↦ none | some (f, r) ↦ some (b'"' ∷ f, r) ]
      else some ([], d ∷ s)
    else elim plain [ none ↦ none | some (f, r) ↦ some (c ∷ f, r) ]

unfoldable pub read_plain : Bytes → Bytes × Bytes
read_plain [] = ([], [])
read_plain (c ∷ s) =
    let (f, r) = read_plain s in if c == b',' || c == 10 then ([], c ∷ s) else (c ∷ f, r)

unfoldable pub read_field : Bytes → Option (Bytes × Bytes)
unfolding read_quoted read_plain
read_field [] = some ([], [])
read_field (c ∷ s) = if c == b'"' then read_quoted s else some (read_plain (c ∷ s))

-- a comma or a line end
abbrev EndsField : ℕ → Type 0
EndsField c = (c ≡ b',') ⊎ (c ≡ 10)

abbrev push : ℕ → Option (Bytes × Bytes) → Option (Bytes × Bytes)
push c none = none
push c (some (f, r)) = some (c ∷ f, r)

read_quoted_plain :
    (x y : ℕ) (t : Bytes)
    → (x == b'"') ≡ false
    → read_quoted (x ∷ y ∷ t) ≡ push x (read_quoted (y ∷ t))
unfolding read_quoted
read_quoted_plain x y [] h = ground (arith, h)
read_quoted_plain x y (z ∷ t) h = rw h

read_quoted_escaped : (t : Bytes) → read_quoted (b'"' ∷ b'"' ∷ t) ≡ push b'"' (read_quoted t)
unfolding read_quoted
read_quoted_escaped [] = refl
read_quoted_escaped (x ∷ []) = refl
read_quoted_escaped (x ∷ y ∷ t) = refl

read_quoted_end : (r : Bytes) (c : ℕ) → EndsField c → read_quoted (b'"' ∷ c ∷ r) ≡ some ([], c ∷ r)
unfolding read_quoted
read_quoted_end r c h = ground arith

-- the doubled text and the closing quote begin with some byte
double_quotes_head : (s t : Bytes) → (y : ℕ) × (u : Bytes) × (double_quotes s ++ (b'"' ∷ t) ≡ y ∷ u)
unfolding double_quotes
double_quotes_head [] t = (b'"', t, refl)
double_quotes_head (x ∷ s) t = elim (Bool-cases (x == b'"')) [
  | inl e ↦ (x, x ∷ (double_quotes s ++ (b'"' ∷ t)), rw e)
  | inr e ↦ (x, double_quotes s ++ (b'"' ∷ t), rw e)
]

read_quoted-double_quotes :
    (s r : Bytes) (c : ℕ)
    → EndsField c
    → read_quoted (double_quotes s ++ (b'"' ∷ c ∷ r)) ≡ some (s, c ∷ r)
unfolding double_quotes
read_quoted-double_quotes [] r c h = read_quoted_end r c h
read_quoted-double_quotes (x ∷ s) r c h = elim (Bool-cases (x == b'"')) [
  | inl e ↦
      let q : x ≡ b'"' = ground arith in
      rw e (
        ap (λ (x : ℕ). read_quoted (x ∷ x ∷ (double_quotes s ++ (b'"' ∷ c ∷ r)))) q
        ∙ read_quoted_escaped (double_quotes s ++ (b'"' ∷ c ∷ r))
        ∙ ap (push b'"') (read_quoted-double_quotes s r c h)
        ∙ ap (λ (x : ℕ). some (x ∷ s, c ∷ r)) (sym q))
  | inr e ↦
      let (y, u, g) = double_quotes_head s (c ∷ r) in
      rw (e, g)
        (read_quoted_plain x y u e
          ∙ ap (λ (t : Bytes). push x (read_quoted t)) (sym g)
          ∙ ap (push x) (read_quoted-double_quotes s r c h))
]

-- no byte of the text ends a plain field
abbrev Plain : Bytes → Type 0
Plain = All (λ c. (c == b',' || c == 10) ≡ false)

read_plain-append :
    (s r : Bytes) (c : ℕ) → EndsField c → Plain s → read_plain (s ++ (c ∷ r)) ≡ (s, c ∷ r)
unfolding read_plain
read_plain-append [] r c h p = ground arith
read_plain-append (x ∷ s) r c h p = ground (arith, p.0, read_plain-append s r c h p.1)

take-Plain :
    (n : ℕ) (s : Bytes) → contains s b',' ≡ false → contains s 10 ≡ false → Plain (take n s)
unfolding contains
take-Plain zero s h k = tt
take-Plain (suc n) [] h k = tt
take-Plain (suc n) (x ∷ s) h k =
    (ground (arith, h, k), take-Plain n s (ground (arith, h)) (ground (arith, k)))

read_field_plain :
    (s r : Bytes) (n c : ℕ)
    → EndsField c
    → 0 < n
    → contains s b'"' ≡ false
    → contains s b',' ≡ false
    → contains s 10 ≡ false
    → 0 < length s
    → read_field (take n s ++ (c ∷ r)) ≡ some (take n s, c ∷ r)
unfolding read_field contains
read_field_plain s r zero c h pos nq nc nl some_bytes = absurd (omega arith)
read_field_plain [] r (suc n) c h pos nq nc nl some_bytes = absurd (omega arith)
read_field_plain (x ∷ s) r (suc n) c h pos nq nc nl some_bytes =
    let p = take-Plain (suc n) (x ∷ s) (unfold contains in nc) (unfold contains in nl) in
    let first : (x == b'"') ≡ false = ground (arith, nq) in
    rw first (ap some (read_plain-append (x ∷ take n s) r c h p))

-- A text that is not empty and not longer than the buffer, escaped and followed by a comma or a
-- line end, is read back with what follows, whatever bytes it has.
pub read_field-csv_escape_len :
    (s r : Bytes) (len c : ℕ)
    → 0 < len
    → len ≤ max_strlen
    → len ≤ length s
    → EndsField c
    → read_field (csv_escape_len s len ++ (c ∷ r)) ≡ some (take len s, c ∷ r)
unfolding csv_escape_len
read_field-csv_escape_len s r len c pos small fits h =
    elim (Bool-cases (
      not (contains s b'"')
      && not (contains s b',')
      && not (contains s 10)
      && not (get_or s 0 0 == b' ')
      && not (get_or s (len - 1) 0 == b' '))) [
        | inl plain ↦
            rw (accepted, plain)
              (read_field_plain s r len c h pos (ground (arith, plain)) (ground (arith, plain))
                (ground (arith, plain)) (omega arith))
        | inr quoted ↦
            rw (accepted, quoted)
              (unfold read_field in
                ap read_field (
                  ap (λ (t : Bytes). b'"' ∷ t)
                    (append_assoc (double_quotes (take len s)) (b'"' ∷ []) (c ∷ r)))
                ∙ read_quoted-double_quotes (take len s) r c h)
      ]
  where
    accepted : (len == 0 || ltb max_strlen len || ltb (length s) len) ≡ false
    accepted = ground arith

read_field-csv_escape :
    (s r : Bytes) (c : ℕ)
    → length s ≤ max_strlen
    → EndsField c
    → read_field (csv_escape s ++ (c ∷ r)) ≡ some (s, c ∷ r)
unfolding csv_escape
read_field-csv_escape [] r c small h = unfold csv_escape_len read_field read_plain in ground arith
read_field-csv_escape (x ∷ s) r c small h =
    read_field-csv_escape_len (x ∷ s) r (suc (length s)) c (omega arith) small (omega arith) h
    ∙ ap (λ (t : Bytes). some (t, c ∷ r)) (take_of_length-le (suc (length s)) (x ∷ s) (omega arith))

escaped_some :
    (s : Bytes) (len : ℕ)
    → 0 < len
    → len ≤ max_strlen
    → len ≤ length s
    → is_empty (csv_escape_len s len) ≡ false
unfolding csv_escape_len
escaped_some [] len pos small fits = absurd (omega arith)
escaped_some (x ∷ s) zero pos small fits = absurd (omega arith)
escaped_some (x ∷ s) (suc len) pos small fits = ground arith

-- The printed line of an event with a directory part that is not empty is three fields that read
-- back as the directory part, the names of the mask and the name of the file, where none of these
-- is longer than the buffer; the line ends behind the third.
pub output_event_csv_lem :
    (evstr : Bytes) (path : EventPath) (mask : ℕ)
    → 0 < path.dirnamelen
    → path.dirnamelen ≤ max_strlen
    → path.dirnamelen ≤ length path.filename
    → length (event_to_str evstr mask) ≤ max_strlen
    → length path.eventname ≤ max_strlen
    → (l1 : Bytes) × (l2 : Bytes) × (read_field (output_event_csv evstr path mask)
        ≡ some (take path.dirnamelen path.filename, b',' ∷ l1))
      × (read_field l1 ≡ some (event_to_str evstr mask, b',' ∷ l2))
      × (read_field l2 ≡ some (path.eventname, 10 ∷ []))
unfolding output_event_csv
output_event_csv_lem evstr path mask pos small fits short short_name = (
  l1,
  l2,
  rw not_empty
      (read_field-csv_escape_len path.filename l1 path.dirnamelen b',' pos small fits (inl refl)),
  read_field-csv_escape (event_to_str evstr mask) l2 b',' short (inl refl),
  read_field-csv_escape path.eventname [] 10 short_name (inr refl),
)
  where
    l2 : Bytes
    l2 = csv_escape path.eventname ++ (10 ∷ [])

    l1 : Bytes
    l1 = csv_escape (event_to_str evstr mask) ++ (b',' ∷ l2)

    not_empty : is_empty (csv_escape_len path.filename path.dirnamelen) ≡ false
    not_empty = escaped_some path.filename path.dirnamelen pos small fits
