-- ===== src/Events/RoundTrip.antt =====
-- Printing a mask and parsing the text again.
use inotify_tools.Prelude.{
  ℕ, ◌≡◌, refl, bit_or, Bytes, Bool, true, false, ◌&&◌, ◌||◌, not, some, List, [], ◌∷◌, ◌++◌, arith,
  ◌==◌, leb, if◌then◌else◌, length, is_empty, eqb, ◌≢◌, Bool-cases, inl, inr, ap, ◌∙◌, All,
}
use mathlib.Core.List.{append-nil}
use inotify_tools.Prelude.Buffer.{until_nul-NoNul, NoNul, NoNul-append}
use inotify_tools.Prelude.Word.{has}
use inotify_tools.Events.{
  onestr_to_event, find_event, eq_ignore_case, to_lower, bad_separator, is_verdict,
  str_to_event_sep, flag_names, hex_mask, event_to_str_sep,
}
use inotify_tools.Events.Parse.{split, combine, str_to_event_sep-combine}
use inotify_tools.Events.Print.{
  shown, joined, text, event_to_str_sep_lem, shown-NoNul, joined-NoNul, flag_names-Clean,
}

-- The printed names are the elements of the text.
split-append :
    (sep : ℕ) (n t : Bytes) → All (λ c. c ≢ sep) n → split sep (n ++ (sep ∷ t)) ≡ n ∷ split sep t
unfolding split
split-append sep [] t clean = ground arith
split-append sep (c ∷ n) t clean = ground (arith, split-append sep n t clean.1, clean.0)

split_last : (sep : ℕ) (n : Bytes) → All (λ c. c ≢ sep) n → split sep n ≡ n ∷ []
unfolding split
split_last sep [] clean = refl
split_last sep (c ∷ n) clean = ground (arith, split_last sep n clean.1, clean.0)

split-text :
    (sep : ℕ) (n : Bytes) (ns : List Bytes)
    → All (All (λ c. c ≢ sep)) (n ∷ ns)
    → split sep (text sep (n ∷ ns)) ≡ n ∷ ns
unfolding text joined
split-text sep n [] clean = ap (split sep) (append-nil n) ∙ split_last sep n clean.0
split-text sep n (m ∷ ns) clean =
    split-append sep n (m ++ joined sep ns) clean.0
    ∙ ap (λ (l : List Bytes). n ∷ l) (split-text sep m ns clean.1)

-- the flags that the mask shows, joined by `|`
pub shown_mask : ℕ → ℕ → List (ℕ × Bytes) → ℕ
shown_mask ret events [] = ret
shown_mask ret events ((flag, name) ∷ names) =
    shown_mask (if has flag events then bit_or ret flag else ret) events names

-- each name is read back as its flag, and no flag ends the reading
abbrev Reads : List (ℕ × Bytes) → Type 0
Reads = All (λ e. (onestr_to_event e.1 ≡ e.0) × (is_verdict e.0 ≡ false))

flag_names-Reads : Reads flag_names
unfolding onestr_to_event find_event eq_ignore_case to_lower eqb
flag_names-Reads = (
  (refl, refl),
  (
    (refl, refl),
    (
      (refl, refl),
      (
        (refl, refl),
        (
          (refl, refl),
          (
            (refl, refl),
            (
              (refl, refl),
              (
                (refl, refl),
                (
                  (refl, refl),
                  (
                    (refl, refl),
                    (
                      (refl, refl),
                      (
                        (refl, refl),
                        (
                          (refl, refl),
                          (
                            (refl, refl),
                            ((refl, refl), ((refl, refl), ((refl, refl), ((refl, refl), tt)))),
                          ),
                        ),
                      ),
                    ),
                  ),
                ),
              ),
            ),
          ),
        ),
      ),
    ),
  ),
)

combine-shown :
    (ret events : ℕ) (names : List (ℕ × Bytes))
    → Reads names
    → combine ret (shown events names) ≡ shown_mask ret events names
unfolding combine shown shown_mask
combine-shown ret events [] reads = refl
combine-shown ret events ((flag, name) ∷ names) reads = elim (Bool-cases (has flag events)) [
  | inl e ↦ rw (e, reads.0.0, reads.0.1) (combine-shown (bit_or ret flag) events names reads.1)
  | inr e ↦ rw e (combine-shown ret events names reads.1)
]

-- a letter or `_`, which no allowed separator is
abbrev name_byte : ℕ → Bool
name_byte c = c == b'_' || (leb b'A' c && leb c b'Z')

abbrev all_name_bytes : Bytes → Bool
all_name_bytes [] = true
all_name_bytes (c ∷ n) = name_byte c && all_name_bytes n

abbrev proper_names : List (ℕ × Bytes) → Bool
proper_names [] = true
proper_names ((flag, n) ∷ names) = not (is_empty n) && all_name_bytes n && proper_names names

flag_names_proper : proper_names flag_names ≡ true
flag_names_proper = refl

no_separator :
    (sep : ℕ) (n : Bytes)
    → bad_separator sep ≡ false
    → all_name_bytes n ≡ true
    → All (λ c. c ≢ sep) n
unfolding bad_separator
no_separator sep [] good proper = tt
no_separator sep (c ∷ n) good proper = (
  λ e. absurd (ground (arith, e, good, proper)),
  no_separator sep n good (ground (arith, proper)),
)

abbrev Separate : ℕ → Bytes → Type 0
Separate sep n = (n ≢ []) × All (λ c. c ≢ sep) n

shown-Separate :
    (events sep : ℕ) (names : List (ℕ × Bytes))
    → bad_separator sep ≡ false
    → proper_names names ≡ true
    → All (Separate sep) (shown events names)
unfolding shown
shown-Separate events sep [] good proper = tt
shown-Separate events sep ((flag, n) ∷ names) good proper = elim (Bool-cases (has flag events)) [
  | inl e ↦ rw e (
    (λ h. ground (arith, h, proper), no_separator sep n good (ground (arith, proper))),
    shown-Separate events sep names good (ground (arith, proper)),
  )
  | inr e ↦ rw e (shown-Separate events sep names good (ground (arith, proper)))
]

text-NoNul : (sep : ℕ) (ns : List Bytes) → sep ≢ 0 → All NoNul ns → NoNul (text sep ns)
unfolding text
text-NoNul sep [] ok n = tt
text-NoNul sep (m ∷ ns) ok n = NoNul-append m (joined sep ns) n.0 (joined-NoNul sep ns ok n.1)

text-ne-nil : (sep : ℕ) (n : Bytes) (ns : List Bytes) → n ≢ [] → text sep (n ∷ ns) ≢ []
unfolding text
text-ne-nil sep [] ns h = absurd (h refl)
text-ne-nil sep (c ∷ n) ns h = λ e. cc

All-snd : (sep : ℕ) (ns : List Bytes) → All (Separate sep) ns → All (All (λ c. c ≢ sep)) ns
All-snd sep [] a = tt
All-snd sep (n ∷ ns) a = (a.0.1, All-snd sep ns a.1)

parse-text :
    (sep : ℕ) (ns : List Bytes)
    → bad_separator sep ≡ false
    → sep ≢ 0
    → ns ≢ []
    → All (Separate sep) ns
    → All NoNul ns
    → str_to_event_sep (some (text sep ns)) sep ≡ combine 0 ns
parse-text sep [] good ok some_shown separate clean = absurd (some_shown refl)
parse-text sep (n ∷ ns) good ok some_shown separate clean =
    let whole = until_nul-NoNul (text sep (n ∷ ns)) (text-NoNul sep (n ∷ ns) ok clean) in
    str_to_event_sep-combine (text sep (n ∷ ns)) sep good
      (rw whole (text-ne-nil sep n ns separate.0.0))
    ∙ ap (λ (t : Bytes). combine 0 (split sep t)) whole
    ∙ ap (combine 0) (split-text sep n ns (All-snd sep (n ∷ ns) separate))

-- A mask that shows at least one name, printed with a separator that the parser allows, is parsed
-- as all the flags with a name that the mask has, joined. (`CLOSE` is a name for two bits, so a
-- mask with either of them is read back with both.)
pub str_to_event_sep-event_to_str_sep :
    (evstr : Bytes) (events sep : ℕ)
    → length evstr ≡ 1024
    → bad_separator sep ≡ false
    → shown events flag_names ≢ []
    → str_to_event_sep (some (event_to_str_sep evstr events sep)) sep
      ≡ shown_mask 0 events flag_names
str_to_event_sep-event_to_str_sep evstr events sep full good some_shown =
    let ok : sep ≢ 0 = λ e. nonzero e in
    let printed : event_to_str_sep evstr events sep ≡ text sep (shown events flag_names) =
      event_to_str_sep_lem evstr events sep full ok
      ∙ visible (shown events flag_names) some_shown in
    ap (λ (t : Bytes). str_to_event_sep (some t) sep) printed
    ∙ parse-text sep (shown events flag_names) good ok some_shown
        (shown-Separate events sep flag_names good flag_names_proper)
        (shown-NoNul events flag_names flag_names-Clean)
    ∙ combine-shown 0 events flag_names flag_names-Reads
  where
    nonzero : sep ≡ 0 → ⊥
    nonzero e = unfold bad_separator in ground (arith, e, good)

    visible :
        (ns : List Bytes)
        → ns ≢ []
        → (if is_empty ns then hex_mask events else text sep ns) ≡ text sep ns
    visible [] h = absurd (h refl)
    visible (n ∷ ns) h = refl
