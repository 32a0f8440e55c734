-- ===== src/Events/Parse.antt =====
-- `str_to_event_sep` against a description by the elements between the separators.
use inotify_tools.Prelude.{
  ℕ, zero, suc, ◌≤◌, ◌<◌, ◌≡◌, refl, bit_or, Bytes, Bool, true, false, none, some, List, [], ◌∷◌,
  map, arith, ◌==◌, if◌then◌else◌, ltb, length, take, drop, is_empty, eqb, eqb_sound, position,
  until_nul, take_of_length-le, ◌≢◌, Option-cases, Bool-cases, inl, inr, ap, sym, ◌∙◌, All,
  length-take, length-drop,
}
use inotify_tools.Prelude.Word.{minus_one}
use inotify_tools.Events.{
  to_lower, eq_ignore_case, event_table, find_event, onestr_to_event, first_value, bad_separator,
  max_element, is_verdict, event_loop, str_to_event_sep,
}

-- the elements of a text between the separators; an empty text has one, which is empty
unfoldable pub split : ℕ → Bytes → List Bytes
split sep [] = [] ∷ []
split sep (c ∷ cs) =
    if c == sep
    then [] ∷ split sep cs
    else elim (split sep cs) [ [] ↦ (c ∷ []) ∷ [] | e ∷ es ↦ (c ∷ e) ∷ es ]

-- the first element that is empty (0) or unknown (-1) decides; the others are joined by `|`
unfoldable pub combine : ℕ → List Bytes → ℕ
combine ret [] = ret
combine ret (e ∷ es) =
    let v = onestr_to_event e in
    let rest = combine (bit_or ret v) es in if is_verdict v then v else rest

-- A name in the table is shorter than the longest element that is looked up.
length-map-to_lower : (a : Bytes) → length (map to_lower a) ≡ length a
length-map-to_lower [] = refl
length-map-to_lower (x ∷ a) = ap suc (length-map-to_lower a)

find_long :
    (table : List (Bytes × ℕ)) (e : Bytes)
    → All (λ r. length r.0 < length e) table
    → find_event table e ≡ minus_one
unfolding find_event eq_ignore_case
find_long [] e short = refl
find_long ((name, v) ∷ table) e short =
    elim (Bool-cases (eqb (map to_lower name) (map to_lower e))) [
      | inl same ↦ absurd (
          omega (
            arith,
            short.0,
            length-map-to_lower name,
            length-map-to_lower e,
            ap (λ (b : Bytes). length b) (eqb_sound _ _ same),
          ))
      | inr differ ↦ ground (arith, differ, find_long table e short.1)
    ]

onestr_long : (e : Bytes) → 100 ≤ length e → onestr_to_event e ≡ minus_one
unfolding onestr_to_event
onestr_long [] h = absurd (omega arith)
onestr_long (c ∷ e) h = find_long event_table (c ∷ e) (omega arith)

-- cutting an element at 4095 bytes changes nothing
onestr_cut :
    (t : Bytes) (i : ℕ)
    → i ≤ length t
    → onestr_to_event (take (if ltb max_element i then max_element else i) t)
      ≡ onestr_to_event (take i t)
onestr_cut t i h = elim (Bool-cases (ltb max_element i)) [
  | inl long ↦
      let k : max_element < i = ground arith in
      rw long (
        onestr_long (take max_element t) (omega (arith, length-take max_element t))
        ∙ sym (onestr_long (take i t) (omega (arith, length-take i t))))
  | inr short ↦ rw short
]

position-lt : (sep : ℕ) (t : Bytes) (i : ℕ) → position sep t ≡ some i → i < length t
unfolding position
position-lt sep [] i h = absurd (ground arith)
position-lt sep (c ∷ t) i h = elim (Option-cases (position sep t)) [
  | inl e ↦ ground (arith, e, h)
  | inr (j, e) ↦ ground (arith, e, h, position-lt sep t j e)
]

-- the first element and what follows it
split-none : (sep : ℕ) (t : Bytes) → position sep t ≡ none → split sep t ≡ t ∷ []
unfolding split position
split-none sep [] h = refl
split-none sep (c ∷ t) h = ground (arith, h, split-none sep t)

split-some :
    (sep : ℕ) (t : Bytes) (i : ℕ)
    → position sep t ≡ some i
    → split sep t ≡ take i t ∷ split sep (drop (suc i) t)
unfolding split position
split-some sep [] i h = ground arith
split-some sep (c ∷ t) zero h = ground (arith, h)
split-some sep (c ∷ t) (suc i) h = ground (arith, h, split-some sep t i)

combine_none :
    (ret : ℕ) (t : Bytes)
    → combine ret (t ∷ []) ≡ (
        if is_verdict (onestr_to_event t)
        then onestr_to_event t
        else bit_or ret (onestr_to_event t))
unfolding combine
combine_none ret t = refl

-- A separator at the end leaves an empty element, which decides.
combine_empty : (ret sep : ℕ) → combine ret (split sep []) ≡ 0
unfolding combine split onestr_to_event
combine_empty ret sep = refl

first_value-none :
    (sep : ℕ) (t : Bytes) → position sep t ≡ none → first_value sep t ≡ onestr_to_event t
unfolding first_value
first_value-none sep t e = rw e (
    onestr_cut t (length t) (omega arith)
    ∙ ap onestr_to_event (take_of_length-le (length t) t (omega arith)))

first_value-some :
    (sep : ℕ) (t : Bytes) (i : ℕ)
    → position sep t ≡ some i
    → first_value sep t ≡ onestr_to_event (take i t)
unfolding first_value
first_value-some sep t i e = rw e (onestr_cut t i (omega (arith, position-lt sep t i e)))

go_on :
    (fuel sep : ℕ) (rest : Bytes) (ret : ℕ) (b : Bool) (v : ℕ)
    → (rest ≢ [] → event_loop fuel sep rest ret ≡ some (combine ret (split sep rest)))
    → (if b then some v else if is_empty rest then some 0 else event_loop fuel sep rest ret)
      ≡ some (if b then v else combine ret (split sep rest))
go_on fuel sep rest ret true v h = refl
go_on fuel sep [] ret false v h = ap some (sym (combine_empty ret sep))
go_on fuel sep (c ∷ rest) ret false v h = h (λ e. cc)

event_loop-combine :
    (fuel sep : ℕ) (t : Bytes) (ret : ℕ)
    → length t < fuel
    → t ≢ []
    → event_loop fuel sep t ret ≡ some (combine ret (split sep t))
unfolding event_loop combine
event_loop-combine zero sep t ret room some_left = absurd (omega arith)
event_loop-combine (suc fuel) sep [] ret room some_left = absurd (some_left refl)
event_loop-combine (suc fuel) sep (c ∷ t) ret room some_left =
    elim (Option-cases (position sep (c ∷ t))) [
      | inl e ↦ ground (
        arith,
        e,
        first_value-none sep (c ∷ t) e,
        split-none sep (c ∷ t) e,
        combine_none ret (c ∷ t),
      )
      | inr (i, e) ↦
          let rest = drop (suc i) (c ∷ t) in
          let ret' = bit_or ret (onestr_to_event (take i (c ∷ t))) in
          let shorter : length rest < fuel = omega (arith, length-drop (suc i) (c ∷ t)) in
          let v = onestr_to_event (take i (c ∷ t)) in
          let go =
            go_on fuel sep rest ret' (is_verdict v) v
              (event_loop-combine fuel sep rest ret' shorter) in
          ground (arith, e, first_value-some sep (c ∷ t) i e, split-some sep (c ∷ t) i e, go)
    ]

-- For a separator that is allowed, the value of a text (up to its first NUL) that is not empty is
-- that of its elements between the separators: the first element that is empty or unknown gives 0
-- or -1, and if there is none the masks of the elements are joined. The loop always ends.
pub str_to_event_sep-combine :
    (text : Bytes) (sep : ℕ)
    → bad_separator sep ≡ false
    → until_nul text ≢ []
    → str_to_event_sep (some text) sep ≡ combine 0 (split sep (until_nul text))
unfolding str_to_event_sep
str_to_event_sep-combine text sep good some_left = ground (
  arith,
  good,
  event_loop-combine (suc (length (until_nul text))) sep (until_nul text) 0 (omega arith) some_left,
)
