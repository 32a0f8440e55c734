-- ===== src/Tests/Text.antt =====
-- The theorems on event names, CSV fields, fids and counters at concrete texts.
use inotify_tools.Prelude.{
  ℕ, suc, ◌<◌, ◌≤◌, ◌≡◌, ◌↔◌, refl, Bytes, none, some, [], ◌∷◌, ◌++◌, arith, length, take, inl,
  if◌then◌else◌, is_empty, until_nul, ◌%◌,
}
use inotify_tools.Prelude.Word.{u32_mod}
use inotify_tools.Prelude.Buffer.{codes}
use inotify_tools.Handle.{EventPath}
use inotify_tools.Stats.{WatchStats, no_events, record_event}
use inotify_tools.Stats
use inotify_tools.Stats.Record.{occurrences, record_all, get-record_all}
use inotify_tools.Fid.{byte_at, hdr_len, set_hdr_len, info_type, handle_bytes, fid_key}
use inotify_tools.Fid.Fields.{hdr_len-set_hdr_len, fid_key_iff}
use inotify_tools.Events.{str_to_event_sep, event_to_str_sep, event_to_str, flag_names, hex_mask}
use inotify_tools.Events.Parse.{split, combine, str_to_event_sep-combine}
use inotify_tools.Events.Print.{shown, text, event_to_str_sep_lem}
use inotify_tools.Events.RoundTrip.{shown_mask, str_to_event_sep-event_to_str_sep}
use inotify_tools.Csv.{max_strlen, csv_escape_len, output_event_csv}
use inotify_tools.Csv.RoundTrip.{read_field, read_field-csv_escape_len, output_event_csv_lem}

str_to_event_sep-combine_example :
    str_to_event_sep (some (codes "modify,open")) b','
    ≡ combine 0 (split b',' (codes "modify,open"))
unfolding until_nul inotify_tools.Events.bad_separator
str_to_event_sep-combine_example =
    str_to_event_sep-combine (codes "modify,open") b',' refl (λ e. ground (arith, e))

unfoldable zeros : ℕ → Bytes
zeros Prim.Native.Nat.zero = []
zeros (suc n) = 0 ∷ zeros n

length-zeros : (n : ℕ) → length (zeros n) ≡ n
unfolding zeros
length-zeros Prim.Native.Nat.zero = refl
length-zeros (suc n) = omega (arith, length-zeros n)

event_to_str_sep_lem_example : event_to_str_sep (zeros 1024) 0x22 b',' ≡ (
    if is_empty (shown 0x22 flag_names) then hex_mask 0x22 else text b',' (shown 0x22 flag_names))
event_to_str_sep_lem_example =
    event_to_str_sep_lem (zeros 1024) 0x22 b',' (length-zeros 1024) (λ e. ground (arith, e))

str_to_event_sep-event_to_str_sep_example :
    str_to_event_sep (some (event_to_str_sep (zeros 1024) 0x22 b',')) b','
    ≡ shown_mask 0 0x22 flag_names
unfolding shown inotify_tools.Events.bad_separator
str_to_event_sep-event_to_str_sep_example =
    str_to_event_sep-event_to_str_sep (zeros 1024) 0x22 b',' (length-zeros 1024) refl
      (λ e. ground (arith, e))

read_field-csv_escape_len_example :
    read_field (csv_escape_len (codes "a,b\"c") 5 ++ (b',' ∷ codes "x"))
    ≡ some (take 5 (codes "a,b\"c"), b',' ∷ codes "x")
read_field-csv_escape_len_example =
    read_field-csv_escape_len (codes "a,b\"c") (codes "x") 5 b',' (omega arith) (omega arith)
      (omega arith) (inl refl)

abbrev a_path : EventPath
a_path = record { filename = codes "/tmp, x/"; dirnamelen = 8; eventname = codes "f\"1" }

named : event_to_str (zeros 1024) 2 ≡ codes "MODIFY"
unfolding event_to_str shown text inotify_tools.Events.Print.joined
named = event_to_str_sep_lem (zeros 1024) 2 b',' (length-zeros 1024) (λ e. ground (arith, e))

short : length (event_to_str (zeros 1024) 2) ≤ max_strlen
short = rw named (omega arith)

output_event_csv_lem_example :
    (l1 : Bytes) × (l2 : Bytes) × (read_field (output_event_csv (zeros 1024) a_path 2)
      ≡ some (take 8 (codes "/tmp, x/"), b',' ∷ l1))
    × (read_field l1 ≡ some (event_to_str (zeros 1024) 2, b',' ∷ l2))
    × (read_field l2 ≡ some (codes "f\"1", 10 ∷ []))
output_event_csv_lem_example =
    output_event_csv_lem (zeros 1024) a_path 2 (omega arith) (omega arith) (omega arith) short
      (omega arith)

abbrev a_fid : Bytes
a_fid =
    1 ∷ 0 ∷ 24 ∷ 0 ∷ 1 ∷ 2 ∷ 3 ∷ 4 ∷ 5 ∷ 6 ∷ 7 ∷ 8 ∷ 4 ∷ 0 ∷ 0 ∷ 0 ∷ 1 ∷ 0 ∷ 0 ∷ 0 ∷ 9 ∷ 8 ∷ 7 ∷ 6
    ∷ []

hdr_len-set_hdr_len_example :
    (hdr_len (set_hdr_len a_fid 20) ≡ 20)
    × (info_type (set_hdr_len a_fid 20) ≡ info_type a_fid)
    × (handle_bytes (set_hdr_len a_fid 20) ≡ handle_bytes a_fid)
hdr_len-set_hdr_len_example = hdr_len-set_hdr_len a_fid 20 (omega arith) (omega arith)

fid_key_iff_example : (fid_key a_fid ≡ fid_key (a_fid ++ (5 ∷ []))) ↔ (
    (hdr_len a_fid ≡ hdr_len (a_fid ++ (5 ∷ [])))
    × ((i : ℕ) → i < hdr_len a_fid → byte_at a_fid i ≡ byte_at (a_fid ++ (5 ∷ [])) i))
fid_key_iff_example = fid_key_iff a_fid (a_fid ++ (5 ∷ []))

get-record_all_example :
    Stats.get (record_all no_events (2 ∷ 0x22 ∷ 1 ∷ [])) 2 ≡ elim (Stats.get no_events 2) [
      | none ↦ none
      | some _ ↦ some (occurrences 2 (2 ∷ 0x22 ∷ 1 ∷ []) % u32_mod)
    ]
get-record_all_example = get-record_all (2 ∷ 0x22 ∷ 1 ∷ []) 2
