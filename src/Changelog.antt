-- ===== src/Changelog.antt =====
-- changelog.py: the parser of CHANGELOG.md. The regular expressions, one after the other, make a
-- `Line` of each line from the first heading on; lists grow at the front here, so the last release,
-- section and entry that were read stand first.
pub mod WellFormed
pub mod Parts
pub mod Keeps
use javi.Prelude.{
  ℕ, String, Bool, true, false, not, ◌&&◌, ◌||◌, ◌==◌, str_eq, ltb, Option, none, some, List, [],
  ◌∷◌, any, select, first, if◌then◌else◌, is_some, is_none, get_or,
}
use Prim.Native.String.{compare}
use text.Mathlib.Text.{is_lt}

pub data Line : Type 0 where
  blank link_definition : Line
  version_heading : (version : String) (day : Option String) → Line
  section_heading english translation : String → Line
  unexpected : Line

pub record Entry : Type 0 where
  pub english : String
  pub translated : Option String

pub record Section : Type 0 where
  pub name : String
  pub entries : List Entry

pub record Release : Type 0 where
  pub version : String
  pub date : Option String
  pub sections : List Section

-- The releases so far, whether a section of the last one is open, and whether links were seen.
pub record Parser : Type 0 where
  pub releases : List Release
  pub in_section : Bool
  pub links : Bool

-- `vkey` and `date.fromisoformat`
pub record Dates : Type 0 where
  pub vkey : String → ℕ × ℕ × ℕ
  pub is_date : String → Bool

abbrev pub is_unreleased : String → Bool
is_unreleased version = str_eq version "Unreleased"

abbrev pub is_section_name : String → Bool
is_section_name s =
    str_eq s "Added" || str_eq s "Changed" || str_eq s "Fixed" || str_eq s "Security"

unfoldable pub has_releases : List Release → Bool
has_releases [] = false
has_releases (r ∷ rs) = true

abbrev pub has_name : String → Section → Bool
has_name name s = str_eq s.name name

unfoldable pub entries_of : List Section → Option (List Entry)
entries_of [] = none
entries_of (s ∷ rest) = some s.entries

unfoldable pub entries_of_last : List Release → Option (List Entry)
unfolding entries_of
entries_of_last [] = none
entries_of_last (r ∷ rest) = entries_of r.sections

-- `sec` is the list of the last section of the last release, or `None`.
unfoldable pub open_entries : Parser → Option (List Entry)
unfolding entries_of_last
open_entries p = if p.in_section then entries_of_last p.releases else none

-- A new list of entries in its place.
unfoldable pub with_entries : List Entry → List Section → List Section
with_entries entries [] = []
with_entries entries (s ∷ rest) = record s { entries = entries } ∷ rest

unfoldable pub with_open : List Entry → List Release → List Release
unfolding with_entries
with_open entries [] = []
with_open entries (r ∷ rest) = record r { sections = with_entries entries r.sections } ∷ rest

unfoldable pub add_version : Dates → String → Option String → Parser → Option Parser
unfolding has_releases
add_version dates version day p =
    let next = record p {
      releases = record { version = version; date = day; sections = [] } ∷ p.releases;
      in_section = false;
    } in
    if is_unreleased version
    then (if is_some day || has_releases p.releases then none else some next)
    else (if is_some day && dates.is_date (get_or day "") then some next else none)

unfoldable pub open_section : String → List Release → Parser → Option Parser
open_section name [] p = none
open_section name (r ∷ rest) p =
    if not (is_section_name name) || any (has_name name) r.sections
    then none
    else some (record p {
      releases = record r { sections = record { name = name; entries = [] } ∷ r.sections } ∷ rest;
      in_section = true;
    })

unfoldable pub add_section : String → Parser → Option Parser
unfolding open_section
add_section name p = open_section name p.releases p

unfoldable pub translate_last : String → Option (List Entry) → Parser → Option Parser
translate_last text none p = none
translate_last text (some []) p = none
translate_last text (some (e ∷ entries)) p =
    if is_some e.translated
    then none
    else some (record p {
      releases = with_open (record e { translated = some text } ∷ entries) p.releases;
    })

unfoldable pub add_translation : String → Parser → Option Parser
unfolding translate_last
add_translation text p = translate_last text (open_entries p) p

unfoldable pub add_entry : String → List Entry → Parser → Option Parser
add_entry text entries p = some (record p {
  releases = with_open (record { english = text; translated = none } ∷ entries) p.releases;
})

unfoldable pub append_entry : String → Option (List Entry) → Parser → Option Parser
unfolding add_entry
append_entry text none p = none
append_entry text (some []) p = add_entry text [] p
append_entry text (some (e ∷ entries)) p =
    if is_none e.translated then none else add_entry text (e ∷ entries) p

unfoldable pub add_english : String → Parser → Option Parser
unfolding append_entry
add_english text p = append_entry text (open_entries p) p

-- `if not releases: fail(...)`
unfoldable pub after_version : List Release → Option Parser → Option Parser
after_version [] next = none
after_version (r ∷ rest) next = next

unfoldable pub then_lines : Option Parser → (Parser → Option Parser) → Option Parser
then_lines none rest = none
then_lines (some p) rest = rest p

abbrev pub start : Parser
start = record { releases = []; in_section = false; links = false }

unfoldable pub is_translated : List Entry → Bool
is_translated [] = false
is_translated (e ∷ entries) = is_some e.translated

unfoldable pub sections_complete : List Section → Bool
unfolding is_translated
sections_complete [] = true
sections_complete (s ∷ rest) = is_translated s.entries && sections_complete rest

-- Every section has an entry, and its last one a translation.
unfoldable pub all_complete : List Release → Bool
unfolding sections_complete
all_complete [] = true
all_complete (r ∷ rest) = sections_complete r.sections && all_complete rest

unfoldable pub has_entry : List Entry → Bool
has_entry [] = false
has_entry (e ∷ entries) = true

-- `r.entries` is not empty.
unfoldable pub has_entries : List Section → Bool
unfolding has_entry
has_entries [] = false
has_entries (s ∷ rest) = has_entry s.entries || has_entries rest

unfoldable pub released : List Release → List Release
released rs = select (λ (r : Release). not (is_unreleased r.version)) rs

unfoldable pub all_have_entries : List Release → Bool
unfolding has_entries
all_have_entries [] = true
all_have_entries (r ∷ rest) = has_entries r.sections && all_have_entries rest

unfoldable pub key_le : ℕ × ℕ × ℕ → ℕ × ℕ × ℕ → Bool
key_le (a, b, c) (d, e, f) = ltb a d || (a == d && (ltb b e || (b == e && not (ltb f c))))

unfoldable pub text_lt : Option String → Option String → Bool
text_lt a b = is_lt (compare (get_or a "") (get_or b ""))

module _ (dates : Dates) where
  -- A line that is neither blank nor a link definition.
  unfoldable pub read_text : Line → Parser → Option Parser
  unfolding after_version
  read_text (version_heading version day) p = add_version dates version day p
  read_text (section_heading name) p = after_version p.releases (add_section name p)
  read_text (translation text) p = after_version p.releases (add_translation text p)
  read_text (english text) p = after_version p.releases (add_english text p)
  read_text blank p = none
  read_text link_definition p = none
  read_text unexpected p = none

  -- The body of the loop; `none` is `ChangelogError`.
  unfoldable pub read_line : Line → Parser → Option Parser
  unfolding read_text
  read_line blank p = some p
  read_line link_definition p = some (record p { links = true })
  read_line line p = if p.links then none else read_text line p

  unfoldable pub read_lines : List Line → Parser → Option Parser
  unfolding then_lines
  read_lines [] p = some p
  read_lines (line ∷ lines) p = then_lines (read_line line p) (λ q. read_lines lines q)

  -- `newer` stands above `older`.
  unfoldable pub is_newer : Release → Release → Bool
  unfolding key_le text_lt
  is_newer newer older =
      not (key_le (dates.vkey newer.version) (dates.vkey older.version))
      && not (text_lt newer.date older.date)

  unfoldable pub newer_than_next : Release → List Release → Bool
  newer_than_next older [] = true
  newer_than_next older (newer ∷ above) = is_newer newer older

  -- The last one that was read is the oldest.
  unfoldable pub is_ordered : List Release → Bool
  unfolding newer_than_next
  is_ordered [] = true
  is_ordered (older ∷ above) = newer_than_next older above && is_ordered above

  unfoldable pub checked : Option Parser → Option (List Release)
  checked none = none
  checked (some p) =
      let done = released p.releases in
      if all_complete p.releases && all_have_entries done && is_ordered done
      then some p.releases
      else none

  -- `parse`, from the first heading on; the last release stands first.
  unfoldable pub parse : List Line → Option (List Release)
  unfolding checked
  parse lines = checked (read_lines lines start)
