-- ===== src/Tests/Releases.antt =====
-- Runs of the changelog's parser.
use javi.Prelude.{
  ℕ, str_eq, if◌then◌else◌, not, any, select, get_or, String, Bool, true, ◌≡◌, refl, Option, none,
  some, List, [], ◌∷◌,
}
use javi.Changelog.{
  Line, blank, version_heading, section_heading, english, translation, link_definition, Release,
  Dates, read_lines, parse,
}
use javi.Changelog.WellFormed.{IsWellFormed, parse-IsWellFormed}

abbrev vkey : String → ℕ × ℕ × ℕ
vkey version = if str_eq version "0.2.0" then (0, 2, 0) else (0, 1, 0)

abbrev dates : Dates
dates = record { vkey = vkey; is_date = λ day. true }

abbrev file : List Line
file =
    version_heading "Unreleased" none
    ∷ version_heading "0.2.0" (some "2026-10-04")
    ∷ section_heading "Added"
    ∷ english "Ratings"
    ∷ translation "Ocene"
    ∷ blank
    ∷ version_heading "0.1.0" (some "2026-09-01")
    ∷ section_heading "Fixed"
    ∷ english "Links"
    ∷ translation "Linkovi"
    ∷ link_definition
    ∷ []

abbrev releases : List Release
releases =
    record {
      version = "0.1.0";
      date = some "2026-09-01";
      sections =
          record {
            name = "Fixed";
            entries = record { english = "Links"; translated = some "Linkovi" } ∷ [];
          }
          ∷ [];
    }
    ∷ record {
      version = "0.2.0";
      date = some "2026-10-04";
      sections =
          record {
            name = "Added";
            entries = record { english = "Ratings"; translated = some "Ocene" } ∷ [];
          }
          ∷ [];
    }
    ∷ record { version = "Unreleased"; date = none; sections = [] }
    ∷ []

accepted : parse dates file ≡ some releases
unfolding parse read_lines javi.Changelog.read_line javi.Changelog.add_version
    javi.Changelog.add_section javi.Prelude.any javi.Changelog.add_english
    javi.Changelog.open_entries javi.Changelog.with_open javi.Changelog.add_translation
    javi.Changelog.all_complete javi.Changelog.all_have_entries javi.Changelog.released
    javi.Prelude.select javi.Changelog.is_ordered javi.Changelog.is_newer
accepted = refl

parse-IsWellFormed_example : IsWellFormed dates releases
parse-IsWellFormed_example = parse-IsWellFormed dates file releases accepted
