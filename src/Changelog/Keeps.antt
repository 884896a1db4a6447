-- ===== src/Changelog/Keeps.antt =====
-- changelog.py, what each line keeps of what was read so far.
use javi.Prelude.{
  String, ◌≡◌, refl, Bool, true, false, ap, Option, none, some, List, [], ◌∷◌, All, is_some, arith,
  if◌then◌else◌, inl, inr, Option-cases,
}
use javi.Changelog.{
  Line, blank, link_definition, version_heading, section_heading, english, translation, unexpected,
  Entry, Release, Parser, Dates, open_entries, with_open, open_section, add_section, translate_last,
  add_translation, add_entry, append_entry, add_english, after_version, read_text, read_line,
  then_lines, read_lines,
}
use javi.Changelog.Parts.{
  IsTranslated, TailIsTranslated, IsRead, Steps, give, if_bad, add_version-Steps,
  open_section-Steps, with_open-IsRead, open-TailIsTranslated,
}

module _ (dates : Dates) where
  translate_last-Steps :
      (text : String) (entries : Option (List Entry)) (p : Parser)
      → IsRead dates p.releases
      → ((es : List Entry) → entries ≡ some es → TailIsTranslated es)
      → Steps dates (translate_last text entries p)
  unfolding translate_last
  translate_last-Steps text none p read h q e = cc
  translate_last-Steps text (some []) p read h q e = cc
  translate_last-Steps text (some (x ∷ entries)) p read h q e =
      if_bad dates (is_some x.translated)
        (record p {
          releases = with_open (record x { translated = some text } ∷ entries) p.releases;
        })
        (λ free.
          with_open-IsRead dates (record x { translated = some text } ∷ entries) p.releases
            (h (x ∷ entries) refl) read)
        q e

  add_entry-Steps :
      (text : String) (entries : List Entry) (p : Parser)
      → IsRead dates p.releases
      → All IsTranslated entries
      → Steps dates (add_entry text entries p)
  unfolding add_entry
  add_entry-Steps text entries p read h q e =
      let new : Entry = record { english = text; translated = none } in
      give dates (record p { releases = with_open (new ∷ entries) p.releases }) q e
        (with_open-IsRead dates (new ∷ entries) p.releases h read)

  append_entry-Steps :
      (text : String) (entries : Option (List Entry)) (p : Parser)
      → IsRead dates p.releases
      → ((es : List Entry) → entries ≡ some es → TailIsTranslated es)
      → Steps dates (append_entry text entries p)
  unfolding append_entry
  append_entry-Steps text none p read h q e = cc
  append_entry-Steps text (some []) p read h q e = add_entry-Steps text [] p read tt q e
  append_entry-Steps text (some (x ∷ entries)) p read h q e = elim (Option-cases x.translated) [
    | inl missing ↦ ground arith
    | inr (t, found) ↦
        let done : is_some x.translated ≡ true = ap is_some found in
        add_entry-Steps text (x ∷ entries) p read (done, h (x ∷ entries) refl) q (ground arith)
  ]

  after_version-Steps :
      (releases : List Release) (next : Option Parser)
      → Steps dates next
      → Steps dates (after_version releases next)
  unfolding after_version
  after_version-Steps [] next h q e = cc
  after_version-Steps (r ∷ rest) next h q e = h q e

  read_text-Steps :
      (line : Line) (p : Parser) → IsRead dates p.releases → Steps dates (read_text dates line p)
  unfolding read_text add_section add_translation add_english
  read_text-Steps blank p read q e = cc
  read_text-Steps link_definition p read q e = cc
  read_text-Steps unexpected p read q e = cc
  read_text-Steps (version_heading version day) p read q e =
      add_version-Steps dates version day p read q e
  read_text-Steps (section_heading name) p read q e =
      after_version-Steps p.releases (open_section name p.releases p)
        (open_section-Steps dates name p.releases p read) q e
  read_text-Steps (translation text) p read q e =
      after_version-Steps p.releases (translate_last text (open_entries p) p)
        (translate_last-Steps text (open_entries p) p read
          (λ es. open-TailIsTranslated dates p es read))
        q e
  read_text-Steps (english text) p read q e =
      after_version-Steps p.releases (append_entry text (open_entries p) p)
        (append_entry-Steps text (open_entries p) p read
          (λ es. open-TailIsTranslated dates p es read))
        q e

  unless_links :
      (links : Bool) (next : Option Parser)
      → Steps dates next
      → Steps dates (if links then none else next)
  unless_links true next h q e = cc
  unless_links false next h q e = h q e

  read_line-Steps :
      (line : Line) (p : Parser) → IsRead dates p.releases → Steps dates (read_line dates line p)
  unfolding read_line
  read_line-Steps blank p read q e = give dates p q e read
  read_line-Steps link_definition p read q e = give dates (record p { links = true }) q e read
  read_line-Steps unexpected p read q e =
      unless_links p.links (read_text dates unexpected p) (read_text-Steps unexpected p read) q e
  read_line-Steps (version_heading version day) p read q e =
      unless_links p.links (read_text dates (version_heading version day) p)
        (read_text-Steps (version_heading version day) p read) q e
  read_line-Steps (section_heading name) p read q e =
      unless_links p.links (read_text dates (section_heading name) p)
        (read_text-Steps (section_heading name) p read) q e
  read_line-Steps (translation text) p read q e =
      unless_links p.links (read_text dates (translation text) p)
        (read_text-Steps (translation text) p read) q e
  read_line-Steps (english text) p read q e =
      unless_links p.links (read_text dates (english text) p)
        (read_text-Steps (english text) p read) q e

  then_lines-Steps :
      (next : Option Parser) (rest : Parser → Option Parser)
      → Steps dates next
      → ((p : Parser) → IsRead dates p.releases → Steps dates (rest p))
      → Steps dates (then_lines next rest)
  unfolding then_lines
  then_lines-Steps none rest h g q e = cc
  then_lines-Steps (some p) rest h g q e = g p (h p refl) q e

  pub read_lines-Steps :
      (lines : List Line) (p : Parser)
      → IsRead dates p.releases
      → Steps dates (read_lines dates lines p)
  unfolding read_lines
  read_lines-Steps [] p read q e = give dates p q e read
  read_lines-Steps (line ∷ lines) p read q e =
      then_lines-Steps (read_line dates line p) (λ q. read_lines dates lines q)
        (read_line-Steps line p read) (read_lines-Steps lines) q e
