-- ===== src/Changelog/Parts.antt =====
-- changelog.py, what a heading and a new list of entries keep of what was read so far.
use javi.Prelude.{
  ◌≤◌, String, ◌≡◌, refl, ◌∙◌, Bool, true, false, not, ◌&&◌, ◌||◌, ap, Option, none, some, List, [],
  ◌∷◌, All, any, count, any-count, str_eq, eq_iff, is_some, get_or, arith, if◌then◌else◌,
  Bool-cases, inl, inr, subst, sym,
}
use javi.Changelog.{
  Entry, Section, Release, Parser, Dates, is_unreleased, is_section_name, has_releases, has_name,
  entries_of, entries_of_last, open_entries, with_entries, with_open, add_version, open_section,
}

abbrev pub IsTranslated : Entry → Type 0
IsTranslated e = is_some e.translated ≡ true

-- All entries but the last that was read are translated.
abbrev pub TailIsTranslated : List Entry → Type 0
TailIsTranslated [] = Unit {0}
TailIsTranslated (e ∷ entries) = All IsTranslated entries

abbrev pub IsPartSection : Section → Type 0
IsPartSection s = (is_section_name s.name ≡ true) × TailIsTranslated s.entries

module _ (dates : Dates) where
  pub record IsPart (r : Release) : Type 0 where
    pub dated :
        is_unreleased r.version ≡ false
        → (is_some r.date && dates.is_date (get_or r.date "")) ≡ true
    pub sections : All IsPartSection r.sections
    pub once : (name : String) → count (has_name name) r.sections ≤ 1

  -- Only the first release of the file may be the unreleased one.
  abbrev pub UnreleasedIsFirst : List Release → Type 0
  UnreleasedIsFirst [] = Unit {0}
  UnreleasedIsFirst (r ∷ []) = Unit {0}
  UnreleasedIsFirst (r ∷ s ∷ rest) =
      (is_unreleased r.version ≡ false) × UnreleasedIsFirst (s ∷ rest)

  pub record IsRead (releases : List Release) : Type 0 where
    pub parts : All IsPart releases
    pub unreleased : UnreleasedIsFirst releases

  -- A step from what was read well leads to what was read well, if to anything.
  abbrev pub Steps : Option Parser → Type 0
  Steps next = (q : Parser) → next ≡ some q → IsRead q.releases

  new_version :
      (version : String) (day : Option String) (releases : List Release)
      → IsRead releases
      → (is_unreleased version ≡ false → (is_some day && dates.is_date (get_or day "")) ≡ true)
      → (has_releases releases ≡ true → is_unreleased version ≡ false)
      → IsRead (record { version = version; date = day; sections = [] } ∷ releases)
  unfolding count has_releases
  new_version version day [] read dated place = record {
    parts = (record { dated = dated; sections = tt; once = λ name. omega arith }, tt);
    unreleased = tt;
  }
  new_version version day (r ∷ rest) read dated place = record {
    parts = (record { dated = dated; sections = tt; once = λ name. omega arith }, read.parts);
    unreleased = (place refl, read.unreleased);
  }

  same_place :
      (r r' : Release) (rest : List Release)
      → r'.version ≡ r.version
      → UnreleasedIsFirst (r ∷ rest)
      → UnreleasedIsFirst (r' ∷ rest)
  same_place r r' [] e h = tt
  same_place r r' (s ∷ rest) e (h, later) = (ap is_unreleased e ∙ h, later)

  one_more :
      (name : String) (sections : List Section) (other : String)
      → any (has_name name) sections ≡ false
      → count (has_name other) sections ≤ 1
      → count (has_name other) (record { name = name; entries = [] } ∷ sections) ≤ 1
  unfolding count
  one_more name sections other missing h = elim (Bool-cases (str_eq name other)) [
    | inl own ↦
        let same = (eq_iff name other).0 own in
        let none_yet : count (has_name other) sections ≡ 0 =
          subst (λ n. count (has_name n) sections ≡ 0) same (any-count _ sections missing) in
        rw own (omega (arith, none_yet))
    | inr different ↦ rw different h
  ]

  head_section :
      (name : String) (r : Release) (rest : List Release)
      → IsRead (r ∷ rest)
      → is_section_name name ≡ true
      → any (has_name name) r.sections ≡ false
      → IsRead (record r { sections = record { name = name; entries = [] } ∷ r.sections } ∷ rest)
  head_section name r rest read known missing =
      let (part, parts) = read.parts in
      record {
        parts = (
          record {
            dated = part.dated;
            sections = ((known, tt), part.sections);
            once = λ n. one_more name r.sections n missing (part.once n);
          },
          parts,
        );
        unreleased =
            same_place r (record r { sections = record { name = name; entries = [] } ∷ r.sections })
              rest refl read.unreleased;
      }

  pub give : (next q : Parser) → some next ≡ some q → IsRead next.releases → IsRead q.releases
  give next q e read =
      let same : next ≡ q = cc in subst (λ (p : Parser). IsRead p.releases) same read

  if_ok :
      (b : Bool) (next : Parser)
      → (b ≡ true → IsRead next.releases)
      → Steps (if b then some next else none)
  if_ok true next h q e = give next q e (h refl)
  if_ok false next h q e = cc

  pub if_bad :
      (b : Bool) (next : Parser)
      → (b ≡ false → IsRead next.releases)
      → Steps (if b then none else some next)
  if_bad true next h q e = cc
  if_bad false next h q e = give next q e (h refl)

  pub add_version-Steps :
      (version : String) (day : Option String) (p : Parser)
      → IsRead p.releases
      → Steps (add_version dates version day p)
  unfolding add_version
  add_version-Steps version day p read = elim (Bool-cases (is_unreleased version)) [
    | inl unreleased ↦ rw unreleased (
        if_bad (is_some day || has_releases p.releases) _ (λ free.
          new_version version day p.releases read (λ numbered. cc)
            (λ more. ground (arith, free, more))))
    | inr numbered ↦ rw numbered (
        if_ok (is_some day && dates.is_date (get_or day "")) _
          (λ good. new_version version day p.releases read (λ n. good) (λ more. numbered)))
  ]

  pub open_section-Steps :
      (name : String) (releases : List Release) (p : Parser)
      → IsRead releases
      → Steps (open_section name releases p)
  unfolding open_section
  open_section-Steps name [] p read q e = cc
  open_section-Steps name (r ∷ rest) p read q e =
      if_bad (not (is_section_name name) || any (has_name name) r.sections)
        (record p {
          releases =
              record r { sections = record { name = name; entries = [] } ∷ r.sections } ∷ rest;
          in_section = true;
        })
        (λ free. head_section name r rest read (ground (arith, free)) (ground (arith, free))) q e

  -- The entries of the open section after a step.
  with_entries-All :
      (entries : List Entry) (sections : List Section)
      → TailIsTranslated entries
      → All IsPartSection sections
      → All IsPartSection (with_entries entries sections)
  unfolding with_entries
  with_entries-All entries [] h all = tt
  with_entries-All entries (s ∷ rest) h ((known, old), all) = ((known, h), all)

  count-with_entries :
      (entries : List Entry) (sections : List Section) (n : String)
      → count (has_name n) (with_entries entries sections) ≡ count (has_name n) sections
  unfolding with_entries count
  count-with_entries entries [] n = refl
  count-with_entries entries (s ∷ rest) n = refl

  pub with_open-IsRead :
      (entries : List Entry) (releases : List Release)
      → TailIsTranslated entries
      → IsRead releases
      → IsRead (with_open entries releases)
  unfolding with_open
  with_open-IsRead entries [] h read = read
  with_open-IsRead entries (r ∷ rest) h read =
      let (part, parts) = read.parts in
      record {
        parts = (
          record {
            dated = part.dated;
            sections = with_entries-All entries r.sections h part.sections;
            once = λ n.
                subst (λ k. k ≤ 1) (sym (count-with_entries entries r.sections n)) (part.once n);
          },
          parts,
        );
        unreleased =
            same_place r (record r { sections = with_entries entries r.sections }) rest refl
              read.unreleased;
      }

  head-TailIsTranslated :
      (sections : List Section) (entries : List Entry)
      → All IsPartSection sections
      → entries_of sections ≡ some entries
      → TailIsTranslated entries
  unfolding entries_of
  head-TailIsTranslated [] entries all e = cc
  head-TailIsTranslated (s ∷ rest) entries ((known, h), all) e =
      let same : s.entries ≡ entries = cc in subst TailIsTranslated same h

  last-TailIsTranslated :
      (releases : List Release) (entries : List Entry)
      → IsRead releases
      → entries_of_last releases ≡ some entries
      → TailIsTranslated entries
  unfolding entries_of_last
  last-TailIsTranslated [] entries read e = cc
  last-TailIsTranslated (r ∷ rest) entries read e =
      head-TailIsTranslated r.sections entries read.parts.0.sections e

  pub open-TailIsTranslated :
      (p : Parser) (entries : List Entry)
      → IsRead p.releases
      → open_entries p ≡ some entries
      → TailIsTranslated entries
  unfolding open_entries
  open-TailIsTranslated p entries read e = elim (Bool-cases p.in_section) [
    | inl inside ↦ last-TailIsTranslated p.releases entries read (ground arith)
    | inr outside ↦ ground arith
  ]
