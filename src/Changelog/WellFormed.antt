-- ===== src/Changelog/WellFormed.antt =====
-- changelog.py, what a file that `parse` accepts looks like.
use javi.Prelude.{
  ℕ, ◌≤◌, ◌<◌, ◌⊎◌, String, ◌≡◌, refl, true, false, ◌&&◌, Option, none, some, List, [], ◌∷◌, All,
  count, is_some, get_or, arith, Bool-cases, inl, inr, subst,
}
use javi.Changelog.{
  Line, Entry, Section, Release, Parser, Dates, is_unreleased, is_section_name, has_name, start,
  is_translated, sections_complete, all_complete, released, all_have_entries, key_le, is_newer,
  newer_than_next, is_ordered, checked, read_lines, parse,
}
use javi.Changelog.Parts.{
  IsTranslated, TailIsTranslated, IsPartSection, IsPart, UnreleasedIsFirst, IsRead, Steps,
}
use javi.Changelog.Keeps.{read_lines-Steps}

-- A section with a name that is allowed, with entries, each of them translated.
pub record IsWholeSection (s : Section) : Type 0 where
  pub known : is_section_name s.name ≡ true
  pub some_entry : ¬ (s.entries ≡ [])
  pub translated : All IsTranslated s.entries

-- `(a, b, c) < (d, e, f)`
abbrev pub KeyLess : ℕ × ℕ × ℕ → ℕ × ℕ × ℕ → Type 0
KeyLess (a, b, c) (d, e, f) = (a < d) ⊎ ((a ≡ d) × ((b < e) ⊎ ((b ≡ e) × (c < f))))

module _ (dates : Dates) where
  -- A release with a date when it is out, and sections that are whole and all different.
  pub record IsWhole (r : Release) : Type 0 where
    pub dated :
        is_unreleased r.version ≡ false
        → (is_some r.date && dates.is_date (get_or r.date "")) ≡ true
    pub sections : All IsWholeSection r.sections
    pub once : (name : String) → count (has_name name) r.sections ≤ 1

  -- `older` has a version below that of each of the others.
  abbrev pub IsBelow : Release → Release → Type 0
  IsBelow older newer = KeyLess (dates.vkey older.version) (dates.vkey newer.version)

  abbrev pub AreIncreasing : List Release → Type 0
  AreIncreasing [] = Unit {0}
  AreIncreasing (older ∷ above) = All (IsBelow older) above × AreIncreasing above

  pub record IsWellFormed (rs : List Release) : Type 0 where
    pub whole : All IsWhole rs
    pub unreleased : UnreleasedIsFirst dates rs
    pub increasing : AreIncreasing (released rs)
    pub not_empty : all_have_entries (released rs) ≡ true

KeyLess-trans : (k m n : ℕ × ℕ × ℕ) → KeyLess k m → KeyLess m n → KeyLess k n
KeyLess-trans (a, b, c) (d, e, f) (g, h, i) p q = ground arith

key_le-KeyLess : (k m : ℕ × ℕ × ℕ) → key_le k m ≡ false → KeyLess m k
unfolding key_le
key_le-KeyLess (a, b, c) (d, e, f) h = ground arith

above-All :
    (dates : Dates) (r s : Release) (above : List Release)
    → IsBelow dates r s
    → All (IsBelow dates s) above
    → All (IsBelow dates r) above
above-All dates r s [] less all = tt
above-All dates r s (t ∷ above) less (next, all) = (
  KeyLess-trans (dates.vkey r.version) (dates.vkey s.version) (dates.vkey t.version) less next,
  above-All dates r s above less all,
)

is_newer-IsBelow :
    (dates : Dates) (newer older : Release)
    → is_newer dates newer older ≡ true
    → IsBelow dates older newer
unfolding is_newer
is_newer-IsBelow dates newer older h =
    key_le-KeyLess (dates.vkey newer.version) (dates.vkey older.version) (ground arith)

is_ordered-AreIncreasing :
    (dates : Dates) (rs : List Release) → is_ordered dates rs ≡ true → AreIncreasing dates rs
unfolding is_ordered newer_than_next
is_ordered-AreIncreasing dates [] h = tt
is_ordered-AreIncreasing dates (r ∷ []) h = (tt, tt)
is_ordered-AreIncreasing dates (r ∷ s ∷ above) h =
    let less = is_newer-IsBelow dates s r (ground arith) in
    let (all, rest) = is_ordered-AreIncreasing dates (s ∷ above) (ground arith) in
    ((less, above-All dates r s above less all), (all, rest))

is_translated-nonempty : (es : List Entry) → is_translated es ≡ true → ¬ (es ≡ [])
unfolding is_translated
is_translated-nonempty [] h e = cc
is_translated-nonempty (x ∷ es) h e = cc

is_translated-All :
    (es : List Entry) → TailIsTranslated es → is_translated es ≡ true → All IsTranslated es
unfolding is_translated
is_translated-All [] tail h = tt
is_translated-All (x ∷ es) tail h = (h, tail)

whole_section : (s : Section) → IsPartSection s → is_translated s.entries ≡ true → IsWholeSection s
whole_section s (known, tail) done = record {
  known = known;
  some_entry = is_translated-nonempty s.entries done;
  translated = is_translated-All s.entries tail done;
}

sections-All :
    (sections : List Section)
    → All IsPartSection sections
    → sections_complete sections ≡ true
    → All IsWholeSection sections
unfolding sections_complete
sections-All [] all h = tt
sections-All (s ∷ rest) (part, all) h =
    (whole_section s part (ground arith), sections-All rest all (ground arith))

releases-All :
    (dates : Dates) (rs : List Release)
    → All (IsPart dates) rs
    → all_complete rs ≡ true
    → All (IsWhole dates) rs
unfolding all_complete
releases-All dates [] all h = tt
releases-All dates (r ∷ rest) (part, all) h = (
  record {
    dated = part.dated;
    sections = sections-All r.sections part.sections (ground arith);
    once = part.once;
  },
  releases-All dates rest all (ground arith),
)

checked-IsWellFormed :
    (dates : Dates) (p : Parser) (rs : List Release)
    → IsRead dates p.releases
    → checked dates (some p) ≡ some rs
    → IsWellFormed dates rs
unfolding checked
checked-IsWellFormed dates p rs read e =
    let done = released p.releases in
    elim (Bool-cases (all_complete p.releases && all_have_entries done && is_ordered dates done)) [
      | inl good ↦
          let same : p.releases ≡ rs = ground arith in
          subst (IsWellFormed dates) same (record {
            whole = releases-All dates p.releases read.parts (ground arith);
            unreleased = read.unreleased;
            increasing = is_ordered-AreIncreasing dates done (ground arith);
            not_empty = ground arith;
          })
      | inr bad ↦ ground arith
    ]

parsed :
    (dates : Dates) (next : Option Parser) (rs : List Release)
    → Steps dates next
    → checked dates next ≡ some rs
    → IsWellFormed dates rs
unfolding checked
parsed dates none rs h e = cc
parsed dates (some p) rs h e = checked-IsWellFormed dates p rs (h p refl) e

-- A changelog that `parse` accepts is well formed, whatever its lines: each section has one of the
-- four names, no name twice in a release, at least one entry, and a translation under every entry;
-- a release that is out has a date, only the first one of the file may be the unreleased one, each
-- that is out has entries, and the versions of any two that are out are strictly in the order of
-- the file, not only those of neighbours.
pub parse-IsWellFormed :
    (dates : Dates) (lines : List Line) (rs : List Release)
    → parse dates lines ≡ some rs
    → IsWellFormed dates rs
unfolding parse
parse-IsWellFormed dates lines rs e =
    parsed dates (read_lines dates lines start) rs
      (read_lines-Steps dates lines start (record { parts = tt; unreleased = tt })) e
