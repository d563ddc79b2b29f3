-- ===== src/Debs/Index/RoundTrip.antt =====
-- The text of a Packages file, and what `parse_index` makes of it.
use embeded_convey_belt.Prelude.{
  ◌≡◌, ◌∙◌, refl, ap, false, some, List, [], ◌∷◌, ◌++◌, map, All, All-append, ◌==◌,
}
use embeded_convey_belt.Py.{Text, text}
use embeded_convey_belt.Py.Str.{starts_with, contains}
use embeded_convey_belt.Debs.{Index}
use embeded_convey_belt.Debs.Index.{
  is_empty, put, put_block, search_field, split_on, split_blocks, parse_block, parse_blocks,
  parse_index, deps_of,
}
use embeded_convey_belt.Debs.Index.Split.{
  IsLine, IsWithout, IsWithout-by_check, joined_by, split_on-joined_by, split_blocks-block,
}
use embeded_convey_belt.Debs.Index.Fields.{
  Dependency, clauses, IsDependency, search_field-found, search_field-others, search_field-none,
  deps_of-clauses, clauses-IsWithout, is_empty-clauses,
}

-- The entry of a package, with its other lines as they stand.
pub record Stanza : Type 0 where
  pub name : Text
  pub others : List Text
  pub depends : List Dependency
  pub filename : Text
  pub later : List Text

abbrev depends_line : List Dependency → List Text
depends_line [] = []
depends_line (d ∷ ds) = (text "Depends: " ++ clauses d ds) ∷ []

abbrev first_line : Stanza → Text
first_line s = text "Package: " ++ s.name

abbrev more_lines : Stanza → List Text
more_lines s = s.others ++ (depends_line s.depends ++ (text "Filename: " ++ s.filename) ∷ s.later)

-- Each entry ends with an empty line.
abbrev pub packages_file : List Stanza → Text
packages_file [] = []
packages_file (s ∷ more) =
    joined_by 10 (first_line s) (more_lines s) ++ 10 ∷ 10 ∷ packages_file more

-- A line that gives neither dependencies nor a file.
pub record IsOther (w : Text) : Type 0 where
  pub line : IsLine w
  pub no_depends : starts_with w (text "Depends: ") ≡ false
  pub no_filename : starts_with w (text "Filename: ") ≡ false

pub record IsStanza (s : Stanza) : Type 0 where
  pub named : IsLine s.name
  pub stored : IsLine s.filename
  pub needs : All IsDependency s.depends
  pub between : All IsOther s.others
  pub behind : All IsOther s.later

-- db[package] = pkg, for each entry in turn.
abbrev pub entered : List Stanza → Index → Index
entered [] db = db
entered (s ∷ more) db =
    entered more
      (put s.name (record { filename = s.filename; deps = map (λ d. d.name) s.depends }) db)

no_depends-All :
    (ws : List Text) → All IsOther ws → All (λ w. starts_with w (text "Depends: ") ≡ false) ws
no_depends-All [] h = tt
no_depends-All (w ∷ ws) h = (h.0.no_depends, no_depends-All ws h.1)

no_filename-All :
    (ws : List Text) → All IsOther ws → All (λ w. starts_with w (text "Filename: ") ≡ false) ws
no_filename-All [] h = tt
no_filename-All (w ∷ ws) h = (h.0.no_filename, no_filename-All ws h.1)

lines-IsLine : (ws : List Text) → All IsOther ws → All IsLine ws
lines-IsLine [] h = tt
lines-IsLine (w ∷ ws) h = (h.0.line, lines-IsLine ws h.1)

lines-IsWithout : (ws : List Text) → All IsLine ws → All (λ w. IsWithout 10 w) ws
lines-IsWithout [] h = tt
lines-IsWithout (w ∷ ws) h = (h.0.0, lines-IsWithout ws h.1)

line-behind :
    (key v : Text)
    → contains 10 key ≡ false
    → is_empty key ≡ false
    → IsWithout 10 v
    → IsLine (key ++ v)
line-behind [] v single some_key h = cc
line-behind (c ∷ key) v single some_key h =
    (All-append (λ c. c == 10 ≡ false) (c ∷ key) v (IsWithout-by_check 10 (c ∷ key) single) h, refl)

depends_line-All : (ds : List Dependency) → All IsDependency ds → All IsLine (depends_line ds)
depends_line-All [] h = tt
depends_line-All (d ∷ ds) h =
    (line-behind (text "Depends: ") (clauses d ds) refl refl (clauses-IsWithout d ds h), tt)

filename-behind :
    (ds : List Dependency) (filename : Text) (later : List Text)
    → is_empty filename ≡ false
    → search_field (text "Filename: ") (depends_line ds ++ (text "Filename: " ++ filename) ∷ later)
      ≡ some filename
filename-behind [] filename later h = search_field-found (text "Filename: ") filename later h
filename-behind (d ∷ ds) filename later h = search_field-found (text "Filename: ") filename later h

depends-behind :
    (ds : List Dependency) (filename : Text) (later : List Text)
    → All IsDependency ds
    → All IsOther later
    → deps_of (
        search_field
          (text "Depends: ")
          (depends_line ds ++ (text "Filename: " ++ filename) ∷ later))
      ≡ map (λ d. d.name) ds
depends-behind [] filename later h k =
    ap deps_of (search_field-none (text "Depends: ") later (no_depends-All later k))
depends-behind (d ∷ ds) filename later h k =
    ap deps_of (
      search_field-found (text "Depends: ") (clauses d ds) ((text "Filename: " ++ filename) ∷ later)
        (is_empty-clauses d ds h.0))
    ∙ deps_of-clauses d ds h

module _ (s : Stanza) (h : IsStanza s) where
  lines-All : All IsLine (first_line s ∷ more_lines s)
  lines-All =
      let stored = line-behind (text "Filename: ") s.filename refl refl h.stored.0 in
      (
        line-behind (text "Package: ") s.name refl refl h.named.0,
        All-append IsLine s.others _ (lines-IsLine s.others h.between) (
            All-append IsLine (depends_line s.depends) _ (depends_line-All s.depends h.needs)
              (stored, lines-IsLine s.later h.behind)),
      )

  search_filename : search_field (text "Filename: ") (first_line s ∷ more_lines s) ≡ some s.filename
  search_filename =
      search_field-others (text "Filename: ") s.others _ (no_filename-All s.others h.between)
      ∙ filename-behind s.depends s.filename s.later h.stored.1

  search_depends :
      deps_of (search_field (text "Depends: ") (first_line s ∷ more_lines s))
      ≡ map (λ d. d.name) s.depends
  search_depends =
      ap deps_of
        (search_field-others (text "Depends: ") s.others _ (no_depends-All s.others h.between))
      ∙ depends-behind s.depends s.filename s.later h.needs h.behind

  parse_block-stanza :
      (db : Index)
      → parse_block (joined_by 10 (first_line s) (more_lines s)) db
        ≡ put s.name (record { filename = s.filename; deps = map (λ d. d.name) s.depends }) db
  parse_block-stanza db =
      let lines = lines-IsWithout (first_line s ∷ more_lines s) lines-All in
      let all = first_line s ∷ more_lines s in
      let depends = search_field (text "Depends: ") all in
      let split : split_on 10 [] (joined_by 10 (first_line s) (more_lines s))
          ≡ first_line s ∷ more_lines s =
        split_on-joined_by 10 (first_line s) (more_lines s) refl lines.0 lines.1 in
      let found = search_field-found (text "Package: ") s.name (more_lines s) h.named.1 in
      ap
        (λ ls.
          put_block (search_field (text "Package: ") ls) (search_field (text "Filename: ") ls)
            (search_field (text "Depends: ") ls) db)
        split
      ∙ (ap (λ name. put_block name (search_field (text "Filename: ") all) depends db) found
          ∙ (ap (λ filename. put_block (some s.name) filename depends db) search_filename
              ∙ ap (λ deps. put s.name (record { filename = s.filename; deps = deps }) db)
                  search_depends))

parse_blocks-entered :
    (ss : List Stanza) (db : Index)
    → All IsStanza ss
    → parse_blocks (split_blocks [] (packages_file ss)) db ≡ entered ss db
parse_blocks-entered [] db h = refl
parse_blocks-entered (s ∷ ss) db h =
    rw (split_blocks-block (first_line s) (more_lines s) (packages_file ss) (lines-All s h.0)) (
      ap (parse_blocks (split_blocks [] (packages_file ss))) (parse_block-stanza s h.0 db)
      ∙ parse_blocks-entered ss _ h.1)

-- The text of any list of entries, each with a name and a file on one line, any number of dependencies with
-- their versions and alternatives, whose names have no space, `|`, `(` or comma, and any other lines that
-- give no dependencies and no file: `parse_index` gives the dictionary in which each entry is put in
-- turn, with its file and the first names of its dependencies in their order, without versions.
pub parse_index-packages_file :
    (ss : List Stanza) → All IsStanza ss → parse_index (packages_file ss) ≡ entered ss []
unfolding parse_index
parse_index-packages_file ss h = parse_blocks-entered ss [] h
