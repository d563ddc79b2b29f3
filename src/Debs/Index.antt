-- ===== src/Debs/Index.antt =====
-- `parse_index` of scripts/fetch_debs.py.
pub mod Clause
pub mod Split
pub mod Fields
pub mod RoundTrip
mod Examples
use embeded_convey_belt.Prelude.{
  ℕ, Option, none, some, Bool, true, false, not, ◌&&◌, List, [], ◌∷◌, ◌++◌, drop, length, ◌==◌,
  if◌then◌else◌,
}
use embeded_convey_belt.Py.{Text, text}
use embeded_convey_belt.Py.Str.{strip, before, starts_with, text_eq}
use embeded_convey_belt.Debs.{Package, Index}

-- s.split(c), where `word` is what has been read of the current part
abbrev pub split_on : ℕ → Text → Text → List Text
split_on c word [] = word ∷ []
split_on c word (d ∷ ds) =
    let next = word ∷ split_on c [] ds in
    let longer = split_on c (word ++ d ∷ []) ds in if d == c then next else longer

-- text.split("\n\n")
abbrev pub split_blocks : Text → Text → List Text
split_blocks word [] = word ∷ []
split_blocks word (c ∷ []) = (word ++ c ∷ []) ∷ []
split_blocks word (c ∷ d ∷ cs) =
    let next = word ∷ split_blocks [] cs in
    let longer = split_blocks (word ++ c ∷ []) (d ∷ cs) in
    if c == 10 && d == 10 then next else longer

abbrev pub is_empty : Text → Bool
is_empty [] = true
is_empty (c ∷ cs) = false

-- re.search(r"^Key: (.+)$", block, re.M), over the lines of the block: the first that starts with the
-- key and has something behind it.
abbrev pub search_field : Text → List Text → Option Text
search_field key [] = none
search_field key (line ∷ lines) =
    let later = search_field key lines in
    if starts_with line key && not (is_empty (drop (length key) line))
    then some (drop (length key) line)
    else later

-- The first alternative of a clause without its version. The blanks that `\s*\(` takes in front of
-- the parenthesis are at the end of the part in front of it, where the last `strip` removes them.
abbrev pub dep_name : Text → Text
dep_name clause = strip (before b'(' (strip (before b'|' (strip clause))))

abbrev pub dep_names : List Text → List Text
dep_names [] = []
dep_names (clause ∷ clauses) =
    let name = dep_name clause in
    let names = dep_names clauses in if is_empty name then names else name ∷ names

abbrev pub deps_of : Option Text → List Text
deps_of none = []
deps_of (some depends) = dep_names (split_on b',' [] depends)

-- db[name] = pkg
abbrev pub put : Text → Package → Index → Index
put name pkg [] = (name, pkg) ∷ []
put name pkg ((key, old) ∷ db) =
    let rest = put name pkg db in if text_eq key name then (key, pkg) ∷ db else (key, old) ∷ rest

abbrev pub put_block : Option Text → Option Text → Option Text → Index → Index
put_block (some name) (some filename) depends db =
    put name (record { filename = filename; deps = deps_of depends }) db
put_block none filename depends db = db
put_block (some name) none depends db = db

-- One round of the loop over the blocks.
abbrev pub parse_block : Text → Index → Index
parse_block block db =
    let lines = split_on 10 [] block in
    put_block (search_field (text "Package: ") lines) (search_field (text "Filename: ") lines)
      (search_field (text "Depends: ") lines) db

abbrev pub parse_blocks : List Text → Index → Index
parse_blocks [] db = db
parse_blocks (block ∷ blocks) db = parse_blocks blocks (parse_block block db)

unfoldable pub parse_index : Text → Index
parse_index packages = parse_blocks (split_blocks [] packages) []
