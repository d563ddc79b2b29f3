-- ===== src/Debs/Index/Fields.antt =====
-- The search of a field among the lines of a block, and the names of a Depends line.
use embeded_convey_belt.Prelude.{
  ℕ, ◌≡◌, refl, ap, true, false, none, some, List, [], ◌∷◌, ◌++◌, map, All, All-append,
  drop-length-append, ◌==◌, arith,
}
use embeded_convey_belt.Py.{Text}
use embeded_convey_belt.Py.Str.{is_space, starts_with}
use embeded_convey_belt.Debs.Index.{search_field, is_empty, dep_names, deps_of}
use embeded_convey_belt.Debs.Index.Split.{joined_by, tail_on, IsWithout, split_on-joined_by}
use embeded_convey_belt.Debs.Index.Clause.{IsNameChar, IsTail, dep_name-clause}

same_char : (c : ℕ) → c == c ≡ true
same_char c = ground arith

starts_with-append : (key v : Text) → starts_with (key ++ v) key ≡ true
starts_with-append [] v = refl
starts_with-append (c ∷ cs) v = rw (same_char c) (starts_with-append cs v)

pub search_field-found :
    (key v : Text) (lines : List Text)
    → is_empty v ≡ false
    → search_field key ((key ++ v) ∷ lines) ≡ some v
search_field-found key v lines h = rw (starts_with-append key v, drop-length-append key v, h) refl

pub search_field-others :
    (key : Text) (ws lines : List Text)
    → All (λ w. starts_with w key ≡ false) ws
    → search_field key (ws ++ lines) ≡ search_field key lines
search_field-others key [] lines h = refl
search_field-others key (w ∷ ws) lines h = rw h.0 (search_field-others key ws lines h.1)

pub search_field-none :
    (key : Text) (ws : List Text)
    → All (λ w. starts_with w key ≡ false) ws
    → search_field key ws ≡ none
search_field-none key [] h = refl
search_field-none key (w ∷ ws) h = rw h.0 (search_field-none key ws h.1)

-- A clause of a Depends line: spaces, a name, and what stands behind it.
pub record Dependency : Type 0 where
  pub lead : Text
  pub name : Text
  pub behind_name : Text

abbrev pub clause : Dependency → Text
clause d = d.lead ++ (d.name ++ d.behind_name)

-- The value of the line.
abbrev pub clauses : Dependency → List Dependency → Text
clauses d ds = joined_by b',' (clause d) (map clause ds)

pub record IsDependency (d : Dependency) : Type 0 where
  pub one_line : IsWithout 10 (clause d)
  pub no_comma : IsWithout b',' (clause d)
  pub blank : All (λ c. is_space c ≡ true) d.lead
  pub named : All IsNameChar d.name
  pub some_name : is_empty d.name ≡ false
  pub optional : IsTail (b'|' ∷ b'(' ∷ []) d.behind_name

dep_names-clauses :
    (ds : List Dependency) → All IsDependency ds → dep_names (map clause ds) ≡ map (λ d. d.name) ds
dep_names-clauses [] h = refl
dep_names-clauses (d ∷ ds) h =
    rw
      (
        dep_name-clause d.lead d.name d.behind_name h.0.blank h.0.named h.0.some_name h.0.optional,
        h.0.some_name,
      )
      (ap (◌∷◌ d.name) (dep_names-clauses ds h.1))

All-no_comma :
    (ds : List Dependency) → All IsDependency ds → All (λ w. IsWithout b',' w) (map clause ds)
All-no_comma [] h = tt
All-no_comma (d ∷ ds) h = (h.0.no_comma, All-no_comma ds h.1)

pub deps_of-clauses :
    (d : Dependency) (ds : List Dependency)
    → All IsDependency (d ∷ ds)
    → deps_of (some (clauses d ds)) ≡ map (λ d. d.name) (d ∷ ds)
deps_of-clauses d ds h =
    rw (split_on-joined_by b',' (clause d) (map clause ds) refl h.0.no_comma (All-no_comma ds h.1))
      (dep_names-clauses (d ∷ ds) h)

is_empty-append : (v s : Text) → is_empty v ≡ false → is_empty (v ++ s) ≡ false
is_empty-append [] s h = cc
is_empty-append (c ∷ v) s h = refl

is_empty-behind : (v w : Text) → is_empty w ≡ false → is_empty (v ++ w) ≡ false
is_empty-behind [] w h = h
is_empty-behind (c ∷ v) w h = refl

tail_on-IsWithout :
    (ds : List Dependency) → All IsDependency ds → IsWithout 10 (tail_on b',' (map clause ds))
tail_on-IsWithout [] h = tt
tail_on-IsWithout (d ∷ ds) h = (
  refl,
  All-append (λ c. c == 10 ≡ false) (clause d) (tail_on b',' (map clause ds)) h.0.one_line
      (tail_on-IsWithout ds h.1),
)

pub clauses-IsWithout :
    (d : Dependency) (ds : List Dependency)
    → All IsDependency (d ∷ ds)
    → IsWithout 10 (clauses d ds)
clauses-IsWithout d ds h =
    All-append (λ c. c == 10 ≡ false) (clause d) (tail_on b',' (map clause ds)) h.0.one_line
      (tail_on-IsWithout ds h.1)

pub is_empty-clauses :
    (d : Dependency) (ds : List Dependency) → IsDependency d → is_empty (clauses d ds) ≡ false
is_empty-clauses d ds h = is_empty-append (clause d) (tail_on b',' (map clause ds)) (
    is_empty-behind d.lead (d.name ++ d.behind_name)
      (is_empty-append d.name d.behind_name h.some_name))
