-- ===== src/Debs/Correct.antt =====
-- What `resolve` should find, and the invariant of its loop.
pub mod Kept
pub mod Found
use embeded_convey_belt.Prelude.{ℕ, ◌≡◌, ◌⊎◌, Bool, true, false, ◌||◌, some, none, List, [], ◌∷◌}
use embeded_convey_belt.Py.{Text}
use embeded_convey_belt.Debs.{Package, Index, find, member, base_packages, Bfs}

-- A root, or a dependency of a package that is needed, that the target does not have and that the
-- index has.
pub data IsNeeded (db : Index) (roots : List Text) : Text → Type 0 where
  root : (p : Text) → member p roots ≡ true → IsNeeded db roots p
  dependency :
      (p q : Text) (pkg : Package)
      → IsNeeded db roots p
      → member p base_packages ≡ false
      → find db p ≡ some pkg
      → member q pkg.deps ≡ true
      → IsNeeded db roots q

-- No name stands twice.
abbrev pub IsDistinct : List Text → Type 0
IsDistinct [] = Unit
IsDistinct (p ∷ ps) = (member p ps ≡ false) × IsDistinct ps

-- A name that the loop has met, or has still to visit.
abbrev pub IsMet : Text → Bfs → Type 0
IsMet q b = (member q b.seen || member q b.queue) ≡ true

module _ (db : Index) (roots : List Text) where
  -- Only what is needed is in the queue and the results.
  pub record IsSound (b : Bfs) : Type 0 where
    pub queued : (p : Text) → member p b.queue ≡ true → IsNeeded db roots p
    pub base_seen : (p : Text) → member p b.seen ≡ false → member p base_packages ≡ false
    pub ordered :
        (p : Text)
        → member p b.ordered ≡ true
        → IsNeeded db roots p
          × (member p base_packages ≡ false)
          × (pkg : Package) × (find db p ≡ some pkg)
    pub warned :
        (p : Text)
        → member p b.warned ≡ true
        → IsNeeded db roots p × (member p base_packages ≡ false) × (find db p ≡ none)

  -- All that is needed has been met.
  pub record IsClosed (b : Bfs) : Type 0 where
    pub started_met : (p : Text) → member p roots ≡ true → IsMet p b
    pub deps_met :
        (p q : Text) (pkg : Package)
        → member p b.ordered ≡ true
        → find db p ≡ some pkg
        → member q pkg.deps ≡ true
        → IsMet q b
    pub sorted :
        (p : Text)
        → member p b.seen ≡ true
        → (member p base_packages ≡ true) ⊎ (member p b.ordered ≡ true) ⊎ (member p b.warned ≡ true)

-- The results are distinct, and have been seen.
pub record IsOnce (b : Bfs) : Type 0 where
  pub distinct : IsDistinct b.ordered
  pub ordered_seen : (p : Text) → member p b.seen ≡ false → member p b.ordered ≡ false
