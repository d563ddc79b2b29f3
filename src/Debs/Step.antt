-- ===== src/Debs/Step.antt =====
-- The cases of one round of `resolve`, and what holds at the end of its loop.
use embeded_convey_belt.Prelude.{
  ℕ, zero, suc, ◌≡◌, refl, sym, ◌∙◌, true, false, ◌⊎◌, inl, inr, Option, none, some, List, [], ◌∷◌,
  Bool-cases,
}
use mathlib.Core.Path.{subst}
use embeded_convey_belt.Py.{Text}
use embeded_convey_belt.Debs.{Package, Index, find, member, Bfs, enter, visit, bfs}

pub data Visited (db : Index) (pkg : Text) (rest : List Text) (b : Bfs) : Type 0 where
  again :
      member pkg b.seen ≡ true
      → visit db pkg rest b ≡ record b { queue = rest }
      → Visited db pkg rest b
  missing :
      member pkg b.seen ≡ false
      → find db pkg ≡ none
      → visit db pkg rest b ≡ enter none pkg rest b
      → Visited db pkg rest b
  entered :
      (p : Package)
      → member pkg b.seen ≡ false
      → find db pkg ≡ some p
      → visit db pkg rest b ≡ enter (some p) pkg rest b
      → Visited db pkg rest b

Option-cases : (o : Option Package) → (o ≡ none) ⊎ (p : Package) × (o ≡ some p)
Option-cases none = inl refl
Option-cases (some p) = inr (p, refl)

pub visit_cases : (db : Index) (pkg : Text) (rest : List Text) (b : Bfs) → Visited db pkg rest b
unfolding visit
visit_cases db pkg rest b = elim (Bool-cases (member pkg b.seen)) [
  | inl old ↦ again old (rw old refl)
  | inr new ↦ elim (Option-cases (find db pkg)) [
    | inl none_there ↦ missing new none_there (rw (new, none_there) refl)
    | inr (p, there) ↦ entered p new there (rw (new, there) refl)
  ]
]

pub queue_cases : (q : List Text) → (q ≡ []) ⊎ (pkg : Text) × (rest : List Text) × (q ≡ pkg ∷ rest)
queue_cases [] = inl refl
queue_cases (pkg ∷ rest) = inr (pkg, rest, refl)

pub bfs-done : (fuel : ℕ) (db : Index) (b : Bfs) → b.queue ≡ [] → bfs (suc fuel) db b ≡ some b
unfolding bfs
bfs-done fuel db b e = rw e refl

pub bfs-round :
    (fuel : ℕ) (db : Index) (pkg : Text) (rest : List Text) (b : Bfs)
    → b.queue ≡ pkg ∷ rest
    → bfs (suc fuel) db b ≡ bfs fuel db (visit db pkg rest b)
unfolding bfs
bfs-round fuel db pkg rest b e = rw e refl

-- What every round keeps holds when the loop ends, and then the queue is empty.
pub bfs-keeps {κ} :
    (P : Bfs → Type κ) (db : Index)
    → ((pkg : Text) (rest : List Text) (b : Bfs)
        → b.queue ≡ pkg ∷ rest
        → P b
        → P (visit db pkg rest b))
    → (fuel : ℕ) (b b' : Bfs) → P b
    → bfs fuel db b ≡ some b'
    → P b' × (b'.queue ≡ [])
unfolding bfs
bfs-keeps P db keeps zero b b' h e =
    absurd (let bad : ◌≡◌ {A = Option Bfs} none (some b') = e in cc)
bfs-keeps P db keeps (suc fuel) b b' h e = elim (queue_cases b.queue) [
  | inl empty ↦
      let ended : some b ≡ some b' = sym (bfs-done fuel db b empty) ∙ e in
      let same : b ≡ b' = cc in subst (λ c. P c × (c.queue ≡ [])) same (h, empty)
  | inr (pkg, rest, q) ↦
      bfs-keeps P db keeps fuel (visit db pkg rest b) b' (keeps pkg rest b q h)
        (sym (bfs-round fuel db pkg rest b q) ∙ e)
]
