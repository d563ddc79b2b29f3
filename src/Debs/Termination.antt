-- ===== src/Debs/Termination.antt =====
-- The loop of `resolve` comes to an end.
use embeded_convey_belt.Prelude.{
  ℕ, zero, suc, ◌+◌, ◌≤◌, ◌<◌, ◌≡◌, ◌∙◌, sym, ap, true, false, Option, none, some, List, [], ◌∷◌,
  length, length-append, arith, if◌then◌else◌, Bool-cases, inl, inr,
}
use embeded_convey_belt.Py.{Text}
use embeded_convey_belt.Py.Str.{text_eq}
use embeded_convey_belt.Event.Fields.{text_eq_iff}
use embeded_convey_belt.Debs.Step.{
  again, missing, entered, visit_cases, queue_cases, bfs-done, bfs-round,
}
use embeded_convey_belt.Debs.{
  Package, Index, find, member, Bfs, visit, bfs, arcs, started, base_packages, resolve,
}

-- The dependencies in entries of packages not seen yet.
abbrev unseen : List Text → Index → ℕ
unseen seen [] = 0
unseen seen ((name, pkg) ∷ db) = (if member name seen then 0 else length pkg.deps) + unseen seen db

unseen-arcs : (seen : List Text) (db : Index) → unseen seen db ≤ arcs db
unseen-arcs seen [] = omega arith
unseen-arcs seen ((name, pkg) ∷ db) = ground (arith, unseen-arcs seen db)

unseen-cons : (pkg : Text) (seen : List Text) (db : Index) → unseen (pkg ∷ seen) db ≤ unseen seen db
unseen-cons pkg seen [] = omega arith
unseen-cons pkg seen ((name, p) ∷ db) = ground (arith, unseen-cons pkg seen db)

-- Seeing a package frees its dependencies.
unseen-find :
    (pkg : Text) (seen : List Text) (db : Index) (p : Package)
    → member pkg seen ≡ false
    → find db pkg ≡ some p
    → unseen (pkg ∷ seen) db + length p.deps ≤ unseen seen db
unseen-find pkg seen [] p fresh found =
    absurd (let bad : ◌≡◌ {A = Option Package} none (some p) = found in cc)
unseen-find pkg seen ((name, q) ∷ db) p fresh found = elim (Bool-cases (text_eq name pkg)) [
  | inl same ↦
      let e : name ≡ pkg = (text_eq_iff name pkg).0 same in
      let old : member name seen ≡ false = rw e fresh in
      let now_seen : text_eq pkg name ≡ true = (text_eq_iff pkg name).1 (sym e) in
      let entry : some q ≡ some p = rw same at found in
      let deps : length q.deps ≡ length p.deps =
        let one : q ≡ p = cc in ap (λ r. length r.deps) one in
      rw (old, now_seen) (omega (arith, deps, unseen-cons pkg seen db))
  | inr other ↦
      let later : find db pkg ≡ some p = rw other at found in
      ground (arith, unseen-find pkg seen db p fresh later)
]

-- What the loop has still to do.
abbrev work : Index → Bfs → ℕ
work db b = length b.queue + unseen b.seen db

visit-work :
    (db : Index) (pkg : Text) (rest : List Text) (b : Bfs)
    → b.queue ≡ pkg ∷ rest
    → work db (visit db pkg rest b) < work db b
unfolding visit
visit-work db pkg rest b e = elim (visit_cases db pkg rest b) [
  | again old v ↦ rw (v, e) (omega arith)
  | missing new none_there v ↦ rw (v, e) (omega (arith, unseen-cons pkg b.seen db))
  | entered p new there v ↦
      rw (v, e) (omega (arith, unseen-find pkg b.seen db p new there, length-append rest p.deps))
]

bfs-returns :
    (fuel : ℕ) (db : Index) (b : Bfs) → work db b < fuel → (b' : Bfs) × (bfs fuel db b ≡ some b')
unfolding bfs
bfs-returns zero db b h = absurd (omega arith)
bfs-returns (suc fuel) db b h = elim (queue_cases b.queue) [
  | inl empty ↦ (b, bfs-done fuel db b empty)
  | inr (pkg, rest, q) ↦
      let (b', e) =
        bfs-returns fuel db (visit db pkg rest b) (omega (arith, visit-work db pkg rest b q)) in
      (b', bfs-round fuel db pkg rest b q ∙ e)
]

-- `resolve` returns for every index and all roots: the fuel is enough.
pub resolve-returns : (db : Index) (roots : List Text) → (b : Bfs) × (resolve db roots ≡ some b)
unfolding resolve
resolve-returns db roots =
    bfs-returns (suc (length roots + arcs db)) db (started roots)
      (omega (arith, unseen-arcs base_packages db))
