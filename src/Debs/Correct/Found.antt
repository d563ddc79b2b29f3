-- ===== src/Debs/Correct/Found.antt =====
-- `resolve` finds what is needed.
use embeded_convey_belt.Prelude.{
  ℕ, suc, ◌+◌, ◌≡◌, refl, sym, ◌∙◌, inl, inr, Bool, true, false, ◌||◌, Option, some, none, List, [],
  arith, ◌↔◌, length,
}
use embeded_convey_belt.Py.{Text}
use embeded_convey_belt.Debs.{
  Package, Index, find, member, base_packages, Bfs, bfs, arcs, started, resolve,
}
use embeded_convey_belt.Debs.Step.{bfs-keeps}
use embeded_convey_belt.Debs.Termination.{resolve-returns}
use embeded_convey_belt.Debs.Correct.{
  IsNeeded, root, dependency, IsDistinct, IsSound, IsClosed, IsOnce,
}
use embeded_convey_belt.Debs.Correct.Kept.{IsOnce-visit, IsSound-visit, IsClosed-visit}

-- The names that `resolve` should return: needed, not on the target, and in the index.
pub record IsWanted (db : Index) (roots : List Text) (p : Text) : Type 0 where
  pub needed : IsNeeded db roots p
  pub not_there : member p base_packages ≡ false
  pub entry : Package
  pub indexed : find db p ≡ some entry

module _ (db : Index) (roots : List Text) where
  all_met :
      (b : Bfs) (p : Text)
      → IsSound db roots b
      → IsClosed db roots b
      → b.queue ≡ []
      → IsNeeded db roots p
      → member p b.seen ≡ true
  all_met b p s c e (root _ m) =
      let met : (member p b.seen || member p []) ≡ true = rw e at (c.started_met p m) in
      ground (arith, met)
  all_met b p s c e (dependency q _ pkg n plain f d) = elim (c.sorted q (all_met b q s c e n)) [
    | inl at_base ↦ absurd (let bad : ◌≡◌ {A = Bool} true false = sym at_base ∙ plain in cc)
    | inr (inl taken) ↦
        let met : (member p b.seen || member p []) ≡ true =
          rw e at (c.deps_met q p pkg taken f d) in
        ground (arith, met)
    | inr (inr told) ↦
        absurd
          (let bad : ◌≡◌ {A = Option Package} none (some pkg) = sym (s.warned q told).2 ∙ f in cc)
  ]

  taken_if_wanted :
      (b : Bfs) (p : Text)
      → IsSound db roots b
      → IsClosed db roots b
      → b.queue ≡ []
      → IsWanted db roots p
      → member p b.ordered ≡ true
  taken_if_wanted b p s c e w = elim (c.sorted p (all_met b p s c e w.needed)) [
    | inl at_base ↦ absurd (let bad : ◌≡◌ {A = Bool} true false = sym at_base ∙ w.not_there in cc)
    | inr (inl taken) ↦ taken
    | inr (inr told) ↦ absurd (
        let bad : ◌≡◌ {A = Option Package} none (some w.entry) =
          sym (s.warned p told).2 ∙ w.indexed in
        cc)
  ]

  told_if_missing :
      (b : Bfs) (p : Text)
      → IsSound db roots b
      → IsClosed db roots b
      → b.queue ≡ []
      → IsNeeded db roots p
      → member p base_packages ≡ false
      → find db p ≡ none
      → member p b.warned ≡ true
  told_if_missing b p s c e n plain f = elim (c.sorted p (all_met b p s c e n)) [
    | inl at_base ↦ absurd (let bad : ◌≡◌ {A = Bool} true false = sym at_base ∙ plain in cc)
    | inr (inl taken) ↦
        let (_, _, pkg, there) = s.ordered p taken in
        absurd (let bad : ◌≡◌ {A = Option Package} none (some pkg) = sym f ∙ there in cc)
    | inr (inr told) ↦ told
  ]

  ends_kept :
      (fuel : ℕ) (b : Bfs)
      → bfs fuel db (started roots) ≡ some b
      → IsSound db roots b × IsClosed db roots b × IsOnce b × (b.queue ≡ [])
  ends_kept fuel b e =
      let s =
        bfs-keeps (IsSound db roots) db (λ pkg rest c q h. IsSound-visit db roots pkg rest c q h)
          fuel (started roots) b
          (record {
            queued = λ p m. root p m;
            base_seen = λ p m. m;
            ordered = λ p m. absurd (let bad : ◌≡◌ {A = Bool} false true = m in cc);
            warned = λ p m. absurd (let bad : ◌≡◌ {A = Bool} false true = m in cc);
          })
          e in
      let c =
        bfs-keeps (IsClosed db roots) db (λ pkg rest c q h. IsClosed-visit db roots pkg rest c q h)
          fuel (started roots) b
          (record {
            started_met = λ p m. ground (arith, m);
            deps_met = λ p q pk m f d. absurd (let bad : ◌≡◌ {A = Bool} false true = m in cc);
            sorted = λ p m. inl m;
          })
          e in
      let o =
        bfs-keeps IsOnce db (λ pkg rest c q h. IsOnce-visit db pkg rest c q h) fuel (started roots)
          b (record { distinct = tt; ordered_seen = λ p m. refl }) e in
      (s.0, c.0, o.0, s.1)

  -- For every index and all roots, `resolve` returns. A package is in the result just if it is a root
  -- or a dependency, over needed packages that the target lacks and the index has, is not one of the
  -- base packages, and is in the index; a package is warned of just if it is needed in this sense, is not
  -- one of the base packages, and is missing from the index. No package is in the result twice.
  pub resolve-IsWanted :
      (b : Bfs) × (resolve db roots ≡ some b)
      × ((p : Text) → (member p b.ordered ≡ true) ↔ IsWanted db roots p)
      × ((p : Text)
          → (member p b.warned ≡ true)
            ↔ (IsNeeded db roots p × (member p base_packages ≡ false) × (find db p ≡ none)))
      × IsDistinct b.ordered
  unfolding resolve
  resolve-IsWanted =
      let (b, e) = resolve-returns db roots in
      let (s, c, o, q) = ends_kept (suc (length roots + arcs db)) b e in
      (
        b,
        e,
        (λ p. (
          (λ m.
              let (n, plain, pkg, there) = s.ordered p m in
              record { needed = n; not_there = plain; entry = pkg; indexed = there }),
          (λ w. taken_if_wanted b p s c q w),
        )),
        (λ p. (s.warned p, λ (n, plain, f). told_if_missing b p s c q n plain f)),
        o.distinct,
      )
