-- ===== src/Debs/Correct/Kept.antt =====
-- Each round of `resolve` keeps the invariant.
use embeded_convey_belt.Prelude.{
  ◌≡◌, refl, sym, ◌∙◌, ◌⊎◌, inl, inr, true, false, ◌||◌, some, List, [], ◌∷◌, ◌++◌, arith,
  Bool-cases,
}
use embeded_convey_belt.Py.{Text}
use embeded_convey_belt.Py.Str.{text_eq}
use embeded_convey_belt.Event.Fields.{text_eq_iff}
use embeded_convey_belt.Debs.{Package, Index, find, member, base_packages, Bfs, visit}
use embeded_convey_belt.Debs.Step.{again, missing, entered, visit_cases}
use embeded_convey_belt.Debs.Correct.{
  IsNeeded, dependency, IsDistinct, IsMet, IsSound, IsClosed, IsOnce,
}

member-append : (p : Text) (xs ys : List Text) → member p (xs ++ ys) ≡ (member p xs || member p ys)
member-append p [] ys = refl
member-append p (x ∷ xs) ys = ground (arith, member-append p xs ys)

-- A member of a list with one name behind.
member-last :
    (p x : Text) (xs : List Text) → member p (xs ++ x ∷ []) ≡ true → (member p xs ≡ true) ⊎ (x ≡ p)
member-last p x xs h = ground (arith, member-append p xs (x ∷ []), text_eq_iff x p)

member-first :
    (p x : Text) (xs : List Text) → member p (x ∷ xs) ≡ true → (x ≡ p) ⊎ (member p xs ≡ true)
member-first p x xs h = ground (arith, text_eq_iff x p)

IsMet-visit :
    (db : Index) (pkg q : Text) (rest : List Text) (b : Bfs)
    → b.queue ≡ pkg ∷ rest
    → IsMet q b
    → IsMet q (visit db pkg rest b)
IsMet-visit db pkg q rest b e h =
    let h' : (member q b.seen || (text_eq pkg q || member q rest)) ≡ true = rw e at h in
    elim (visit_cases db pkg rest b) [
      | again old v ↦
          let seen_too : text_eq pkg q ≡ true → member q b.seen ≡ true =
            λ m. rw (← (text_eq_iff pkg q).0 m) old in
          rw v (ground (arith, h', seen_too))
      | missing new none_there v ↦ rw v (ground (arith, h'))
      | entered p new there v ↦ rw v (ground (arith, h', member-append q rest p.deps))
    ]

IsDistinct-last :
    (xs : List Text) (x : Text) → IsDistinct xs → member x xs ≡ false → IsDistinct (xs ++ x ∷ [])
IsDistinct-last [] x h new = (refl, tt)
IsDistinct-last (y ∷ ys) x h new =
    let other : text_eq x y ≡ false =
      ground (arith, text_eq_iff x y, text_eq_iff y x, (text_eq_iff y x).1) in
    (
      ground (arith, member-append y ys (x ∷ []), h.0, other),
      IsDistinct-last ys x h.1 (ground arith),
    )

pub IsOnce-visit :
    (db : Index) (pkg : Text) (rest : List Text) (b : Bfs)
    → b.queue ≡ pkg ∷ rest
    → IsOnce b
    → IsOnce (visit db pkg rest b)
IsOnce-visit db pkg rest b e h = elim (visit_cases db pkg rest b) [
  | again old v ↦ rw v (record { distinct = h.distinct; ordered_seen = h.ordered_seen })
  | missing new none_there v ↦
      rw v (record { distinct = h.distinct; ordered_seen = λ p m. h.ordered_seen p (ground arith) })
  | entered p new there v ↦ rw v (record {
    distinct = IsDistinct-last b.ordered pkg h.distinct (h.ordered_seen pkg new);
    ordered_seen = λ q m. ground (arith, member-append q b.ordered (pkg ∷ []), h.ordered_seen q);
  })
]

module _ (db : Index) (roots : List Text) where
  queued_behind :
      (pkg q : Text) (rest : List Text) (p : Package)
      → IsNeeded db roots pkg
      → member pkg base_packages ≡ false
      → find db pkg ≡ some p
      → (member q rest ≡ true → IsNeeded db roots q)
      → member q (rest ++ p.deps) ≡ true
      → IsNeeded db roots q
  queued_behind pkg q rest p needed plain there in_rest m = elim (Bool-cases (member q rest)) [
    | inl old ↦ in_rest old
    | inr other ↦
        dependency pkg q p needed plain there (ground (arith, member-append q rest p.deps))
  ]

  pub IsSound-visit :
      (pkg : Text) (rest : List Text) (b : Bfs)
      → b.queue ≡ pkg ∷ rest
      → IsSound db roots b
      → IsSound db roots (visit db pkg rest b)
  IsSound-visit pkg rest b e h =
      let in_rest : (q : Text) → member q rest ≡ true → IsNeeded db roots q =
        λ q m. h.queued q (rw e (ground (arith, m))) in
      let needed : IsNeeded db roots pkg =
        h.queued pkg (rw (e, (text_eq_iff pkg pkg).1 refl) refl) in
      elim (visit_cases db pkg rest b) [
        | again old v ↦ rw v (record {
          queued = in_rest;
          base_seen = h.base_seen;
          ordered = h.ordered;
          warned = h.warned;
        })
        | missing new none_there v ↦ rw v (record {
          queued = in_rest;
          base_seen = λ q m. h.base_seen q (ground arith);
          ordered = h.ordered;
          warned = λ q m. elim (member-last q pkg b.warned m) [
            | inl old ↦ h.warned q old
            | inr same ↦ rw (← same) (needed, h.base_seen pkg new, none_there)
          ];
        })
        | entered p new there v ↦
            let plain = h.base_seen pkg new in
            rw v (record {
              queued = λ q m. queued_behind pkg q rest p needed plain there (in_rest q) m;
              base_seen = λ q m. h.base_seen q (ground arith);
              ordered = λ q m. elim (member-last q pkg b.ordered m) [
                | inl old ↦ h.ordered q old
                | inr same ↦ rw (← same) (needed, plain, p, there)
              ];
              warned = h.warned;
            })
      ]

  pub IsClosed-visit :
      (pkg : Text) (rest : List Text) (b : Bfs)
      → b.queue ≡ pkg ∷ rest
      → IsClosed db roots b
      → IsClosed db roots (visit db pkg rest b)
  IsClosed-visit pkg rest b e h =
      let kept : (q : Text) → IsMet q b → IsMet q (visit db pkg rest b) =
        λ q m. IsMet-visit db pkg q rest b e m in
      elim (visit_cases db pkg rest b) [
        | again old v ↦
            let kept' = rw v at kept in
            rw v (record {
              started_met = λ q m. kept' q (h.started_met q m);
              deps_met = λ p q pk m f d. kept' q (h.deps_met p q pk m f d);
              sorted = h.sorted;
            })
        | missing new none_there v ↦
            let kept' = rw v at kept in
            rw v (record {
              started_met = λ q m. kept' q (h.started_met q m);
              deps_met = λ p q pk m f d. kept' q (h.deps_met p q pk m f d);
              sorted = λ q m. elim (member-first q pkg b.seen m) [
                | inl same ↦ inr (
                    inr (
                      ground
                        (arith, member-append q b.warned (pkg ∷ []), (text_eq_iff pkg q).1 same)))
                | inr old ↦ elim (h.sorted q old) [
                  | inl at_base ↦ inl at_base
                  | inr (inl taken) ↦ inr (inl taken)
                  | inr (inr told) ↦
                      inr (inr (ground (arith, member-append q b.warned (pkg ∷ []), told)))
                ]
              ];
            })
        | entered p new there v ↦
            let kept' = rw v at kept in
            rw v (record {
              started_met = λ q m. kept' q (h.started_met q m);
              deps_met = λ r q pk m f d. elim (member-last r pkg b.ordered m) [
                | inl old ↦ kept' q (h.deps_met r q pk old f d)
                | inr same ↦
                    let there' : find db r ≡ some p = rw same at there in
                    let one : p ≡ pk = let l : some p ≡ some pk = sym there' ∙ f in cc in
                    let dep : member q p.deps ≡ true = rw one d in
                    ground (arith, member-append q rest p.deps, dep)
              ];
              sorted = λ q m. elim (member-first q pkg b.seen m) [
                | inl same ↦ inr (
                    inl (
                      ground
                        (arith, member-append q b.ordered (pkg ∷ []), (text_eq_iff pkg q).1 same)))
                | inr old ↦ elim (h.sorted q old) [
                  | inl at_base ↦ inl at_base
                  | inr (inl taken) ↦
                      inr (inl (ground (arith, member-append q b.ordered (pkg ∷ []), taken)))
                  | inr (inr told) ↦ inr (inr told)
                ]
              ];
            })
      ]
