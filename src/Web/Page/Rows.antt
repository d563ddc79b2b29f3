-- ===== src/Web/Page/Rows.antt =====
-- The rows of the table: the `while` of `addRow` leaves the newest.
use embeded_convey_belt.Prelude.{
  ℕ, zero, suc, ◌+◌, ◌≤◌, ◌≡◌, ◌∙◌, refl, sym, ap, List, [], ◌∷◌, ◌++◌, append_assoc, take, length,
  ltb, Bool-cases, inl, inr, arith,
}
use embeded_convey_belt.Web.History.{take_all, take-take}
use embeded_convey_belt.Web.Page.{Element, max_rows, delete_last, trim}
use mathlib.Core.List.{reverse, reverse-append}

length-delete_last :
    (r : Element) (rows : List Element) → length (delete_last (r ∷ rows)) ≡ length rows
length-delete_last r [] = refl
length-delete_last r (s ∷ rows) = ap suc (length-delete_last s rows)

delete_last-take :
    (r : Element) (rows : List Element) → delete_last (r ∷ rows) ≡ take (length rows) (r ∷ rows)
delete_last-take r [] = refl
delete_last-take r (s ∷ rows) = ap (λ l. r ∷ l) (delete_last-take s rows)

-- The `while` leaves the newest rows.
pub trim-take :
    (fuel : ℕ) (rows : List Element)
    → length rows ≤ max_rows + fuel
    → trim fuel rows ≡ take max_rows rows
unfolding trim
trim-take zero rows h = sym (take_all max_rows rows (omega arith))
trim-take (suc fuel) [] h = refl
trim-take (suc fuel) (r ∷ rows) h = elim (Bool-cases (ltb max_rows (length (r ∷ rows)))) [
  | inl long ↦
      let many : max_rows ≤ length rows = ground (arith, long) in
      rw long (
        trim-take fuel (delete_last (r ∷ rows)) (omega (arith, length-delete_last r rows))
        ∙ ap (take max_rows) (delete_last-take r rows)
        ∙ take-take max_rows (length rows) (r ∷ rows) many)
  | inr short ↦ rw short (sym (take_all max_rows (r ∷ rows) (ground (arith, short))))
]

take-append-take {ℓ} :
    {A : Type ℓ} (n m : ℕ) (xs ys : List A) → n ≤ m → take n (xs ++ take m ys) ≡ take n (xs ++ ys)
take-append-take n m [] ys h = take-take n m ys h
take-append-take zero m (x ∷ xs) ys h = refl
take-append-take (suc n) m (x ∷ xs) ys h =
    ap (λ l. x ∷ l) (take-append-take n m xs ys (omega arith))

-- One row more in front.
pub rows_step :
    (rows : List Element) (r s : Element) (before : List Element)
    → take max_rows (s ∷ (reverse before ++ take max_rows (r ∷ rows)))
      ≡ take max_rows (s ∷ (reverse (r ∷ before) ++ rows))
rows_step rows r s before =
    take-append-take max_rows max_rows (s ∷ reverse before) (r ∷ rows) (omega arith)
    ∙ ap (λ l. take max_rows (s ∷ l))
        (sym (append_assoc (reverse before) (r ∷ []) rows)
          ∙ ap (λ l. l ++ rows) (sym (reverse-append (r ∷ []) before)))
