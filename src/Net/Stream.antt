-- ===== src/Net/Stream.antt =====
-- What arrives at a socket, byte by byte: the view that forgets how TCP cut the bytes into segments.
use Prim.Native.Nat.add
use embeded_convey_belt.Prelude.{
  ℕ, zero, suc, ◌+◌, ◌≡◌, ◌∙◌, refl, sym, ap, List, [], ◌∷◌, ◌++◌, take, drop, length, append_assoc,
}
use embeded_convey_belt.Py.{Result, ok, err, eof_error, timeout, os_error}
use embeded_convey_belt.Net.{Arrival, chunk, silence, reset, put_back}

pub data Item : Type 0 where
  byte : ℕ → Item
  gap fault : Item

abbrev pub bytes : List ℕ → List Item → List Item
bytes [] s = s
bytes (b ∷ bs) s = byte b ∷ bytes bs s

-- Behind a reset nothing arrives.
unfoldable pub stream : List Arrival → List Item
stream [] = []
stream (chunk b bs ∷ more) = byte b ∷ bytes bs (stream more)
stream (silence ∷ more) = gap ∷ stream more
stream (reset ∷ more) = fault ∷ []

abbrev pub onto : List ℕ → Result (List ℕ) → Result (List ℕ)
onto xs (ok bs) = ok (xs ++ bs)
onto xs (err e) = err e

-- Reading exactly n bytes, as the byte view has it: what happens first decides, and the bytes in
-- front of a timeout or a fault are gone.
abbrev pub take_bytes : ℕ → List Item → Result (List ℕ) × List Item
take_bytes zero s = (ok [], s)
take_bytes (suc n) [] = (err eof_error, [])
take_bytes (suc n) (byte b ∷ s) = let (r, s') = take_bytes n s in (onto (b ∷ []) r, s')
take_bytes (suc n) (gap ∷ s) = (err timeout, s)
take_bytes (suc n) (fault ∷ s) = (err os_error, [])

pub bytes-append : (xs ys : List ℕ) (s : List Item) → bytes (xs ++ ys) s ≡ bytes xs (bytes ys s)
bytes-append [] ys s = refl
bytes-append (x ∷ xs) ys s = ap (λ l. byte x ∷ l) (bytes-append xs ys s)

pub stream-put_back :
    (bs : List ℕ) (more : List Arrival) → stream (put_back bs more) ≡ bytes bs (stream more)
unfolding stream put_back
stream-put_back [] more = refl
stream-put_back (b ∷ bs) more = refl

pub bytes-take-drop :
    (n : ℕ) (bs : List ℕ) (s : List Item) → bytes (take n bs) (bytes (drop n bs) s) ≡ bytes bs s
bytes-take-drop zero bs s = refl
bytes-take-drop (suc n) [] s = refl
bytes-take-drop (suc n) (b ∷ bs) s = ap (λ l. byte b ∷ l) (bytes-take-drop n bs s)

pub onto-onto : (xs ys : List ℕ) (r : Result (List ℕ)) → onto xs (onto ys r) ≡ onto (xs ++ ys) r
onto-onto xs ys (ok bs) = ap ok (sym (append_assoc xs ys bs))
onto-onto xs ys (err e) = refl

pub onto-nil : (r : Result (List ℕ)) → r ≡ onto [] r
onto-nil (ok bs) = refl
onto-nil (err e) = refl

-- Bytes that are there are read first.
pub take_bytes-bytes :
    (xs : List ℕ) (m : ℕ) (s : List Item)
    → ((take_bytes (length xs + m) (bytes xs s)).0 ≡ onto xs (take_bytes m s).0)
      × ((take_bytes (length xs + m) (bytes xs s)).1 ≡ (take_bytes m s).1)
take_bytes-bytes [] m s = rw add.zero (onto-nil (take_bytes m s).0, refl)
take_bytes-bytes (x ∷ xs) m s =
    let (same, left) = take_bytes-bytes xs m s in
    rw add.suc (ap (onto (x ∷ [])) same ∙ onto-onto (x ∷ []) xs (take_bytes m s).0, left)

-- All of n bytes that are there.
pub take_bytes_all :
    (xs : List ℕ) (s : List Item) → take_bytes (length xs) (bytes xs s) ≡ (ok xs, s)
take_bytes_all [] s = refl
take_bytes_all (x ∷ xs) s = rw (take_bytes_all xs s)
