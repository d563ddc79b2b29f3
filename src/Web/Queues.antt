-- ===== src/Web/Queues.antt =====
-- What `_broadcast` does to one queue.
use embeded_convey_belt.Prelude.{
  ℕ, ◌≡◌, refl, ◌∙◌, Bool, true, false, not, ◌&&◌, List, [], ◌∷◌, ◌++◌, length, leb, ◌==◌,
  if◌then◌else◌, arith, Bool-cases, inl, inr, ==_iff,
}
use embeded_convey_belt.Web.{Bytes, max_size, update, has, remove, put_all, remove_all}

-- No number stands twice.
abbrev pub IsDistinct : List ℕ → Type 0
IsDistinct [] = Unit
IsDistinct (c ∷ cs) = (has c cs ≡ false) × IsDistinct cs

pub has-remove :
    (i d : ℕ) (cs : List ℕ) → IsDistinct cs → has i (remove d cs) ≡ (has i cs && not (d == i))
has-remove i d [] h = refl
has-remove i d (c ∷ cs) h = ground (arith, has-remove i d cs)

pub remove-IsDistinct : (d : ℕ) (cs : List ℕ) → IsDistinct cs → IsDistinct (remove d cs)
remove-IsDistinct d [] h = tt
remove-IsDistinct d (c ∷ cs) h = ground (arith, has-remove c d cs, remove-IsDistinct d cs)

pub has-remove_all :
    (i : ℕ) (dead cs : List ℕ)
    → IsDistinct cs
    → has i (remove_all dead cs) ≡ (has i cs && not (has i dead))
has-remove_all i [] cs h = ground arith
has-remove_all i (d ∷ dead) cs h =
    ground (arith, has-remove i d cs, remove-IsDistinct d cs, has-remove_all i dead (remove d cs))

pub remove_all-IsDistinct : (dead cs : List ℕ) → IsDistinct cs → IsDistinct (remove_all dead cs)
remove_all-IsDistinct [] cs h = h
remove_all-IsDistinct (d ∷ dead) cs h =
    remove_all-IsDistinct dead (remove d cs) (remove-IsDistinct d cs h)

-- A queue that is no client's is left alone.
pub put_all-other :
    (msg : Bytes) (i : ℕ) (cs : List ℕ) (queues : ℕ → List Bytes)
    → has i cs ≡ false
    → ((put_all msg cs queues).0 i ≡ queues i) × (has i (put_all msg cs queues).1 ≡ false)
put_all-other msg i [] queues h = (refl, refl)
put_all-other msg i (c ∷ cs) queues h =
    let others : has i cs ≡ false = ground (arith, h) in
    let another : (c == i) ≡ false = ground (arith, h) in
    elim (Bool-cases (leb max_size (length (queues c)))) [
      | inl full ↦
          let (same, alive) = put_all-other msg i cs queues others in
          rw (full, another) (same, alive)
      | inr room ↦
          let (same, alive) =
            put_all-other msg i cs (update c (queues c ++ msg ∷ []) queues) others in
          rw room (same ∙ rw another refl, alive)
    ]

this_client :
    (msg : Bytes) (i c : ℕ) (cs : List ℕ) (queues : ℕ → List Bytes)
    → IsDistinct (c ∷ cs)
    → c ≡ i
    → ((put_all msg (c ∷ cs) queues).0 i
        ≡ (if leb max_size (length (queues i)) then queues i else queues i ++ msg ∷ []))
      × (has i (put_all msg (c ∷ cs) queues).1 ≡ leb max_size (length (queues i)))
this_client msg i c cs queues d e =
    let here : (i == i) ≡ true = ground arith in
    let others : has i cs ≡ false = rw e at d.0 in
    elim (Bool-cases (leb max_size (length (queues i)))) [
      | inl full ↦
          let (same, alive) = put_all-other msg i cs queues others in
          rw (e, full, here) (same, refl)
      | inr room ↦
          let (same, alive) =
            put_all-other msg i cs (update i (queues i ++ msg ∷ []) queues) others in
          rw (e, room) (same ∙ rw here refl, alive)
    ]

-- A client's queue gets the message if it has room, and is found dead if not.
pub put_all-client :
    (msg : Bytes) (i : ℕ) (cs : List ℕ) (queues : ℕ → List Bytes)
    → IsDistinct cs
    → has i cs ≡ true
    → ((put_all msg cs queues).0 i
        ≡ (if leb max_size (length (queues i)) then queues i else queues i ++ msg ∷ []))
      × (has i (put_all msg cs queues).1 ≡ leb max_size (length (queues i)))
put_all-client msg i [] queues d h = absurd (let bad : ◌≡◌ {A = Bool} false true = h in cc)
put_all-client msg i (c ∷ cs) queues d h = elim (Bool-cases (c == i)) [
  | inl same ↦ this_client msg i c cs queues d ((==_iff c i).0 same)
  | inr another ↦
      let later : has i cs ≡ true = ground (arith, h, another) in
      elim (Bool-cases (leb max_size (length (queues c)))) [
        | inl full ↦ rw (full, another) (put_all-client msg i cs queues d.1 later)
        | inr room ↦
            let rest = put_all-client msg i cs (update c (queues c ++ msg ∷ []) queues) d.1 later in
            rw room (rw another at rest)
      ]
]
